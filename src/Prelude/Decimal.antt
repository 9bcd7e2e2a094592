-- ===== src/Prelude/Decimal.antt =====
-- `strconv.FormatUint(n, 10)`: the digits of a number, on as much fuel as the number.
use Prim.Native.Nat.{ℕ, zero, suc, ◌/◌, ◌%◌}
use Prim.Native.String.{String, ◌++◌}
use mathlib.Core.List.{List, [], ◌∷◌}
use mathlib.Core.Option.{none, some}
use ugem.Prelude.Tests.{ltb, if◌then◌else◌}
use ugem.Prelude.Lists.{get_elem?}

abbrev figures : List String
figures = "0" ∷ "1" ∷ "2" ∷ "3" ∷ "4" ∷ "5" ∷ "6" ∷ "7" ∷ "8" ∷ "9" ∷ []

figure : ℕ → String
figure d = elim (get_elem? figures d) [ none ↦ "" | some s ↦ s ]

digits : ℕ → ℕ → String
unfolding figure
digits zero n = figure (n % 10)
digits (suc fuel) n =
    let above = digits fuel (n / 10) in if ltb n 10 then figure n else above ++ figure (n % 10)

unfoldable pub decimal : ℕ → String
unfolding digits
decimal n = digits n n
