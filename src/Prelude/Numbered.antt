-- ===== src/Prelude/Numbered.antt =====
-- Go's `map[uint64]V`, and the numbered files of a directory, as association lists.
use Prim.Native.Nat.{ℕ}
use mathlib.Core.Path.{◌≡◌, refl, subst}
use mathlib.Core.Logic.{inl, inr}
use mathlib.Core.List.{List, [], ◌∷◌}
use mathlib.Core.Option.{Option, none, some}
use native.Mathlib.Omega.{arith}
use ugem.Prelude.Tests.{nat_eq, nat_eq_iff, Bool-cases, if◌then◌else◌}

abbrev pub Numbered {ℓ} : Type ℓ → Type ℓ
Numbered V = List (ℕ × V)

module _ {ℓ} {V : Type ℓ} where
  -- `v, ok := m[k]`
  unfoldable pub find : Numbered V → ℕ → Option V
  find [] k = none
  find ((j, v) ∷ m) k = if nat_eq j k then some v else find m k

  -- `m[k] = v`
  unfoldable pub store : Numbered V → ℕ → V → Numbered V
  store [] k v = (k, v) ∷ []
  store ((j, w) ∷ m) k v = if nat_eq j k then (k, v) ∷ m else (j, w) ∷ store m k v

  -- `delete(m, k)`
  unfoldable pub remove : Numbered V → ℕ → Numbered V
  remove [] k = []
  remove ((j, v) ∷ m) k = let rest = remove m k in if nat_eq j k then rest else (j, v) ∷ rest

  pub find-store :
      (m : Numbered V) (k j : ℕ) (v : V)
      → find (store m k v) j ≡ (if nat_eq k j then some v else find m j)
  unfolding find store
  find-store [] k j v = refl
  find-store ((i, w) ∷ m) k j v = ground (arith, find-store m k j v)

  pub find-remove :
      (m : Numbered V) (k j : ℕ) → find (remove m k) j ≡ (if nat_eq k j then none else find m j)
  unfolding find remove
  find-remove [] k j = ground arith
  find-remove ((i, w) ∷ m) k j = ground (arith, find-remove m k j)

  -- No number stands twice.
  abbrev pub IsNumbered : Numbered V → Type ℓ
  IsNumbered [] = Unit
  IsNumbered ((k, v) ∷ m) = (find m k ≡ none) × IsNumbered m

  pub store-IsNumbered : (m : Numbered V) (k : ℕ) (v : V) → IsNumbered m → IsNumbered (store m k v)
  unfolding store find
  store-IsNumbered [] k v h = (refl, tt)
  store-IsNumbered ((i, w) ∷ m) k v h =
      ground (arith, store-IsNumbered m k v h.1, find-store m k i v, h.0)

  pub remove-IsNumbered : (m : Numbered V) (k : ℕ) → IsNumbered m → IsNumbered (remove m k)
  unfolding remove
  remove-IsNumbered [] k h = tt
  remove-IsNumbered ((i, w) ∷ m) k h =
      ground (arith, remove-IsNumbered m k h.1, find-remove m k i, h.0)

  module _ {κ} (P : ℕ → V → Type κ) where
    abbrev pub Each : Numbered V → Type κ
    Each [] = Unit
    Each ((k, v) ∷ m) = P k v × Each m

    pub store-Each : (m : Numbered V) (k : ℕ) (v : V) → Each m → P k v → Each (store m k v)
    unfolding store
    store-Each [] k v h p = (p, tt)
    store-Each ((i, w) ∷ m) k v h p = elim (Bool-cases (nat_eq i k)) [
      | inl e ↦ rw e (p, h.1)
      | inr n ↦ rw n (h.0, store-Each m k v h.1 p)
    ]

    pub remove-Each : (m : Numbered V) (k : ℕ) → Each m → Each (remove m k)
    unfolding remove
    remove-Each [] k h = tt
    remove-Each ((i, w) ∷ m) k h = ground (arith, remove-Each m k h.1, h.0)

    pub find-Each : (m : Numbered V) (k : ℕ) (v : V) → Each m → find m k ≡ some v → P k v
    unfolding find
    find-Each [] k v h e = absurd (cc e)
    find-Each ((i, w) ∷ m) k v h e = elim (Bool-cases (nat_eq i k)) [
      | inl same ↦
          subst (λ n. P n v) ((nat_eq_iff i k).0 same) (subst (P i) (ground (arith, e, same)) h.0)
      | inr n ↦ find-Each m k v h.1 (rw n at e)
    ]
