-- ===== src/Prelude/Lists.antt =====
-- Slices: lists measured and indexed by native numbers, and lists of names.
use Prim.Native.Nat.{ℕ, zero, suc, ◌+◌, ◌-◌, ◌≤◌, ◌<◌, min}
use Prim.Native.String.{String}
use text.Mathlib.Text.{◌==◌}
use text.Mathlib.TextEquality.{eq_iff}
use mathlib.Core.Path.{◌≡◌, refl, ap, subst}
use mathlib.Core.Logic.{◌⊎◌, inl, inr}
use mathlib.Core.Bool.{Bool, true, false, ◌||◌}
use mathlib.Core.List.{List, [], ◌∷◌, ◌++◌}
use mathlib.Core.Option.{Option, none, some}
use native.Mathlib.Omega.{arith}
use ugem.Prelude.Tests.{nat_eq, if◌then◌else◌, Bool-cases}

module _ {ℓ} {A : Type ℓ} where
  abbrev pub length : List A → ℕ
  length [] = 0
  length (x ∷ xs) = suc (length xs)

  abbrev pub get_elem? : List A → ℕ → Option A
  get_elem? [] i = none
  get_elem? (x ∷ xs) zero = some x
  get_elem? (x ∷ xs) (suc i) = get_elem? xs i

  abbrev pub take : ℕ → List A → List A
  take zero xs = []
  take (suc n) [] = []
  take (suc n) (x ∷ xs) = x ∷ take n xs

  abbrev pub drop : ℕ → List A → List A
  drop zero xs = xs
  drop (suc n) [] = []
  drop (suc n) (x ∷ xs) = drop n xs

  -- `xs[len(xs)-1]`, where there is one
  abbrev pub last? : List A → Option A
  last? [] = none
  last? (x ∷ []) = some x
  last? (x ∷ y ∷ xs) = last? (y ∷ xs)

  pub length-append : (xs ys : List A) → length (xs ++ ys) ≡ length xs + length ys
  length-append [] ys = omega arith
  length-append (x ∷ xs) ys = omega (arith, length-append xs ys)

  length-take : (n : ℕ) (xs : List A) → length (take n xs) ≡ min n (length xs)
  length-take zero xs = omega arith
  length-take (suc n) [] = omega arith
  length-take (suc n) (x ∷ xs) = omega (arith, length-take n xs)

  pub length-drop : (n : ℕ) (xs : List A) → length (drop n xs) ≡ length xs - n
  length-drop zero xs = omega arith
  length-drop (suc n) [] = omega arith
  length-drop (suc n) (x ∷ xs) = omega (arith, length-drop n xs)

  last?-snoc : (xs : List A) (x : A) → last? (xs ++ x ∷ []) ≡ some x
  last?-snoc [] x = refl
  last?-snoc (y ∷ []) x = refl
  last?-snoc (y ∷ z ∷ xs) x = last?-snoc (z ∷ xs) x

  pub list_cases : (xs : List A) → (xs ≡ []) ⊎ ((x : A) × (rest : List A) × (xs ≡ x ∷ rest))
  list_cases [] = inl refl
  list_cases (x ∷ rest) = inr (x, rest, refl)

  pub get_elem?-append_one :
      (xs : List A) (x : A) (i : ℕ)
      → get_elem? (xs ++ x ∷ []) i ≡ (if nat_eq i (length xs) then some x else get_elem? xs i)
  get_elem?-append_one [] x zero = refl
  get_elem?-append_one [] x (suc i) = ground arith
  get_elem?-append_one (y ∷ xs) x zero = ground arith
  get_elem?-append_one (y ∷ xs) x (suc i) = ground (arith, get_elem?-append_one xs x i)

  pub get_elem?_beyond : (xs : List A) (i : ℕ) → length xs ≤ i → get_elem? xs i ≡ none
  get_elem?_beyond [] i h = refl
  get_elem?_beyond (x ∷ xs) zero h = absurd (omega arith)
  get_elem?_beyond (x ∷ xs) (suc i) h = get_elem?_beyond xs i (omega arith)

  pub get_elem?_within : (xs : List A) (i : ℕ) → i < length xs → (x : A) × (get_elem? xs i ≡ some x)
  get_elem?_within [] i h = elim h [ ]
  get_elem?_within (x ∷ xs) zero h = (x, refl)
  get_elem?_within (x ∷ xs) (suc i) h = get_elem?_within xs i (omega arith)

  pub get_elem?-drop :
      (n i j : ℕ) (xs : List A) → j ≡ n + i → get_elem? (drop n xs) i ≡ get_elem? xs j
  get_elem?-drop zero i j xs e = ap (get_elem? xs) (omega arith)
  get_elem?-drop (suc n) i j [] e = refl
  get_elem?-drop (suc n) i zero (x ∷ xs) e = absurd (omega arith)
  get_elem?-drop (suc n) i (suc j) (x ∷ xs) e = get_elem?-drop n i j xs (omega arith)

  get_elem?-append_left :
      (xs ys : List A) (i : ℕ) → i < length xs → get_elem? (xs ++ ys) i ≡ get_elem? xs i
  get_elem?-append_left [] ys i h = elim h [ ]
  get_elem?-append_left (x ∷ xs) ys zero h = refl
  get_elem?-append_left (x ∷ xs) ys (suc i) h = get_elem?-append_left xs ys i (omega arith)

  get_elem?-snoc : (xs : List A) (x : A) → get_elem? (xs ++ x ∷ []) (length xs) ≡ some x
  get_elem?-snoc [] x = refl
  get_elem?-snoc (y ∷ xs) x = get_elem?-snoc xs x

-- A predicate of every element.
abbrev pub All {ℓ κ} : {A : Type ℓ} → (A → Type κ) → List A → Type κ
All P [] = Unit
All P (x ∷ xs) = P x × All P xs

pub All-append {ℓ κ} :
    {A : Type ℓ} (P : A → Type κ) (xs ys : List A) → All P xs → All P ys → All P (xs ++ ys)
All-append P [] ys hx hy = hy
All-append P (x ∷ xs) ys hx hy = (hx.0, All-append P xs ys hx.1 hy)

-- whether a slice of strings holds a string
unfoldable pub contains : String → List String → Bool
contains s [] = false
contains s (x ∷ xs) = x == s || contains s xs

pub All-contains {κ} :
    (P : String → Type κ) (xs : List String) (s : String) → All P xs → contains s xs ≡ true → P s
unfolding contains
All-contains P [] s h c = absurd (cc c)
All-contains P (x ∷ xs) s h c = elim (Bool-cases (x == s)) [
  | inl e ↦ subst P ((eq_iff x s).0 e) h.0
  | inr n ↦ All-contains P xs s h.1 (rw n at c)
]

-- `append(xs[:i], xs[i+1:]...)` at the first index that holds the string
unfoldable pub remove_first : String → List String → List String
remove_first s [] = []
remove_first s (x ∷ xs) = if x == s then xs else x ∷ remove_first s xs

-- how often a slice holds a string
unfoldable pub count : String → List String → ℕ
count s [] = 0
count s (x ∷ xs) = (if x == s then 1 else 0) + count s xs

pub count-append : (s : String) (xs ys : List String) → count s (xs ++ ys) ≡ count s xs + count s ys
unfolding count
count-append s [] ys = omega arith
count-append s (x ∷ xs) ys = omega (arith, count-append s xs ys)

pub count-remove_first :
    (s t : String) (xs : List String)
    → count t (remove_first s xs) ≡ (if s == t then count t xs - 1 else count t xs)
unfolding count remove_first
count-remove_first s t [] = ground arith
count-remove_first s t (x ∷ xs) =
    ground (arith, count-remove_first s t xs, eq_iff x s, eq_iff x t, eq_iff s t)

pub count-singleton : (s t : String) → count t (s ∷ []) ≡ (if s == t then 1 else 0)
unfolding count
count-singleton s t = ground arith

count-nil : (s : String) → count s [] ≡ 0
unfolding count
count-nil s = refl

pub count_of-contains : (s : String) (xs : List String) → contains s xs ≡ true → 0 < count s xs
unfolding contains count
count_of-contains s [] h = absurd (cc h)
count_of-contains s (x ∷ xs) h = ground (arith, count_of-contains s xs)
