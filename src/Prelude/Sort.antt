-- ===== src/Prelude/Sort.antt =====
-- `sort.Slice(xs, less)` and `sort.Strings`, as an insertion sort. The algorithm of the library is
-- another one; `sort_unique` says that for a total order every sorting algorithm has its result.
use Prim.Native.Nat.{◌+◌}
use Prim.Native.String.{String}
use native.Mathlib.Omega.{arith}
use text.Mathlib.Text.{◌==◌}
use mathlib.Core.Path.{refl, ◌≡◌, ap₂}
use mathlib.Core.Logic.{inl, inr}
use mathlib.Core.Logic.Or
use mathlib.Core.Bool.{Bool, true, false, Bool-set}
use mathlib.Core.List.{
  List, [], ◌∷◌, Perm, Mem, mem-cons, not-mem-nil, mem-cons_self, mem-cons_of_mem,
}
use mathlib.Core.List.Perm
use ugem.Prelude.Tests.{if◌then◌else◌, Bool-cases}
use ugem.Prelude.Lists.{All, count}

module _ {ℓ} {A : Type ℓ} (less : A → A → Bool) where
  unfoldable pub insert : A → List A → List A
  insert x [] = x ∷ []
  insert x (y ∷ ys) = if less y x then y ∷ insert x ys else x ∷ y ∷ ys

  unfoldable pub sort : List A → List A
  unfolding insert
  sort [] = []
  sort (x ∷ xs) = insert x (sort xs)

  -- No element is below one that stands before it.
  abbrev pub IsSorted : List A → Type ℓ
  IsSorted [] = Unit
  IsSorted (x ∷ xs) = All (λ y. less y x ≡ false) xs × IsSorted xs

  insert-perm : (x : A) (xs : List A) → Perm (insert x xs) (x ∷ xs)
  unfolding insert
  insert-perm x [] = Perm.rfl
  insert-perm x (y ∷ ys) = elim (Bool-cases (less y x)) [
    | inl lt ↦ rw lt (Perm.trans (Perm.cons y (insert-perm x ys)) (Perm.swap x y ys))
    | inr ge ↦ rw ge Perm.rfl
  ]

  pub sort-perm : (xs : List A) → Perm (sort xs) xs
  unfolding sort
  sort-perm [] = Perm.rfl
  sort-perm (x ∷ xs) = Perm.trans (insert-perm x (sort xs)) (Perm.cons x (sort-perm xs))

  below-prop : (x y : A) → IsProp (less x y ≡ false)
  below-prop x y = Bool-set (less x y) false

  All→Mem : (x y : A) (xs : List A) → All (λ z. less z x ≡ false) xs → Mem y xs → less y x ≡ false
  All→Mem x y [] h m = absurd (not-mem-nil m)
  All→Mem x y (z ∷ xs) h m =
      Or.elim (below-prop y x) (mem-cons.0 m) (λ e. rw e h.0) (All→Mem x y xs h.1)

  module _ (asym : (x y : A) → less x y ≡ true → less y x ≡ false)
      (trans : (x y z : A) → less y x ≡ false → less z y ≡ false → less z x ≡ false) where
    All-below :
        (x y : A) (xs : List A)
        → less y x ≡ false
        → All (λ z. less z y ≡ false) xs
        → All (λ z. less z x ≡ false) xs
    All-below x y [] h hs = tt
    All-below x y (z ∷ xs) h hs = (trans x y z h hs.0, All-below x y xs h hs.1)

    All-insert :
        (x y : A) (xs : List A)
        → less x y ≡ false
        → All (λ z. less z y ≡ false) xs
        → All (λ z. less z y ≡ false) (insert x xs)
    unfolding insert
    All-insert x y [] h hs = (h, tt)
    All-insert x y (z ∷ xs) h hs = elim (Bool-cases (less z x)) [
      | inl lt ↦ rw lt (hs.0, All-insert x y xs h hs.1)
      | inr ge ↦ rw ge (h, hs)
    ]

    insert-IsSorted : (x : A) (xs : List A) → IsSorted xs → IsSorted (insert x xs)
    unfolding insert
    insert-IsSorted x [] h = (tt, tt)
    insert-IsSorted x (y ∷ ys) h = elim (Bool-cases (less y x)) [
      | inl lt ↦ rw lt (All-insert x y ys (asym y x lt) h.0, insert-IsSorted x ys h.1)
      | inr ge ↦ rw ge ((ge, All-below x y ys ge h.0), h)
    ]

    pub sort-IsSorted : (xs : List A) → IsSorted (sort xs)
    unfolding sort
    sort-IsSorted [] = tt
    sort-IsSorted (x ∷ xs) = insert-IsSorted x (sort xs) (sort-IsSorted xs)

    irrefl : (x : A) → less x x ≡ false
    irrefl x = elim (Bool-cases (less x x)) [ inl lt ↦ asym x x lt | inr ge ↦ ge ]

    -- Two sorted lists of the same elements are one list, if the order tells them apart.
    IsSorted-unique :
        (xs ys : List A)
        → ((x y : A) → Mem x xs → Mem y xs → less x y ≡ false → less y x ≡ false → x ≡ y)
        → IsSorted xs
        → IsSorted ys
        → Perm xs ys
        → xs ≡ ys
    IsSorted-unique [] ys tri hx hy p = Perm.nil-eq p
    IsSorted-unique (x ∷ xs) [] tri hx hy p = Perm.eq-nil p
    IsSorted-unique (x ∷ xs) (y ∷ ys) tri hx hy p =
        let y_in = Perm.subset (Perm.symm p) y mem-cons_self in
        let x_in = Perm.subset p x mem-cons_self in
        let same =
          tri x y mem-cons_self y_in (All→Mem y x (y ∷ ys) (irrefl y, hy.0) x_in)
            (All→Mem x y (x ∷ xs) (irrefl x, hx.0) y_in) in
        ap₂ ◌∷◌ same (
          IsSorted-unique xs ys (λ a b ma mb. tri a b (mem-cons_of_mem x ma) (mem-cons_of_mem x mb))
            hx.1 hy.1 (Perm.cons_inv (rw (← same) at p)))

    pub sort_unique :
        (xs ys : List A)
        → ((x y : A) → Mem x xs → Mem y xs → less x y ≡ false → less y x ≡ false → x ≡ y)
        → IsSorted ys
        → Perm ys xs
        → ys ≡ sort xs
    sort_unique xs ys tri hy p =
        IsSorted-unique ys (sort xs)
          (λ x y mx my. tri x y (Perm.subset p x mx) (Perm.subset p y my)) hy (sort-IsSorted xs)
          (Perm.trans p (Perm.symm (sort-perm xs)))

count-insert :
    (less : String → String → Bool) (s x : String) (xs : List String)
    → count s (insert less x xs) ≡ (if x == s then 1 else 0) + count s xs
unfolding insert count
count-insert less s x [] = refl
count-insert less s x (y ∷ ys) = ground (arith, count-insert less s x ys)

-- Sorting strings keeps how often each stands in the list.
pub count-sort :
    (less : String → String → Bool) (s : String) (xs : List String)
    → count s (sort less xs) ≡ count s xs
unfolding sort count
count-sort less s [] = refl
count-sort less s (x ∷ xs) =
    omega (arith, count-insert less s x (sort less xs), count-sort less s xs)
