-- ===== src/Prelude/Maps.antt =====
-- Go's `map[string]V` as an association list. A map is read through `get`; the order in which Go
-- visits the keys of a map is not determined, and stands in the models as an argument of its own.
use Prim.Native.String.{String}
use text.Mathlib.Text.{◌==◌}
use text.Mathlib.TextEquality.{eq_iff}
use mathlib.Core.Path.{◌≡◌, refl}
use mathlib.Core.Logic.{inl, inr}
use mathlib.Core.Bool.{false}
use mathlib.Core.List.{List, [], ◌∷◌, map}
use mathlib.Core.Option.{Option, none, some}
use native.Mathlib.Omega.{arith}
use ugem.Prelude.Tests.{if◌then◌else◌, Bool-cases}

eq_flip : (s t : String) → (s == t) ≡ false → (t == s) ≡ false
eq_flip s t h = ground (arith, eq_iff s t, eq_iff t s)

abbrev pub GoMap {ℓ} : Type ℓ → Type ℓ
GoMap V = List (String × V)

module _ {ℓ} {V : Type ℓ} where
  -- `v, ok := m[k]`
  unfoldable pub get : GoMap V → String → Option V
  get [] k = none
  get ((j, v) ∷ m) k = if j == k then some v else get m k

  -- `m[k] = v`
  unfoldable pub put : GoMap V → String → V → GoMap V
  put [] k v = (k, v) ∷ []
  put ((j, w) ∷ m) k v = if j == k then (k, v) ∷ m else (j, w) ∷ put m k v

  -- `delete(m, k)`
  unfoldable pub delete : GoMap V → String → GoMap V
  delete [] k = []
  delete ((j, v) ∷ m) k = let rest = delete m k in if j == k then rest else (j, v) ∷ rest

  abbrev pub keys : GoMap V → List String
  keys m = map (λ e. e.0) m

  pub get-nil : (k : String) → get [] k ≡ none
  unfolding get
  get-nil k = refl

  pub get-put :
      (m : GoMap V) (k j : String) (v : V)
      → get (put m k v) j ≡ (if k == j then some v else get m j)
  unfolding get put
  get-put [] k j v = refl
  get-put ((i, w) ∷ m) k j v = ground (arith, get-put m k j v, eq_iff k j, eq_iff i k, eq_iff i j)

  pub get-delete :
      (m : GoMap V) (k j : String) → get (delete m k) j ≡ (if k == j then none else get m j)
  unfolding get delete
  get-delete [] k j = ground arith
  get-delete ((i, w) ∷ m) k j = ground (arith, get-delete m k j, eq_iff k j, eq_iff i k, eq_iff i j)

  -- `for k, v := range src { dst[k] = v }`
  unfoldable pub merge : GoMap V → GoMap V → GoMap V
  merge dst [] = dst
  merge dst ((k, v) ∷ src) = merge (put dst k v) src

  -- No key stands twice, as in every map of the program.
  abbrev pub IsDistinct : GoMap V → Type ℓ
  IsDistinct [] = Unit
  IsDistinct ((k, v) ∷ m) = (get m k ≡ none) × IsDistinct m

  pub put-IsDistinct : (m : GoMap V) (k : String) (v : V) → IsDistinct m → IsDistinct (put m k v)
  unfolding put get
  put-IsDistinct [] k v h = (refl, tt)
  put-IsDistinct ((i, w) ∷ m) k v h = elim (Bool-cases (i == k)) [
    | inl e ↦ rw (e, ← (eq_iff i k).0 e) h
    | inr n ↦ rw n (rw get-put (rw (eq_flip i k n) h.0), put-IsDistinct m k v h.1)
  ]

  pub merge-IsDistinct : (dst src : GoMap V) → IsDistinct dst → IsDistinct (merge dst src)
  unfolding merge
  merge-IsDistinct dst [] h = h
  merge-IsDistinct dst ((k, v) ∷ src) h =
      merge-IsDistinct (put dst k v) src (put-IsDistinct dst k v h)

  abbrev pub or_else : Option V → Option V → Option V
  or_else (some v) o = some v
  or_else none o = o

  -- The source wins over the destination.
  pub get-merge :
      (dst src : GoMap V) (k : String)
      → IsDistinct src
      → get (merge dst src) k ≡ or_else (get src k) (get dst k)
  unfolding merge get
  get-merge dst [] k h = refl
  get-merge dst ((i, v) ∷ src) k h =
      ground (arith, get-merge (put dst i v) src k h.1, get-put dst i k v, eq_iff i k)

pub ruleset map_laws = (get-nil, get-put, get-delete)
