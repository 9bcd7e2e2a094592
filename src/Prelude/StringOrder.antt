-- ===== src/Prelude/StringOrder.antt =====
-- Go's `<` on strings. It compares bytes, which for UTF-8 is the order of the code points.
use Prim.Native.Char.{code}
use Prim.Native.String.{String}
use mathlib.Core.Path.{◌≡◌, refl, ap₂}
use mathlib.Core.Bool.{Bool, true, false}
use native.Mathlib.Omega.{arith}
use text.Mathlib.TextEquality.{codes_equal}
use ugem.Prelude.Tests.{ltb, nat_eq, if◌then◌else◌}

unfoldable pub str_ltb : String → String → Bool
str_ltb s String.[] = false
str_ltb String.[] (String.◌∷◌ d t) = true
str_ltb (String.◌∷◌ c s) (String.◌∷◌ d t) =
    if nat_eq (code c) (code d) then str_ltb s t else ltb (code c) (code d)

pub str_ltb_asym : (s t : String) → str_ltb s t ≡ true → str_ltb t s ≡ false
unfolding str_ltb
str_ltb_asym String.[] String.[] h = refl
str_ltb_asym (String.◌∷◌ c s) String.[] h = cc
str_ltb_asym String.[] (String.◌∷◌ d t) h = refl
str_ltb_asym (String.◌∷◌ c s) (String.◌∷◌ d t) h = ground (arith, str_ltb_asym s t)

-- Two strings of which neither is below the other are one string.
pub str_ltb_tri : (s t : String) → str_ltb s t ≡ false → str_ltb t s ≡ false → s ≡ t
unfolding str_ltb
str_ltb_tri String.[] String.[] h k = refl
str_ltb_tri (String.◌∷◌ c s) String.[] h k = cc
str_ltb_tri String.[] (String.◌∷◌ d t) h k = cc
str_ltb_tri (String.◌∷◌ c s) (String.◌∷◌ d t) h k =
    ap₂ (String.◌∷◌) (codes_equal c d (ground arith))
      (str_ltb_tri s t (ground arith) (ground arith))

pub str_ltb_trans :
    (s t u : String) → str_ltb t s ≡ false → str_ltb u t ≡ false → str_ltb u s ≡ false
unfolding str_ltb
str_ltb_trans String.[] t String.[] h k = refl
str_ltb_trans String.[] t (String.◌∷◌ e u) h k = refl
str_ltb_trans (String.◌∷◌ c s) String.[] u h k = cc
str_ltb_trans (String.◌∷◌ c s) (String.◌∷◌ d t) String.[] h k = cc
str_ltb_trans (String.◌∷◌ c s) (String.◌∷◌ d t) (String.◌∷◌ e u) h k =
    ground (arith, str_ltb_trans s t u)
