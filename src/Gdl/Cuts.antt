-- ===== src/Gdl/Cuts.antt =====
-- gdl/parser.go: a text is trimmed, and cut at a separator that begins like an operator.
use Prim.Native.Char.{Char}
use Prim.Native.String.{◌++◌}
use package.text.Mathlib.TextLemmas.{nil-append, cons-append}
use ugem.Prelude.{
  String, Bool, true, false, Option, none, some, ◌≡◌, refl, arith, Bool-cases, inl, inr,
}
use ugem.Prelude.Strings.{cut_prefix, trim_left, trim_right, holds_char, split_two, before}
use ugem.Types.{text}

-- None of the characters of the operators stands in the text.
abbrev pub IsPlain : String → Type 0
IsPlain String.[] = Unit
IsPlain (String.◌∷◌ c s) = (holds_char "=!<>" c ≡ false) × IsPlain s

-- the parts of a text behind `s`, for the text with `s`
abbrev pub behind : String → Option (String × String) → Option (String × String)
behind s none = none
behind s (some (a, b)) = some (s ++ a, b)

trim_right_end :
    (cut : Char → Bool) (s : String) (c : Char)
    → cut c ≡ true
    → trim_right cut (s ++ String.◌∷◌ c String.[]) ≡ trim_right cut s
unfolding trim_right
trim_right_end cut String.[] c h = rw (nil-append, h) refl
trim_right_end cut (String.◌∷◌ d s) c h = rw (cons-append, trim_right_end cut s c h) refl

pub trim_end :
    (cut : Char → Bool) (s : String) (c : Char)
    → cut c ≡ true
    → trim_right cut (trim_left cut (s ++ String.◌∷◌ c String.[]))
      ≡ trim_right cut (trim_left cut s)
unfolding trim_left trim_right
trim_end cut String.[] c h = rw (nil-append, h) refl
trim_end cut (String.◌∷◌ d s) c h = elim (Bool-cases (cut d)) [
  | inl e ↦ rw (cons-append, e) (trim_end cut s c h)
  | inr e ↦ rw (cons-append, e, trim_right_end cut s c h) refl
]

plain_head :
    (o c : Char) (rest s : String)
    → holds_char "=!<>" o ≡ true
    → holds_char "=!<>" c ≡ false
    → cut_prefix (String.◌∷◌ o rest) (String.◌∷◌ c s) ≡ none
unfolding cut_prefix holds_char
plain_head o c rest s ho hc = ground arith

behind-nil : (o : Option (String × String)) → behind "" o ≡ o
behind-nil none = refl
behind-nil (some (a, b)) = rw nil-append refl

before-behind :
    (c : Char) (s : String) (o : Option (String × String))
    → before c (behind s o) ≡ behind (String.◌∷◌ c s) o
before-behind c s none = refl
before-behind c s (some (a, b)) = rw cons-append refl

module _ (o : Char) (rest : String) (head : holds_char "=!<>" o ≡ true) where
  pub parts_behind :
      (s t : String)
      → IsPlain s
      → split_two (s ++ t) (String.◌∷◌ o rest) ≡ behind s (split_two t (String.◌∷◌ o rest))
  unfolding split_two
  parts_behind String.[] t h = rw (nil-append, behind-nil) refl
  parts_behind (String.◌∷◌ c s) t (hc, h) =
      rw (cons-append, plain_head o c rest (s ++ t) head hc, parts_behind s t h, before-behind) refl

  pub split_two_plain : (s : String) → IsPlain s → split_two s (String.◌∷◌ o rest) ≡ none
  unfolding split_two cut_prefix
  split_two_plain String.[] h = refl
  split_two_plain (String.◌∷◌ c s) (hc, h) =
      rw (plain_head o c rest s head hc, split_two_plain s h) refl
