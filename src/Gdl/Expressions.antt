-- ===== src/Gdl/Expressions.antt =====
-- gdl/parser.go: the expressions "path op value" of conditions, spawns and policies.
use Prim.Native.Char.{Char}
use Prim.Native.String.{◌++◌}
use package.text.Mathlib.TextLemmas.{nil-append, cons-append}
use ugem.Prelude.{
  All, All-contains, contains, eq_iff, String, ◌==◌, Bool, true, false, none, some, List, [], ◌∷◌,
  ◌≡◌, refl, Bool-cases, inl, inr,
}
use ugem.Prelude.Strings.{is_space, cut_prefix, trim_left, trim_space, holds_char, split_two}
use ugem.Types.{text}
use ugem.Gdl.Readers.{cut_operator, operators, parse_condition, bare_path}
use ugem.Gdl.Cuts.{IsPlain, behind, trim_end, parts_behind, split_two_plain}

-- an operator between spaces, before the value
abbrev with_operator : String → String → String
with_operator op value = " " ++ (op ++ (" " ++ value))

space-append : (s : String) → " " ++ s ≡ String.◌∷◌ " " s
space-append s = rw (cons-append, nil-append) refl

with_two :
    (a b : Char) (value : String)
    → with_operator (String.◌∷◌ a (String.◌∷◌ b String.[])) value
      ≡ String.◌∷◌ " " (String.◌∷◌ a (String.◌∷◌ b (String.◌∷◌ " " value)))
with_two a b value = simp (space-append, cons-append, nil-append)

with_one :
    (a : Char) (value : String)
    → with_operator (String.◌∷◌ a String.[]) value
      ≡ String.◌∷◌ " " (String.◌∷◌ a (String.◌∷◌ " " value))
with_one a value = simp (space-append, cons-append, nil-append)

-- The operators that are tried before one do not cut the text, and the one cuts it.
abbrev CutsAt : List String → String → String → Type 0
CutsAt [] op value = Unit
CutsAt (sep ∷ ops) op value = elim (sep == op) [
  | true ↦ split_two (with_operator op value) sep ≡ some (" ", String.◌∷◌ " " value)
  | false ↦ (split_two (with_operator op value) sep ≡ none) × CutsAt ops op value
]

module _ (value : String) (plain : IsPlain value) where
  at_eq : CutsAt operators "==" value
  unfolding split_two cut_prefix
  at_eq = rw (with_two "=" "=" value) refl

  uncut :
      (o : Char) (rest : String)
      → holds_char "=!<>" o ≡ true
      → split_two value (String.◌∷◌ o rest) ≡ none
  uncut o rest h = split_two_plain o rest h value plain

  at_ge : CutsAt operators ">=" value
  unfolding split_two cut_prefix holds_char
  at_ge = rw (with_two ">" "=" value, uncut "=" "=" refl) (refl, refl)

  at_le : CutsAt operators "<=" value
  unfolding split_two cut_prefix holds_char
  at_le = rw (with_two "<" "=" value, uncut "=" "=" refl, uncut ">" "=" refl) (refl, (refl, refl))

  at_ne : CutsAt operators "!=" value
  unfolding split_two cut_prefix holds_char
  at_ne =
      rw (with_two "!" "=" value, uncut "=" "=" refl, uncut ">" "=" refl, uncut "<" "=" refl)
        (refl, (refl, (refl, refl)))

  at_gt : CutsAt operators ">" value
  unfolding split_two cut_prefix holds_char
  at_gt =
      rw
        (
          with_one ">" value,
          uncut "=" "=" refl,
          uncut ">" "=" refl,
          uncut "<" "=" refl,
          uncut "!" "=" refl,
        )
        (refl, (refl, (refl, (refl, refl))))

  at_lt : CutsAt operators "<" value
  unfolding split_two cut_prefix holds_char
  at_lt =
      rw
        (
          with_one "<" value,
          uncut "=" "=" refl,
          uncut ">" "=" refl,
          uncut "<" "=" refl,
          uncut "!" "=" refl,
          uncut ">" "" refl,
        )
        (refl, (refl, (refl, (refl, (refl, refl)))))

  each_cuts : All (λ op. CutsAt operators op value) operators
  each_cuts = (at_eq, (at_ge, (at_le, (at_ne, (at_gt, (at_lt, tt))))))

-- The text begins with a character of the operators.
unfoldable is_operator : String → Bool
unfolding holds_char
is_operator String.[] = false
is_operator (String.◌∷◌ c s) = holds_char "=!<>" c

split_two_at :
    (sep path tail : String)
    → is_operator sep ≡ true
    → IsPlain path
    → split_two (path ++ tail) sep ≡ behind path (split_two tail sep)
unfolding is_operator
split_two_at String.[] path tail o h = absurd (cc o)
split_two_at (String.◌∷◌ c rest) path tail o h = parts_behind c rest o path tail h

trim_spaced : (s : String) → trim_space (s ++ " ") ≡ trim_space s
unfolding trim_space
trim_spaced s = trim_end is_space s " " (unfold is_space in refl)

trim_space_first : (s : String) → trim_space (String.◌∷◌ " " s) ≡ trim_space s
unfolding trim_space trim_left is_space
trim_space_first s = refl

cut_operator_lem :
    (ops : List String) (path op value : String)
    → All (λ sep. is_operator sep ≡ true) ops
    → contains op ops ≡ true
    → CutsAt ops op value
    → IsPlain path
    → cut_operator ops (path ++ with_operator op value)
      ≡ some (trim_space path, op, trim_space value)
unfolding cut_operator contains
cut_operator_lem [] path op value heads found cuts plain = absurd (cc found)
cut_operator_lem (sep ∷ ops) path op value heads found cuts plain = elim (Bool-cases (sep == op)) [
  | inl e ↦
      rw
        (
          split_two_at sep path (with_operator op value) heads.0 plain,
          rw (CutsAt, e) at cuts,
          trim_spaced path,
          trim_space_first value,
          (eq_iff sep op).0 e,
        )
        refl
  | inr n ↦
      let c = rw (CutsAt, n) at cuts in
      rw (split_two_at sep path (with_operator op value) heads.0 plain, c.0)
        (cut_operator_lem ops path op value heads.1 (rw n at found) c.1 plain)
]

parse_condition_of :
    (path op value expr : String)
    → cut_operator operators expr ≡ some (trim_space path, op, trim_space value)
    → parse_condition expr
      ≡ some
          (record { path = bare_path (trim_space path); op = op; value = text (trim_space value) })
unfolding parse_condition
parse_condition_of path op value expr e = rw e refl

-- A path, one of the six operators and a value, with a space on both sides of the operator, are read
-- back as they are, but for the spaces around the path and the value and for a `state.` or `event.`
-- before the path, if no character of an operator stands in the path or the value.
pub parse_condition_reads :
    (path op value : String)
    → IsPlain path
    → IsPlain value
    → contains op operators ≡ true
    → parse_condition (path ++ " " ++ op ++ " " ++ value)
      ≡ some
          (record { path = bare_path (trim_space path); op = op; value = text (trim_space value) })
unfolding is_operator
parse_condition_reads path op value plain_path plain_value found =
    parse_condition_of path op value (path ++ with_operator op value) (
      cut_operator_lem operators path op value (refl, (refl, (refl, (refl, (refl, (refl, tt))))))
        found
        (All-contains (λ sep. CutsAt operators sep value) operators op (each_cuts value plain_value)
          found)
        plain_path)
