-- ===== src/Gdl/Scaffold.antt =====
-- gdl/workspace.go: the project file that is written for a new project is read back.
use Prim.Native.Char.{Char, code}
use Prim.Native.String.{◌++◌}
use text.Mathlib.TextLemmas.{nil-append, cons-append, append_assoc, cons-ne-nil, head-eq_of_cons-eq}
use ugem.Prelude.{
  String, Bool, true, false, List, [], ◌∷◌, ◌==◌, eq_iff, ◌≡◌, refl, ap, arith, Bool-cases, inl,
  inr, if◌then◌else◌,
}
use ugem.Prelude.Strings.{
  is_space, cut_prefix, trim_left, trim_right, put_unless, trim_space, trim, trim_suffix,
  holds_char, split, split_two, same_char,
}
use ugem.Gdl.Config.{
  default_config, scan_lines, drop_last_empty, top, read_config_line, read_config_lines,
  parse_config, init_config, behind_name, new_project,
}

-- The text has no line break, and no carriage return.
abbrev pub IsLine : String → Type 0
IsLine String.[] = Unit
IsLine (String.◌∷◌ c s) = (holds_char "\n\r" c ≡ false) × IsLine s

not_empty : (c : Char) (s : String) → (String.◌∷◌ c s == "") ≡ false
not_empty c s = elim (Bool-cases (String.◌∷◌ c s == "")) [
  | inl e ↦ absurd (cons-ne-nil c s ((eq_iff (String.◌∷◌ c s) "").0 e))
  | inr e ↦ e
]

not_return :
    (c : Char) (s : String) → holds_char "\n\r" c ≡ false → (String.◌∷◌ c s == "\r") ≡ false
unfolding holds_char
not_return c s h = elim (Bool-cases (String.◌∷◌ c s == "\r")) [
  | inl e ↦
      let same : code c ≡ code "\r" =
        ap code (head-eq_of_cons-eq ((eq_iff (String.◌∷◌ c s) "\r").0 e)) in
      absurd (ground (arith, same, h))
  | inr e ↦ e
]

trim_suffix_line : (s : String) → IsLine s → trim_suffix s "\r" ≡ s
unfolding trim_suffix
trim_suffix_line String.[] h = refl
trim_suffix_line (String.◌∷◌ c s) (hc, h) = rw (not_return c s hc, trim_suffix_line s h) refl

split_line :
    (s rest : String) → IsLine s → split (s ++ String.◌∷◌ "\n" rest) "\n" ≡ s ∷ split rest "\n"
unfolding split holds_char
split_line String.[] rest h = rw nil-append refl
split_line (String.◌∷◌ c s) rest (hc, h) =
    let other : same_char c "\n" ≡ false = ground (arith, hc) in
    rw (cons-append, other, split_line s rest h) refl

put_unless_solid : (c : Char) (s : String) → put_unless false c s ≡ String.◌∷◌ c s
put_unless_solid c String.[] = refl
put_unless_solid c (String.◌∷◌ d s) = refl

module _ (cut : Char → Bool) where
  trim_right_put :
      (b : Bool) (c : Char) (s : String)
      → cut c ≡ b
      → trim_right cut s ≡ s
      → trim_right cut (put_unless b c s) ≡ put_unless b c s
  unfolding trim_right
  trim_right_put true c String.[] e h = refl
  trim_right_put false c String.[] e h = rw e refl
  trim_right_put b c (String.◌∷◌ d s) e h = rw (e, h) refl

  trim_right_idem : (s : String) → trim_right cut (trim_right cut s) ≡ trim_right cut s
  unfolding trim_right
  trim_right_idem String.[] = refl
  trim_right_idem (String.◌∷◌ c s) =
      trim_right_put (cut c) c (trim_right cut s) refl (trim_right_idem s)

  trim_left_put :
      (c : Char) (s : String) → cut c ≡ true → trim_left cut (put_unless true c s) ≡ trim_left cut s
  unfolding trim_left
  trim_left_put c String.[] e = refl
  trim_left_put c (String.◌∷◌ d s) e = rw e refl

  trim-trim_right :
      (s : String)
      → trim_right cut (trim_left cut (trim_right cut s)) ≡ trim_right cut (trim_left cut s)
  unfolding trim_right trim_left
  trim-trim_right String.[] = refl
  trim-trim_right (String.◌∷◌ c s) = elim (Bool-cases (cut c)) [
    | inl e ↦ rw (e, trim_left_put c (trim_right cut s) e) (trim-trim_right s)
    | inr e ↦
        rw (e, put_unless_solid c (trim_right cut s), e, trim_right_idem s)
          (ap (λ (b : Bool). put_unless b c (trim_right cut s)) e)
  ]

trim_right_solid :
    (c : Char) (s : String)
    → is_space c ≡ false
    → trim_right is_space (String.◌∷◌ c s) ≡ String.◌∷◌ c (trim_right is_space s)
unfolding trim_right
trim_right_solid c s e = rw (e, put_unless_solid c (trim_right is_space s)) refl

trim_space-trim_right :
    (s : String) → trim_space (trim_right is_space (String.◌∷◌ " " s)) ≡ trim_space s
unfolding trim_space trim_left is_space
trim_space-trim_right s = trim-trim_right is_space (String.◌∷◌ " " s)

-- the line of the name, with as many characters as are read
abbrev name_line : String → String
name_line s = String.◌∷◌ "n" (String.◌∷◌ "a" (String.◌∷◌ "m" (String.◌∷◌ "e" (String.◌∷◌ ":" s))))

name_line-append : (s : String) → "name: " ++ s ≡ name_line (String.◌∷◌ " " s)
name_line-append s =
    rw
      (
        cons-append "n" "ame: " s,
        cons-append "a" "me: " s,
        cons-append "m" "e: " s,
        cons-append "e" ": " s,
        cons-append ":" " " s,
        cons-append " " "" s,
        nil-append,
      )
      refl

trim_space-name_line : (s : String) → trim_space (name_line s) ≡ name_line (trim_right is_space s)
unfolding trim_space trim_left is_space
trim_space-name_line s =
    rw
      (
        trim_right_solid "n" (String.◌∷◌ "a" (String.◌∷◌ "m" (String.◌∷◌ "e" (String.◌∷◌ ":" s))))
            refl,
        trim_right_solid "a" (String.◌∷◌ "m" (String.◌∷◌ "e" (String.◌∷◌ ":" s))) refl,
        trim_right_solid "m" (String.◌∷◌ "e" (String.◌∷◌ ":" s)) refl,
        trim_right_solid "e" (String.◌∷◌ ":" s) refl,
        trim_right_solid ":" s refl,
      )
      refl

-- the name without spaces around it, and then without quotes around it
abbrev pub bare_name : String → String
bare_name name = trim (trim_space name) "\""

read_name_line :
    (name : String)
    → read_config_line (top, default_config) ("name: " ++ name) (trim_space ("name: " ++ name))
      ≡ (top, record default_config { name = bare_name name })
unfolding read_config_line cut_prefix split_two
read_name_line name =
    let value = trim_right is_space (String.◌∷◌ " " name) in
    rw
      (
        name_line-append name,
        trim_space-name_line (String.◌∷◌ " " name),
        not_empty "n" (String.◌∷◌ "a" (String.◌∷◌ "m" (String.◌∷◌ "e" (String.◌∷◌ ":" value)))),
        trim_space-trim_right name,
      )
      refl

-- the lines behind the one with the name
abbrev later_lines : List String
later_lines =
    "version: \"1.0\"" ∷ "apps:" ∷ "  - main" ∷ "runtime:" ∷ "  mode: normal" ∷ "  http: \":8080\""
    ∷ "  grpc: \":50051\"" ∷ "  log: info" ∷ []

-- Every character of a literal in front of a line is that of a line.
IsLine-append : (s t : String) → IsLine s → IsLine t → IsLine (s ++ t)
IsLine-append String.[] t hs ht = rw nil-append ht
IsLine-append (String.◌∷◌ c s) t (hc, hs) ht = rw cons-append (hc, IsLine-append s t hs ht)

name_IsLine : IsLine "name: "
unfolding holds_char
name_IsLine = (refl, (refl, (refl, (refl, (refl, (refl, tt))))))

scan_lines-init_config :
    (name : String) → IsLine name → scan_lines (init_config name) ≡ ("name: " ++ name) ∷ later_lines
unfolding scan_lines init_config drop_last_empty trim_suffix split
scan_lines-init_config name h =
    let line = IsLine-append "name: " name name_IsLine h in
    rw
      (
        ← append_assoc "name: " name ("\n" ++ behind_name),
        split_line ("name: " ++ name) behind_name line,
        trim_suffix_line ("name: " ++ name) line,
      )
      refl

-- The project file of a new project, for a name of one line, is read back: the name without the spaces
-- around it and then without quotes around it, or the folder where nothing is left; the version, the
-- app `main` and the settings of the runtime as they were written.
pub parse_config-init_config :
    (folder name : String)
    → IsLine name
    → parse_config folder (init_config name)
      ≡ new_project (if bare_name name == "" then folder else bare_name name)
unfolding parse_config read_config_lines
parse_config-init_config folder name h =
    rw (scan_lines-init_config name h, read_name_line name) (ground arith)
