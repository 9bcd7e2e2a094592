-- ===== src/Prelude/Strings.antt =====
-- Go's package strings, and strconv.Atoi, on texts that are valid UTF-8: what the readers of the
-- goal definition language call.
use Prim.Native.Char.{Char, code}
use Prim.Native.Nat.{ℕ, ◌+◌, ◌-◌, ◌*◌, ◌^◌}
use Prim.Native.String.{String}
use mathlib.Core.Bool.{Bool, false, ◌&&◌, ◌||◌}
use mathlib.Core.List.{List, [], ◌∷◌}
use mathlib.Core.Path.{◌≡◌, refl}
use mathlib.Core.Option.{Option, none, some}
use text.Mathlib.Text.{◌==◌}
use ugem.Prelude.Int.{ℤ, pos, negsuc}
use ugem.Prelude.Tests.{ltb, leb, nat_eq, if◌then◌else◌, is_some}

abbrev pub same_char : Char → Char → Bool
same_char c d = nat_eq (code c) (code d)

-- `unicode.IsSpace`
unfoldable pub is_space : Char → Bool
is_space c =
    let n = code c in
    (leb 9 n && leb n 13)
    || nat_eq n 32
    || nat_eq n 133
    || nat_eq n 160
    || nat_eq n 5760
    || (leb 8192 n && leb n 8202)
    || nat_eq n 8232
    || nat_eq n 8233
    || nat_eq n 8239
    || nat_eq n 8287
    || nat_eq n 12288

-- `strings.CutPrefix(s, prefix)`: what is behind the prefix
unfoldable pub cut_prefix : String → String → Option String
cut_prefix String.[] s = some s
cut_prefix (String.◌∷◌ c prefix) String.[] = none
cut_prefix (String.◌∷◌ c prefix) (String.◌∷◌ d s) =
    if same_char c d then cut_prefix prefix s else none

abbrev pub or_text : Option String → String → String
or_text none s = s
or_text (some t) s = t

-- `strings.HasPrefix(s, prefix)`
unfoldable pub has_prefix : String → String → Bool
unfolding cut_prefix
has_prefix s prefix = is_some (cut_prefix prefix s)

-- `strings.TrimPrefix(s, prefix)`
unfoldable pub trim_prefix : String → String → String
unfolding cut_prefix
trim_prefix s prefix = or_text (cut_prefix prefix s) s

-- `strings.HasSuffix(s, suffix)`
unfoldable pub has_suffix : String → String → Bool
has_suffix String.[] suffix = String.[] == suffix
has_suffix (String.◌∷◌ c s) suffix = String.◌∷◌ c s == suffix || has_suffix s suffix

-- `strings.TrimSuffix(s, suffix)`
unfoldable pub trim_suffix : String → String → String
trim_suffix String.[] suffix = String.[]
trim_suffix (String.◌∷◌ c s) suffix =
    if String.◌∷◌ c s == suffix then String.[] else String.◌∷◌ c (trim_suffix s suffix)

-- The characters at both ends that a test accepts are cut off.
unfoldable pub trim_left : (Char → Bool) → String → String
trim_left cut String.[] = String.[]
trim_left cut (String.◌∷◌ c s) = if cut c then trim_left cut s else String.◌∷◌ c s

abbrev pub put_unless : Bool → Char → String → String
put_unless cut c String.[] = if cut then String.[] else String.◌∷◌ c String.[]
put_unless cut c (String.◌∷◌ d s) = String.◌∷◌ c (String.◌∷◌ d s)

unfoldable pub trim_right : (Char → Bool) → String → String
trim_right cut String.[] = String.[]
trim_right cut (String.◌∷◌ c s) = put_unless (cut c) c (trim_right cut s)

-- `strings.TrimSpace(s)`
unfoldable pub trim_space : String → String
unfolding is_space trim_left trim_right
trim_space s = trim_right is_space (trim_left is_space s)

unfoldable pub holds_char : String → Char → Bool
holds_char String.[] c = false
holds_char (String.◌∷◌ d s) c = same_char c d || holds_char s c

-- `strings.Trim(s, cutset)`
unfoldable pub trim : String → String → String
unfolding holds_char trim_left trim_right
trim s cutset = trim_right (holds_char cutset) (trim_left (holds_char cutset) s)

-- what is before the first separator, and what is behind it
abbrev pub before : Char → Option (String × String) → Option (String × String)
before c none = none
before c (some (s, t)) = some (String.◌∷◌ c s, t)

abbrev pub first_cut : Option String → Option (String × String) → Option (String × String)
first_cut none later = later
first_cut (some rest) later = some (String.[], rest)

-- `strings.SplitN(s, sep, 2)`, where it has two parts
unfoldable pub split_two : String → String → Option (String × String)
unfolding cut_prefix
split_two String.[] sep = first_cut (cut_prefix sep String.[]) none
split_two (String.◌∷◌ c s) sep =
    first_cut (cut_prefix sep (String.◌∷◌ c s)) (before c (split_two s sep))

-- `strings.Contains(s, sep)`
unfoldable pub contains_text : String → String → Bool
unfolding split_two
contains_text s sep = is_some (split_two s sep)

abbrev pub onto_first : Char → List String → List String
onto_first c [] = String.◌∷◌ c String.[] ∷ []
onto_first c (w ∷ ws) = String.◌∷◌ c w ∷ ws

-- `strings.Split(s, sep)` at a separator of one character
unfoldable pub split : String → Char → List String
split String.[] sep = String.[] ∷ []
split (String.◌∷◌ c s) sep =
    let rest = split s sep in if same_char c sep then String.[] ∷ rest else onto_first c rest

abbrev pub unless_empty : String → List String → List String
unless_empty String.[] ws = ws
unless_empty (String.◌∷◌ c w) ws = String.◌∷◌ c w ∷ ws

-- the word that the text begins with, empty at a space, and the later words
unfoldable pub words : String → String × List String
unfolding is_space
words String.[] = (String.[], [])
words (String.◌∷◌ c s) =
    let (w, ws) = words s in
    if is_space c then (String.[], unless_empty w ws) else (String.◌∷◌ c w, ws)

-- `strings.Fields(s)`
unfoldable pub fields : String → List String
unfolding words
fields s = let (w, ws) = words s in unless_empty w ws

-- `strconv.ParseUint(s, 10, 64)`: nothing on a character that is no digit, and the largest number
-- from the digit on with which the number does not fit.
unfoldable pub parse_uint : String → ℕ → Option ℕ
parse_uint String.[] n = some n
parse_uint (String.◌∷◌ c s) n =
    let m = n * 10 + (code c - 48) in
    let rest = parse_uint s m in
    if leb 48 (code c) && leb (code c) 57
    then if ltb m (2 ^ 64) then rest else some (2 ^ 64 - 1)
    else none

abbrev pub from_digits : String → Option ℕ
from_digits String.[] = none
from_digits (String.◌∷◌ c s) = parse_uint (String.◌∷◌ c s) 0

abbrev pub clamp_up : Option ℕ → ℤ
clamp_up none = pos 0
clamp_up (some n) = if ltb n (2 ^ 63) then pos n else pos (2 ^ 63 - 1)

abbrev pub clamp_down : Option ℕ → ℤ
clamp_down none = pos 0
clamp_down (some n) =
    if nat_eq n 0 then pos 0 else if leb n (2 ^ 63) then negsuc (n - 1) else negsuc (2 ^ 63 - 1)

-- The number of `strconv.Atoi(s)`, whose error is dropped: 0 where the text is no number, and the
-- nearest `int` where the number does not fit.
unfoldable pub atoi : String → ℤ
unfolding parse_uint
atoi String.[] = pos 0
atoi (String.◌∷◌ c s) =
    if nat_eq (code c) 45
    then clamp_down (from_digits s)
    else if nat_eq (code c) 43
    then clamp_up (from_digits s)
    else clamp_up (from_digits (String.◌∷◌ c s))

trims : trim_space "  a b \t" ≡ "a b"
unfolding trim_space
trims = refl

reads_words : fields "  goal  one " ≡ "goal" ∷ "one" ∷ []
unfolding fields
reads_words = refl

splits_lines : split "a\n\nb" "\n" ≡ "a" ∷ "" ∷ "b" ∷ []
unfolding split
splits_lines = refl

splits_once : split_two "a == b == c" "==" ≡ some ("a ", " b == c")
unfolding split_two
splits_once = refl

reads_numbers :
    (atoi "12" ≡ pos 12)
    × (atoi "-3" ≡ negsuc 2)
    × (atoi "high" ≡ pos 0)
    × (atoi "9223372036854775808" ≡ pos (2 ^ 63 - 1))
unfolding atoi
reads_numbers = (refl, refl, refl, refl)
