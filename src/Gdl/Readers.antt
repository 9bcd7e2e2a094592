-- ===== src/Gdl/Readers.antt =====
-- gdl/parser.go: what one line adds to the block that is open.
use ugem.Prelude.{
  String, true, false, Option, none, some, List, [], ◌∷◌, ◌++◌, map, ◌==◌, if◌then◌else◌,
}
use ugem.Prelude.Strings.{
  cut_prefix, has_prefix, trim_prefix, has_suffix, trim_suffix, trim_space, trim, split_two, split,
  atoi,
}
use ugem.Types.{text}
use ugem.Gdl.{Field, TypeDef, Condition, GoalDef, ContractDef, PolicyDef, TestCaseDef, no_condition}

-- The loop over the operators: the first that the text holds cuts it.
abbrev cut_at :
    String
    → Option (String × String)
    → Option (String × String × String)
    → Option (String × String × String)
cut_at op none later = later
cut_at op (some (left, right)) later = some (trim_space left, op, trim_space right)

unfoldable pub cut_operator : List String → String → Option (String × String × String)
unfolding trim_space split_two
cut_operator [] expr = none
cut_operator (op ∷ ops) expr = cut_at op (split_two expr op) (cut_operator ops expr)

abbrev pub operators : List String
operators = "==" ∷ ">=" ∷ "<=" ∷ "!=" ∷ ">" ∷ "<" ∷ []

unfoldable pub bare_path : String → String
unfolding trim_prefix
bare_path path = trim_prefix (trim_prefix path "state.") "event."

abbrev condition_from : Option (String × String × String) → Option Condition
condition_from none = none
condition_from (some (path, op, value)) =
    some (record { path = bare_path path; op = op; value = text value })

-- "path op value", without the `state.` or `event.` before the path
unfoldable pub parse_condition : String → Option Condition
unfolding cut_operator bare_path
parse_condition expr = condition_from (cut_operator operators expr)

-- A field of the type, at the second part of the line
abbrev field_of : String → String → Field
field_of name type =
    if has_suffix type "?"
    then record { name = name; type = trim_suffix type "?"; optional = true }
    else record { name = name; type = type; optional = false }

abbrev add_field : TypeDef → List String → TypeDef
add_field t (name ∷ type ∷ rest) = record t {
  fields = t.fields ++ field_of (trim_space name) (trim_space type) ∷ [];
}
add_field t parts = t

unfoldable pub read_field : TypeDef → String → TypeDef
unfolding trim_space has_suffix trim_suffix split
read_field t line = if t.name == "" then t else add_field t (split line ":")

abbrev set_priority : GoalDef → List String → GoalDef
set_priority g (word ∷ number ∷ rest) = record g { priority = atoi (trim_space number) }
set_priority g parts = g

unfoldable pub read_priority : GoalDef → String → GoalDef
unfolding has_prefix trim_space atoi split
read_priority g line = if has_prefix line "priority:" then set_priority g (split line ":") else g

unfoldable pub read_trigger : GoalDef → String → GoalDef
unfolding cut_prefix trim_space bare_path
read_trigger g line = elim (cut_prefix "trigger:" line) [
  | none ↦ g
  | some rest ↦ record g {
    trigger = some (record { type = "event"; path = bare_path (trim_space rest) });
  }
]

abbrev add_condition : GoalDef → Option Condition → GoalDef
add_condition g none = g
add_condition g (some c) = record g { condition = g.condition ++ c ∷ [] }

unfoldable pub read_condition : GoalDef → String → GoalDef
unfolding cut_prefix trim_space parse_condition
read_condition g line = elim (cut_prefix "condition:" line) [
  | none ↦ g
  | some rest ↦ add_condition g (parse_condition (trim_space rest))
]

abbrev add_spawn : GoalDef → String → Option Condition → GoalDef
add_spawn g goal none = g
add_spawn g goal (some c) = record g {
  spawns = g.spawns ++ record { goal = goal; when_holds = c } ∷ [];
}

abbrev spawn_parts : GoalDef → String → Option (String × String) → GoalDef
spawn_parts g spawn none = add_spawn g spawn (some no_condition)
spawn_parts g spawn (some (goal, expr)) =
    add_spawn g (trim_space goal) (parse_condition (trim_space expr))

unfoldable pub read_spawn : GoalDef → String → GoalDef
unfolding cut_prefix trim_space parse_condition split_two
read_spawn g line = elim (cut_prefix "spawn:" line) [
  | none ↦ g
  | some rest ↦ let spawn = trim_space rest in spawn_parts g spawn (split_two spawn " when ")
]

unfoldable pub read_actions : GoalDef → String → GoalDef
unfolding cut_prefix trim_space trim split
read_actions g line = elim (cut_prefix "actions:" line) [
  | none ↦ g
  | some rest ↦
      if g.name == ""
      then g
      else record g { actions = map trim_space (split (trim (trim_space rest) "[]") ",") }
]

-- what a line adds to the open goal
unfoldable pub read_goal : GoalDef → String → GoalDef
unfolding read_priority read_trigger read_condition read_spawn read_actions
read_goal g line =
    read_actions (read_spawn (read_condition (read_trigger (read_priority g line) line) line) line)
      line

abbrev add_event : ContractDef → Option String → ContractDef → ContractDef
add_event c none later = later
add_event c (some rest) later = record c { events = c.events ++ trim_space rest ∷ [] }

abbrev add_action : ContractDef → Option String → ContractDef
add_action c none = c
add_action c (some rest) = record c { actions = c.actions ++ trim_space rest ∷ [] }

unfoldable pub read_contract : ContractDef → String → ContractDef
unfolding cut_prefix trim_space
read_contract c line =
    if c.name == ""
    then c
    else add_event c (cut_prefix "event " line) (add_action c (cut_prefix "action " line))

abbrev add_rule : PolicyDef → Option (String × String × String) → PolicyDef
add_rule p none = p
add_rule p (some (path, op, value)) = record p {
  rules = p.rules ++ record { path = path; op = op; value = text value } ∷ [];
}

abbrev require_clause : PolicyDef → Option String → PolicyDef
require_clause p none = p
require_clause p (some rest) = add_rule p (cut_operator operators (trim_space rest))

unfoldable pub read_policy : PolicyDef → String → PolicyDef
unfolding cut_prefix trim_space cut_operator
read_policy p line = if p.name == "" then p else require_clause p (cut_prefix "require " line)

abbrev add_step : TestCaseDef → String → Option String → TestCaseDef → TestCaseDef
add_step t kind none later = later
add_step t kind (some rest) later = record t {
  steps = t.steps ++ record { kind = kind; expr = trim_space rest } ∷ [];
}

unfoldable pub read_step : TestCaseDef → String → TestCaseDef
unfolding cut_prefix trim_space
read_step t line =
    if t.name == ""
    then t
    else add_step t "given" (cut_prefix "given " line) (
        add_step t "when" (cut_prefix "when " line)
          (add_step t "expect" (cut_prefix "expect " line) t))
