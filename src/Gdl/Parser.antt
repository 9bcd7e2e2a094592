-- ===== src/Gdl/Parser.antt =====
-- gdl/parser.go: the reader goes through the lines, and keeps for each kind of block the one it is in.
use ugem.Prelude.{String, Bool, Option, none, some, List, [], ◌∷◌, ◌++◌, ◌==◌, ◌||◌, if◌then◌else◌}
use ugem.Prelude.Int.{pos}
use ugem.Prelude.Strings.{cut_prefix, has_prefix, trim_space, split, fields}
use ugem.Gdl.{
  TypeDef, EventDef, ActionDef, GoalDef, ContractDef, PolicyDef, TestCaseDef, GdlProgram,
  no_program, type_named, event_named, action_named, goal_named, contract_named, policy_named,
  test_named,
}
use ugem.Gdl.Readers.{read_field, read_goal, read_contract, read_policy, read_step}

-- The program so far, and the blocks that are open: a block without a name stands for none.
pub record Parsing : Type 0 where
  pub program : GdlProgram
  pub type_def : TypeDef
  pub event_def : EventDef
  pub action_def : ActionDef
  pub goal_def : GoalDef
  pub contract_def : ContractDef
  pub policy_def : PolicyDef
  pub test_def : TestCaseDef

abbrev pub no_parsing : Parsing
no_parsing = record {
  program = no_program;
  type_def = type_named "" "";
  event_def = event_named "";
  action_def = action_named "";
  goal_def = goal_named (pos 0) "";
  contract_def = contract_named "";
  policy_def = policy_named "";
  test_def = test_named "";
}

-- `if current.Name != "" { program.X = append(program.X, current) }`
unfoldable pub keep_named {ℓ} : {A : Type ℓ} → (A → String) → List A → A → List A
keep_named name xs x = if name x == "" then xs else xs ++ x ∷ []

abbrev pub keep_type : Parsing → List TypeDef
keep_type p = keep_named (λ (t : TypeDef). t.name) p.program.types p.type_def

abbrev pub keep_event : Parsing → List EventDef
keep_event p = keep_named (λ (e : EventDef). e.name) p.program.events p.event_def

abbrev pub keep_action : Parsing → List ActionDef
keep_action p = keep_named (λ (a : ActionDef). a.name) p.program.actions p.action_def

abbrev pub keep_goal : Parsing → List GoalDef
keep_goal p = keep_named (λ (g : GoalDef). g.name) p.program.goals p.goal_def

abbrev pub keep_contract : Parsing → List ContractDef
keep_contract p = keep_named (λ (c : ContractDef). c.name) p.program.contracts p.contract_def

abbrev pub keep_policy : Parsing → List PolicyDef
keep_policy p = keep_named (λ (c : PolicyDef). c.name) p.program.policies p.policy_def

abbrev pub keep_test : Parsing → List TestCaseDef
keep_test p = keep_named (λ (t : TestCaseDef). t.name) p.program.tests p.test_def

-- `parts := strings.Fields(rest); if len(parts) > 0 { name = parts[0] }`
abbrev first_or_empty : List String → String
first_or_empty [] = ""
first_or_empty (w ∷ ws) = w

unfoldable pub first_field : String → String
unfolding fields
first_field rest = first_or_empty (fields rest)

pub data BlockKind : Type 0 where
  type_block event_block action_block goal_block : BlockKind
  contract_block policy_block test_block : BlockKind

-- A line that opens a block: its kind, and the name.
abbrev opens : BlockKind → Option String → Option (BlockKind × String) → Option (BlockKind × String)
opens kind none later = later
opens kind (some rest) later =
    some (kind, elim kind [ type_block ↦ trim_space rest | _ ↦ first_field rest ])

unfoldable pub header : String → Option (BlockKind × String)
unfolding cut_prefix trim_space first_field
header line = opens type_block (cut_prefix "type " line) (
    opens event_block (cut_prefix "event " line) (
      opens action_block (cut_prefix "action " line) (
        opens goal_block (cut_prefix "goal " line) (
          opens contract_block (cut_prefix "contract " line) (
            opens policy_block (cut_prefix "policy " line)
              (opens test_block (cut_prefix "test " line) none))))))

-- The block of the same kind that was open is kept, and the new one is open.
unfoldable pub begin_block : Parsing → BlockKind → String → Parsing
unfolding keep_named
begin_block p type_block name = record p {
  program = record p.program { types = keep_type p };
  type_def = type_named "string" name;
}
begin_block p event_block name = record p {
  program = record p.program { events = keep_event p };
  event_def = event_named name;
}
begin_block p action_block name = record p {
  program = record p.program { actions = keep_action p };
  action_def = action_named name;
}
begin_block p goal_block name = record p {
  program = record p.program { goals = keep_goal p };
  goal_def = goal_named (pos 5) name;
}
begin_block p contract_block name = record p {
  program = record p.program { contracts = keep_contract p };
  contract_def = contract_named name;
}
begin_block p policy_block name = record p {
  program = record p.program { policies = keep_policy p };
  policy_def = policy_named name;
}
begin_block p test_block name = record p {
  program = record p.program { tests = keep_test p };
  test_def = test_named name;
}

-- what a line that opens no block does
unfoldable pub read_body : Parsing → String → Parsing
unfolding read_field read_goal read_contract read_policy read_step
read_body p line = record p {
  type_def = read_field p.type_def line;
  goal_def = read_goal p.goal_def line;
  contract_def = read_contract p.contract_def line;
  policy_def = read_policy p.policy_def line;
  test_def = read_step p.test_def line;
}

-- a line of spaces, and a comment
unfoldable pub is_skipped : String → Bool
unfolding has_prefix
is_skipped line = line == "" || has_prefix line "#"

abbrev begin_or_read : Parsing → String → Option (BlockKind × String) → Parsing
begin_or_read p line none = read_body p line
begin_or_read p line (some (kind, name)) = begin_block p kind name

unfoldable pub read_line : Parsing → String → Parsing
unfolding is_skipped header begin_block read_body
read_line p line = if is_skipped line then p else begin_or_read p line (header line)

unfoldable pub read_lines : Parsing → List String → Parsing
unfolding read_line trim_space
read_lines p [] = p
read_lines p (line ∷ lines) = read_lines (read_line p (trim_space line)) lines

-- The open blocks are kept at the end.
unfoldable pub finish : Parsing → GdlProgram
unfolding keep_named
finish p = record {
  types = keep_type p;
  events = keep_event p;
  actions = keep_action p;
  goals = keep_goal p;
  contracts = keep_contract p;
  policies = keep_policy p;
  tests = keep_test p;
}

unfoldable pub parse_gdl : String → GdlProgram
unfolding read_lines finish split
parse_gdl input = finish (read_lines no_parsing (split input "\n"))

unfoldable pub append_program : GdlProgram → GdlProgram → GdlProgram
append_program merged p = record {
  types = merged.types ++ p.types;
  events = merged.events ++ p.events;
  actions = merged.actions ++ p.actions;
  goals = merged.goals ++ p.goals;
  contracts = merged.contracts ++ p.contracts;
  policies = merged.policies ++ p.policies;
  tests = merged.tests ++ p.tests;
}

-- `MergePrograms`: a nil program is skipped.
abbrev pub append_program? : GdlProgram → Option GdlProgram → GdlProgram
append_program? merged none = merged
append_program? merged (some p) = append_program merged p

unfoldable pub merge_from : GdlProgram → List (Option GdlProgram) → GdlProgram
unfolding append_program
merge_from merged [] = merged
merge_from merged (p ∷ programs) = merge_from (append_program? merged p) programs

unfoldable pub merge_programs : List (Option GdlProgram) → GdlProgram
unfolding merge_from
merge_programs programs = merge_from no_program programs

-- `ParseGDLFile`: the file read outside, or its error
unfoldable pub parse_gdl_file : Option String → Option GdlProgram
unfolding parse_gdl
parse_gdl_file none = none
parse_gdl_file (some data_read) = some (parse_gdl data_read)
