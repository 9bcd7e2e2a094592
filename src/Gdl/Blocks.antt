-- ===== src/Gdl/Blocks.antt =====
-- gdl/parser.go: which blocks a text has, and which parts of a block are never read.
use mathlib.Core.List.{append_assoc, append-nil}
use ugem.Prelude.{
  ℕ, String, Option, none, some, List, [], ◌∷◌, ◌++◌, map, ◌==◌, ◌≡◌, refl, ap, sym, ◌∙◌,
  if◌then◌else◌, nat_eq, arith, Option-cases, Bool-cases, inl, inr,
}
use ugem.Prelude.Int.{pos}
use ugem.Prelude.Strings.{split, trim_space}
use ugem.Gdl.{
  TypeDef, EventDef, ActionDef, GoalDef, ContractDef, PolicyDef, TestCaseDef, GdlProgram,
  type_named, event_named, action_named, goal_named, contract_named, policy_named, test_named,
}
use ugem.Gdl.Readers.{
  read_field, read_goal, read_contract, read_policy, read_step, read_priority, read_trigger,
  read_condition, read_spawn, read_actions,
}
use ugem.Gdl.Parser.{
  Parsing, no_parsing, keep_named, keep_type, keep_event, keep_action, keep_goal, keep_contract,
  keep_policy, keep_test, BlockKind, type_block, event_block, action_block, goal_block,
  contract_block, policy_block, test_block, header, begin_block, read_body, is_skipped, read_line,
  read_lines, finish, parse_gdl,
}

abbrev pub names : BlockKind → GdlProgram → List String
names type_block p = map (λ (t : TypeDef). t.name) p.types
names event_block p = map (λ (e : EventDef). e.name) p.events
names action_block p = map (λ (a : ActionDef). a.name) p.actions
names goal_block p = map (λ (g : GoalDef). g.name) p.goals
names contract_block p = map (λ (c : ContractDef). c.name) p.contracts
names policy_block p = map (λ (c : PolicyDef). c.name) p.policies
names test_block p = map (λ (t : TestCaseDef). t.name) p.tests

abbrev kind_number : BlockKind → ℕ
kind_number type_block = 0
kind_number event_block = 1
kind_number action_block = 2
kind_number goal_block = 3
kind_number contract_block = 4
kind_number policy_block = 5
kind_number test_block = 6

abbrev pub unless_blank : String → List String
unless_blank s = if s == "" then [] else s ∷ []

-- the name that a line with this header declares for a kind of block
abbrev pub declared_by : BlockKind → Option (BlockKind × String) → List String
declared_by kind none = []
declared_by kind (some (other, name)) =
    if nat_eq (kind_number kind) (kind_number other) then unless_blank name else []

abbrev pub declared_on : BlockKind → String → List String
declared_on kind line = if is_skipped line then [] else declared_by kind (header line)

-- The names on the lines that declare a block of this kind, where they are not empty.
unfoldable pub declared : BlockKind → List String → List String
declared kind [] = []
declared kind (line ∷ lines) = declared_on kind (trim_space line) ++ declared kind lines

pub map-append {ℓ κ} :
    {A : Type ℓ} {B : Type κ} (f : A → B) (xs ys : List A) → map f (xs ++ ys) ≡ map f xs ++ map f ys
map-append f [] ys = refl
map-append f (x ∷ xs) ys = ap (◌∷◌ (f x)) (map-append f xs ys)

keep_named-names {ℓ} :
    {A : Type ℓ} (name : A → String) (xs : List A) (x : A)
    → map name (keep_named name xs x) ≡ map name xs ++ unless_blank (name x)
unfolding keep_named
keep_named-names name xs x = ground (arith, map-append name xs (x ∷ []), append-nil (map name xs))

read_field-name : (t : TypeDef) (line : String) → (read_field t line).name ≡ t.name
unfolding read_field
read_field-name t line = ground arith

read_goal-name : (g : GoalDef) (line : String) → (read_goal g line).name ≡ g.name
unfolding read_goal read_priority read_trigger read_condition read_spawn read_actions
read_goal-name g line = ground arith

read_contract-name : (c : ContractDef) (line : String) → (read_contract c line).name ≡ c.name
unfolding read_contract
read_contract-name c line = ground arith

read_policy-name : (c : PolicyDef) (line : String) → (read_policy c line).name ≡ c.name
unfolding read_policy
read_policy-name c line = ground arith

read_step-name : (t : TestCaseDef) (line : String) → (read_step t line).name ≡ t.name
unfolding read_step
read_step-name t line = ground arith

-- what a kind of block has by now, the open block included
abbrev named : BlockKind → Parsing → List String
named kind p = names kind (finish p)

begin_block-names :
    (kind other : BlockKind) (p : Parsing) (name : String)
    → named kind (begin_block p other name) ≡ named kind p ++ declared_by kind (some (other, name))
unfolding begin_block finish
begin_block-names type_block type_block p name =
    keep_named-names (λ (x : TypeDef). x.name) (keep_type p) (type_named "string" name)
begin_block-names event_block event_block p name =
    keep_named-names (λ (x : EventDef). x.name) (keep_event p) (event_named name)
begin_block-names action_block action_block p name =
    keep_named-names (λ (x : ActionDef). x.name) (keep_action p) (action_named name)
begin_block-names goal_block goal_block p name =
    keep_named-names (λ (x : GoalDef). x.name) (keep_goal p) (goal_named (pos 5) name)
begin_block-names contract_block contract_block p name =
    keep_named-names (λ (x : ContractDef). x.name) (keep_contract p) (contract_named name)
begin_block-names policy_block policy_block p name =
    keep_named-names (λ (x : PolicyDef). x.name) (keep_policy p) (policy_named name)
begin_block-names test_block test_block p name =
    keep_named-names (λ (x : TestCaseDef). x.name) (keep_test p) (test_named name)
begin_block-names _ _ p name = sym (append-nil _)

-- A block that keeps its name is kept under the same name.
same_names {ℓ} :
    {A : Type ℓ} (name : A → String) (xs : List A) (x y : A)
    → name y ≡ name x
    → map name (keep_named name xs y) ≡ map name (keep_named name xs x)
same_names name xs x y e =
    keep_named-names name xs y
    ∙ ap (λ n. map name xs ++ unless_blank n) e
    ∙ sym (keep_named-names name xs x)

read_body-names :
    (kind : BlockKind) (p : Parsing) (line : String) → named kind (read_body p line) ≡ named kind p
unfolding read_body finish
read_body-names type_block p line =
    same_names (λ (x : TypeDef). x.name) p.program.types p.type_def _
      (read_field-name p.type_def line)
read_body-names event_block p line = refl
read_body-names action_block p line = refl
read_body-names goal_block p line =
    same_names (λ (x : GoalDef). x.name) p.program.goals p.goal_def _
      (read_goal-name p.goal_def line)
read_body-names contract_block p line =
    same_names (λ (x : ContractDef). x.name) p.program.contracts p.contract_def _
      (read_contract-name p.contract_def line)
read_body-names policy_block p line =
    same_names (λ (x : PolicyDef). x.name) p.program.policies p.policy_def _
      (read_policy-name p.policy_def line)
read_body-names test_block p line =
    same_names (λ (x : TestCaseDef). x.name) p.program.tests p.test_def _
      (read_step-name p.test_def line)

read_line-names :
    (kind : BlockKind) (p : Parsing) (line : String)
    → named kind (read_line p line) ≡ named kind p ++ declared_on kind line
unfolding read_line
read_line-names kind p line = elim (Bool-cases (is_skipped line)) [
  | inl e ↦ rw e (sym (append-nil _))
  | inr e ↦ elim (Option-cases (header line)) [
    | inl n ↦ rw (e, n) (read_body-names kind p line ∙ sym (append-nil _))
    | inr ((other, name), s) ↦ rw (e, s) (begin_block-names kind other p name)
  ]
]

read_lines-names :
    (kind : BlockKind) (p : Parsing) (lines : List String)
    → named kind (read_lines p lines) ≡ named kind p ++ declared kind lines
unfolding read_lines declared
read_lines-names kind p [] = sym (append-nil _)
read_lines-names kind p (line ∷ lines) =
    rw
      (
        read_lines-names kind (read_line p (trim_space line)) lines,
        read_line-names kind p (trim_space line),
        append_assoc,
      )
      refl

no_parsing-names : (kind : BlockKind) → named kind no_parsing ≡ []
unfolding finish keep_named
no_parsing-names type_block = refl
no_parsing-names event_block = refl
no_parsing-names action_block = refl
no_parsing-names goal_block = refl
no_parsing-names contract_block = refl
no_parsing-names policy_block = refl
no_parsing-names test_block = refl

-- For each kind of block, the blocks of the program that a text is read into are named as the lines
-- say that declare such a block, in their order; a line that names none declares none.
pub names-parse_gdl :
    (kind : BlockKind) (input : String)
    → names kind (parse_gdl input) ≡ declared kind (split input "\n")
unfolding parse_gdl
names-parse_gdl kind input =
    read_lines-names kind no_parsing (split input "\n")
    ∙ ap (λ ns. ns ++ declared kind (split input "\n")) (no_parsing-names kind)
