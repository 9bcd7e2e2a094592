-- ===== src/Gdl.antt =====
-- gdl/parser.go: what a text of the goal definition language is read into. The default of a field,
-- which nothing sets, is left out; the value of a condition is an `interface{}` that holds a text
-- where the reader made it, and Go's nil in a spawn without a condition.
pub mod Readers
pub mod Parser
pub mod Blocks
pub mod Contracts
pub mod Cuts
pub mod Expressions
pub mod Merging
pub mod Conditions
pub mod Submitting
pub mod Events
pub mod Config
pub mod Scaffold
pub mod Workspace
pub mod Loading
pub mod Projects
pub mod Applying
mod Samples
pub mod Compiler
use ugem.Prelude.{String, Bool, List, [], Option, none, GoMap}
use ugem.Prelude.Int.{ℤ, pos}
use ugem.Types.{Value, null}

pub record Field : Type 0 where
  pub name : String
  pub type : String
  pub optional : Bool

pub record EnumValue : Type 0 where
  pub name : String
  pub value : String

pub record TypeDef : Type 0 where
  pub name : String
  pub kind : String
  pub fields : List Field
  pub values : List EnumValue

pub record EventDef : Type 0 where
  pub name : String
  pub read_paths : List String
  pub write_paths : List String

pub record ActionDef : Type 0 where
  pub name : String
  pub input : List Field
  pub output : List Field

pub record Condition : Type 0 where
  pub path : String
  pub op : String
  pub value : Value

pub record Trigger : Type 0 where
  pub type : String
  pub path : String

pub record Spawn : Type 0 where
  pub goal : String
  pub when_holds : Condition

pub record GoalDef : Type 0 where
  pub name : String
  pub priority : ℤ
  pub condition : List Condition
  pub trigger : Option Trigger
  pub spawns : List Spawn
  pub actions : List String

pub record ContractDef : Type 0 where
  pub name : String
  pub events : List String
  pub actions : List String

pub record PolicyRule : Type 0 where
  pub path : String
  pub op : String
  pub value : Value

pub record PolicyDef : Type 0 where
  pub name : String
  pub rules : List PolicyRule

pub record TestStep : Type 0 where
  pub kind : String
  pub expr : String

pub record TestCaseDef : Type 0 where
  pub name : String
  pub steps : List TestStep

pub record GdlProgram : Type 0 where
  pub types : List TypeDef
  pub events : List EventDef
  pub actions : List ActionDef
  pub goals : List GoalDef
  pub contracts : List ContractDef
  pub policies : List PolicyDef
  pub tests : List TestCaseDef

abbrev pub no_program : GdlProgram
no_program = record {
  types = [];
  events = [];
  actions = [];
  goals = [];
  contracts = [];
  policies = [];
  tests = [];
}

abbrev pub type_named : String → String → TypeDef
type_named kind name = record { name = name; kind = kind; fields = []; values = [] }

abbrev pub event_named : String → EventDef
event_named name = record { name = name; read_paths = []; write_paths = [] }

abbrev pub action_named : String → ActionDef
action_named name = record { name = name; input = []; output = [] }

abbrev pub goal_named : ℤ → String → GoalDef
goal_named priority name = record {
  name = name;
  priority = priority;
  condition = [];
  trigger = none;
  spawns = [];
  actions = [];
}

abbrev pub contract_named : String → ContractDef
contract_named name = record { name = name; events = []; actions = [] }

abbrev pub policy_named : String → PolicyDef
policy_named name = record { name = name; rules = [] }

abbrev pub test_named : String → TestCaseDef
test_named name = record { name = name; steps = [] }

-- `Condition{}`
abbrev pub no_condition : Condition
no_condition = record { path = ""; op = ""; value = null }
