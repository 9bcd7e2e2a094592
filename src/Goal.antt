-- ===== src/Goal.antt =====
-- runtime/types.go and runtime/state_tracker.go: goals, and the conditions that are evaluated through
-- a tracker. A condition is a function of the client that reads the state: it asks for paths one
-- after the other, or looks at the whole state, and answers. One that writes to the state, which the
-- interface allows, is not modelled. The functions that spawn and compensate goals are the client's too; a
-- goal holds their names, and `Closures` says what the named functions return on a state.
use ugem.Prelude.{ℕ, String, Bool, Option, none, List, [], ◌∷◌, GoMap, if◌then◌else◌, get, contains}
use ugem.Prelude.Int.{ℤ, pos}
use ugem.Types.{TypedValue, TraceContext, State}

pub data GoalState : Type 0 where
  pending active complete failed cancelled compensating : GoalState
  -- the empty string of `Goal{}`
  unset : GoalState

pub data BackoffStrategy : Type 0 where
  -- `flat` is "none", and also any other text
  flat linear exponential fibonacci : BackoffStrategy

-- The float `Multiplier`, which no code reads, is left out.
pub record RetryStrategy : Type 0 where
  pub max_attempts : ℕ
  pub initial_delay : ℕ
  pub max_delay : ℕ
  pub strategy : BackoffStrategy

pub data Query : Type 0 where
  answer : Bool → Query
  ask : String → (Option TypedValue → Query) → Query
  -- `Snapshot` and `Diff`, which a tracker hands on to the state that it wraps
  look : (State → Query) → Query

pub record GoalTrigger : Type 0 where
  pub type : String
  pub path : Option String

pub record Goal : Type 0 where
  pub id : String
  pub priority : ℤ
  pub state : GoalState
  pub clock : ℕ  -- uint64
  pub parent_id : Option String
  pub condition : Option Query
  pub spawn : Option ℕ
  pub compensate : Option ℕ
  pub trigger : GoalTrigger
  pub deadline : ℕ
  pub timeout : ℕ
  pub metadata : GoMap String
  pub trace : TraceContext
  pub retry : Option RetryStrategy
  pub attempts : ℕ
  pub created_at : ℕ
  pub started_at : Option ℕ
  pub cancelled_at : Option ℕ
  pub fail_reason : String

abbrev pub no_trace : TraceContext
no_trace = record { trace_id = ""; parent_event_id = ""; goal_id = ""; action_id = "" }

-- `Goal{}`
abbrev pub no_goal : Goal
no_goal = record {
  id = "";
  priority = pos 0;
  state = unset;
  clock = 0;
  parent_id = none;
  condition = none;
  spawn = none;
  compensate = none;
  trigger = record { type = ""; path = none };
  deadline = 0;
  timeout = 0;
  metadata = [];
  trace = no_trace;
  retry = none;
  attempts = 0;
  created_at = 0;
  started_at = none;
  cancelled_at = none;
  fail_reason = "";
}

pub record Closures : Type 0 where
  pub spawns : ℕ → State → List Goal
  pub compensates : ℕ → State → Option Goal

-- A condition on a state.
unfoldable pub holds : Query → State → Bool
holds (answer b) d = b
holds (ask path next) d = holds (next (get d path)) d
holds (look next) d = holds (next d) d

-- `readPaths[path] = true`
abbrev pub note_path : String → List String → List String
note_path path paths = if contains path paths then paths else path ∷ paths

-- The same through a `StateTracker`: the answer, and the paths that were read.
unfoldable pub track : Query → State → Bool × List String
track (answer b) d = (b, [])
track (ask path next) d = let (b, paths) = track (next (get d path)) d in (b, note_path path paths)
track (look next) d = track (next d) d
