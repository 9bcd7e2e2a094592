-- ===== src/SampleData.antt =====
-- Values, events and goals that the runs of the parts share.
use ugem.Prelude.{ℕ, ◌≡◌, ◌≢◌, String, false, Option, none, some, List, [], ◌==◌, eq_iff, arith}
use ugem.Prelude.Int.{pos}
use ugem.Types.{StateMutation, TypedValue, number, Event, Mutator}
use ugem.Goal.{GoalState, Goal, no_goal, Closures}

abbrev pub amount : ℕ → TypedValue
amount n = record { type = "int"; value = number (pos n) }

abbrev pub write : String → ℕ → StateMutation
write path n = record { path = path; value = amount n }

-- An event that writes these paths, by this mutator and these mutations.
abbrev pub event_of : List String → Option Mutator → List StateMutation → Event
event_of paths f ms = record {
  id = 0;
  clock = 0;
  timestamp = 0;
  type = "payment";
  read_paths = [];
  write_paths = paths;
  payload = [];
  trace = record { trace_id = "t"; parent_event_id = ""; goal_id = ""; action_id = "" };
  state_mutator = f;
  state_mutations = ms;
  correction_of = 0;
}

pub different : (a b : String) → (a == b) ≡ false → a ≢ b
different a b h e = ground (arith, eq_iff a b)

-- A goal that waits for a path.
abbrev pub waiting : String → String → GoalState → Goal
waiting id path state = record no_goal {
  id = id;
  state = state;
  trigger = record { type = "path"; path = some path };
}

-- The client's functions spawn and compensate nothing.
abbrev pub no_closures : Closures
no_closures = record { spawns = λ f d. []; compensates = λ f d. none }
