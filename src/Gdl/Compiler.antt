-- ===== src/Gdl/Compiler.antt =====
-- gdl/compiler.go: a program becomes the runtime's goals, events and actions. The functions that spawn
-- goals stand by their number in `Closures`: a goal's is its place among the goals.
use Prim.Native.Nat.{Ordering}
use ugem.Prelude.{
  ℕ, ◌+◌, String, Bool, true, false, not, Option, none, some, List, [], ◌∷◌, map, GoMap, put, ◌==◌,
  if◌then◌else◌, get_elem?, suc, length,
}
use ugem.Prelude.Int.{pos, negsuc}
use ugem.Prelude.Decimal.{decimal}
use ugem.Types.{Value, null, text, flag, number, TypedValue, Event, Error, Result, ok}
use ugem.Goal.{Goal, GoalTrigger, Closures, Query, answer, ask, no_goal, no_trace, active, pending}
use ugem.Gdl.{TypeDef, EventDef, ActionDef, Condition, Trigger, Spawn, GoalDef, GdlProgram}
use ugem.Gdl.Parser.{parse_gdl}
use ugem.Planner.{Planner, register_action}
use ugem.Kernel.{Runtime, Outside, submit_goal}

-- How the numbers that `strconv.ParseFloat` reads in two texts compare: nothing where a text is no
-- number, or one of them is not comparable.
abbrev pub Floats : Type 0
Floats = String → String → Option Ordering

-- `fmt.Sprintf("%v", v)`
unfoldable pub sprint : Value → String
unfolding decimal
sprint null = "<nil>"
sprint (text s) = s
sprint (flag true) = "true"
sprint (flag false) = "false"
sprint (number (pos n)) = decimal n
sprint (number (negsuc n)) = Prim.Native.String.◌++◌ "-" (decimal (suc n))

abbrev is_greater : Option Ordering → Bool
is_greater (some Ordering.gt) = true
is_greater _ = false

abbrev is_less : Option Ordering → Bool
is_less (some Ordering.lt) = true
is_less _ = false

abbrev is_at_least : Option Ordering → Bool
is_at_least (some Ordering.gt) = true
is_at_least (some Ordering.eq) = true
is_at_least _ = false

abbrev is_at_most : Option Ordering → Bool
is_at_most (some Ordering.lt) = true
is_at_most (some Ordering.eq) = true
is_at_most _ = false

unfoldable pub compare_texts : Floats → String → String → String → Bool
compare_texts floats actual op target =
    if op == "=="
    then actual == target
    else if op == "!="
    then not (actual == target)
    else if op == ">"
    then is_greater (floats actual target)
    else if op == "<"
    then is_less (floats actual target)
    else if op == ">="
    then is_at_least (floats actual target)
    else if op == "<="
    then is_at_most (floats actual target)
    else false

unfoldable pub compare_values : Floats → Value → String → Value → Bool
unfolding sprint compare_texts
compare_values floats actual op target = compare_texts floats (sprint actual) op (sprint target)

-- `val, exists := state.Get(path)`, the test, and what follows where it holds
unfoldable pub next_if : Floats → Condition → Query → Option TypedValue → Query
unfolding compare_values
next_if floats c next none = answer false
next_if floats c next (some v) =
    if compare_values floats v.value c.op c.value then next else answer false

unfoldable pub evaluate_conditions : Floats → List Condition → Query
unfolding next_if
evaluate_conditions floats [] = answer true
evaluate_conditions floats (c ∷ conditions) =
    ask c.path (next_if floats c (evaluate_conditions floats conditions))

-- a goal without conditions has none
unfoldable pub condition_of : Floats → List Condition → Option Query
unfolding evaluate_conditions
condition_of floats [] = none
condition_of floats (c ∷ conditions) = some (evaluate_conditions floats (c ∷ conditions))

abbrev spawn_number : ℕ → List Spawn → Option ℕ
spawn_number place [] = none
spawn_number place (s ∷ spawns) = some place

abbrev trigger_of : Option Trigger → GoalTrigger
trigger_of none = record { type = ""; path = none }
trigger_of (some t) = record { type = t.type; path = some t.path }

-- the goal at a place of the program
unfoldable pub compile_goal : Floats → ℕ → GoalDef → Goal
unfolding condition_of
compile_goal floats place goal = record no_goal {
  id = goal.name;
  priority = goal.priority;
  state = active;
  condition = condition_of floats goal.condition;
  spawn = spawn_number place goal.spawns;
  trigger = trigger_of goal.trigger;
}

-- a spawned goal, whose condition is one test where it has a path
unfoldable pub spawn_goal : Floats → Spawn → Goal
unfolding evaluate_conditions
spawn_goal floats s = record no_goal {
  id = s.goal;
  priority = pos 5;
  state = pending;
  condition =
      if s.when_holds.path == ""
      then none
      else some (evaluate_conditions floats (s.when_holds ∷ []));
}

abbrev spawns_at : Floats → Option GoalDef → List Goal
spawns_at floats none = []
spawns_at floats (some goal) = map (spawn_goal floats) goal.spawns

-- the functions that the compiled goals hold
unfoldable pub compiled_closures : Floats → GdlProgram → Closures
unfolding spawn_goal
compiled_closures floats program = record {
  spawns = λ place d. spawns_at floats (get_elem? program.goals place);
  compensates = λ place d. none;
}

unfoldable pub compile_event : EventDef → Event
compile_event event = record {
  id = 0;
  clock = 0;
  timestamp = 0;
  type = event.name;
  read_paths = event.read_paths;
  write_paths = event.write_paths;
  payload = [];
  trace = no_trace;
  state_mutator = none;
  state_mutations = [];
  correction_of = 0;
}

-- what the function of an action returns, whatever its context is
abbrev pub action_outcome : Result (GoMap Value)
action_outcome = ok (("success", flag true) ∷ [])

pub record CompiledProgram : Type 0 where
  pub goals : List Goal
  pub events : List Event
  pub actions : GoMap (Result (GoMap Value))

unfoldable pub compile_goals : Floats → ℕ → List GoalDef → List Goal
unfolding compile_goal
compile_goals floats place [] = []
compile_goals floats place (goal ∷ goals) =
    compile_goal floats place goal ∷ compile_goals floats (place + 1) goals

unfoldable pub compile_actions :
    GoMap (Result (GoMap Value)) → List ActionDef → GoMap (Result (GoMap Value))
compile_actions compiled [] = compiled
compile_actions compiled (action ∷ actions) =
    compile_actions (put compiled action.name action_outcome) actions

-- `c.types`, which nothing reads
unfoldable pub compile_types : GoMap TypedValue → List TypeDef → GoMap TypedValue
compile_types compiled [] = compiled
compile_types compiled (t ∷ types) =
    compile_types (put compiled t.name (record { type = t.kind; value = null })) types

-- The list of errors stays empty, so the program is always returned without one.
unfoldable pub compile : Floats → GdlProgram → CompiledProgram
unfolding compile_goals compile_actions compile_event
compile floats program = record {
  goals = compile_goals floats 0 program.goals;
  events = map compile_event program.events;
  actions = compile_actions [] program.actions;
}

unfoldable pub compile_gdl : Floats → String → CompiledProgram
unfolding parse_gdl compile
compile_gdl floats input = compile floats (parse_gdl input)

-- Every action is registered; `handler` is the number of the function that calls it, and `names` are
-- the keys of the map in the order in which Go visits them.
unfoldable pub register_actions : Planner → ℕ → List String → Planner
register_actions p handler [] = p
register_actions p handler (name ∷ names) =
    register_actions (register_action p name handler) handler names

abbrev pub submit_rest :
    Runtime × Option Error → (Runtime → Runtime × Option Error) → Runtime × Option Error
submit_rest (r, some e) rest = (r, some e)
submit_rest (r, none) rest = rest r

-- The first goal that is refused ends it.
unfoldable pub submit_goals : (ℕ → Outside) → Runtime → List Goal → Runtime × Option Error
unfolding submit_goal
submit_goals out r [] = (r, none)
submit_goals out r (goal ∷ goals) =
    submit_rest (submit_goal (out (length goals)) r goal) λ r1. submit_goals out r1 goals

unfoldable pub create_runtime :
    (ℕ → Outside)
    → ℕ
    → List String
    → Planner
    → Runtime
    → CompiledProgram
    → Planner × Runtime × Option Error
unfolding register_actions submit_goals
create_runtime out handler names p r c =
    let (r1, e) = submit_goals out r c.goals in (register_actions p handler names, r1, e)
