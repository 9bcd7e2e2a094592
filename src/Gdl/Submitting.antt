-- ===== src/Gdl/Submitting.antt =====
-- gdl/compiler.go: the goals of a compiled text are submitted to a runtime.
use mathlib.Core.List.{append_assoc, append-nil}
use ugem.Prelude.{
  ℕ, ◌+◌, Bool, true, false, not, ◌&&◌, ◌||◌, String, Option, none, some, List, [], ◌∷◌, ◌++◌, ◌==◌,
  eq_iff, map, ◌≡◌, refl, ap, sym, ◌∙◌, GoMap, get, get-put, arith, All, All-append, Bool-cases,
  Option-cases, inl, inr, contains, is_some, length, if◌then◌else◌,
}
use ugem.Prelude.Strings.{split, trim_space}
use ugem.Types.{Error, goal_already_exists}
use ugem.Goal.{Goal, active}
use ugem.GoalEngine.{add_goal}
use ugem.Kernel.{Runtime, Outside, submit_goal, traced_goal}
use ugem.Planner.{Planner}
use ugem.Gdl.{GoalDef, GdlProgram}
use ugem.Gdl.Parser.{BlockKind, goal_block, parse_gdl, is_skipped, header}
use ugem.Gdl.Compiler.{
  Floats, compile_goal, compile_goals, compile, compile_gdl, submit_goals, submit_rest,
  create_runtime,
}
use ugem.Gdl.Blocks.{names, declared, declared_on, declared_by, names-parse_gdl}

abbrev ids : List Goal → List String
ids goals = map (λ (g : Goal). g.id) goals

compile_goals-ids :
    (floats : Floats) (place : ℕ) (goals : List GoalDef)
    → ids (compile_goals floats place goals) ≡ map (λ (g : GoalDef). g.name) goals
unfolding compile_goals compile_goal
compile_goals-ids floats place [] = refl
compile_goals-ids floats place (goal ∷ goals) =
    ap (◌∷◌ goal.name) (compile_goals-ids floats (place + 1) goals)

-- No name stands twice, and none is the name of a known goal.
unfoldable pub all_fresh : GoMap Goal → List String → Bool
unfolding contains
all_fresh known [] = true
all_fresh known (name ∷ later) =
    not (is_some (get known name)) && not (contains name later) && all_fresh known later

abbrev pub NotBlank : String → Type 0
NotBlank s = (s == "") ≡ false

-- What a goal adds to the goals that are known.
abbrev IsAdded : GoMap Goal → String → GoMap Goal → Type 0
IsAdded known name later =
    (k : String) → is_some (get later k) ≡ (name == k || is_some (get known k))

all_fresh-IsAdded :
    (known later : GoMap Goal) (name : String) (others : List String)
    → IsAdded known name later
    → all_fresh later others ≡ (not (contains name others) && all_fresh known others)
unfolding all_fresh contains
all_fresh-IsAdded known later name [] added = refl
all_fresh-IsAdded known later name (x ∷ others) added =
    ground (
      arith,
      all_fresh-IsAdded known later name others added,
      added x,
      eq_iff name x,
      eq_iff x name,
    )

record IsSubmitted (out : Outside) (r : Runtime) (goal : Goal) : Type 0 where
  accepted : (submit_goal out r goal).1 ≡ none
  runs : (submit_goal out r goal).0.running ≡ true
  actives :
      (submit_goal out r goal).0.goal_engine.active_goals
      ≡ r.goal_engine.active_goals ++ goal.id ∷ []
  added : IsAdded r.goal_engine.goals goal.id (submit_goal out r goal).0.goal_engine.goals

module _ (out : Outside) (r : Runtime) (goal : Goal) (runs : r.running ≡ true)
    (named : NotBlank goal.id) where
  submit_goal_fresh : get r.goal_engine.goals goal.id ≡ none → IsSubmitted out r goal
  unfolding submit_goal add_goal
  submit_goal_fresh e = record {
    accepted = ground (arith, runs, named, e);
    runs = ground (arith, runs, named, e);
    actives = ground (arith, runs, named, e);
    added = λ k. ground (
      arith,
      runs,
      named,
      e,
      get-put r.goal_engine.goals goal.id k (record (traced_goal out goal) {
        state = active;
        clock = r.goal_engine.clock;
        started_at = some out.now;
      }),
    );
  }

  submit_goal_known :
      (old : Goal)
      → get r.goal_engine.goals goal.id ≡ some old
      → (submit_goal out r goal).1 ≡ some goal_already_exists
  unfolding submit_goal add_goal
  submit_goal_known old e = ground (arith, runs, named, e)

submit_rest_failed :
    (step : Runtime × Option Error) (e : Error) (rest : Runtime → Runtime × Option Error)
    → step.1 ≡ some e
    → submit_rest step rest ≡ (step.0, some e)
submit_rest_failed (r, some x) e rest h = ground arith
submit_rest_failed (r, none) e rest h = absurd (cc h)

submit_rest_done :
    (step : Runtime × Option Error) (rest : Runtime → Runtime × Option Error)
    → step.1 ≡ none
    → submit_rest step rest ≡ rest step.0
submit_rest_done (r, some x) rest h = absurd (cc h)
submit_rest_done (r, none) rest h = refl

-- what a run of submissions gives, where its names are fresh, and where not
Submits : Runtime → Bool → List Goal → Runtime × Option Error → Type 0
Submits r fresh goals answer =
    (answer.1 ≡ (if fresh then none else some goal_already_exists))
    × (fresh ≡ true → answer.0.goal_engine.active_goals ≡ r.goal_engine.active_goals ++ ids goals)

submit_goals-Submits :
    (out : ℕ → Outside) (r : Runtime) (goals : List Goal)
    → r.running ≡ true
    → All NotBlank (ids goals)
    → Submits r (all_fresh r.goal_engine.goals (ids goals)) goals (submit_goals out r goals)
unfolding submit_goals all_fresh Submits
submit_goals-Submits out r [] runs named = (refl, λ _. sym (append-nil _))
submit_goals-Submits out r (goal ∷ goals) runs named =
    let step = submit_goal (out (length goals)) r goal in
    elim (Option-cases (get r.goal_engine.goals goal.id)) [
      | inr (old, e) ↦
          let failed = submit_goal_known (out (length goals)) r goal runs named.0 old e in
          rw
            (
              submit_rest_failed step goal_already_exists (λ r1. submit_goals out r1 goals) failed,
              e,
            )
            (refl, λ h. absurd (cc h))
      | inl e ↦
          let done = submit_goal_fresh (out (length goals)) r goal runs named.0 e in
          let rest = submit_goals-Submits out step.0 goals done.runs named.1 in
          let same =
            all_fresh-IsAdded r.goal_engine.goals step.0.goal_engine.goals goal.id (ids goals)
              done.added in
          rw (submit_rest_done step (λ r1. submit_goals out r1 goals) done.accepted, e)
            (
              rest.0 ∙ ap (λ (b : Bool). if b then none else some goal_already_exists) same,
              λ h.
                  rest.1 (same ∙ h)
                  ∙ ap (λ a. a ++ ids goals) done.actives
                  ∙ append_assoc r.goal_engine.active_goals (goal.id ∷ []) (ids goals),
            )
    ]

declared_by-All :
    (kind : BlockKind) (o : Option (BlockKind × String)) → All NotBlank (declared_by kind o)
declared_by-All kind none = tt
declared_by-All kind (some (other, name)) = ground arith

declared_on-All : (kind : BlockKind) (line : String) → All NotBlank (declared_on kind line)
declared_on-All kind line = elim (Bool-cases (is_skipped line)) [
  | inl e ↦ rw e tt
  | inr e ↦ rw e (declared_by-All kind (header line))
]

pub declared-All : (kind : BlockKind) (lines : List String) → All NotBlank (declared kind lines)
unfolding declared
declared-All kind [] = tt
declared-All kind (line ∷ lines) =
    All-append NotBlank (declared_on kind (trim_space line)) (declared kind lines)
      (declared_on-All kind (trim_space line)) (declared-All kind lines)

-- A program whose goals have these names, none of them empty, is compiled and given to a runtime.
pub create_runtime-compile :
    (floats : Floats) (out : ℕ → Outside) (handler : ℕ) (actions : List String) (p : Planner)
    (r : Runtime) (program : GdlProgram) (goals : List String)
    → r.running ≡ true
    → names goal_block program ≡ goals
    → All NotBlank goals
    → let (p', r', e) = create_runtime out handler actions p r (compile floats program) in
      (e ≡ (if all_fresh r.goal_engine.goals goals then none else some goal_already_exists))
      × (all_fresh r.goal_engine.goals goals ≡ true
          → r'.goal_engine.active_goals ≡ r.goal_engine.active_goals ++ goals)
unfolding create_runtime compile Submits
create_runtime-compile floats out handler actions p r program goals runs same named =
    let all : ids (compile floats program).goals ≡ goals =
      compile_goals-ids floats 0 program.goals ∙ same in
    rw all at (submit_goals-Submits out r (compile floats program).goals runs (rw all named))

-- A text is compiled and given to a runtime that runs. If no goal is declared twice in the text and
-- none is known to the runtime, there is no error, and the declared goals are appended in their order
-- to the active ones; otherwise the answer is that a goal already exists.
pub create_runtime-compile_gdl :
    (floats : Floats) (out : ℕ → Outside) (handler : ℕ) (actions : List String) (p : Planner)
    (r : Runtime) (input : String)
    → r.running ≡ true
    → let (p', r', e) = create_runtime out handler actions p r (compile_gdl floats input) in
      let goals = declared goal_block (split input "\n") in
      (e ≡ (if all_fresh r.goal_engine.goals goals then none else some goal_already_exists))
      × (all_fresh r.goal_engine.goals goals ≡ true
          → r'.goal_engine.active_goals ≡ r.goal_engine.active_goals ++ goals)
unfolding compile_gdl
create_runtime-compile_gdl floats out handler actions p r input runs =
    create_runtime-compile floats out handler actions p r (parse_gdl input)
      (declared goal_block (split input "\n")) runs (names-parse_gdl goal_block input)
      (declared-All goal_block (split input "\n"))
