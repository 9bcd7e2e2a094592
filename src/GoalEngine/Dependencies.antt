-- ===== src/GoalEngine/Dependencies.antt =====
-- The paths that `Evaluate` keeps for a goal are enough to know when its condition may change.
use ugem.Prelude.{
  ◌≡◌, refl, sym, ap, subst, ◌∙◌, String, Bool, Option, true, false, none, some, List, [], ◌∷◌,
  eq_iff, eq_refl, get, get-put, contains, All, arith,
}
use ugem.Types.{TypedValue, State, StateMutation, Event}
use ugem.Goal.{Query, answer, ask, look, Goal, holds, track, note_path}
use ugem.StateManager.{StateManager, apply_event, run_mutator}
use ugem.StateManager.Events.{last_write, get-apply_mutations, apply_event-none}
use ugem.GoalEngine.{GoalEngine, evaluate, any_in}

contains-note_path_self :
    (path : String) (paths : List String) → contains path (note_path path paths) ≡ true
unfolding contains
contains-note_path_self path paths = ground (arith, eq_refl path)

contains-note_path :
    (path p : String) (paths : List String)
    → contains p paths ≡ true
    → contains p (note_path path paths) ≡ true
unfolding contains
contains-note_path path p paths h = ground arith

-- The condition reads by `Get` only.
pub data IsTracked : Query → Type 0 where
  answers : (b : Bool) → IsTracked (answer b)
  asks :
      (path : String) (next : Option TypedValue → Query)
      → ((o : Option TypedValue) → IsTracked (next o))
      → IsTracked (ask path next)

pub track-holds : (q : Query) (d : State) → (track q d).0 ≡ holds q d
unfolding track holds
track-holds (answer b) d = refl
track-holds (ask path next) d = track-holds (next (get d path)) d
track-holds (look next) d = track-holds (next d) d

-- On a state that agrees on the paths that it read, a condition that reads by `Get` only reads the same
-- paths and gives the same answer.
track_agrees :
    {q : Query} (d e : State)
    → IsTracked q
    → ((path : String) → contains path (track q d).1 ≡ true → get d path ≡ get e path)
    → track q e ≡ track q d
unfolding track
track_agrees d e (answers b) h = refl
track_agrees d e (asks path next tracked) h =
    let same : get d path ≡ get e path = h path (contains-note_path_self path _) in
    let ih =
      track_agrees d e (tracked (get d path))
        (λ p c. h p (contains-note_path path p (track (next (get d path)) d).1 c)) in
    ap (λ (r : Bool × List String). (r.0, note_path path r.1))
      (subst (λ o. track (next o) e ≡ track (next (get d path)) d) same ih)

-- Each mutation of an event writes one of the paths that the event declares.
abbrev pub Declares : List String → List StateMutation → Type 0
Declares writes ms = All (λ (m : StateMutation). contains m.path writes ≡ true) ms

last_write_undeclared :
    (writes : List String) (ms : List StateMutation) (path : String)
    → Declares writes ms
    → contains path writes ≡ false
    → last_write ms path ≡ none
last_write_undeclared writes [] path h c = refl
last_write_undeclared writes (m ∷ ms) path h c =
    ground (arith, last_write_undeclared writes ms path h.1 c, h.0, eq_iff m.path path)

any_in_disjoint :
    (writes deps : List String) (path : String)
    → any_in writes deps ≡ false
    → contains path deps ≡ true
    → contains path writes ≡ false
unfolding any_in contains
any_in_disjoint [] deps path h c = refl
any_in_disjoint (w ∷ writes) deps path h c =
    ground (arith, any_in_disjoint writes deps path, eq_iff w path)

evaluate_lem :
    (g : GoalEngine) (goal : Goal) (q : Query) (d : State)
    → goal.condition ≡ some q
    → ((evaluate g goal d).1 ≡ (track q d).0)
      × (get (evaluate g goal d).0.goal_dependencies goal.id ≡ some (track q d).1)
unfolding evaluate
evaluate_lem g goal q d e =
    rw e (refl, get-put g.goal_dependencies goal.id goal.id (track q d).1 ∙ (rw eq_refl))

get_unwritten :
    (s s' : StateManager) (event : Event) (path : String)
    → event.state_mutator ≡ none
    → apply_event s event ≡ (s', none)
    → last_write event.state_mutations path ≡ none
    → get s'.data_map path ≡ get s.data_map path
unfolding run_mutator
get_unwritten s s' event path no_f accepted unwritten =
    let (d, ran, after, _) = apply_event-none s s' event accepted in
    ground (arith, ran, after, get-apply_mutations s.data_map event.state_mutations path)

some_eq {ℓ} : {A : Type ℓ} {a b : A} → some a ≡ some b → a ≡ b
some_eq h = cc

-- Dependencies are sound. A goal has a condition that reads the state by `Get` only, and has been
-- evaluated. If then an event without a mutator is accepted whose mutations write declared paths only,
-- none of them among the paths that were kept for the goal, the condition still has the answer that
-- `Evaluate` returned.
pub evaluate_stable :
    (g : GoalEngine) (goal : Goal) (q : Query) (deps : List String) (s s' : StateManager)
    (event : Event)
    → goal.condition ≡ some q
    → IsTracked q
    → get (evaluate g goal s.data_map).0.goal_dependencies goal.id ≡ some deps
    → event.state_mutator ≡ none
    → Declares event.write_paths event.state_mutations
    → any_in event.write_paths deps ≡ false
    → apply_event s event ≡ (s', none)
    → holds q s'.data_map ≡ (evaluate g goal s.data_map).1
evaluate_stable g goal q deps s s' event has_q tracked kept no_f declared apart accepted =
    let (answered, noted) = evaluate_lem g goal q s.data_map has_q in
    let same : (path : String)
        → contains path (track q s.data_map).1 ≡ true
        → get s.data_map path ≡ get s'.data_map path =
      λ path c. sym (
        get_unwritten s s' event path no_f accepted (
          last_write_undeclared event.write_paths event.state_mutations path declared (
            any_in_disjoint event.write_paths deps path apart
              (subst (λ ps. contains path ps ≡ true) (some_eq (sym noted ∙ kept)) c)))) in
    let here = track_agrees s.data_map s'.data_map tracked same in
    sym (track-holds q s'.data_map) ∙ ap (λ (r : Bool × List String). r.0) here ∙ sym answered
