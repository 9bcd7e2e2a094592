-- ===== src/Gdl/Events.antt =====
-- gdl/compiler.go: the events of a compiled text, and the goals that they wake.
use ugem.Prelude.{String, List, [], ◌∷◌, map, ◌≡◌, refl, All}
use ugem.Types.{Event, State}
use ugem.Goal.{Closures}
use ugem.GoalEngine.{GoalEngine, handle_event}
use ugem.Gdl.{EventDef}
use ugem.Gdl.Parser.{parse_gdl}
use ugem.Gdl.Compiler.{Floats, compile_event, compile, compile_gdl}
use ugem.Gdl.Contracts.{IsPathless, parse_gdl-IsPathless}

-- An event that leaves every engine as it is.
abbrev pub IsIdle : Event → Type 0
IsIdle event =
    (closures : Closures) (d : State) (g : GoalEngine) (order : List String)
    → handle_event closures d g order event ≡ g

compiled-IsIdle :
    (events : List EventDef) → All IsPathless events → All IsIdle (map compile_event events)
unfolding compile_event handle_event
compiled-IsIdle [] h = tt
compiled-IsIdle (event ∷ events) ((reads, writes), h) =
    ((λ closures d g order. rw writes refl), compiled-IsIdle events h)

-- No event of a compiled text changes anything in a goal engine that handles it: it writes no path,
-- so no goal is woken, whatever triggers and dependencies the goals have.
pub handle_event-compile_gdl :
    (floats : Floats) (input : String) → All IsIdle (compile_gdl floats input).events
unfolding compile_gdl compile
handle_event-compile_gdl floats input =
    compiled-IsIdle (parse_gdl input).events (parse_gdl-IsPathless input)
