-- ===== src/Lib.antt =====
-- UGEM: the core of the goal runtime.
--
-- A runtime (runtime/kernel.go) takes events and goals. `SubmitEvent` appends the event to the log
-- (runtime/event_log.go, behind it storage/store.go), applies it to the state
-- (runtime/state_manager.go), hands it to the goals (runtime/goal_engine.go) and publishes it
-- (runtime/event_bus.go). `SubmitGoal` adds a goal and enqueues it (runtime/scheduler.go). The
-- execution loop fails, completes or plans the active goals (runtime/planner.go); a plan's actions
-- are tried by the dispatcher (runtime/action_dispatcher.go), and their results are submitted as
-- events. `Replay` and `Rewind` rebuild the state from the log. The graph of the dependencies between
-- goals (planning/planner.go), the cluster of nodes that goals are placed on (distributed/cluster.go)
-- and users, sessions and policies (security/auth.go) stand beside the runtime. Goals can be written
-- as texts of the goal definition language: `ParseGDL` (gdl/parser.go) reads a text, `LoadWorkspace`
-- (gdl/workspace.go) the texts of a project, and the compiler (gdl/compiler.go) makes goals and events
-- of them and submits the goals to a runtime.
--
-- Files, each after the code that it is about:
--   Prelude        slices, Go maps, sorting, integers and strings; no code of the repository
--   Types          runtime/types.go and the error values: TypedValue, Event, Error
--   StateManager   runtime/state_manager.go: lock is Lock, apply_event is ApplyEvent, reconstruct is
--                  Reconstruct, take_snapshot and apply_snapshot are Snapshot and Apply, diff is Diff
--   Wal            storage/store.go: open_wal, append_wal and truncate of the WriteAheadLog
--   SnapshotStore  storage/store.go: save, load, latest, delete_snapshot and list_snapshots of the
--                  SnapshotStore; open_store is NewSnapshotStore. Archive is what it promises
--   Objects        storage/store.go and gdl/uql.go: set_object and search of the PersistentStore,
--                  parse_uql behind its regular expressions, and execute
--   Gdl            gdl/parser.go: Readers and Parser are ParseGDL, a function for each branch of its
--                  loop; gdl/compiler.go: Compiler; gdl/workspace.go: Config is parseConfig and the
--                  project file of InitProject, Workspace is LoadWorkspace and Apply
--   EventLog       runtime/event_log.go: append, get_event, range, replay_until
--   Goal           runtime/types.go and runtime/state_tracker.go: goals, conditions, track
--   GoalEngine     runtime/goal_engine.go: add_goal to handle_event, one function per method
--   Scheduler      runtime/scheduler.go: schedule, enqueue, dequeue, dequeue_ready, the ticker's
--                  process_scheduled_items
--   EventBus       runtime/event_bus.go: subscribe, unsubscribe, publish
--   Memory         runtime/types.go: ShortTermMemory, and the Metrics of actions
--   Dispatcher     runtime/action_dispatcher.go: execute_with_retry, calculate_backoff
--   Workers        runtime/action_dispatcher.go: the queue of tasks, execute_task, cancel_action
--   Auth           security/auth.go: users, sessions, permissions and policies
--   Cycles         planning/planner.go and runtime/planner.go: the search for a cycle of HasCycle and
--                  of HasCyclicDependency
--   Planning       planning/planner.go: add_node, add_dependency, remove_node, has_cycle,
--                  topological_sort, get_execution_order; in Analysis the what-if analyzer and the
--                  planner around the graph
--   Planner        runtime/planner.go: resolve, resolve_with_fallback, validate
--   Cluster        distributed/cluster.go: add_node to replicate_goal, one function per method
--   Kernel         runtime/kernel.go: submit_event, submit_goal, replay, rewind, persist; in
--                  Processing process_goals, execute_plan and simulate, where the goroutine of a plan
--                  is execute_plan, release_place and forget_plan
--   SampleData     values and events of the runs in the Samples modules
--
-- A method is a function from the old object to the new one and its result. A Go map is an
-- association list without double keys; where the code ranges over a map, the order of the visit is
-- an argument or is proved not to matter. A `uint64` wraps by `u64`; an `int` that counts references
-- or is a priority is an integer. A clock of the wall is an argument, in nanoseconds. What the
-- operating system answers to a write is the record `Disk` or `Access`, and what stands in the
-- folders of a project the record `Project`; the client's functions are functions of the state
-- they read (`Mutator`, `Query`, `Closures`), what `filepath` makes of texts is `Paths`, and `Outside` collects what one call of the runtime
-- meets. Most loops are structural. `decimal` runs on fuel, as much as the number; the search for
-- a cycle on as much as the graph has names, of which each visit marks one more
-- (find_cycle-ne-exhausted in Cycles/Fuel); the loop of the topological sort on as much as the queue and the
-- counts above 0 can give (Planning/Sorting); the search for affected goals on two more than
-- there are nodes, of which a graph without dependencies needs one. A step relation lets the
-- passes of the execution loop and the ends of plans come in any order. How two texts compare as
-- floats is the argument `Floats` of the compiled conditions.
--
-- Not modelled: other goroutines and mutexes (a method is one step, as its mutex makes it), the writes
-- of `persistChanges`, the race of a task with its timeout, critical paths, the risks of scenarios
-- (floats), the state that nodes would exchange, the summary and the example files of a project, the
-- actions that the goal definition language brings along, and the servers, loggers and plugins around
-- the runtime. In the code of actions and of the backoff, a `Duration` is the word of its 64 bits.
pub mod Prelude
pub mod Types
pub mod SampleData
pub mod StateManager
pub mod SnapshotStore
pub mod Objects
pub mod Wal
pub mod Workers
pub mod EventLog
pub mod Gdl
pub mod Goal
pub mod GoalEngine
pub mod Scheduler
pub mod EventBus
pub mod Cluster
pub mod Cycles
pub mod Planner
pub mod Planning
pub mod Kernel
pub mod Auth
pub mod Memory
pub mod Dispatcher
