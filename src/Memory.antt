-- ===== src/Memory.antt =====
-- runtime/types.go: what the dispatcher remembers of its actions, and what it counts. A duration is
-- a number of nanoseconds; all that are ever added up stay below the 292 years of a `Duration`.
use ugem.Prelude.{
  ℕ, ◌+◌, ◌-◌, ◌*◌, ◌/◌, String, Option, none, some, List, [], ◌∷◌, ◌++◌, GoMap, if◌then◌else◌,
  nat_eq, ltb, length, drop, get, put,
}
use ugem.Types.{Error, Value}

pub record ExecutionRecord : Type 0 where
  pub id : String
  pub goal_id : String
  pub action_id : String
  pub start_time : ℕ
  pub end_time : ℕ
  pub status : String
  pub input : GoMap Value
  pub output : Option (GoMap Value)
  pub error : Option Error
  pub retry_attempt : ℕ

pub record ShortTermMemory : Type 0 where
  pub records : List ExecutionRecord
  pub max_records : ℕ
  pub failures : GoMap ℕ
  pub failure_paths : GoMap (List String)

abbrev pub new_short_term_memory : ℕ → ShortTermMemory
new_short_term_memory max_records = record {
  records = [];
  max_records = max_records;
  failures = [];
  failure_paths = [];
}

unfoldable pub add_record : ShortTermMemory → ExecutionRecord → ShortTermMemory
add_record m r =
    let records = m.records ++ r ∷ [] in
    record m { records = if ltb m.max_records (length records) then drop 1 records else records }

unfoldable pub get_failure_count : ShortTermMemory → String → ℕ
get_failure_count m goal_id = elim (get m.failures goal_id) [ none ↦ 0 | some n ↦ n ]

unfoldable pub get_recent_failures : ShortTermMemory → String → List String
get_recent_failures m goal_id = elim (get m.failure_paths goal_id) [ none ↦ [] | some xs ↦ xs ]

unfoldable pub record_failure : ShortTermMemory → String → String → ShortTermMemory
record_failure m goal_id message = record m {
  failures = put m.failures goal_id (get_failure_count m goal_id + 1);
  failure_paths = put m.failure_paths goal_id (get_recent_failures m goal_id ++ message ∷ []);
}

unfoldable pub clear : ShortTermMemory → ShortTermMemory
clear m = record m { records = []; failures = []; failure_paths = [] }

-- the fields of `Metrics` that the dispatcher writes
pub record Metrics : Type 0 where
  pub total_actions : ℕ
  pub successful_actions : ℕ
  pub failed_actions : ℕ
  pub avg_execution_time : ℕ
  pub max_execution_time : ℕ
  pub min_execution_time : ℕ

unfoldable pub update_execution_time : Metrics → ℕ → Metrics
update_execution_time m d =
    if nat_eq m.total_actions 1
    then record m { avg_execution_time = d; max_execution_time = d; min_execution_time = d }
    else record m {
      avg_execution_time = (m.avg_execution_time * (m.total_actions - 1) + d) / m.total_actions;
      max_execution_time = if ltb m.max_execution_time d then d else m.max_execution_time;
      min_execution_time = if ltb d m.min_execution_time then d else m.min_execution_time;
    }

unfoldable pub record_action_success : Metrics → ℕ → Metrics
record_action_success m d =
    update_execution_time
      (record m {
        successful_actions = m.successful_actions + 1;
        total_actions = m.total_actions + 1;
      })
      d

unfoldable pub record_action_failure : Metrics → ℕ → Metrics
record_action_failure m d =
    update_execution_time
      (record m { failed_actions = m.failed_actions + 1; total_actions = m.total_actions + 1 }) d
