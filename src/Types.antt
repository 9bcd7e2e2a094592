-- ===== src/Types.antt =====
-- runtime/types.go and the error values of the package: what the parts of the runtime exchange.
-- A path of the state is its text, an instant a number of nanoseconds (0 is Go's zero time), and a
-- function that returns an `error` returns an `Option Error`.
use ugem.Prelude.{
  ℕ, ◌≡◌, String, Bool, true, false, Option, List, GoMap, ◌==◌, ◌&&◌, ◌↔◌, eq_iff, arith,
}
use ugem.Prelude.Int.{ℤ, eqb_ℤ}

-- The dynamic values of an `interface{}` that Go compares by `==`.
pub data Value : Type 0 where
  null : Value
  text : String → Value
  flag : Bool → Value
  number : ℤ → Value

pub record TypedValue : Type 0 where
  pub type : String
  pub value : Value

pub record TraceContext : Type 0 where
  pub trace_id : String
  pub parent_event_id : String
  pub goal_id : String
  pub action_id : String

pub record StateMutation : Type 0 where
  pub path : String
  pub value : TypedValue

pub data Error : Type 0 where
  path_locked invalid_path snapshot_not_found : Error
  event_not_found invalid_event_id invalid_range : Error
  goal_not_found invalid_goal goal_already_exists : Error
  item_not_found subscriber_not_found invalid_event : Error
  no_plan_found cyclic_dependency unknown_action_type : Error
  action_timeout action_failed action_cancelled invalid_action : Error
  runtime_not_running runtime_already_running : Error
  invariant_breached : String → Error
  -- a run-time panic: an index or a slice bound out of range
  panic : Error
  -- an error of the operating system or of a closure
  other : String → Error

pub data Result {ℓ} (A : Type ℓ) : Type ℓ where
  ok : A → Result A
  err : Error → Result A

-- The contents of a state: `map[Path]TypedValue`.
abbrev pub State : Type 0
State = GoMap TypedValue

-- A `StateMutator` is run on a copy of the state. The interface lets it read, set paths and fail,
-- so it is the list of its `Set` calls, or its error, as a function of what it reads.
abbrev pub Mutator : Type 0
Mutator = State → Result (List StateMutation)

pub record Event : Type 0 where
  pub id : ℕ  -- uint64
  pub clock : ℕ  -- uint64
  pub timestamp : ℕ
  pub type : String
  pub read_paths : List String
  pub write_paths : List String
  pub payload : GoMap Value
  pub trace : TraceContext
  pub state_mutator : Option Mutator
  pub state_mutations : List StateMutation
  pub correction_of : ℕ

unfoldable pub value_eq : Value → Value → Bool
value_eq null null = true
value_eq (text s) (text t) = s == t
value_eq (flag true) (flag true) = true
value_eq (flag false) (flag false) = true
value_eq (number i) (number j) = eqb_ℤ i j
value_eq _ _ = false

-- Go's `==` on `TypedValue`
unfoldable pub typed_eq : TypedValue → TypedValue → Bool
unfolding value_eq
typed_eq a b = a.type == b.type && value_eq a.value b.value

value_eq_iff : (v w : Value) → (value_eq v w ≡ true) ↔ (v ≡ w)
unfolding value_eq
value_eq_iff (text s) (text t) = ground (arith, eq_iff s t)
value_eq_iff (flag true) (flag true) = ground arith
value_eq_iff (flag false) (flag false) = ground arith
value_eq_iff (number i) (number j) = ground arith
value_eq_iff null null = ground arith
value_eq_iff _ _ = ground arith

pub typed_eq_iff : (a b : TypedValue) → (typed_eq a b ≡ true) ↔ (a ≡ b)
unfolding typed_eq
typed_eq_iff a b = ground (arith, eq_iff a.type b.type, value_eq_iff a.value b.value)
