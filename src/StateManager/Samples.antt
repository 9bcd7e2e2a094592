-- ===== src/StateManager/Samples.antt =====
-- Runs of the state manager, and its theorems at them.
use ugem.Prelude.{
  ◌≡◌, ◌≢◌, refl, String, none, some, List, [], ◌∷◌, get, put, merge, contains, is_some, ap, ◌↔◌,
  not,
}
use ugem.Types.{path_locked, invariant_breached, ok, Event, Mutator}
use ugem.SampleData.{amount, write, event_of, different}
use ugem.StateManager.{
  Invariant, StateManager, new_state_manager, check_invariants, lock_of, lock, apply_event,
  take_snapshot, diff, set_path, any_locked, has_empty, lock_loop, acquire, run_mutator,
  apply_mutations,
}
use ugem.StateManager.Exclusion.{lock-excludes}
use ugem.StateManager.Events.{lock-stops-apply_event, apply_event-keeps-invariants}
use ugem.StateManager.Snapshots.{difference, diff_exact}
use ugem.StateManager.Reachable.{start, next, setting, locking, IsValid, Reach-IsValid}

abbrev two_paths : List String
two_paths = "account.a" ∷ "account.b" ∷ []

abbrev locked : StateManager
locked = (lock new_state_manager two_paths "alice").0

locked_now : lock new_state_manager two_paths "alice" ≡ (locked, none)
unfolding lock has_empty lock_loop acquire lock_of get put
locked_now = refl

lock-excludes_example : (lock locked ("account.b" ∷ []) "bob").1 ≢ none
unfolding contains
lock-excludes_example =
    lock-excludes new_state_manager locked two_paths ("account.b" ∷ []) "account.b" "alice" "bob"
      locked_now refl refl (different "alice" "" refl) (different "alice" "bob" refl)

lock-stops-apply_event_example :
    apply_event locked (event_of ("account.b" ∷ []) none (write "account.b" 5 ∷ []))
    ≡ (locked, some path_locked)
unfolding contains
lock-stops-apply_event_example =
    lock-stops-apply_event new_state_manager locked two_paths "account.b" "alice"
      (event_of ("account.b" ∷ []) none (write "account.b" 5 ∷ [])) locked_now
      (different "alice" "" refl) refl refl

-- A balance is there.
abbrev has_balance : Invariant
has_balance = record { name = "balance"; predicate = λ d. is_some (get d "account.a") }

abbrev guarded : StateManager
guarded = record new_state_manager {
  data_map = ("account.a", amount 1) ∷ [];
  invariants = has_balance ∷ [];
}

abbrev deposit : Mutator
deposit d = ok (write "account.a" 7 ∷ write "account.b" 2 ∷ [])

abbrev deposited : StateManager
deposited = (apply_event guarded (event_of two_paths (some deposit) [])).0

apply_event-keeps-invariants_example :
    check_invariants deposited.invariants deposited.data_map ≡ none
unfolding apply_event get any_locked lock_of run_mutator check_invariants apply_mutations put merge
apply_event-keeps-invariants_example =
    apply_event-keeps-invariants guarded deposited (event_of two_paths (some deposit) []) deposit
      ((λ d e same. ap is_some (same "account.a")), tt) (refl, tt) refl refl refl

-- The invariant asks that nothing is written at `account.b`, and something is.
abbrev strict : StateManager
strict = record new_state_manager {
  invariants = record { name = "none"; predicate = λ d. not (is_some (get d "account.b")) } ∷ [];
}

abbrev breach : Event
breach = event_of two_paths none (write "account.b" 9 ∷ [])

-- The event is accepted although the state then breaks the registered invariant.
breach_is_accepted :
    (check_invariants strict.invariants (apply_event strict breach).0.data_map
      ≡ some (invariant_breached "none"))
    × ((apply_event strict breach).1 ≡ none)
unfolding apply_event check_invariants get any_locked lock_of run_mutator apply_mutations put
breach_is_accepted = (refl, refl)

abbrev payments : List Event
payments =
    event_of two_paths none (write "account.a" 3 ∷ []) ∷ event_of two_paths (some deposit) [] ∷ []

abbrev mixed : Event
mixed = event_of ("x" ∷ []) (some (λ d. ok (write "x" 1 ∷ []))) (write "x" 2 ∷ [])

diff_exact_example :
    let before = (take_snapshot guarded).1 in
    ((get (diff deposited before) "account.b" ≡ none)
      ↔ (get before.state "account.b" ≡ get deposited.data_map "account.b"))
    × (get (diff deposited before) "account.b"
        ≡ difference (get before.state "account.b") (get deposited.data_map "account.b"))
unfolding take_snapshot apply_event get any_locked lock_of run_mutator check_invariants
    apply_mutations put merge
diff_exact_example =
    diff_exact deposited (take_snapshot guarded).1 "account.b" (refl, (refl, tt)) (refl, tt)

Reach-IsValid_example :
    IsValid (lock (set_path new_state_manager "x" (amount 4)).0 two_paths "alice").0
Reach-IsValid_example = Reach-IsValid (
    next (next start (setting "x" (amount 4)))
      (locking two_paths "alice" (different "alice" "" refl)))
