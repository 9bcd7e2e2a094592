-- ===== src/StateManager/Exclusion.antt =====
-- What holders of locks may rely on.
use native.Mathlib.Decide.{dec_lt}
use ugem.Prelude.{
  ◌≡◌, ◌≢◌, ◌∙◌, String, true, none, List, count, contains, count_of-contains, arith,
}
use ugem.Prelude.Int.{◌+ℤ◌}
use ugem.StateManager.{StateManager, lock_of, lock_loop, lock, unlock}
use ugem.StateManager.Locks.{
  IsTaken, lock_loop-IsTaken, unlock_loop_other, unlock_loop-IsReturned, IsCounted, returned_eq,
}

lock-lock_loop :
    (s s' : StateManager) (paths : List String) (owner : String)
    → lock s paths owner ≡ (s', none)
    → lock_loop owner paths s.locks ≡ (s'.locks, none)
unfolding lock
lock-lock_loop s s' paths owner h = ground arith

pub lock-IsTaken :
    (s s' : StateManager) (paths : List String) (owner j : String)
    → lock s paths owner ≡ (s', none)
    → IsTaken owner (count j paths) (lock_of s.locks j) (lock_of s'.locks j)
lock-IsTaken s s' paths owner j h =
    lock_loop-IsTaken owner paths s.locks j (lock-lock_loop s s' paths owner h)

-- Unlocking the paths that an owner with a name has just locked gives back to every path whose lock
-- was counted, owned exactly while the count is positive, the lock that it had.
unlock-lock :
    (s s' : StateManager) (paths : List String) (owner j : String)
    → owner ≢ ""
    → IsCounted (lock_of s.locks j)
    → lock s paths owner ≡ (s', none)
    → lock_of (unlock s' paths owner).locks j ≡ lock_of s.locks j
unfolding unlock ◌+ℤ◌
unlock-lock s s' paths owner j named l h =
    let taken = lock-IsTaken s s' paths owner j h in
    elim (dec_lt 0 (count j paths)) [
      | yes more ↦
          returned_eq owner l.uses (count j paths) (lock_of s.locks j) (lock_of s'.locks j) _ named
            more l.counted l.free l.held taken
            (unlock_loop-IsReturned owner named paths s'.locks j l.uses
              (ground (arith, taken, l.counted)) more)
      | no never ↦
          unlock_loop_other owner named paths s'.locks j (omega arith)
          ∙ ground (arith, taken, l.counted)
    ]

-- Once an owner with a name has locked a path, no other owner's `Lock` of paths with it among them
-- succeeds.
pub lock-excludes :
    (s s' : StateManager) (paths others : List String) (path a b : String)
    → lock s paths a ≡ (s', none)
    → contains path paths ≡ true
    → contains path others ≡ true
    → a ≢ ""
    → a ≢ b
    → (lock s' others b).1 ≢ none
lock-excludes s s' paths others path a b h mine theirs named other e = grind (
  arith,
  lock-IsTaken s s' paths a path h,
  lock-IsTaken s' (lock s' others b).0 others b path (ground arith),
  count_of-contains path paths mine,
  count_of-contains path others theirs,
)
