-- ===== src/StateManager/Locks.antt =====
-- What `Lock` and `Unlock` do to the lock of each path.
use native.Mathlib.Nat.{zero-add}
use native.Mathlib.Decide.{dec_lt}
use ugem.Prelude.{
  ap, subst, ◌∙◌, ℕ, ◌+◌, ◌<◌, ◌≡◌, ◌≢◌, refl, String, true, false, ◌&&◌, ◌⊎◌, inl, inr, none, some,
  List, [], ◌∷◌, GoMap, ◌==◌, eq_iff, eq_refl, if◌then◌else◌, get, put, get-put, ltb, nat_eq, count,
  arith, Bool-cases, Option-cases,
}
use ugem.Prelude.Int.{pos, ◌+ℤ◌, ◌-ℤ◌}
use ugem.StateManager.{PathLock, lock_of, acquire, released, lock_loop, release, unlock_loop}

pub lock_of-put :
    (locks : GoMap PathLock) (path j : String) (l : PathLock)
    → lock_of (put locks path l) j ≡ (if path == j then l else lock_of locks j)
unfolding lock_of
lock_of-put locks path j l = ground (arith, get-put locks path j l)

-- One round of the loop of `Lock`: the path was free or its owner's, and is now referred to once
-- more; other paths are as before.
pub acquire-some :
    (owner path : String) (locks : GoMap PathLock) {locks' : GoMap PathLock}
    → acquire owner path locks ≡ some locks'
    → (locks'
        ≡ put locks path (record { owner = owner; refs = (lock_of locks path).refs +ℤ pos 1 }))
      × (((lock_of locks path).owner ≡ "") ⊎ ((lock_of locks path).owner ≡ owner))
unfolding acquire
acquire-some owner path locks h =
    ground (arith, eq_iff (lock_of locks path).owner "", eq_iff (lock_of locks path).owner owner)

-- How `c` rounds of `Lock` change a lock.
pub record IsTaken (owner : String) (c : ℕ) (old new : PathLock) : Type 0 where
  pub more : new.refs ≡ old.refs +ℤ pos c
  pub whose : new.owner ≡ (if ltb 0 c then owner else old.owner)
  pub free : 0 < c → (old.owner ≡ "") ⊎ (old.owner ≡ owner)

IsTaken-zero : (owner : String) (l : PathLock) → IsTaken owner 0 l l
unfolding ◌+ℤ◌
IsTaken-zero owner l = ground arith

IsTaken-suc :
    (owner : String) (c : ℕ) (l l1 l' : PathLock)
    → l1 ≡ record { owner = owner; refs = l.refs +ℤ pos 1 }
    → ((l.owner ≡ "") ⊎ (l.owner ≡ owner))
    → IsTaken owner c l1 l'
    → IsTaken owner (1 + c) l l'
unfolding ◌+ℤ◌
IsTaken-suc owner c l l1 l' e f t = ground arith

IsTaken-round :
    (owner path j : String) (c : ℕ) (locks locks1 : GoMap PathLock) (l' : PathLock)
    → acquire owner path locks ≡ some locks1
    → IsTaken owner c (lock_of locks1 j) l'
    → IsTaken owner ((if path == j then 1 else 0) + c) (lock_of locks j) l'
IsTaken-round owner path j c locks locks1 l' e t = elim (Bool-cases (path == j)) [
  | inl same ↦
      rw (same, ← (eq_iff path j).0 same)
        (IsTaken-suc owner c (lock_of locks path) (lock_of locks1 path) l' (now path (eq_refl path))
          (acquire-some owner path locks e).1 (rw (← (eq_iff path j).0 same) at t))
  | inr other ↦ rw (other, zero-add) (rw (before other) at t)
]
  where
    at_put :
        (i : String)
        → lock_of locks1 i ≡ (
            if path == i
            then record { owner = owner; refs = (lock_of locks path).refs +ℤ pos 1 }
            else lock_of locks i)
    at_put i = rw (acquire-some owner path locks e).0 (lock_of-put locks path i _)

    now :
        (i : String)
        → (path == i) ≡ true
        → lock_of locks1 i ≡ record { owner = owner; refs = (lock_of locks path).refs +ℤ pos 1 }
    now i h = at_put i ∙ (rw h)

    before : (path == j) ≡ false → lock_of locks1 j ≡ lock_of locks j
    before h = at_put j ∙ (rw h)

module _ (owner : String) where
  pub lock_loop-IsTaken :
      (paths : List String) (locks : GoMap PathLock) {locks' : GoMap PathLock} (j : String)
      → lock_loop owner paths locks ≡ (locks', none)
      → IsTaken owner (count j paths) (lock_of locks j) (lock_of locks' j)
  unfolding lock_loop count
  lock_loop-IsTaken [] locks {locks'} j h =
      subst (λ now. IsTaken owner 0 (lock_of locks j) (lock_of now j)) (ap (λ r. r.0) h)
        (IsTaken-zero owner (lock_of locks j))
  lock_loop-IsTaken (path ∷ paths) locks {locks'} j h =
      elim (Option-cases (acquire owner path locks)) [
        | inl e ↦ absurd (cc (rw (e, lock_loop) at h))
        | inr (locks1, e) ↦
            IsTaken-round owner path j (count j paths) locks locks1 (lock_of locks' j) e
              (lock_loop-IsTaken paths locks1 j (rw (e, lock_loop) at h))
      ]

-- `release` at a path that its owner holds.
pub lock_of-release :
    (owner path j : String) (locks : GoMap PathLock)
    → owner ≢ ""
    → lock_of (release owner path locks) j ≡ (
        if path == j && (lock_of locks j).owner == owner
        then released (lock_of locks j)
        else lock_of locks j)
unfolding release lock_of
lock_of-release owner path j locks h = elim (Option-cases (get locks path)) [
  | inl e ↦ ground (arith, eq_iff path j, eq_iff "" owner)
  | inr (l, e) ↦ ground (arith, eq_iff path j, get-put locks path j (released l))
]

lock_of-release_self :
    (owner path j : String) (locks : GoMap PathLock) (n k : ℕ)
    → owner ≢ ""
    → (path == j) ≡ true
    → lock_of locks j ≡ record { owner = owner; refs = pos n }
    → n ≡ 1 + k
    → lock_of (release owner path locks) j
      ≡ record { owner = if nat_eq k 0 then "" else owner; refs = pos k }
unfolding released ◌-ℤ◌
lock_of-release_self owner path j locks n k named same h e =
    ground (arith, lock_of-release owner path j locks named, eq_refl owner)

-- How a lock that is referred to `n` times more than `c` is left by `c` rounds of `Unlock`.
pub record IsReturned (owner : String) (n : ℕ) (new : PathLock) : Type 0 where
  left : new.refs ≡ pos n
  whose : new.owner ≡ (if nat_eq n 0 then "" else owner)

module _ (owner : String) (named : owner ≢ "") where
  pub unlock_loop_other :
      (paths : List String) (locks : GoMap PathLock) (j : String)
      → count j paths ≡ 0
      → lock_of (unlock_loop owner paths locks) j ≡ lock_of locks j
  unfolding unlock_loop count
  unlock_loop_other [] locks j h = refl
  unlock_loop_other (path ∷ paths) locks j h = ground (
    arith,
    unlock_loop_other paths (release owner path locks) j,
    lock_of-release owner path j locks named,
  )

  pub unlock_loop-IsReturned :
      (paths : List String) (locks : GoMap PathLock) (j : String) (n : ℕ)
      → lock_of locks j ≡ record { owner = owner; refs = pos (n + count j paths) }
      → 0 < count j paths
      → IsReturned owner n (lock_of (unlock_loop owner paths locks) j)
  unfolding unlock_loop count
  unlock_loop-IsReturned [] locks j n h p = absurd (omega arith)
  unlock_loop-IsReturned (path ∷ paths) locks j n h p = elim (Bool-cases (path == j)) [
    | inr other ↦
        unlock_loop-IsReturned paths (release owner path locks) j n
          (ground (arith, lock_of-release owner path j locks named)) (ground arith)
    | inl same ↦ elim (dec_lt 0 (count j paths)) [
      | yes more ↦
          unlock_loop-IsReturned paths (release owner path locks) j n
            (ground (
              arith,
              lock_of-release_self owner path j locks (n + (1 + count j paths)) (n + count j paths)
                  named same,
            ))
            more
      | no last ↦ ground (
        arith,
        unlock_loop_other paths (release owner path locks) j,
        lock_of-release_self owner path j locks (n + (1 + count j paths)) n named same,
      )
    ]
  ]

-- The locks that the program keeps: counted by a natural number, and owned while it is positive.
pub record IsCounted (l : PathLock) : Type 0 where
  pub uses : ℕ
  pub counted : l.refs ≡ pos uses
  pub free : uses ≡ 0 → l.owner ≡ ""
  pub held : 0 < uses → l.owner ≢ ""

pub returned_eq :
    (owner : String) (n c : ℕ) (l taken new : PathLock)
    → owner ≢ ""
    → 0 < c
    → l.refs ≡ pos n
    → (n ≡ 0 → l.owner ≡ "")
    → (0 < n → l.owner ≢ "")
    → IsTaken owner c l taken
    → IsReturned owner n new
    → new ≡ l
returned_eq owner n c l taken new named p q free held t r = ground arith
