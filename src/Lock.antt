-- ===== src/Lock.antt =====
-- src/lib/lock.rs: the spin lock as a state machine. Any number of cores take steps in any order; a step
-- is one access of `locked`, and `daif` is the interrupt mask that a core comes back to.
pub mod Exclusive
mod Tests
use zheos.Common.{ℕ, ◌+◌, ◌≤◌, ◌<◌, ◌^◌, ◌≡◌, Bool, true, false, ◌==◌, if◌then◌else◌}

abbrev pub max_lock_attempts : ℕ
max_lock_attempts = 2 ^ 24

-- Where a core is: it does not want the lock, it waits with a number of attempts, it has the guard, or
-- it panicked behind too many attempts.
pub data Phase : Type 0 where
  idle : Phase
  waiting : (daif attempts : ℕ) → Phase
  guarding : (daif : ℕ) → Phase
  panicked : Phase

pub record SpinLock : Type 0 where
  pub locked : Bool
  pub cores : ℕ → Phase

abbrev pub new : SpinLock
new = record { locked = false; cores = λ _. idle }

abbrev pub put : SpinLock → ℕ → Phase → SpinLock
put s i p = record s { cores = λ j. if j == i then p else s.cores j }

abbrev pub locked_as : SpinLock → Bool → SpinLock
locked_as s b = record s { locked = b }

pub data Step : SpinLock → SpinLock → Type 0 where
  -- `lock` stops the interrupts.
  start : (s : SpinLock) (i daif : ℕ) → s.cores i ≡ idle → Step s (put s i (waiting daif 0))
  -- The load finds the lock taken.
  spin :
      (s : SpinLock) (i daif n : ℕ)
      → s.cores i ≡ waiting daif n
      → s.locked ≡ true
      → n + 1 ≤ max_lock_attempts
      → Step s (put s i (waiting daif (n + 1)))
  give_up :
      (s : SpinLock) (i daif n : ℕ)
      → s.cores i ≡ waiting daif n
      → s.locked ≡ true
      → max_lock_attempts < n + 1
      → Step s (put s i panicked)
  -- `compare_exchange` of `lock`, by what it finds.
  acquire :
      (s : SpinLock) (i daif n : ℕ)
      → s.cores i ≡ waiting daif n
      → s.locked ≡ false
      → Step s (put (locked_as s true) i (guarding daif))
  lose :
      (s : SpinLock) (i daif n : ℕ)
      → s.cores i ≡ waiting daif n
      → s.locked ≡ true
      → Step s (put s i (waiting daif (n + 1)))
  -- `try_lock`, which restores the interrupts when the lock is taken.
  try_acquire :
      (s : SpinLock) (i daif : ℕ)
      → s.cores i ≡ idle
      → s.locked ≡ false
      → Step s (put (locked_as s true) i (guarding daif))
  try_lose :
      (s : SpinLock) (i daif : ℕ) → s.cores i ≡ idle → s.locked ≡ true → Step s (put s i idle)
  -- The guard is dropped.
  release :
      (s : SpinLock) (i daif : ℕ)
      → s.cores i ≡ guarding daif
      → Step s (put (locked_as s false) i idle)

-- States that the lock comes to from a new one.
pub data Reachable : SpinLock → Type 0 where
  begin : Reachable new
  after : {s t : SpinLock} → Reachable s → Step s t → Reachable t
