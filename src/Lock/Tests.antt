-- ===== src/Lock/Tests.antt =====
-- src/lib/lock.rs at concrete inputs.
use zheos.Common.{ℕ, ◌≡◌, refl, true}
use zheos.Lock.{
  SpinLock, new, put, locked_as, waiting, guarding, start, acquire, Reachable, begin, after,
}
use zheos.Lock.Exclusive.{Reachable-exclusive}

abbrev core : ℕ
core = 0

-- Core 0 starts to lock, and takes the lock.
abbrev started : SpinLock
started = put new core (waiting 960 0)

abbrev taken : SpinLock
taken = put (locked_as started true) core (guarding 960)

taken-Reachable : Reachable taken
taken-Reachable =
    after (after begin (start new core 960 refl)) (acquire started core 960 0 refl refl)

Reachable-exclusive_example : (core ≡ core) × (taken.locked ≡ true)
Reachable-exclusive_example = Reachable-exclusive taken-Reachable core core 960 960 refl refl
