-- ===== src/Lock/Exclusive.antt =====
-- src/lib/lock.rs: at most one core has the guard of a spin lock.
use zheos.Common.{
  ℕ, ◌+◌, ◌≡◌, refl, ap, ◌∙◌, sym, Bool, true, false, Option, none, some, is_some, ◌==◌, arith,
  Bool-cases, inl, inr, ==_iff,
}
use zheos.Lock.{
  Phase, idle, waiting, guarding, panicked, SpinLock, put, locked_as, Step, start, spin, give_up,
  acquire, lose, try_acquire, try_lose, release, Reachable, begin, after,
}

abbrev pub has_guard : Phase → Bool
has_guard (guarding daif) = true
has_guard _ = false

abbrev pub is_owner : Option ℕ → ℕ → Bool
is_owner none j = false
is_owner (some i) j = i == j

-- The lock is taken exactly while a core owns it, which is the one with the guard.
abbrev pub IsOwned : SpinLock → Type 0
IsOwned s =
    (o : Option ℕ) × (s.locked ≡ is_some o) × ((j : ℕ) → has_guard (s.cores j) ≡ is_owner o j)

same_sym : (i j : ℕ) → (j == i) ≡ (i == j)
same_sym i j = ground arith

-- A core that had no guard and gets none.
put-IsOwned :
    (s : SpinLock) (i : ℕ) (p : Phase)
    → has_guard (s.cores i) ≡ false
    → has_guard p ≡ false
    → IsOwned s
    → IsOwned (put s i p)
put-IsOwned s i p was is (o, l, g) = (
  o,
  l,
  λ j. elim (Bool-cases (j == i)) [
    | inl e ↦ rw e (is ∙ sym was ∙ ap (λ k. has_guard (s.cores k)) (sym ((==_iff j i).0 e)) ∙ g j)
    | inr e ↦ rw e (g j)
  ],
)

-- A core that gets the guard of a lock that was free.
acquire-IsOwned :
    (s : SpinLock) (i daif : ℕ)
    → s.locked ≡ false
    → IsOwned s
    → IsOwned (put (locked_as s true) i (guarding daif))
acquire-IsOwned s i daif free (some k, l, g) = absurd (ground (arith, l, free))
acquire-IsOwned s i daif free (none, l, g) = (
  some i,
  refl,
  λ j. elim (Bool-cases (j == i)) [
    | inl e ↦ rw e (sym (sym (same_sym i j) ∙ e))
    | inr e ↦ rw e (g j ∙ sym (sym (same_sym i j) ∙ e))
  ],
)

release-IsOwned :
    (s : SpinLock) (i : ℕ)
    → has_guard (s.cores i) ≡ true
    → IsOwned s
    → IsOwned (put (locked_as s false) i idle)
release-IsOwned s i had (none, l, g) = absurd (ground (arith, sym had ∙ g i))
release-IsOwned s i had (some k, l, g) =
    let mine : k ≡ i = (==_iff k i).0 (sym (g i) ∙ had) in
    (
      none,
      refl,
      λ j. elim (Bool-cases (j == i)) [
        | inl e ↦ rw e refl
        | inr e ↦ rw e (g j ∙ ap (λ c. c == j) mine ∙ sym (same_sym i j) ∙ e)
      ],
    )

Step-IsOwned : {s t : SpinLock} → Step s t → IsOwned s → IsOwned t
Step-IsOwned (start s i daif e) h = put-IsOwned s i (waiting daif 0) (ap has_guard e) refl h
Step-IsOwned (spin s i daif n e l m) h =
    put-IsOwned s i (waiting daif (n + 1)) (ap has_guard e) refl h
Step-IsOwned (give_up s i daif n e l m) h = put-IsOwned s i panicked (ap has_guard e) refl h
Step-IsOwned (acquire s i daif n e l) h = acquire-IsOwned s i daif l h
Step-IsOwned (lose s i daif n e l) h =
    put-IsOwned s i (waiting daif (n + 1)) (ap has_guard e) refl h
Step-IsOwned (try_acquire s i daif e l) h = acquire-IsOwned s i daif l h
Step-IsOwned (try_lose s i daif e l) h = put-IsOwned s i idle (ap has_guard e) refl h
Step-IsOwned (release s i daif e) h = release-IsOwned s i (ap has_guard e) h

Reachable-IsOwned : {s : SpinLock} → Reachable s → IsOwned s
Reachable-IsOwned begin = (none, refl, λ j. refl)
Reachable-IsOwned (after r step) = Step-IsOwned step (Reachable-IsOwned r)

owner_unique : (o : Option ℕ) (i j : ℕ) → is_owner o i ≡ true → is_owner o j ≡ true → i ≡ j
owner_unique none i j a b = absurd (ground (arith, a))
owner_unique (some k) i j a b = sym ((==_iff k i).0 a) ∙ (==_iff k j).0 b

owner-locked : (o : Option ℕ) (i : ℕ) → is_owner o i ≡ true → is_some o ≡ true
owner-locked none i a = a
owner-locked (some k) i a = refl

-- However many cores lock, try to lock and drop the guard, in any order of their steps: two cores with
-- the guard are one, and the lock is taken while there is one.
pub Reachable-exclusive :
    {s : SpinLock}
    → Reachable s
    → (i j d e : ℕ) → s.cores i ≡ guarding d
    → s.cores j ≡ guarding e
    → (i ≡ j) × (s.locked ≡ true)
Reachable-exclusive r i j d e a b =
    let (o, l, g) = Reachable-IsOwned r in
    let first = sym (g i) ∙ ap has_guard a in
    let second = sym (g j) ∙ ap has_guard b in
    (owner_unique o i j first second, l ∙ owner-locked o i first)
