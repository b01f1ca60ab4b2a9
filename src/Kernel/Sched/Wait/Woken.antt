-- ===== src/Kernel/Sched/Wait/Woken.antt =====
-- src/kernel/sched/wait.rs, `wake_all`: it makes every task of the queue ready, and no other.
use zheos.Common.{
  ℕ, zero, suc, ◌+◌, ◌<◌, ◌≤◌, ◌≡◌, ◌≢◌, refl, ap, ◌∙◌, sym, subst, Option, none, some, Bool, true,
  false, arith, inl, inr, Bool-cases, if◌then◌else◌, ◌==◌, get_or, length, get_or-set_self,
  get_or-set_ne, length-set, ok, set, ltb, bit_and, u32, ◌<<<◌, [], ◌∷◌,
}
use zheos.Common.Bits.{zero-bit_and}
use zheos.Kernel.Task
use zheos.Kernel.Task.{Task, ready, blocked}
use zheos.Kernel.Sched.{Scheduler, Kernel, Tasks}
use zheos.Kernel.Sched.Turns.{IsValid}
use zheos.Kernel.Sched.Wait.{WaitQueue, waits, wake_from, wake_all}

-- A task made ready if it waits.
abbrev pub woken : Bool → Option Task → Option Task
woken true (some t) = some (Task.set_state t ready)
woken true none = none
woken false o = o

-- The tasks from slot `i` on are woken, the others as they were.
pub record Woken (waiters i : ℕ) (s next : Scheduler) : Type 0 where
  pub current : next.current ≡ s.current
  pub size : length next.task_table ≡ length s.task_table
  pub at :
      (j : ℕ)
      → i ≤ j
      → j < 4
      → get_or next.task_table j none ≡ woken (waits waiters j) (get_or s.task_table j none)
  pub before : (j : ℕ) → j < i → get_or next.task_table j none ≡ get_or s.task_table j none

-- Every slot that waits has a task.
abbrev pub AllThere : ℕ → Scheduler → Type 0
AllThere waiters s =
    (j : ℕ) → j < 4 → waits waiters j ≡ true → (t : Task) × (get_or s.task_table j none ≡ some t)

wake_from-Woken :
    (left waiters i : ℕ) (s : Scheduler)
    → i + left ≡ 4
    → length s.task_table ≡ 4
    → ((j : ℕ)
        → i ≤ j
        → j < 4
        → waits waiters j ≡ true
        → (t : Task) × (get_or s.task_table j none ≡ some t))
    → (next : Scheduler) × (wake_from left waiters i s ≡ ok next) × Woken waiters i s next
unfolding wake_from
wake_from-Woken zero waiters i s h l there = (
  s,
  refl,
  record { current = refl; size = refl; at = λ j a b. absurd (omega arith); before = λ j a. refl },
)
wake_from-Woken (suc left) waiters i s h l there = elim (Bool-cases (waits waiters i)) [
  | inl e ↦
      let (t, f) = there i (omega arith) (omega arith) e in
      let v = some (Task.set_state t ready) in
      let mid : Scheduler = record s { task_table = set s.task_table i v } in
      let self = get_or-set_self s.task_table i v none (omega (arith, l, h)) in
      let ne : (j : ℕ) → i ≢ j → get_or mid.task_table j none ≡ get_or s.task_table j none =
        λ j n. get_or-set_ne s.task_table v none n in
      let (next, g, r) =
        wake_from-Woken left waiters (i + 1) mid (omega arith) (length-set s.task_table i v ∙ l)
          (λ j a b w. let (u, k) = there j (omega arith) b w in (u, ne j (omega arith) ∙ k)) in
      (
        next,
        rw (e, f, wake_from) g,
        record {
          current = r.current;
          size = r.size ∙ length-set s.task_table i v;
          at = λ j a b. elim (Bool-cases (i == j)) [
            | inl same ↦
                let eq : i ≡ j = ground arith in
                subst
                  (λ x.
                    get_or next.task_table x none
                    ≡ woken (waits waiters x) (get_or s.task_table x none))
                  eq (r.before i (omega arith) ∙ self ∙ rw (e, f) refl)
            | inr other ↦
                r.at j (ground arith) b ∙ ap (woken (waits waiters j)) (ne j (ground arith))
          ];
          before = λ j a. r.before j (omega arith) ∙ ne j (omega arith);
        },
      )
  | inr e ↦
      let (next, g, r) =
        wake_from-Woken left waiters (i + 1) s (omega arith) l
          (λ j a b w. there j (omega arith) b w) in
      (
        next,
        rw (e, wake_from) g,
        record {
          current = r.current;
          size = r.size;
          at = λ j a b. elim (Bool-cases (i == j)) [
            | inl same ↦
                let eq : i ≡ j = ground arith in
                subst
                  (λ x.
                    get_or next.task_table x none
                    ≡ woken (waits waiters x) (get_or s.task_table x none))
                  eq (r.before i (omega arith) ∙ rw e refl)
            | inr other ↦ r.at j (ground arith) b
          ];
          before = λ j a. r.before j (omega arith);
        },
      )
]

woken-some : (b : Bool) (t : Task) → (u : Task) × (woken b (some t) ≡ some u) × (u.id ≡ t.id)
woken-some true t = (Task.set_state t ready, refl, refl)
woken-some false t = (t, refl, refl)

woken-source :
    (b : Bool) (o : Option Task) (u : Task)
    → woken b o ≡ some u
    → (t : Task) × (o ≡ some t) × (u.id ≡ t.id)
woken-source true none u e = absurd (ground arith)
woken-source true (some t) u e = (t, refl, ground arith)
woken-source false o u e = (u, e, refl)

woken-ready :
    (b : Bool) (t : Task)
    → t.state ≡ ready
    → (u : Task) × (woken b (some t) ≡ some u) × (u.state ≡ ready)
woken-ready true t e = (Task.set_state t ready, refl, refl)
woken-ready false t e = (t, refl, e)

get_or-beyond : (ts : Tasks) (i : ℕ) → length ts ≤ i → get_or ts i none ≡ none
get_or-beyond [] i h = refl
get_or-beyond (t ∷ ts) zero h = absurd (omega arith)
get_or-beyond (t ∷ ts) (suc i) h = get_or-beyond ts i (omega arith)

Woken-named :
    (waiters : ℕ) (s next : Scheduler)
    → IsValid s
    → Woken waiters 0 s next
    → (i : ℕ) (u : Task) → get_or next.task_table i none ≡ some u
    → u.id ≡ i
Woken-named waiters s next v r i u e = elim (Bool-cases (ltb i 4)) [
  | inl h ↦
      let (t, f, g) =
        woken-source (waits waiters i) (get_or s.task_table i none) u
          (sym (r.at i (omega arith) (ground arith)) ∙ e) in
      g ∙ v.named i t f
  | inr h ↦
      let gone = get_or-beyond next.task_table i (ground (arith, r.size, v.size)) in
      absurd (ground (arith, e, gone))
]

Woken-IsValid :
    (waiters : ℕ) (s next : Scheduler) → IsValid s → Woken waiters 0 s next → IsValid next
Woken-IsValid waiters s next v r =
    let (t, e) = v.running in
    let (u, f, g) = woken-some (waits waiters s.current) t in
    let (t1, e1, r1) = v.idle in
    let (u1, f1, g1) = woken-ready (waits waiters 1) t1 r1 in
    record {
      size = r.size ∙ v.size;
      here = omega (arith, r.current, v.here);
      running = (
        u,
        ap (λ i. get_or next.task_table i none) r.current
            ∙ r.at s.current (omega arith) v.here
            ∙ ap (woken (waits waiters s.current)) e
            ∙ f,
      );
      named = Woken-named waiters s next v r;
      idle = (u1, r.at 1 (omega arith) (omega arith) ∙ ap (woken (waits waiters 1)) e1 ∙ f1, g1);
    }

none_wait : (waiters j : ℕ) → waiters ≡ 0 → waits waiters j ≡ false
none_wait waiters j e =
    let empty : bit_and 0 (u32 (1 <<< j)) ≡ 0 = zero-bit_and (u32 (1 <<< j)) in rw (e, empty) refl

-- On a valid table in which every slot of the queue has a task, `wake_all` does not panic: it
-- empties the queue, makes the tasks of the queue ready and leaves every other task as it was, keeps
-- the table valid, and asks for a pass of the scheduler when the queue was not empty.
pub wake_all-Woken :
    (q : WaitQueue) (k : Kernel)
    → IsValid k.sched
    → AllThere q.slots k.sched
    → (next : Kernel) × (wake_all q k ≡ ok (record { slots = 0 }, next))
      × Woken q.slots 0 k.sched next.sched
      × IsValid next.sched
      × (next.need_reschedule ≡ (if q.slots == 0 then k.need_reschedule else true))
unfolding wake_all
wake_all-Woken q k v there = elim (Bool-cases (q.slots == 0)) [
  | inl e ↦
      let idle : (j : ℕ) → waits q.slots j ≡ false = λ j. none_wait q.slots j (ground arith) in
      (
        k,
        rw e refl,
        record {
          current = refl;
          size = refl;
          at = λ j a b. rw (idle j) refl;
          before = λ j a. absurd (omega arith);
        },
        v,
        rw e refl,
      )
  | inr e ↦
      let (next, g, r) = wake_from-Woken 4 q.slots 0 k.sched refl v.size (λ j a b w. there j b w) in
      (
        record { sched = next; need_reschedule = true },
        rw (e, g) refl,
        r,
        Woken-IsValid q.slots k.sched next v r,
        rw e refl,
      )
]
