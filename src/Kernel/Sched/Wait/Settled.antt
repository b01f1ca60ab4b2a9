-- ===== src/Kernel/Sched/Wait/Settled.antt =====
-- src/kernel/sched/wait.rs: the tasks of a queue are blocked, and `prepare`, `finish` and a pass of the
-- scheduler keep that.
use mathlib.Core.Option.{some-injective}
use zheos.Common.{
  ==_iff, ℕ, ◌-◌, ◌^◌, ◌<◌, ◌≡◌, ◌≢◌, refl, ap, ◌∙◌, sym, subst, Bool, true, false, not, ◌&&◌, ◌||◌,
  ◌==◌, none, some, ok, arith, Bool-cases, inl, inr, bit_or, bit_and, ◌<<<◌, u32,
}
use zheos.Common.{get_or, set, length-set, get_or-set_self, get_or-set_ne}
use zheos.Kernel.Task
use zheos.Kernel.Task.{Task, State, ready, blocked}
use zheos.Kernel.Sched.{Scheduler, Switch, schedule_inner}
use zheos.Kernel.Sched.Prune.{pruned}
use zheos.Kernel.Sched.Turns.{IsValid}
use zheos.Kernel.Sched.Schedule.{schedule_inner-Scheduled}
use zheos.Kernel.Sched.Wait
use zheos.Kernel.Sched.Wait.{WaitQueue, waits}
use zheos.Kernel.Sched.Wait.Slots.{waits-put, waits-out}

other-bit : (a b : Bool) → a ≡ false → (a || b) ≡ true → b ≡ true
other-bit a b e h = ground (arith, e, h)

both-bits : (a b : Bool) → (not a && b) ≡ true → (a ≡ false) × (b ≡ true)
both-bits a b h = ground (arith, h)

pruned-blocked : (current i : ℕ) (t : Task) → t.state ≡ blocked → pruned current i (some t) ≡ some t
pruned-blocked current i t e = rw e refl

-- Every slot of the queue has a task that is blocked.
abbrev pub AllBlocked : ℕ → Scheduler → Type 0
AllBlocked slots s =
    (j : ℕ)
    → j < 4
    → waits slots j ≡ true
    → (t : Task) × (get_or s.task_table j none ≡ some t) × (t.state ≡ blocked)

pub record Settled (q : WaitQueue) (s : Scheduler) : Type 0 where
  pub valid : IsValid s
  pub sleepers : AllBlocked q.slots s

-- The current task with another state.
abbrev pub in_state : Scheduler → Task → State → Scheduler
in_state s t state = record s {
  task_table = set s.task_table s.current (some (Task.set_state t state));
}

pub in_state-here :
    (s : Scheduler) (t : Task) (state : State)
    → IsValid s
    → get_or (in_state s t state).task_table s.current none ≡ some (Task.set_state t state)
in_state-here s t state v =
    get_or-set_self s.task_table s.current (some (Task.set_state t state)) none
      (omega (arith, v.size, v.here))

in_state-other :
    (s : Scheduler) (t : Task) (state : State) (j : ℕ)
    → s.current ≢ j
    → get_or (in_state s t state).task_table j none ≡ get_or s.task_table j none
in_state-other s t state j ne = get_or-set_ne s.task_table (some (Task.set_state t state)) none ne

-- A slot that has a task still has one, of the same id.
in_state-named :
    (s : Scheduler) (t : Task) (state : State)
    → IsValid s
    → get_or s.task_table s.current none ≡ some t
    → (i : ℕ) (u : Task) → get_or (in_state s t state).task_table i none ≡ some u
    → u.id ≡ i
in_state-named s t state v e i u f = elim (Bool-cases (s.current == i)) [
  | inl same ↦
      let eq : s.current ≡ i = (==_iff s.current i).0 same in
      let g : get_or (in_state s t state).task_table i none ≡ some (Task.set_state t state) =
        subst (λ k. get_or (in_state s t state).task_table k none ≡ some (Task.set_state t state))
          eq (in_state-here s t state v) in
      ap (λ x. x.id) (some-injective u (Task.set_state t state) (sym f ∙ g))
      ∙ v.named s.current t e
      ∙ eq
  | inr differs ↦
      let ne : s.current ≢ i = ground (arith, differs) in
      v.named i u (sym (in_state-other s t state i ne) ∙ f)
]

in_state-IsValid :
    (s : Scheduler) (t : Task) (state : State)
    → IsValid s
    → get_or s.task_table s.current none ≡ some t
    → s.current ≢ 1
    → IsValid (in_state s t state)
in_state-IsValid s t state v e not_idle = record {
  size = length-set s.task_table s.current (some (Task.set_state t state)) ∙ v.size;
  here = v.here;
  running = (Task.set_state t state, in_state-here s t state v);
  named = in_state-named s t state v e;
  idle = let (u, f, r) = v.idle in (u, in_state-other s t state 1 not_idle ∙ f, r);
}

-- The queue and the table behind `prepare` and behind `finish`.
abbrev pub prepared : WaitQueue → ℕ → WaitQueue
prepared q c = record { slots = bit_or q.slots (u32 (1 <<< c)) }

abbrev pub finished : WaitQueue → ℕ → WaitQueue
finished q c = record { slots = bit_and q.slots (2 ^ 32 - 1 - u32 (1 <<< c)) }

pub prepare-Settled :
    (q : WaitQueue) (s : Scheduler) (t : Task)
    → Settled q s
    → s.current ≢ 1
    → get_or s.task_table s.current none ≡ some t
    → (Wait.prepare q s ≡ ok (prepared q s.current, in_state s t blocked))
      × Settled (prepared q s.current) (in_state s t blocked)
unfolding Wait.prepare
prepare-Settled q s t h not_idle e = (
  rw e refl,
  record {
    valid = in_state-IsValid s t blocked h.valid e not_idle;
    sleepers = λ j less w. elim (Bool-cases (s.current == j)) [
      | inl same ↦
          let eq : s.current ≡ j = (==_iff s.current j).0 same in
          (
            Task.set_state t blocked,
            subst
                (λ k.
                  get_or (in_state s t blocked).task_table k none ≡ some (Task.set_state t blocked))
                eq (in_state-here s t blocked h.valid),
            refl,
          )
      | inr differs ↦
          let ne : s.current ≢ j = ground (arith, differs) in
          let (u, f, b) = h.sleepers j less (
            other-bit (s.current == j) (waits q.slots j) differs
              (sym (waits-put q.slots s.current j h.valid.here less) ∙ w)) in
          (u, in_state-other s t blocked j ne ∙ f, b)
    ];
  },
)

pub finish-Settled :
    (q : WaitQueue) (s : Scheduler) (t : Task)
    → Settled q s
    → s.current ≢ 1
    → get_or s.task_table s.current none ≡ some t
    → (Wait.finish q s ≡ ok (finished q s.current, in_state s t ready))
      × Settled (finished q s.current) (in_state s t ready)
unfolding Wait.finish
finish-Settled q s t h not_idle e = (
  rw e refl,
  record {
    valid = in_state-IsValid s t ready h.valid e not_idle;
    sleepers = λ j less w.
        let (differs, waited) =
          both-bits (s.current == j) (waits q.slots j)
            (sym (waits-out q.slots s.current j h.valid.here less) ∙ w) in
        let ne : s.current ≢ j = ground (arith, differs) in
        let (u, f, b) = h.sleepers j less waited in (u, in_state-other s t ready j ne ∙ f, b);
  },
)

-- A pass of the scheduler drops no task that is blocked.
pub schedule-Settled :
    (q : WaitQueue) (s : Scheduler)
    → Settled q s
    → (next : Scheduler) × (switched : Switch) × (schedule_inner s ≡ ok (next, switched))
      × Settled q next
      × ((j : ℕ) (t : Task)
          → get_or s.task_table j none ≡ some t
          → t.state ≡ blocked
          → get_or next.task_table j none ≡ some t)
schedule-Settled q s h =
    let (next, switched, e, r) = schedule_inner-Scheduled s h.valid in
    let kept : (j : ℕ) (t : Task)
        → get_or s.task_table j none ≡ some t
        → t.state ≡ blocked
        → get_or next.task_table j none ≡ some t =
      λ j t f b. r.kept j t f (inl (λ gone. let both = sym b ∙ gone in cc)) in
    (
      next,
      switched,
      e,
      record {
        valid = r.valid;
        sleepers = λ j less w. let (t, f, b) = h.sleepers j less w in (t, kept j t f b, b);
      },
      kept,
    )
