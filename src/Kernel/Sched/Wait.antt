-- ===== src/Kernel/Sched/Wait.antt =====
-- src/kernel/sched/wait.rs: a queue of tasks that wait, one bit of a word for each slot.
pub mod Woken
pub mod Slots
pub mod Settled
use zheos.Common.{
  ℕ, zero, suc, ◌+◌, ◌-◌, ◌^◌, Bool, true, false, ◌==◌, ◌/=◌, if◌then◌else◌, Outcome, ok, ◌>>=◌,
  bit_or, bit_and, ◌<<<◌, u32,
}
use zheos.Kernel.Task
use zheos.Kernel.Task.{ready, blocked}
use zheos.Kernel.Sched.{Scheduler, Kernel, change, tasks_count}

pub record WaitQueue : Type 0 where
  pub slots : ℕ

abbrev pub new : WaitQueue
new = record { slots = 0 }

unfoldable pub prepare : WaitQueue → Scheduler → Outcome (WaitQueue × Scheduler)
prepare q s = change s s.current (λ t. Task.set_state t blocked) >>= λ s'.
    ok (record { slots = bit_or q.slots (u32 (1 <<< s.current)) }, s')

-- `!(1 << current)` on 32 bits.
unfoldable pub finish : WaitQueue → Scheduler → Outcome (WaitQueue × Scheduler)
finish q s = change s s.current (λ t. Task.set_state t ready) >>= λ s'.
    ok (record { slots = bit_and q.slots (2 ^ 32 - 1 - u32 (1 <<< s.current)) }, s')

-- `waiters & (1 << i) != 0`
abbrev pub waits : ℕ → ℕ → Bool
waits waiters i = bit_and waiters (u32 (1 <<< i)) /= 0

-- The loop of `wake_all` from slot `i` on, with the rounds that are left.
unfoldable pub wake_from : ℕ → ℕ → ℕ → Scheduler → Outcome Scheduler
wake_from zero waiters i s = ok s
wake_from (suc left) waiters i s =
    if waits waiters i
    then (change s i (λ t. Task.set_state t ready) >>= λ s'. wake_from left waiters (i + 1) s')
    else wake_from left waiters (i + 1) s

unfoldable pub wake_all : WaitQueue → Kernel → Outcome (WaitQueue × Kernel)
unfolding wake_from
wake_all q k =
    let waiters = q.slots in
    let emptied : WaitQueue = record { slots = 0 } in
    if waiters == 0
    then ok (emptied, k)
    else (wake_from tasks_count waiters 0 k.sched >>= λ s.
        ok (emptied, record { sched = s; need_reschedule = true }))
