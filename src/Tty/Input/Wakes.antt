-- ===== src/Tty/Input/Wakes.antt =====
-- src/tty/input.rs over src/kernel/sched: a task that sleeps for a byte is ready once one comes.
use zheos.Common.{ℕ, ◌≡◌, ◌≢◌, refl, true, none, some, ok, arith, ◌<<<◌, u32}
use zheos.Common.{get_or}
use zheos.Common.Bits.{zero-bit_and}
use zheos.Ring
use zheos.Ring.{RingBuffer}
use zheos.Kernel.Task
use zheos.Kernel.Task.{Task, State, ready, blocked}
use zheos.Kernel.Sched.Wait.{waits}
use zheos.Kernel.Sched.Wait.Woken.{Woken, AllThere, wake_all-Woken}
use zheos.Tty.Input.{InputByte, Input, got, push_character, getc_round, take_or_sleep}
use zheos.Kernel.Sched.Wait.Settled.{
  Settled, in_state, in_state-here, prepared, finished, prepare-Settled, finish-Settled,
}

pub nothing-waits : (j : ℕ) → ¬ (waits 0 j ≡ true)
nothing-waits j w = ground (arith, w, zero-bit_and (u32 (1 <<< j)))

-- `push_character` on a settled queue wakes its sleepers and leaves it settled.
pub push_character-wakes :
    (input : Input) (b : InputByte)
    → Settled input.wait_queue input.kernel.sched
    → (after : Input) × (push_character input b ≡ ok after)
      × Settled after.wait_queue after.kernel.sched
      × (after.buffer ≡ Ring.push input.buffer b)
      × Woken input.wait_queue.slots 0 input.kernel.sched after.kernel.sched
unfolding push_character
push_character-wakes input b h =
    let there : AllThere input.wait_queue.slots input.kernel.sched =
      λ j less w. let (t, f, _) = h.sleepers j less w in (t, f) in
    let (kernel, e, woken_up, valid, _) =
      wake_all-Woken input.wait_queue input.kernel h.valid there in
    (
      record {
        buffer = Ring.push input.buffer b;
        wait_queue = record { slots = 0 };
        kernel = kernel;
      },
      rw e refl,
      record { valid = valid; sleepers = λ j less w. absurd (nothing-waits j w) },
      refl,
      woken_up,
    )

-- With a byte in the ring, `getc` gives the first one, and the current task stays ready.
pub getc_round-got :
    (input : Input) (b : InputByte) (rest : RingBuffer InputByte)
    → Settled input.wait_queue input.kernel.sched
    → input.kernel.sched.current ≢ 1
    → Ring.pop input.buffer ≡ (some b, rest)
    → (next : Input) × (t : Task) × (getc_round input ≡ ok (got b next))
      × Settled next.wait_queue next.kernel.sched
      × (get_or next.kernel.sched.task_table input.kernel.sched.current none ≡ some t)
      × (t.state ≡ ready)
      × (next.buffer ≡ rest)
unfolding getc_round take_or_sleep
getc_round-got input b rest h not_idle first =
    let s = input.kernel.sched in
    let q = input.wait_queue in
    let (t, e) = h.valid.running in
    let (prepare, settled) = prepare-Settled q s t h not_idle e in
    let blocked_task = Task.set_state t blocked in
    let here = in_state-here s t blocked h.valid in
    let (finish, settled') =
      finish-Settled (prepared q s.current) (in_state s t blocked) blocked_task settled not_idle
        here in
    (
      record {
        buffer = rest;
        wait_queue = finished (prepared q s.current) s.current;
        kernel = record input.kernel { sched = in_state (in_state s t blocked) blocked_task ready };
      },
      Task.set_state blocked_task ready,
      rw prepare (rw first (rw finish refl)),
      settled',
      in_state-here (in_state s t blocked) blocked_task ready settled.valid,
      refl,
      refl,
    )
