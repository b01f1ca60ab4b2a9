-- ===== src/Kernel/Tests.antt =====
-- Runs of src/kernel/time.rs and src/kernel/irq.rs, and their theorems at them.
use zheos.Common.{ℕ, ◌≡◌, refl, some, false, [], ◌∷◌, arith, ok}
use zheos.Drivers.Gic
use zheos.Kernel.Sched.{Kernel, stay, preempt}
use zheos.Kernel.Time.{ticks_from, rearm_from}
use zheos.Kernel.Time.Bounds.{Rearmed, rearm_from-Rearmed}
use zheos.Kernel.Irq.{
  Irq, new_table, no_handler, println, register, set_handler, handle_interrupt, unmask, ended,
  preempted,
}
use zheos.Kernel.Irq.Handled.{register-handle_interrupt}

-- A second and a half at 100 ticks a second, and a little more.
ticks : ticks_from (record { secs = 1; subsec_nanos = 500000001 }) 100 ≡ 151
unfolding ticks_from
ticks = refl

rearm_from-Rearmed_example :
    (deadline : ℕ) × (rearm_from 10 85 (99 ∷ 99 ∷ []) ≡ some deadline)
    × Rearmed 10 85 (99 ∷ 99 ∷ []) deadline
rearm_from-Rearmed_example =
    rearm_from-Rearmed 100 10 85 (99 ∷ 99 ∷ []) (omega arith, (omega arith, tt)) (omega arith)
      (omega arith) (omega arith)

abbrev kernel : Kernel
kernel = record {
  sched = record { task_table = []; current = 0; freed = [] };
  need_reschedule = false;
}

abbrev early : Irq
early = record {
  live = false;
  handlers = new_table;
  gic = Gic.start_state;
  kernel = kernel;
  console = [];
}

-- A handler that prints its number.
abbrev prints : ℕ → ℕ → Irq → Irq
prints handler intid irq = println irq (no_handler handler)

-- Live, with another handler beside.
abbrev now : Irq
now = unmask (register (register early 33 7) 27 5)

quiet-pass : preempt (prints 7 33 now).kernel ≡ ok (kernel, stay)
unfolding preempt register set_handler
quiet-pass = refl

register-handle_interrupt_example : handle_interrupt prints now 0x421 ≡ (
    let served = prints 7 33 now in
    let i : Gic.Interrupt = record { val = 0x421 } in
    ok (
      record served { gic = Gic.end_of served.gic i; kernel = kernel },
      ended i ∷ preempted stay ∷ [],
    ))
register-handle_interrupt_example =
    register-handle_interrupt prints early now 33 7 0x421 ((27, 5) ∷ []) kernel stay refl
      (omega arith) ((λ e. cc), tt) refl refl (omega arith) quiet-pass
