-- ===== src/Tty/Sample.antt =====
-- Data for the runs of src/tty and src/drivers: the monitor runs, the idle task is ready, and no task
-- waits for a byte.
use zheos.Common.{ℕ, zero, suc, ◌≡◌, refl, some, none, false, [], ◌∷◌, get_or, arith}
use zheos.Kernel.Task
use zheos.Kernel.Task.{Task}
use zheos.Kernel.Sched.{Kernel}
use zheos.Kernel.Sched.Wait.Settled.{Settled}
use zheos.Tty.Input.{Input, start_state}
use zheos.Tty.Input.Wakes.{nothing-waits}

abbrev task : ℕ → Task
task id = record {
  id = id;
  context = record { sp = 0 };
  stack = none;
  ticks = 0;
  state = Task.ready;
}

-- The monitor and the idle task.
abbrev pub kernel : Kernel
kernel = record {
  sched = record {
    task_table = some (task 0) ∷ some (task 1) ∷ none ∷ none ∷ [];
    current = 0;
    freed = [];
  };
  need_reschedule = false;
}

abbrev pub quiet : Input
quiet = start_state kernel

kernel-named : (i : ℕ) (t : Task) → get_or kernel.sched.task_table i none ≡ some t → t.id ≡ i
kernel-named zero t e = ground arith
kernel-named (suc zero) t e = ground arith
kernel-named (suc (suc zero)) t e = absurd (ground arith)
kernel-named (suc (suc (suc zero))) t e = absurd (ground arith)
kernel-named (suc (suc (suc (suc i)))) t e = absurd (ground arith)

pub quiet-Settled : Settled quiet.wait_queue quiet.kernel.sched
unfolding start_state
quiet-Settled = record {
  valid = record {
    size = refl;
    here = omega arith;
    running = (task 0, refl);
    named = kernel-named;
    idle = (task 1, refl, refl);
  };
  sleepers = λ j less w. absurd (nothing-waits j w);
}
