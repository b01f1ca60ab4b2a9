-- ===== src/Kernel/Sched/Tests.antt =====
-- src/kernel/sched: a table with the boot task and the idle task, and the theorems at it.
use zheos.Common.{ℕ, zero, suc, ◌<◌, ◌≡◌, refl, none, some, true, false, arith, [], ◌∷◌, get_or, ok}
use zheos.Kernel.Task
use zheos.Kernel.Task.{Task, ready, blocked}
use zheos.Kernel.Sched.{Scheduler, Switch, Kernel, schedule_inner, switch, next_idx}
use zheos.Kernel.Sched.Choice.{distance}
use zheos.Kernel.Sched.Turns.{IsValid}
use zheos.Kernel.Sched.Schedule.{Scheduled, schedule_inner-Scheduled, schedule_inner-nearer}
use zheos.Kernel.Sched.Wait.{wake_all}
use zheos.Kernel.Sched.Wait.Woken.{Woken, AllThere, wake_all-Woken}

abbrev task : ℕ → Task
task id = record (Task.boot id) { ticks = id }

-- The boot task runs, and the task in the last slot waits for its turn.
abbrev table : Scheduler
table = record {
  task_table = some (task 0) ∷ some (task 1) ∷ none ∷ some (task 3) ∷ [];
  current = 0;
  freed = [];
}

table-named : (i : ℕ) (t : Task) → get_or table.task_table i none ≡ some t → t.id ≡ i
table-named zero t e = ground arith
table-named (suc zero) t e = ground arith
table-named (suc (suc zero)) t e = absurd (ground arith)
table-named (suc (suc (suc zero))) t e = ground arith
table-named (suc (suc (suc (suc i)))) t e = absurd (ground arith)

table-IsValid : IsValid table
table-IsValid = record {
  size = refl;
  here = omega arith;
  running = (task 0, refl);
  named = table-named;
  idle = (task 1, refl, refl);
}

chosen : next_idx table ≡ some 3
unfolding next_idx
chosen = refl

schedule_inner-Scheduled_example :
    (next : Scheduler) × (switched : Switch) × (schedule_inner table ≡ ok (next, switched))
    × Scheduled table next switched
schedule_inner-Scheduled_example = schedule_inner-Scheduled table table-IsValid

-- With the task of slot 2 as well, which is chosen before the one of slot 3.
abbrev crowded : Scheduler
crowded = record table {
  task_table = some (task 0) ∷ some (task 1) ∷ some (task 2) ∷ some (task 3) ∷ [];
}

crowded-named : (i : ℕ) (t : Task) → get_or crowded.task_table i none ≡ some t → t.id ≡ i
crowded-named zero t e = ground arith
crowded-named (suc zero) t e = ground arith
crowded-named (suc (suc zero)) t e = ground arith
crowded-named (suc (suc (suc zero))) t e = ground arith
crowded-named (suc (suc (suc (suc i)))) t e = absurd (ground arith)

crowded-IsValid : IsValid crowded
crowded-IsValid = record {
  size = refl;
  here = omega arith;
  running = (task 0, refl);
  named = crowded-named;
  idle = (task 1, refl, refl);
}

crowded_run : schedule_inner crowded ≡ ok (record crowded { current = 2 }, switch 0 2)
unfolding schedule_inner
crowded_run = refl

schedule_inner-nearer_example : distance (record crowded { current = 2 }) 3 < distance crowded 3
schedule_inner-nearer_example =
    schedule_inner-nearer crowded (record crowded { current = 2 }) (switch 0 2) crowded-IsValid
      crowded_run 3 (omega arith) ((λ e. cc), (task 3, refl, refl)) (omega arith)

-- The boot task waits, and is woken.
abbrev waiting : Kernel
waiting = record { sched = table; need_reschedule = false }

boot_there : AllThere 1 table
boot_there zero h w = (task 0, refl)
boot_there (suc zero) h w = (task 1, refl)
boot_there (suc (suc zero)) h w = absurd (ground arith)
boot_there (suc (suc (suc zero))) h w = (task 3, refl)
boot_there (suc (suc (suc (suc j)))) h w = absurd (omega arith)

wake_all-Woken_example :
    (next : Kernel) × (wake_all (record { slots = 1 }) waiting ≡ ok (record { slots = 0 }, next))
    × Woken 1 0 table next.sched
    × IsValid next.sched
    × (next.need_reschedule ≡ true)
wake_all-Woken_example = wake_all-Woken (record { slots = 1 }) waiting table-IsValid boot_there
