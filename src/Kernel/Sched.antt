-- ===== src/Kernel/Sched.antt =====
-- src/kernel/sched: the task table and the choice of the next task. The lock is held through each
-- operation, so one operation is one step; the context switch is an event with the two slots.
pub mod Choice
pub mod Prune
pub mod Turns
pub mod Schedule
pub mod Wait
pub mod Tests
use zheos.Common.{
  ℕ, zero, suc, ◌+◌, ◌%◌, Option, none, some, Bool, true, false, not, ◌&&◌, ◌++◌, List, [], ◌∷◌,
}
use zheos.Common.{
  ◌==◌, ◌/=◌, if◌then◌else◌, get_or, set, replicate, Outcome, ok, panic, ◌>>=◌, expect, bit_or,
  bit_and, ◌<<<◌,
}
use zheos.Kernel.Task
use zheos.Kernel.Task.{
  Task, ContextStack, State, SwitchFrame, ready, blocked, dead, is_ready, is_dead,
}

abbrev pub Tasks : Type 0
Tasks = List (Option Task)

abbrev pub tasks_count : ℕ
tasks_count = 4

abbrev pub boot_task_id : ℕ
boot_task_id = 0

abbrev pub idle_task_id : ℕ
idle_task_id = 1

pub record Scheduler : Type 0 where
  pub task_table : Tasks
  pub current : ℕ
  -- What `free_layout` of the heap was called for when a task was dropped, in order.
  pub freed : List ContextStack

abbrev pub new : Scheduler
new = record { task_table = replicate tasks_count none; current = 0; freed = [] }

-- `is_some_and(|t| t.state() == State::Dead && i != self.current)`
abbrev pub is_pruned : ℕ → ℕ → Option Task → Bool
is_pruned current i none = false
is_pruned current i (some t) = is_dead t.state && i /= current

unfoldable pub prune_from : ℕ → ℕ → Tasks → Tasks
prune_from current i [] = []
prune_from current i (t ∷ ts) =
    (if is_pruned current i t then none else t) ∷ prune_from current (i + 1) ts

-- The stack that the drop of a task gives back.
abbrev pub stack_of : Option Task → List ContextStack
stack_of none = []
stack_of (some t) = elim t.stack [ none ↦ [] | some stack ↦ stack ∷ [] ]

unfoldable pub freed_from : ℕ → ℕ → Tasks → List ContextStack
freed_from current i [] = []
freed_from current i (t ∷ ts) =
    let rest = freed_from current (i + 1) ts in
    (if is_pruned current i t then stack_of t else []) ++ rest

unfoldable pub prune : Scheduler → Scheduler
unfolding prune_from freed_from
prune s = record s {
  task_table = prune_from s.current 0 s.task_table;
  freed = s.freed ++ freed_from s.current 0 s.task_table;
}

-- `is_some_and(|t| t.state() == State::Ready && t.id() != IDLE_TASK_ID)`
abbrev pub is_candidate : Option Task → Bool
is_candidate none = false
is_candidate (some t) = is_ready t.state && t.id /= idle_task_id

-- The loop of `next_idx` from `i` on, with the rounds that are left.
unfoldable pub next_from : ℕ → Scheduler → ℕ → Option ℕ
next_from zero s i = none
next_from (suc left) s i =
    let idx = (s.current + i + 1) % tasks_count in
    let rest = next_from left s (i + 1) in
    if is_candidate (get_or s.task_table idx none) then some idx else rest

unfoldable pub next_idx : Scheduler → Option ℕ
unfolding next_from
next_idx s = next_from tasks_count s 0

-- `position(|t| t.is_none())`, from index `i` on.
unfoldable pub free_from : ℕ → Tasks → Option ℕ
free_from i [] = none
free_from i (none ∷ ts) = some i
free_from i (some t ∷ ts) = free_from (i + 1) ts

unfoldable pub free_id : Scheduler → Option ℕ
unfolding free_from
free_id s = free_from 0 s.task_table

pub data SpawnError : Type 0 where
  ran_out_of_ids : SpawnError
  ran_out_of_memory : SpawnError

pub data Spawned : Type 0 where
  spawned : Scheduler → SwitchFrame → Spawned
  refused : SpawnError → Spawned

unfoldable pub spawn : ℕ → ℕ → Option ℕ → Scheduler → Spawned
unfolding free_id Task.new
spawn trampoline entry alloc s = elim (free_id s) [
  | none ↦ refused ran_out_of_ids
  | some empty_idx ↦ elim (Task.new trampoline empty_idx entry alloc) [
    | none ↦ refused ran_out_of_memory
    | some made ↦
        let (task, frame) = made in
        spawned (record s { task_table = set s.task_table empty_idx (some task) }) frame
  ]
]

-- `init`, with the address of `idle`; the frame of the idle task is written beside.
unfoldable pub init : ℕ → ℕ → Option ℕ → Scheduler → Outcome (Scheduler × SwitchFrame)
unfolding Task.new
init trampoline idle alloc s =
    let booted = set s.task_table 0 (some (Task.boot boot_task_id)) in
    expect (Task.new trampoline idle_task_id idle alloc) >>= λ made.
    let (task, frame) = made in ok (record s { task_table = set booted 1 (some task) }, frame)

-- `task_table[i].as_mut().unwrap()` and a change of the task.
abbrev pub change : Scheduler → ℕ → (Task → Task) → Outcome Scheduler
change s i f = expect (get_or s.task_table i none) >>= λ t.
    ok (record s { task_table = set s.task_table i (some (f t)) })

-- The scheduler and `NEED_RESCHEDULE`.
pub record Kernel : Type 0 where
  pub sched : Scheduler
  pub need_reschedule : Bool

unfoldable pub tick : Kernel → Outcome Kernel
unfolding Task.tick
tick k = change k.sched k.sched.current Task.tick >>= λ s.
    ok (record { sched = s; need_reschedule = true })

-- The slots that a switch goes from and to.
pub data Switch : Type 0 where
  stay : Switch
  switch : ℕ → ℕ → Switch

abbrev pub or_idle : Option ℕ → ℕ
or_idle none = idle_task_id
or_idle (some idx) = idx

unfoldable pub schedule_inner : Scheduler → Outcome (Scheduler × Switch)
unfolding prune next_idx
schedule_inner s =
    let s = prune s in
    let idx = or_idle (next_idx s) in
    if s.current == idx
    then ok (s, stay)
    else (expect (get_or s.task_table s.current none) >>= λ from.
        expect (get_or s.task_table idx none) >>= λ to.
        ok (record s { current = idx }, switch s.current idx))

unfoldable pub preempt : Kernel → Outcome (Kernel × Switch)
unfolding schedule_inner
preempt k =
    if k.need_reschedule
    then (schedule_inner k.sched >>= λ r.
        let (s, switched) = r in ok (record { sched = s; need_reschedule = false }, switched))
    else ok (record k { need_reschedule = false }, stay)

-- `task_exit`: a return from its `schedule` would meet `unreachable!`.
unfoldable pub task_exit : Scheduler → Outcome (Scheduler × Switch)
unfolding schedule_inner
task_exit s = change s s.current (λ t. Task.set_state t dead) >>= λ s. schedule_inner s >>= λ r.
    let (s, switched) = r in
    elim switched [ stay ↦ panic | switch from to ↦ ok (s, switch from to) ]
