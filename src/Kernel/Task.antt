-- ===== src/Kernel/Task.antt =====
-- src/kernel/task.rs and src/arch/aarch64/context.rs: a task, its stack and its saved context. The
-- address that the heap gives for a stack, or none, is a parameter, and so is the address of the
-- trampoline that a new task starts from.
use zheos.Common.{ℕ, Option, none, some, sub64, add64, ◌*◌, Bool, true, false}

pub record ContextStack : Type 0 where
  pub base : ℕ
  pub size : ℕ

abbrev pub context_stack_size : ℕ
context_stack_size = 16 * 1024

-- `ContextStack::new`, for what `alloc_layout` gave.
abbrev pub new_stack : Option ℕ → Option ContextStack
new_stack none = none
new_stack (some ptr) = some (record { base = ptr; size = context_stack_size })

abbrev pub top : ContextStack → ℕ
top stack = add64 stack.base stack.size

abbrev pub switch_frame_size : ℕ
switch_frame_size = 160

-- The registers of a frame that a new task has other than 0.
pub record SwitchFrame : Type 0 where
  pub x19 : ℕ
  pub x30 : ℕ

pub record Context : Type 0 where
  pub sp : ℕ

abbrev pub running : Context
running = record { sp = 0 }

-- `Context::new`: the context, and the frame that is written at its stack pointer.
abbrev pub new_context : ℕ → ℕ → ℕ → Context × SwitchFrame
new_context trampoline stack_top entry =
    (record { sp = sub64 stack_top switch_frame_size }, record { x19 = entry; x30 = trampoline })

pub data State : Type 0 where
  ready : State
  blocked : State
  dead : State

pub record Task : Type 0 where
  pub id : ℕ
  pub context : Context
  pub stack : Option ContextStack
  pub ticks : ℕ
  pub state : State

-- `Task::new`, with the frame that it writes.
unfoldable pub new : ℕ → ℕ → ℕ → Option ℕ → Option (Task × SwitchFrame)
new trampoline id entry alloc = elim (new_stack alloc) [
  | none ↦ none
  | some stack ↦
      let (context, frame) = new_context trampoline (top stack) entry in
      some
        (record { id = id; context = context; stack = some stack; ticks = 0; state = ready }, frame)
]

abbrev pub boot : ℕ → Task
boot id = record { id = id; context = running; stack = none; ticks = 0; state = ready }

unfoldable pub tick : Task → Task
tick t = record t { ticks = add64 t.ticks 1 }

abbrev pub set_state : Task → State → Task
set_state t state = record t { state = state }

abbrev pub is_ready : State → Bool
is_ready ready = true
is_ready _ = false

abbrev pub is_dead : State → Bool
is_dead dead = true
is_dead _ = false
