-- ===== src/Tty/Input.antt =====
-- src/tty/input.rs: the ring between the interrupt handler of the UART and the task that reads.
pub mod Wakes
use zheos.Common.{ℕ, Bool, true, false, Option, none, some, Outcome, ok, ◌>>=◌}
use zheos.Ring
use zheos.Ring.{RingBuffer}
use zheos.Kernel.Sched.{Kernel, Switch, stay, schedule_inner}
use zheos.Kernel.Sched.Wait
use zheos.Kernel.Sched.Wait.{WaitQueue}

pub record InputByte : Type 0 where
  pub byte : ℕ
  pub error : Bool

abbrev pub empty : InputByte
empty = record { byte = 0; error = false }

-- `INPUT_BUFFER` and `INPUT_WAIT_QUEUE`, with the scheduler that the queue works on.
pub record Input : Type 0 where
  pub buffer : RingBuffer InputByte
  pub wait_queue : WaitQueue
  pub kernel : Kernel

unfoldable pub start_state : Kernel → Input
unfolding Ring.new
start_state kernel = record { buffer = Ring.new empty; wait_queue = Wait.new; kernel = kernel }

unfoldable pub push_character : Input → InputByte → Outcome Input
unfolding Ring.push Wait.wake_all
push_character input input_byte = Wait.wake_all input.wait_queue input.kernel >>= λ woken.
    ok (record {
      buffer = Ring.push input.buffer input_byte;
      wait_queue = woken.0;
      kernel = woken.1;
    })

-- What one pass of the loop of `getc` gives: a byte, or a switch to another task that the task comes
-- back from at the next pass.
pub data Round : Type 0 where
  got : InputByte → Input → Round
  asleep : Switch → Input → Round

-- The pass behind `prepare`.
unfoldable pub take_or_sleep : Input → Option InputByte × RingBuffer InputByte → Outcome Round
unfolding Wait.finish schedule_inner
take_or_sleep input (some input_byte, buffer) =
    Wait.finish input.wait_queue input.kernel.sched >>= λ done. ok (
      got input_byte (record {
        buffer = buffer;
        wait_queue = done.0;
        kernel = record input.kernel { sched = done.1 };
      }))
take_or_sleep input (none, buffer) = schedule_inner input.kernel.sched >>= λ r.
    ok (asleep r.1 (record input { buffer = buffer; kernel = record input.kernel { sched = r.0 } }))

unfoldable pub getc_round : Input → Outcome Round
unfolding Wait.prepare Ring.pop take_or_sleep
getc_round input = Wait.prepare input.wait_queue input.kernel.sched >>= λ waiting.
    take_or_sleep
      (record input { wait_queue = waiting.0; kernel = record input.kernel { sched = waiting.1 } })
      (Ring.pop input.buffer)
