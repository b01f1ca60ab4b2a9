-- ===== src/Ring.antt =====
-- src/lib/ring_buffer.rs: the ring that carries input bytes from the interrupt handler to the
-- reader. `push` and `pop` return the new ring; a client's calls in order are a list of `Op`.
pub mod Queue
pub mod Refine
mod Tests
use zheos.Common.{ℕ, ◌+◌, ◌%◌, Bool, false, not, ◌&&◌, Option, none, some, List, [], ◌∷◌}
use zheos.Common.{◌==◌, if◌then◌else◌, add64, get_elem?, set, replicate}
use Queue.{Op, put, get}

abbrev pub ring_buffer_size : ℕ
ring_buffer_size = 256

pub record RingBuffer {ℓ} (A : Type ℓ) : Type ℓ where
  pub buffer : List A
  pub head : ℕ
  pub tail : ℕ
  pub full : Bool

module _ {ℓ} {A : Type ℓ} where
  unfoldable pub new : A → RingBuffer A
  new default = record {
    buffer = replicate ring_buffer_size default;
    head = 0;
    tail = 0;
    full = false;
  }

  unfoldable pub push : RingBuffer A → A → RingBuffer A
  push r value =
      if r.full
      then r
      else let tail = add64 r.tail 1 % ring_buffer_size in
        record r {
          buffer = set r.buffer (r.tail % ring_buffer_size) value;
          tail = tail;
          full = tail == r.head;
        }

  -- The value read is `none` for an index out of the array, which `pop_refines` rules out.
  unfoldable pub pop : RingBuffer A → Option A × RingBuffer A
  pop r = if not r.full && r.tail == r.head then (none, r) else (
    get_elem? r.buffer (r.head % ring_buffer_size),
    record r { head = add64 r.head 1 % ring_buffer_size; full = false },
  )

  -- What each call of a client returns.
  pub run : RingBuffer A → List (Op A) → List (Option A)
  run r [] = []
  run r (put x ∷ ops) = run (push r x) ops
  run r (get ∷ ops) = let (out, r') = pop r in out ∷ run r' ops
