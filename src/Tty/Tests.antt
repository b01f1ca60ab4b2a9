-- ===== src/Tty/Tests.antt =====
-- Runs of src/tty, and its theorems at them.
use zheos.Common.{
  get_or, ok, ℕ, ◌≡◌, ◌||◌, refl, true, false, some, none, List, [], ◌∷◌, ◌++◌, arith,
}
use zheos.Ring
use zheos.Ring.{RingBuffer}
use zheos.Kernel.Task
use zheos.Kernel.Task.{Task}
use zheos.Kernel.Sched.Wait.Settled.{Settled}
use zheos.Tty.Input.{InputByte, Input, got, start_state, getc_round}
use zheos.Tty.Sample.{quiet, quiet-Settled}
use zheos.Tty.Input.Wakes.{getc_round-got}
use zheos.Tty.Console.{
  from_byte, Reading, ready, abandoned, pass, read_from, read_line, putc, new_line,
}
use zheos.Tty.Console.Edit.{edit, any_error, in_order}
use zheos.Tty.Console.Screen.{Shows}
use zheos.Tty.Console.Refine.{read_line-edit, read_line-abandoned}

abbrev key : ℕ → InputByte
key c = record { byte = c; error = false }

-- Three bytes in a buffer of two, a backspace, a noisy byte and a control byte.
abbrev typing : List InputByte
typing =
    key b'a' ∷ key b'b' ∷ key b'c' ∷ key 0x7f ∷ record { byte = b'd'; error = true } ∷ key 0x01 ∷ []

line-typed :
    read_line (0 ∷ 0 ∷ []) (typing ++ (key 0x0d ∷ key b'x' ∷ []))
    ≡ some (
      ready (b'a' ∷ b'd' ∷ []) true,
      record {
        buf = b'a' ∷ b'd' ∷ [];
        i = 2;
        device_error = true;
        echo = b'a' ∷ b'b' ∷ 0x08 ∷ 0x20 ∷ 0x08 ∷ b'd' ∷ 0x0d ∷ 0x0a ∷ [];
      },
      key b'x' ∷ [],
    )
unfolding read_line read_from pass from_byte
line-typed = refl

read_line-edit_example :
    (r : Reading) × (read_line (0 ∷ 0 ∷ []) (typing ++ (key 0x0d ∷ []))
      ≡ some (ready (in_order (edit 2 [] typing)) (any_error typing || false), putc r new_line, []))
    × Shows r.echo (edit 2 [] typing)
unfolding from_byte
read_line-edit_example =
    read_line-edit (0 ∷ 0 ∷ []) typing (key 0x0d) []
      (refl, (refl, (refl, (refl, (refl, (refl, tt)))))) refl

escape_abandons :
    (r : Reading) × (read_line (0 ∷ 0 ∷ []) (typing ++ (key 0x1b ∷ [])) ≡ some (abandoned, r, []))
unfolding from_byte
escape_abandons =
    read_line-abandoned (0 ∷ 0 ∷ []) typing (key 0x1b) []
      (refl, (refl, (refl, (refl, (refl, (refl, tt)))))) refl

abbrev typed_at : Input
typed_at = record quiet { buffer = Ring.push quiet.buffer (key 65) }

abbrev emptied : RingBuffer InputByte
emptied = (Ring.pop typed_at.buffer).1

ring-byte : Ring.pop typed_at.buffer ≡ (some (key 65), emptied)
unfolding start_state Ring.new Ring.push Ring.pop
ring-byte = refl

first_byte_comes :
    (next : Input) × (t : Task) × (getc_round typed_at ≡ ok (got (key 65) next))
    × Settled next.wait_queue next.kernel.sched
    × (get_or next.kernel.sched.task_table typed_at.kernel.sched.current none ≡ some t)
    × (t.state ≡ Task.ready)
    × (next.buffer ≡ emptied)
unfolding start_state
first_byte_comes = getc_round-got typed_at (key 65) emptied quiet-Settled (omega arith) ring-byte
