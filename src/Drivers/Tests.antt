-- ===== src/Drivers/Tests.antt =====
-- Runs of src/drivers, and its theorems at them.
use zheos.Common.{◌≡◌, refl, some, [], ◌∷◌, ◌++◌, arith, ok}
use zheos.Kernel.Sched.Wait.Settled.{Settled}
use zheos.Tty.Input.{Input}
use zheos.Tty.Sample.{quiet, quiet-Settled}
use zheos.Drivers.Pl011.{
  Readings, drain, try_getc, write_str, put_all, putc, wait_while, write_register,
}
use zheos.Drivers.Pl011.Drain.{pushed, drain-pushed}
use zheos.Drivers.Gic
use zheos.Drivers.Gic.{write_32, write_byte}

-- A clean byte, one with a parity error, and a receiver that is empty.
abbrev clean : Readings
clean = record { flag = 0; data_word = 0x41 }

abbrev noisy : Readings
noisy = record { flag = 0x20; data_word = 0x242 }

abbrev none_left : Readings
none_left = record { flag = 0x10; data_word = 0 }

noisy-byte : try_getc noisy ≡ some (record { byte = 0x42; flags = 2 })
unfolding try_getc
noisy-byte = refl

drain-pushed_example :
    (after : Input) × (drain ((clean ∷ noisy ∷ []) ++ (none_left ∷ [])) quiet ≡ some (ok after))
    × (after.buffer ≡ pushed quiet.buffer (clean ∷ noisy ∷ []))
    × Settled after.wait_queue after.kernel.sched
drain-pushed_example =
    drain-pushed quiet (clean ∷ noisy ∷ []) none_left [] quiet-Settled
      (refl, omega arith, (refl, omega arith, tt)) refl

-- A line feed is put behind a carriage return, each once the transmitter has room.
line_feed :
    write_str (0x20 ∷ 0 ∷ 0 ∷ 0x80 ∷ []) (0x0a ∷ [])
    ≡ some (write_register 0 0x0d ∷ write_register 0 0x0a ∷ [], 0x80 ∷ [])
unfolding write_str put_all putc wait_while
line_feed = refl

-- Interrupt 33, of the UART, is enabled and routed to the one core.
enabled :
    (Gic.enable (record { distributor = 0x0800_0000; cpu = 0x0801_0000; writes = [] }) 33).writes
    ≡ write_32 0x0800_0104 2 ∷ write_byte 0x0800_0821 1 ∷ []
unfolding Gic.enable
enabled = refl
