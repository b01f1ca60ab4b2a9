-- ===== src/Drivers/Pl011.antt =====
-- src/drivers/pl011.rs: the UART. What its registers read is an argument, a list of readings in the
-- order of the reads; what is written comes back as a list of accesses, oldest first.
pub mod Reg
pub mod Drain
use zheos.Common.{
  ℕ, ◌+◌, ◌*◌, ◌/◌, ◌%◌, Bool, true, false, ◌||◌, Option, none, some, List, [], ◌∷◌, ◌++◌,
}
use zheos.Common.{
  ◌==◌, ◌/=◌, if◌then◌else◌, u8, bit_and, bit_or, ◌<<<◌, ◌>>>◌, Outcome, ok, panic, ◌>>=◌,
}
use zheos.Tty.Input.{InputByte, Input, push_character}

abbrev pub busy : ℕ
busy = 8

abbrev pub txff : ℕ
txff = 32

abbrev pub rxfe : ℕ
rxfe = 16

-- A write of a register, by its offset.
pub data Access : Type 0 where
  write_register : (offset value : ℕ) → Access

pub record UartByte : Type 0 where
  pub byte : ℕ
  pub flags : ℕ

abbrev pub framing : ℕ → Bool
framing flags = bit_and flags 1 /= 0

abbrev pub parity : ℕ → Bool
parity flags = bit_and flags 2 /= 0

abbrev pub brk : ℕ → Bool
brk flags = bit_and flags 4 /= 0

abbrev pub overrun : ℕ → Bool
overrun flags = bit_and flags 8 /= 0

abbrev pub from_data : ℕ → ℕ
from_data word = word >>> 8

abbrev pub data_byte_mask : ℕ → ℕ
data_byte_mask c = u8 (bit_and c 0xff)

unfoldable pub into_input_byte : UartByte → InputByte
into_input_byte b = record {
  byte = b.byte;
  error = framing b.flags || (parity b.flags || (brk b.flags || overrun b.flags));
}

-- What one call of `try_getc` reads: the flag register, and the data register if the flags say that
-- there is a byte.
pub record Readings : Type 0 where
  pub flag : ℕ
  pub data_word : ℕ

abbrev pub has_byte : ℕ → Bool
has_byte flag = bit_and flag rxfe == 0

unfoldable pub try_getc : Readings → Option UartByte
try_getc r =
    if has_byte r.flag
    then some (record { byte = data_byte_mask r.data_word; flags = from_data r.data_word })
    else none

abbrev pub clear_interrupts : Access
clear_interrupts = write_register Reg.icr 0x7ff

-- `while let Some(uart_byte) = uart.try_getc()`; `none` when no call of it finds the receiver empty.
unfoldable pub drain : List Readings → Input → Option (Outcome Input)
drain [] input = none
drain (r ∷ rs) input = elim (try_getc r) [
  | none ↦ some (ok input)
  | some b ↦ elim (push_character input (into_input_byte b)) [
    | panic ↦ some panic
    | ok input' ↦ drain rs input'
  ]
]

unfoldable pub handle_interrupt : List Readings → Input → List Access × Option (Outcome Input)
handle_interrupt rs input = (clear_interrupts ∷ [], drain rs input)

-- `while self.read_register(FR) & mask != 0 {}`, with the readings that are left; `none` while it waits.
unfoldable pub wait_while : ℕ → List ℕ → Option (List ℕ)
wait_while mask [] = none
wait_while mask (flag ∷ flags) =
    if bit_and flag mask == 0 then some flags else wait_while mask flags

abbrev pub scaled_divisor : ℕ
scaled_divisor = (4 * 24000000 + 115200 / 2) / 115200

-- `init`, with what the flag register reads.
unfoldable pub init : List ℕ → Option (List Access × List ℕ)
init flags = elim (wait_while busy flags) [
  | none ↦ none
  | some flags' ↦ some (
    write_register Reg.cr 0
        ∷ write_register Reg.lcr_h 0
        ∷ write_register Reg.ibrd (scaled_divisor / 64)
        ∷ write_register Reg.fbrd (scaled_divisor % 64)
        ∷ write_register Reg.lcr_h (bit_or (3 <<< 5) (1 <<< 4))
        ∷ write_register Reg.imsc 0
        ∷ clear_interrupts
        ∷ write_register Reg.cr 0x301
        ∷ [],
    flags',
  )
]

abbrev pub enable_interrupt : Access
enable_interrupt = write_register Reg.imsc (bit_or (1 <<< 4) (1 <<< 6))

unfoldable pub putc : List ℕ → ℕ → Option (List Access × List ℕ)
putc flags c = elim (wait_while txff flags) [
  | none ↦ none
  | some flags' ↦ some (write_register Reg.dr c ∷ [], flags')
]

unfoldable pub flush : List ℕ → Option (List ℕ)
flush flags = wait_while busy flags

-- The bytes that `write_str` puts.
abbrev pub put_bytes : List ℕ → List ℕ
put_bytes [] = []
put_bytes (c ∷ cs) = if c == 0x0a then 0x0d ∷ c ∷ put_bytes cs else c ∷ put_bytes cs

unfoldable pub put_all : List ℕ → List ℕ → Option (List Access × List ℕ)
put_all flags [] = some ([], flags)
put_all flags (c ∷ cs) = elim (putc flags c) [
  | none ↦ none
  | some (written, flags') ↦ elim (put_all flags' cs) [
    | none ↦ none
    | some (more, flags'') ↦ some (written ++ more, flags'')
  ]
]

unfoldable pub write_str : List ℕ → List ℕ → Option (List Access × List ℕ)
write_str flags s = put_all flags (put_bytes s)
