-- ===== src/Tty/Console.antt =====
-- src/tty/console.rs: the line editor. The bytes that `getc` gives come as a list, and what is put on
-- the UART is the list `echo`, oldest first.
pub mod Edit
pub mod Screen
pub mod Loop
pub mod Refine
use zheos.Common.{ℕ, ◌+◌, ◌-◌, Bool, true, false, ◌||◌, Option, none, some, List, [], ◌∷◌, ◌++◌}
use zheos.Common.{ltb, leb, ◌==◌, if◌then◌else◌, length, set, take}
use zheos.Tty.Input.{InputByte}

-- `ReadlineResult` is the two fields of `ready`.
pub data Line : Type 0 where
  ready : (buf : List ℕ) (device_error : Bool) → Line
  abandoned : Line

pub data InputChar : Type 0 where
  char : ℕ → InputChar
  backspace : InputChar
  newline : InputChar
  escape : InputChar
  non_printable : InputChar

abbrev pub is_backspace : ℕ → Bool
is_backspace c = c == 0x08 || c == 0x7f

abbrev pub is_newline : ℕ → Bool
is_newline c = c == 0x0d || c == 0x0a

abbrev pub is_escape : ℕ → Bool
is_escape c = c == 0x1b

abbrev pub is_non_printable : ℕ → Bool
is_non_printable c = ltb c 0x20 || ltb 0x7e c

unfoldable pub from_byte : ℕ → InputChar
from_byte byte =
    if is_newline byte
    then newline
    else (if is_backspace byte
        then backspace
        else (if is_escape byte
            then escape
            else (if is_non_printable byte then non_printable else char byte)))

abbrev pub erase_sequence : List ℕ
erase_sequence = 0x08 ∷ 0x20 ∷ 0x08 ∷ []

abbrev pub new_line : List ℕ
new_line = 0x0d ∷ 0x0a ∷ []

-- The variables of the loop, the caller's buffer and what was put.
pub record Reading : Type 0 where
  pub buf : List ℕ
  pub i : ℕ
  pub device_error : Bool
  pub echo : List ℕ

abbrev pub putc : Reading → List ℕ → Reading
putc r cs = record r { echo = r.echo ++ cs }

-- A pass of the loop, from which it goes on or ends with a line.
pub data Pass : Type 0 where
  continue : Reading → Pass
  ended : Line → Reading → Pass

-- `buf.get_mut(..i).unwrap_or(&mut [])`
abbrev pub prefix_or_empty : List ℕ → ℕ → List ℕ
prefix_or_empty buf i = if leb i (length buf) then take i buf else []

abbrev pub on_char : Reading → InputChar → Pass
on_char r non_printable = continue r
on_char r newline = ended (ready (prefix_or_empty r.buf r.i) r.device_error) (putc r new_line)
on_char r backspace =
    if ltb 0 r.i then continue (putc (record r { i = r.i - 1 }) erase_sequence) else continue r
on_char r escape = ended abandoned (putc r new_line)
on_char r (char c) =
    if ltb r.i (length r.buf)
    then continue (putc (record r { buf = set r.buf r.i c; i = r.i + 1 }) (c ∷ []))
    else continue r

abbrev pub mark_error : Reading → InputByte → Reading
mark_error r c = if c.error then record r { device_error = true } else r

unfoldable pub pass : Reading → InputByte → Pass
unfolding from_byte
pass r c = on_char (mark_error r c) (from_byte c.byte)

-- The loop on the bytes that come; `none` while the line has no end.
unfoldable pub read_from : Reading → List InputByte → Option (Line × Reading × List InputByte)
unfolding pass
read_from r [] = none
read_from r (c ∷ cs) = elim (pass r c) [
  | continue r' ↦ read_from r' cs
  | ended line r' ↦ some (line, r', cs)
]

unfoldable pub read_line : List ℕ → List InputByte → Option (Line × Reading × List InputByte)
unfolding read_from
read_line buf input = read_from (record { buf = buf; i = 0; device_error = false; echo = [] }) input
