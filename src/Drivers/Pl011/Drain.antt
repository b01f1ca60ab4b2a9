-- ===== src/Drivers/Pl011/Drain.antt =====
-- src/drivers/pl011.rs, `handle_interrupt`: every byte that was received goes to the ring.
use zheos.Common.{
  ℕ, ◌/◌, ◌%◌, ◌^◌, ◌<◌, ◌≡◌, refl, ap, ◌∙◌, true, false, ◌||◌, none, some, List, [], ◌∷◌, ◌++◌,
  arith, ◌/=◌, ◌>>>◌, ok,
}
use zheos.Common.Bits.{bit_and-mask, bit_and-bit}
use zheos.Ring
use zheos.Ring.{RingBuffer}
use zheos.Kernel.Sched.Wait.Settled.{Settled}
use zheos.Tty.Input.{InputByte, Input, push_character}
use zheos.Tty.Input.Wakes.{push_character-wakes}
use zheos.Drivers.Pl011.{
  Readings, into_input_byte, try_getc, has_byte, drain, data_byte_mask, from_data, framing, parity,
  brk, overrun,
}

-- The byte of a data word is its eight low bits, and the four above them are its errors.
abbrev pub received : ℕ → InputByte
received word = record { byte = word % 256; error = word / 256 % 16 /= 0 }

into_input_byte-received :
    (word : ℕ)
    → word < 2 ^ 32
    → into_input_byte (record { byte = data_byte_mask word; flags = from_data word })
      ≡ received word
unfolding into_input_byte
into_input_byte-received word h =
    let byte : data_byte_mask word ≡ word % 256 = omega (arith, bit_and-mask 8 word) in
    let error : (framing (from_data word)
          || (parity (from_data word) || (brk (from_data word) || overrun (from_data word))))
        ≡ (word / 256 % 16 /= 0) =
      ground (
        arith,
        bit_and-bit 0 (word >>> 8),
        bit_and-bit 1 (word >>> 8),
        bit_and-bit 2 (word >>> 8),
        bit_and-bit 3 (word >>> 8),
      ) in
    λ i. record { byte = byte i; error = error i }

try_getc-some :
    (r : Readings)
    → has_byte r.flag ≡ true
    → try_getc r
      ≡ some (record { byte = data_byte_mask r.data_word; flags = from_data r.data_word })
unfolding try_getc
try_getc-some r e = rw e refl

try_getc-none : (r : Readings) → has_byte r.flag ≡ false → try_getc r ≡ none
unfolding try_getc
try_getc-none r e = rw e refl

-- Every reading finds a byte, in a data register of 32 bits.
abbrev pub AllReceived : List Readings → Type 0
AllReceived [] = Unit {0}
AllReceived (r ∷ rs) = (has_byte r.flag ≡ true) × (r.data_word < 2 ^ 32) × AllReceived rs

-- The ring behind the bytes of the readings, one push for each.
abbrev pub pushed : RingBuffer InputByte → List Readings → RingBuffer InputByte
pushed ring [] = ring
pushed ring (r ∷ rs) = pushed (Ring.push ring (received r.data_word)) rs

-- The loop of `handle_interrupt`, on readings that find a byte and one that finds none behind them, ends
-- without a panic: it pushes each byte with its errors on the ring, in the order of the readings, and
-- leaves the table of tasks valid and the tasks of the queue blocked.
pub drain-pushed :
    (input : Input) (rs : List Readings) (last : Readings) (rest : List Readings)
    → Settled input.wait_queue input.kernel.sched
    → AllReceived rs
    → has_byte last.flag ≡ false
    → (after : Input) × (drain (rs ++ (last ∷ rest)) input ≡ some (ok after))
      × (after.buffer ≡ pushed input.buffer rs)
      × Settled after.wait_queue after.kernel.sched
unfolding drain
drain-pushed input [] last rest h all empty =
    (input, rw (drain, try_getc-none last empty) refl, refl, h)
drain-pushed input (r ∷ rs) last rest h (some_byte, word, all) empty =
    let (mid, e, settled, buffer, _) = push_character-wakes input (received r.data_word) h in
    let (after, f, g, done) = drain-pushed mid rs last rest settled all empty in
    let b = into_input_byte-received r.data_word word in
    let went = ap (push_character input) b ∙ e in
    (
      after,
      rw (drain, try_getc-some r some_byte) (rw went f),
      g ∙ ap (λ ring. pushed ring rs) buffer,
      done,
    )
