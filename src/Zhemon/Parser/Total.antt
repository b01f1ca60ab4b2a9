-- ===== src/Zhemon/Parser/Total.antt =====
-- src/zhemon/parser.rs: the loops of the parser end. A round of `parse_next` without a command
-- either moves on or leaves the mode that stores bytes, so a weight falls.
use zheos.Common.{ℕ, zero, suc, ◌+◌, ◌-◌, ◌*◌, ◌<◌, ◌≤◌, ◌≡◌, refl, none, some, List, arith, ◌==◌}
use zheos.Common.{
  length, add64, Option-cases, Bool-cases, ◌⊎◌, inl, inr, drop, [], ◌∷◌, true, false, ap, ◌∙◌, ltb,
  ◌||◌,
}
use zheos.Zhemon.Cursor
use zheos.Zhemon.Cursor.{Cursor, IsValid, Consumed, get_elem?-lt, consume_spaces-Consumed}
use zheos.Common.{u8}
use zheos.Zhemon.Parser.{expected_a_byte, byte_too_long, expected_an_address, address_too_long}
use zheos.Zhemon.Parser.{
  Parser, HexParseError, Step, ParsedCommand, LineParseError, Mode, ok, err, number, failed,
  no_digits, too_long, default, set,
}
use zheos.Zhemon.Parser.{
  parse_hex_number, parse_byte, parse_address, parse_address_command, parse_set_command,
  parse_examine, parse_instruction, parse_at, digit,
}
use zheos.Zhemon.Parser.Number.{digit_run, value_from, parse_hex_number-read_run}

-- A cursor that moved on in its line.
pub record Ahead (c d : Cursor) : Type 0 where
  pub same : d.bytes ≡ c.bytes
  pub moved : c.pos < d.pos
  pub within : d.pos ≤ length c.bytes

-- A run of digits lies in the line.
digit_run-within :
    (bs : List ℕ) (i : ℕ) → i ≤ length bs → i + length (digit_run (drop i bs)) ≤ length bs
digit_run-within [] zero h = omega arith
digit_run-within [] (suc i) h = absurd (omega arith)
digit_run-within (b ∷ bs) zero h =
    let rest = digit_run-within bs zero (omega arith) in
    elim (Option-cases (digit b)) [
      | inl e ↦ rw (e, drop, digit_run) (omega arith)
      | inr (d, e) ↦ rw (e, drop, digit_run) (omega (arith, rest))
    ]
digit_run-within (b ∷ bs) (suc i) h = omega (arith, digit_run-within bs i (omega arith))

hex-cases :
    (c : Cursor) (max : ℕ)
    → IsValid c
    → ((n : ℕ) × (d : Cursor) × (parse_hex_number c max ≡ number n d) × Ahead c d)
      ⊎ ((e : HexParseError) × (parse_hex_number c max ≡ failed e))
hex-cases c max v =
    let ds = digit_run (drop c.pos c.bytes) in
    let run = parse_hex_number-read_run c max v in
    let inside = digit_run-within c.bytes c.pos v.within in
    elim (Bool-cases (0 + length ds == 0)) [
      | inl e ↦ inr (no_digits, run ∙ rw e refl)
      | inr e ↦ elim (Bool-cases (ltb max (length ds))) [
        | inl f ↦ inr (too_long (c.pos + 0 + max), run ∙ rw (e, f) refl)
        | inr f ↦ inl (
          value_from 0 ds,
          record c { pos = c.pos + (0 + length ds) },
          run ∙ rw (e, f) refl,
          record { same = refl; moved = ground arith; within = omega (arith, inside) },
        )
      ]
    ]

byte-cases :
    (p : Parser)
    → IsValid p.cursor
    → ((n : ℕ) × (d : Cursor) × (parse_byte p ≡ (ok n (record p { cursor = d })))
        × Ahead p.cursor d)
      ⊎ ((e : LineParseError) × (parse_byte p ≡ (err e p)))
unfolding parse_byte
byte-cases p v = elim (hex-cases p.cursor 2 v) [
  | inl (n, d, e, a) ↦ inl (u8 n, d, rw (e, parse_byte) refl, a)
  | inr (no_digits, e) ↦ inr (expected_a_byte p.cursor.pos, rw (e, parse_byte) refl)
  | inr (too_long at, e) ↦ inr (byte_too_long at, rw (e, parse_byte) refl)
]

address-cases :
    (p : Parser)
    → IsValid p.cursor
    → ((n : ℕ) × (d : Cursor) × (parse_address p ≡ (ok n (record p { cursor = d })))
        × Ahead p.cursor d)
      ⊎ ((e : LineParseError) × (parse_address p ≡ (err e p)))
unfolding parse_address
address-cases p v = elim (hex-cases p.cursor 16 v) [
  | inl (n, d, e, a) ↦ inl (n, d, rw (e, parse_address) refl, a)
  | inr (no_digits, e) ↦ inr (expected_an_address p.cursor.pos, rw (e, parse_address) refl)
  | inr (too_long at, e) ↦ inr (address_too_long at, rw (e, parse_address) refl)
]

-- Twice the bytes that are left, and one more while a byte has been stored.
abbrev pub bytes_stored : Mode → ℕ
bytes_stored (set true) = 1
bytes_stored _ = 0

abbrev pub weight : Parser → ℕ
weight p = 2 * (length p.cursor.bytes - p.cursor.pos) + bytes_stored p.mode

-- What one round may do: give a command and move on, change the mode with a smaller weight, or
-- report an error.
pub data Progress (p : Parser) : Step → Type 0 where
  command : {c : ParsedCommand} {q : Parser} → Ahead p.cursor q.cursor → Progress p (ok (some c) q)
  quiet :
      {q : Parser}
      → q.cursor.bytes ≡ p.cursor.bytes
      → p.cursor.pos ≤ q.cursor.pos
      → q.cursor.pos ≤ length p.cursor.bytes
      → weight q < weight p
      → Progress p (ok none q)
  rejected : {e : LineParseError} {q : Parser} → Progress p (err e q)

Ahead-spaces : {c d : Cursor} → IsValid c → Ahead c d → Ahead c (Cursor.consume_spaces d)
Ahead-spaces {c} {d} v a =
    let l : length d.bytes ≡ length c.bytes = ap length a.same in
    let t =
      consume_spaces-Consumed d
        (record { within = omega (arith, a.within, l); short = omega (arith, v.short, l) }) in
    record {
      same = t.same ∙ a.same;
      moved = omega (arith, a.moved, t.ahead);
      within = omega (arith, t.within, l);
    }

address_command-Progress : (p : Parser) → IsValid p.cursor → Progress p (parse_address_command p)
unfolding parse_address_command
address_command-Progress p v = elim (address-cases p v) [
  | inl (n, d, e, a) ↦ rw (e, parse_address_command) (command (Ahead-spaces v a))
  | inr (x, e) ↦ rw (e, parse_address_command) rejected
]

pub Mode-cases : (m : Mode) → (m ≡ default) ⊎ (m ≡ set true) ⊎ (m ≡ set false)
Mode-cases default = inl refl
Mode-cases (set true) = inr (inl refl)
Mode-cases (set false) = inr (inr refl)

set_command-Progress : (p : Parser) → IsValid p.cursor → Progress p (parse_set_command p)
unfolding parse_set_command
set_command-Progress p v = elim (byte-cases p v) [
  | inl (n, d, e, a) ↦ rw (e, parse_set_command) (command a)
  | inr (x, e) ↦ elim (Mode-cases p.mode) [
    | inl f ↦ rw (e, f, parse_set_command) rejected
    | inr (inl f) ↦
        rw (e, f, parse_set_command)
          (quiet refl (omega arith) v.within (omega (arith, ap bytes_stored f)))
    | inr (inr f) ↦ rw (e, f, parse_set_command) rejected
  ]
]

examine-Progress :
    (p : Parser)
    → IsValid p.cursor
    → p.cursor.pos < length p.cursor.bytes
    → Progress p (parse_examine p)
unfolding parse_examine
examine-Progress p v h =
    let up : add64 p.cursor.pos 1 ≡ p.cursor.pos + 1 = omega (arith, v.short, h) in
    let a : Ahead p.cursor (Cursor.consume_spaces (Cursor.advance p.cursor 1)) =
      Ahead-spaces v (record { same = refl; moved = omega arith; within = omega arith }) in
    let c = Cursor.consume_spaces (Cursor.advance p.cursor 1) in
    let l = ap length a.same in
    elim (address-cases (record { cursor = c; mode = default })
      (record { within = omega (arith, a.within, l); short = omega (arith, l, v.short) })) [
        | inl (n, d, e, b) ↦
            rw (e, parse_examine)
              (command (record {
                same = b.same ∙ a.same;
                moved = omega (arith, a.moved, b.moved);
                within = omega (arith, l, b.within);
              }))
        | inr (x, e) ↦ rw (e, parse_examine) rejected
      ]

instruction-Progress :
    (p : Parser) (b : ℕ)
    → IsValid p.cursor
    → p.cursor.pos < length p.cursor.bytes
    → Progress p (parse_instruction p b)
unfolding parse_instruction
instruction-Progress p b v h =
    let up : add64 p.cursor.pos 1 ≡ p.cursor.pos + 1 = omega (arith, v.short, h) in
    elim (Bool-cases (b == b'.')) [
      | inl e ↦ rw (e, parse_instruction) (examine-Progress p v h)
      | inr e ↦ elim (Bool-cases (b == b':')) [
        | inl f ↦
            rw (e, f, parse_instruction) (quiet refl (omega arith) (omega arith) (omega arith))
        | inr f ↦ elim (Bool-cases (b == b'R' || b == b'r')) [
          | inl g ↦
              rw (e, f, g, parse_instruction)
                (command (record { same = refl; moved = omega arith; within = omega arith }))
          | inr g ↦ rw (e, f, g, parse_instruction) rejected
        ]
      ]
    ]

pub at-Progress :
    (p : Parser) (b : ℕ)
    → IsValid p.cursor
    → p.cursor.pos < length p.cursor.bytes
    → Progress p (parse_at p b)
unfolding parse_at
at-Progress p b v h = elim (Option-cases (digit b)) [
  | inl e ↦ rw (e, parse_at) (instruction-Progress p b v h)
  | inr (d, e) ↦ elim (Mode-cases p.mode) [
    | inl f ↦ simp (e, f, parse_at) (address_command-Progress p v)
    | inr (inl f) ↦ simp (e, f, parse_at) (set_command-Progress p v)
    | inr (inr f) ↦ simp (e, f, parse_at) (set_command-Progress p v)
  ]
]

pub Step-cases :
    (s : Step)
    → ((c : ParsedCommand) × (q : Parser) × (s ≡ ok (some c) q))
      ⊎ ((q : Parser) × (s ≡ ok none q))
      ⊎ ((e : LineParseError) × (q : Parser) × (s ≡ err e q))
Step-cases (ok (some c) q) = inl (c, q, refl)
Step-cases (ok none q) = inr (inl (q, refl))
Step-cases (err e q) = inr (inr (e, q, refl))

pub Progress-command :
    {p q : Parser} {c : ParsedCommand} → Progress p (ok (some c) q) → Ahead p.cursor q.cursor
Progress-command (command a) = a

pub Progress-quiet :
    {p q : Parser}
    → Progress p (ok none q)
    → (q.cursor.bytes ≡ p.cursor.bytes)
      × (p.cursor.pos ≤ q.cursor.pos)
      × (q.cursor.pos ≤ length p.cursor.bytes)
      × (weight q < weight p)
Progress-quiet (quiet same le within w) = (same, le, within, w)
