-- ===== src/Zhemon/Parser.antt =====
-- src/zhemon/parser.rs: the commands of a line, one at a time. A method on `&mut self` returns the
-- parser beside its result, also with an error.
pub mod Number
pub mod Total
pub mod Next
use zheos.Common.{
  ℕ, zero, suc, ◌+◌, ◌-◌, ◌*◌, ◌%◌, ◌^◌, Option, none, some, Bool, true, false, ◌&&◌, ◌||◌, List,
  [],
}
use zheos.Common.{ltb, leb, ◌==◌, if◌then◌else◌, add64, mul64, u8, length}
use zheos.Zhemon.Cursor
use zheos.Zhemon.Cursor.{Cursor}

pub data ParsedCommand : Type 0 where
  set_address : ℕ → ParsedCommand
  examine_one : ℕ → ParsedCommand
  examine_continuing : ℕ → ParsedCommand
  store_continuing : ℕ → ParsedCommand
  run : ParsedCommand

pub data LineParseError : Type 0 where
  unexpected_character : ℕ → LineParseError
  address_too_long : ℕ → LineParseError
  byte_too_long : ℕ → LineParseError
  expected_a_byte : ℕ → LineParseError
  expected_an_address : ℕ → LineParseError

pub data HexParseError : Type 0 where
  too_long : ℕ → HexParseError
  no_digits : HexParseError

abbrev pub max_address_digits : ℕ
max_address_digits = 16

abbrev pub max_byte_digits : ℕ
max_byte_digits = 2

pub data Mode : Type 0 where
  default : Mode
  set : (any_byte_yet : Bool) → Mode

pub record Parser : Type 0 where
  pub cursor : Cursor
  pub mode : Mode

-- `Result<A, LineParseError>`, and the parser that a method leaves.
pub data Result (A : Type 0) : Type 0 where
  ok : A → Parser → Result A
  err : LineParseError → Parser → Result A

unfoldable pub new : List ℕ → Parser
unfolding Cursor.new
new line = record { cursor = Cursor.new line; mode = default }

-- `(c as char).to_digit(16)`
unfoldable pub digit : ℕ → Option ℕ
digit c =
    if leb b'0' c && leb c b'9'
    then some (c - b'0')
    else (if leb b'a' c && leb c b'f'
        then some (c - b'a' + 10)
        else (if leb b'A' c && leb c b'F' then some (c - b'A' + 10) else none))

unfoldable pub append : ℕ → ℕ → ℕ
append number digit = add64 (mul64 number 16) digit

abbrev pub is_instruction : ℕ → Bool
is_instruction c = c == b':' || c == b'R' || c == b'r' || c == b'.'

-- The hexadecimal digit at an offset from the cursor.
abbrev pub digit_at : Cursor → ℕ → Option ℕ
digit_at c offset = elim (Cursor.peek_offset c offset) [ none ↦ none | some b ↦ digit b ]

pub data Hex : Type 0 where
  number : ℕ → Cursor → Hex
  failed : HexParseError → Hex

-- What stands behind the loop of `parse_hex_number`.
unfoldable pub finish_number : Cursor → ℕ → ℕ → Hex
finish_number c digits n =
    if digits == 0 then failed no_digits else number n (Cursor.advance c digits)

-- The loop: `left` more digits are allowed.
unfoldable pub number_from : ℕ → Cursor → ℕ → ℕ → Hex
unfolding finish_number
number_from zero c digits n = elim (digit_at c digits) [
  | none ↦ finish_number c digits n
  | some d ↦ failed (too_long (add64 c.pos digits))
]
number_from (suc left) c digits n = elim (digit_at c digits) [
  | none ↦ finish_number c digits n
  | some d ↦ number_from left c (add64 digits 1) (append n d)
]

unfoldable pub parse_hex_number : Cursor → ℕ → Hex
unfolding number_from
parse_hex_number c max_digits = number_from max_digits c 0 0

unfoldable pub parse_byte : Parser → Result ℕ
unfolding parse_hex_number
parse_byte p = elim (parse_hex_number p.cursor max_byte_digits) [
  | number n c ↦ ok (u8 n) (record p { cursor = c })
  | failed no_digits ↦ err (expected_a_byte p.cursor.pos) p
  | failed (too_long at) ↦ err (byte_too_long at) p
]

unfoldable pub parse_address : Parser → Result ℕ
unfolding parse_hex_number
parse_address p = elim (parse_hex_number p.cursor max_address_digits) [
  | number n c ↦ ok n (record p { cursor = c })
  | failed no_digits ↦ err (expected_an_address p.cursor.pos) p
  | failed (too_long at) ↦ err (address_too_long at) p
]

-- `if let Some(next_char) = peek() && is_instruction(next_char)`
abbrev pub at_instruction : Option ℕ → Bool
at_instruction none = false
at_instruction (some c) = is_instruction c

abbrev pub Step : Type 0
Step = Result (Option ParsedCommand)

unfoldable pub parse_address_command : Parser → Step
unfolding parse_address Cursor.consume_spaces
parse_address_command p = elim (parse_address p) [
  | ok a q ↦
      let c = Cursor.consume_spaces q.cursor in
      let command = if at_instruction (Cursor.peek c) then set_address a else examine_one a in
      (ok (some command) (record q { cursor = c }))
  | err e q ↦ err e q
]

unfoldable pub parse_set_command : Parser → Step
unfolding parse_byte
parse_set_command p = elim (parse_byte p) [
  | ok b q ↦ ok (some (store_continuing b)) (record q { mode = set true })
  | err e q ↦ elim q.mode [
    | default ↦ err e q
    | set true ↦ ok none (record { cursor = Cursor.set_pos q.cursor p.cursor.pos; mode = default })
    | set false ↦ err e q
  ]
]

-- The branch of `parse_instruction` on a full stop.
unfoldable pub parse_examine : Parser → Step
unfolding parse_address Cursor.consume_spaces
parse_examine p =
    let c = Cursor.consume_spaces (Cursor.advance p.cursor 1) in
    elim (parse_address (record { cursor = c; mode = default })) [
      | ok a q ↦ ok (some (examine_continuing a)) q
      | err e q ↦ err e q
    ]

unfoldable pub parse_instruction : Parser → ℕ → Step
unfolding parse_examine
parse_instruction p c =
    let past = Cursor.advance p.cursor 1 in
    if c == b'.'
    then parse_examine p
    else (if c == b':'
        then ok none (record { cursor = past; mode = set false })
        else (if c == b'R' || c == b'r'
            then ok (some run) (record { cursor = past; mode = default })
            else err (unexpected_character past.pos) (record p { cursor = past })))

-- One round of the loop of `parse_next` at a character.
unfoldable pub parse_at : Parser → ℕ → Step
unfolding parse_instruction parse_address_command parse_set_command digit
parse_at p first_char = elim (digit first_char) [
  | none ↦ parse_instruction p first_char
  | some _ ↦ elim p.mode [ default ↦ parse_address_command p | set _ ↦ parse_set_command p ]
]

-- What the loop does at the end of the line.
abbrev pub at_end : Parser → Step
at_end p = elim p.mode [
  | default ↦ ok none p
  | set true ↦ ok none p
  | set false ↦ err (expected_a_byte p.cursor.pos) p
]

-- The loop of `parse_next`; `none` when the fuel runs out, which `Total` excludes.
unfoldable pub next_from : ℕ → Parser → Option Step
unfolding parse_at Cursor.consume_spaces
next_from zero p = none
next_from (suc fuel) p =
    let q : Parser = record p { cursor = Cursor.consume_spaces p.cursor } in
    elim (Cursor.peek q.cursor) [
      | none ↦ some (at_end q)
      | some first_char ↦ elim (parse_at q first_char) [
        | ok (some command) q' ↦ some (ok (some command) q')
        | ok none q' ↦ next_from fuel q'
        | err e q' ↦ some (err e q')
      ]
    ]

-- Two rounds for each byte of the line: one may only leave the mode that stores bytes.
unfoldable pub parse_next : Parser → Option Step
unfolding next_from
parse_next p = next_from (2 * length p.cursor.bytes + 2) p

-- The loop of `validate`.
unfoldable pub validate_from : ℕ → Parser → Option (Result (Unit {0}))
unfolding parse_next
validate_from zero p = none
validate_from (suc fuel) p = elim (parse_next p) [
  | none ↦ none
  | some (ok (some command) q) ↦ validate_from fuel q
  | some (ok none q) ↦ some (ok tt q)
  | some (err e q) ↦ some (err e q)
]

unfoldable pub validate : Parser → Option (Result (Unit {0}))
unfolding validate_from
validate p = validate_from (length p.cursor.bytes + 1) p
