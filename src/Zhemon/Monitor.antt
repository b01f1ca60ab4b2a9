-- ===== src/Zhemon/Monitor.antt =====
-- src/zhemon/mod.rs: what the commands of a line do. Memory is a function from addresses to bytes,
-- the console a list of what was written, oldest first. The code that `R` calls is not part of the
-- monitor: it is a parameter.
pub mod Rounds
pub mod Stores
pub mod Validated
pub mod Tests
use zheos.Common.{
  ℕ, zero, suc, ◌+◌, ◌-◌, ◌%◌, Option, none, some, Bool, true, false, not, ◌&&◌, ◌||◌, List, [],
  ◌∷◌, ◌++◌,
}
use zheos.Common.{ltb, ◌==◌, ◌/=◌, if◌then◌else◌, add64, length, replicate}
use zheos.Tty.Console.{Line, ready, abandoned}
use zheos.Zhemon.Parser
use zheos.Zhemon.Parser.{Parser, ParsedCommand, LineParseError, ok, err}
use zheos.Zhemon.Parser.{set_address, examine_one, examine_continuing, store_continuing, run}
use zheos.Zhemon.Parser.{
  unexpected_character, address_too_long, byte_too_long, expected_a_byte, expected_an_address,
}

pub data Description : Type 0 where
  unexpected_character_text : Description
  address_too_long_text : Description
  byte_too_long_text : Description
  expected_a_byte_text : Description
  expected_an_address_text : Description

-- What goes to the console, one constructor for each format that the monitor prints.
pub data Event : Type 0 where
  put : ℕ → Event
  new_line : Event
  gap : Event
  address_label : ℕ → Event
  byte_value : ℕ → Event
  address_line : ℕ → ℕ → Event
  error_line : Description → Event
  alignment_error : Event
  device_error_line : Event
  process_list : Event

pub record Zhemon : Type 0 where
  pub last_address : ℕ
  pub next_address : ℕ
  pub memory : ℕ → ℕ
  pub console : List Event

abbrev pub prompt : ℕ
prompt = 92

-- `new`, with the memory and the console that the monitor finds.
abbrev pub start_state : (ℕ → ℕ) → List Event → Zhemon
start_state memory console = record {
  last_address = 0;
  next_address = 0;
  memory = memory;
  console = console;
}

abbrev pub print : Zhemon → List Event → Zhemon
print z es = record z { console = z.console ++ es }

abbrev pub write_byte : (ℕ → ℕ) → ℕ → ℕ → (ℕ → ℕ)
write_byte memory address byte = λ a. if a == address then byte else memory a

abbrev pub put_prompt : Zhemon → Zhemon
put_prompt z = print z (put prompt ∷ [])

unfoldable pub handle_set_address : Zhemon → ℕ → Zhemon
handle_set_address z address = record z { last_address = address; next_address = address }

unfoldable pub handle_examine_one : Zhemon → ℕ → Zhemon
handle_examine_one z address =
    let shown = print z (address_line address (z.memory address) ∷ []) in
    record shown { last_address = address; next_address = add64 address 1 }

-- What one address prints: a new line and a label at a multiple of eight, a label and the gaps that
-- align it at the start.
abbrev pub dump_byte : (ℕ → ℕ) → ℕ → ℕ → List Event
dump_byte memory start address =
    let carry = address % 8 in
    let is_start = address == start in
    (if not is_start && carry == 0 then new_line ∷ [] else [])
    ++ (if carry == 0 || is_start then address_label address ∷ [] else [])
    ++ (if is_start && carry /= 0 then replicate carry gap else [])
    ++ (byte_value (memory address) ∷ [])

-- `for address in start..=end`, with the number of addresses that are left.
unfoldable pub dump : ℕ → (ℕ → ℕ) → ℕ → ℕ → List Event
dump zero memory start address = []
dump (suc left) memory start address =
    dump_byte memory start address ++ dump left memory start (address + 1)

unfoldable pub handle_examine_continuing : Zhemon → ℕ → Zhemon
unfolding dump
handle_examine_continuing z end =
    let start = z.next_address in
    let moved = record z { last_address = end; next_address = add64 end 1 } in
    if ltb end start
    then moved
    else print moved (dump (end - start + 1) z.memory start start ++ (new_line ∷ []))

unfoldable pub handle_store_continuing : Zhemon → ℕ → Zhemon
handle_store_continuing z byte = record z {
  memory = write_byte z.memory z.next_address byte;
  next_address = add64 z.next_address 1;
}

abbrev pub describe : LineParseError → ℕ × Description
describe (unexpected_character i) = (i, unexpected_character_text)
describe (address_too_long i) = (add64 i 1, address_too_long_text)
describe (byte_too_long i) = (add64 i 1, byte_too_long_text)
describe (expected_a_byte i) = (i, expected_a_byte_text)
describe (expected_an_address i) = (i, expected_an_address_text)

unfoldable pub on_parse_error : Zhemon → LineParseError → Zhemon
on_parse_error z e =
    let (position, description) = describe e in
    print z (replicate position (put b' ') ++ (put b'^' ∷ new_line ∷ error_line description ∷ []))

abbrev pub same_bytes : List ℕ → List ℕ → Bool
same_bytes [] [] = true
same_bytes (x ∷ xs) (y ∷ ys) = x == y && same_bytes xs ys
same_bytes _ _ = false

abbrev pub exit_word : List ℕ
exit_word = b'e' ∷ b'x' ∷ b'i' ∷ b't' ∷ []

abbrev pub ps_word : List ℕ
ps_word = b'p' ∷ b's' ∷ []

-- What one round of the loop of `start` leaves.
pub data Round : Type 0 where
  again : Zhemon → Round
  stopped : Zhemon → Round

module _ (call : ℕ → Zhemon → Zhemon) where
  unfoldable pub handle_run : Zhemon → Zhemon
  handle_run z =
      if z.last_address % 4 /= 0 then print z (alignment_error ∷ []) else call z.last_address z

  unfoldable pub execute : Zhemon → ParsedCommand → Zhemon
  unfolding handle_set_address handle_examine_one handle_examine_continuing handle_store_continuing
      handle_run
  execute z (set_address address) = handle_set_address z address
  execute z (examine_one address) = handle_examine_one z address
  execute z (examine_continuing end) = handle_examine_continuing z end
  execute z (store_continuing byte) = handle_store_continuing z byte
  execute z run = handle_run z

  -- The loop of `handle_line`; `none` when the fuel runs out, which `Validated` excludes.
  unfoldable pub handle_from : ℕ → Zhemon → Parser → Option Zhemon
  unfolding execute on_parse_error Parser.parse_next
  handle_from zero z p = none
  handle_from (suc fuel) z p = elim (Parser.parse_next p) [
    | none ↦ none
    | some (ok (some command) q) ↦ handle_from fuel (execute z command) q
    | some (ok none q) ↦ some z
    | some (err e q) ↦ some (on_parse_error z e)
  ]

  unfoldable pub handle_line : Zhemon → Parser → Option Zhemon
  unfolding handle_from
  handle_line z p = handle_from (length p.cursor.bytes + 1) z p

  -- A round behind `read_line`; `none` when the fuel of a loop runs out.
  unfoldable pub round : Zhemon → Line → Option Round
  unfolding handle_line on_parse_error Parser.validate Parser.new
  round z abandoned = some (again z)
  round z (ready buf true) = some (again (print z (device_error_line ∷ [])))
  round z (ready buf false) =
      if same_bytes buf exit_word
      then some (stopped z)
      else (if same_bytes buf ps_word
          then some (again (print z (process_list ∷ [])))
          else (elim (Parser.validate (Parser.new buf)) [
            | none ↦ none
            | some (err e q) ↦ some (again (on_parse_error z e))
            | some (ok t q) ↦ elim (handle_line z (Parser.new buf)) [
              | none ↦ none
              | some z' ↦ some (again z')
            ]
          ]))
