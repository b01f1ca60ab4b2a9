-- ===== src/Zhemon/Monitor/Tests.antt =====
-- src/zhemon: short lines through the parser and the monitor, and the theorems at concrete input.
use zheos.Common.{ℕ, ◌≡◌, refl, some, List, [], ◌∷◌, map, Option, false, arith, ◌↔◌}
use zheos.Zhemon.Cursor
use zheos.Zhemon.Cursor.{IsValid}
use zheos.Zhemon.Parser
use zheos.Zhemon.Parser.{Parser, Hex, parse_hex_number, ParsedCommand, validate, store_continuing}
use zheos.Zhemon.Parser.Number.{parse_hex_number-run, report, Writes}
use zheos.Zhemon.Parser.Next.{Next, parse_next-Next}
use zheos.Zhemon.Monitor.{
  Zhemon, ready, Round, again, round, start_state, handle_line, handle_examine_continuing,
}
use zheos.Zhemon.Monitor.Validated.{Gives, Verdict, End, after, execute_all, line-runs}
use zheos.Zhemon.Monitor.Rounds.{Served, round-Served}
use zheos.Zhemon.Monitor.Stores.{Stored, execute_all-Stored, Examined, examine-Examined}

-- The line `10: AB 1`.
abbrev store_line : List ℕ
store_line = b'1' ∷ b'0' ∷ b':' ∷ b' ' ∷ b'A' ∷ b'B' ∷ b' ' ∷ b'1' ∷ []

abbrev machine : Zhemon
machine = start_state (λ a. 0) []

-- The code that `R` runs, here code that returns at once.
abbrev returns : ℕ → Zhemon → Zhemon
returns address z = z

store_line-IsValid : IsValid (Cursor.new store_line)
unfolding Cursor.new
store_line-IsValid = record { within = omega arith; short = omega arith }

abbrev memory_after : Option Round → ℕ → ℕ
memory_after (some (again z)) a = z.memory a
memory_after _ a = 0

stores_line : memory_after (round returns machine (ready store_line false)) 17 ≡ 1
unfolding round Parser.append
stores_line = refl

parse_hex_number-run_example :
    (parse_hex_number (Cursor.new store_line) 16
      ≡ report 0 16 16 (Cursor.new store_line) (1 ∷ 0 ∷ []))
    × ((b d : ℕ) → (Parser.digit b ≡ some d) ↔ Writes b d)
unfolding Cursor.new Parser.digit
parse_hex_number-run_example = parse_hex_number-run (Cursor.new store_line) 16 store_line-IsValid

parse_next-Next_example :
    (s : Parser.Step) × (Parser.parse_next (Parser.new store_line) ≡ some s)
    × Next (Parser.new store_line) s
unfolding Parser.new Cursor.new
parse_next-Next_example = parse_next-Next (Parser.new store_line) store_line-IsValid

line-runs_example :
    (cs : List ParsedCommand) × (e : End) × Gives (Parser.new store_line) cs e
    × Verdict e (validate (Parser.new store_line))
    × ((z : Zhemon)
        → handle_line returns z (Parser.new store_line)
          ≡ some (after returns (execute_all returns z cs) e))
unfolding Parser.new Cursor.new
line-runs_example = line-runs returns (Parser.new store_line) store_line-IsValid

round-Served_example :
    Served returns machine (ready store_line false) (round returns machine (ready store_line false))
round-Served_example = round-Served returns machine (ready store_line false) (omega arith)

execute_all-Stored_example :
    Stored machine
      (171 ∷ 1 ∷ [])
      (execute_all returns machine (map store_continuing (171 ∷ 1 ∷ [])))
execute_all-Stored_example = execute_all-Stored returns machine (171 ∷ 1 ∷ []) (omega arith)

examine-Examined_example :
    Examined
      (record machine { next_address = 6 })
      17
      (handle_examine_continuing (record machine { next_address = 6 }) 17)
examine-Examined_example = examine-Examined (record machine { next_address = 6 }) 17
