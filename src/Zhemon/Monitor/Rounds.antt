-- ===== src/Zhemon/Monitor/Rounds.antt =====
-- src/zhemon/mod.rs: a round of the main loop, for any line.
use zheos.Common.{
  ℕ, ◌<◌, ◌^◌, ◌≡◌, ◌≢◌, ◌==◌, ==_iff, ap, ◌∙◌, sym, refl, Option, some, true, false, List, [], ◌∷◌,
  length, arith, inl, inr, Bool-cases,
}
use zheos.Zhemon.Parser
use zheos.Zhemon.Parser.{Parser, ParsedCommand, LineParseError, Result, ok, err, validate}
use zheos.Zhemon.Monitor.{
  Zhemon, Line, ready, abandoned, Round, again, stopped, round, print, on_parse_error, handle_line,
}
use zheos.Zhemon.Monitor.{device_error_line, process_list, same_bytes, exit_word, ps_word}
use zheos.Zhemon.Monitor.Validated.{
  End, all_parsed, stops_at, Gives, Verdict, valid, invalid, execute_all, after, line-runs,
}

same_bytes-same : (xs ys : List ℕ) → same_bytes xs ys ≡ true → xs ≡ ys
same_bytes-same [] [] h = refl
same_bytes-same [] (y ∷ ys) h = absurd (ground arith)
same_bytes-same (x ∷ xs) [] h = absurd (ground arith)
same_bytes-same (x ∷ xs) (y ∷ ys) h =
    let first : (x == y) ≡ true = ground (arith, h) in
    let rest : same_bytes xs ys ≡ true = ground (arith, h) in
    let head = (==_iff x y).0 first in let tail = same_bytes-same xs ys rest in cc

same_bytes_self : (xs : List ℕ) → same_bytes xs xs ≡ true
same_bytes_self [] = refl
same_bytes_self (x ∷ xs) =
    let one : (x == x) ≡ true = ground arith in rw (one, same_bytes_self xs) refl

differs : (xs ys : List ℕ) → same_bytes xs ys ≡ false → xs ≢ ys
differs xs ys h same =
    let both : true ≡ false =
      sym (same_bytes_self ys) ∙ ap (λ zs. same_bytes zs ys) (sym same) ∙ h in
    cc

module _ (call : ℕ → Zhemon → Zhemon) where
  -- What a round may come to.
  pub data Served (z : Zhemon) : Line → Option Round → Type 0 where
    abandoned_line : Served z abandoned (some (again z))
    device_failed :
        {buf : List ℕ} → Served z (ready buf true) (some (again (print z (device_error_line ∷ []))))
    left : {buf : List ℕ} → buf ≡ exit_word → Served z (ready buf false) (some (stopped z))
    listed :
        {buf : List ℕ}
        → buf ≡ ps_word
        → Served z (ready buf false) (some (again (print z (process_list ∷ []))))
    refused :
        {buf : List ℕ} {cs : List ParsedCommand} {e : LineParseError}
        → buf ≢ exit_word
        → buf ≢ ps_word
        → Gives (Parser.new buf) cs (stops_at e)
        → Served z (ready buf false) (some (again (on_parse_error z e)))
    carried_out :
        {buf : List ℕ} {cs : List ParsedCommand}
        → buf ≢ exit_word
        → buf ≢ ps_word
        → Gives (Parser.new buf) cs all_parsed
        → Served z (ready buf false) (some (again (execute_all call z cs)))

  abbrev pub IsShort : Line → Type 0
  IsShort (ready buf device_error) = length buf < 2 ^ 63
  IsShort abandoned = Unit {0}

  Verdict-valid :
      {o : Option (Result (Unit {0}))} → Verdict all_parsed o → (q : Parser) × (o ≡ some (ok tt q))
  Verdict-valid (valid {q}) = (q, refl)

  Verdict-invalid :
      {e : LineParseError} {o : Option (Result (Unit {0}))}
      → Verdict (stops_at e) o
      → (q : Parser) × (o ≡ some (err e q))
  Verdict-invalid (invalid {q = q}) = (q, refl)

  by_end :
      (z : Zhemon) (buf : List ℕ) (cs : List ParsedCommand) (e : End)
      → same_bytes buf exit_word ≡ false
      → same_bytes buf ps_word ≡ false
      → Gives (Parser.new buf) cs e
      → Verdict e (validate (Parser.new buf))
      → ((y : Zhemon)
          → handle_line call y (Parser.new buf) ≡ some (after call (execute_all call y cs) e))
      → Served z (ready buf false) (round call z (ready buf false))
  unfolding round
  by_end z buf cs all_parsed no_exit no_ps g t r =
      let (q, v) = Verdict-valid t in
      rw (no_exit, no_ps, v, r z, round)
        (carried_out (differs buf exit_word no_exit) (differs buf ps_word no_ps) g)
  by_end z buf cs (stops_at x) no_exit no_ps g t r =
      let (q, v) = Verdict-invalid t in
      rw (no_exit, no_ps, v, round)
        (refused (differs buf exit_word no_exit) (differs buf ps_word no_ps) g)

  line_round :
      (z : Zhemon) (buf : List ℕ)
      → length buf < 2 ^ 63
      → same_bytes buf exit_word ≡ false
      → same_bytes buf ps_word ≡ false
      → Served z (ready buf false) (round call z (ready buf false))
  unfolding Parser.new
  line_round z buf h no_exit no_ps =
      let (cs, e, g, t, r) =
        line-runs call (Parser.new buf) (record { within = omega arith; short = h }) in
      by_end z buf cs e no_exit no_ps g t r

  -- With a line shorter than 2 ^ 63 bytes a round ends. A line that does not parse to its end runs
  -- none of its commands and only the error is printed; a line that does runs all of its commands in
  -- order, without an error; `exit` stops the monitor and `ps` lists the tasks, whatever the parser would
  -- make of them, a device error is reported, and no line is left alone.
  pub round-Served : (z : Zhemon) (line : Line) → IsShort line → Served z line (round call z line)
  unfolding round
  round-Served z abandoned h = abandoned_line
  round-Served z (ready buf true) h = device_failed
  round-Served z (ready buf false) h = elim (Bool-cases (same_bytes buf exit_word)) [
    | inl e ↦ rw (e, round) (left (same_bytes-same buf exit_word e))
    | inr e ↦ elim (Bool-cases (same_bytes buf ps_word)) [
      | inl f ↦ rw (e, f, round) (listed (same_bytes-same buf ps_word f))
      | inr f ↦ line_round z buf h e f
    ]
  ]
