-- ===== src/Zhemon/Monitor/Validated.antt =====
-- src/zhemon/mod.rs: a line runs only when all of it parses. `start` parses a line twice, and the
-- second time, with the commands carried out, meets what the first one met.
use zheos.Common.{
  ℕ, zero, suc, ◌+◌, ◌<◌, ◌≡◌, refl, ap, ◌∙◌, subst, Option, none, some, List, [], ◌∷◌, length,
  arith, inl, inr,
}
use zheos.Zhemon.Cursor.{IsValid}
use zheos.Zhemon.Parser.{
  Parser, ParsedCommand, LineParseError, Result, ok, err, parse_next, validate_from, validate,
}
use zheos.Zhemon.Parser.Total.{Step-cases}
use zheos.Zhemon.Parser.Next.{Next, parse_next-Next, Next-command}
use zheos.Zhemon.Monitor.{Zhemon, execute, handle_from, handle_line, on_parse_error}

-- The commands that the rest of a line gives, and how the line ends.
pub data End : Type 0 where
  all_parsed : End
  stops_at : LineParseError → End

pub data Gives : Parser → List ParsedCommand → End → Type 0 where
  nothing : {p q : Parser} → parse_next p ≡ some (ok none q) → Gives p [] all_parsed
  bad :
      {p q : Parser} {e : LineParseError} → parse_next p ≡ some (err e q) → Gives p [] (stops_at e)
  next :
      {p q : Parser} {c : ParsedCommand} {cs : List ParsedCommand} {e : End}
      → parse_next p ≡ some (ok (some c) q)
      → Gives q cs e
      → Gives p (c ∷ cs) e

-- The verdict of `validate` on a line that ends so.
pub data Verdict : End → Option (Result (Unit {0})) → Type 0 where
  valid : {q : Parser} → Verdict all_parsed (some (ok tt q))
  invalid : {e : LineParseError} {q : Parser} → Verdict (stops_at e) (some (err e q))

module _ (call : ℕ → Zhemon → Zhemon) where
  abbrev pub execute_all : Zhemon → List ParsedCommand → Zhemon
  execute_all z [] = z
  execute_all z (c ∷ cs) = execute_all (execute call z c) cs

  -- The state at the end of a line.
  abbrev pub after : Zhemon → End → Zhemon
  after z all_parsed = z
  after z (stops_at e) = on_parse_error z e

  line_from :
      (fuel : ℕ) (p : Parser)
      → IsValid p.cursor
      → length p.cursor.bytes < p.cursor.pos + fuel
      → (cs : List ParsedCommand) × (e : End) × Gives p cs e
        × Verdict e (validate_from fuel p)
        × ((z : Zhemon) → handle_from call fuel z p ≡ some (after (execute_all z cs) e))
  unfolding validate_from handle_from
  line_from zero p v h = absurd (omega (arith, v.within))
  line_from (suc fuel) p v h =
      let (s, found, n) = parse_next-Next p v in
      elim (Step-cases s) [
        | inl (c, q, e) ↦
            let run = found ∙ ap some e in
            let a = Next-command (subst (Next p) e n) in
            let l = ap length a.same in
            let (cs, end, g, t, r) =
              line_from fuel q
                (record { within = omega (arith, l, a.within); short = omega (arith, l, v.short) })
                (omega (arith, l, a.moved)) in
            (
              c ∷ cs,
              end,
              next run g,
              rw (run, validate_from) t,
              λ z. rw (run, handle_from) (r (execute call z c)),
            )
        | inr (inl (q, e)) ↦
            let run = found ∙ ap some e in
            (
              [],
              all_parsed,
              nothing run,
              rw (run, validate_from) valid,
              λ z. rw (run, handle_from) refl,
            )
        | inr (inr (x, q, e)) ↦
            let run = found ∙ ap some e in
            (
              [],
              stops_at x,
              bad run,
              rw (run, validate_from) invalid,
              λ z. rw (run, handle_from) refl,
            )
      ]

  -- Any line shorter than 2 ^ 63 bytes gives a list of commands and ends with all of it parsed or
  -- at an error. `validate` returns that verdict, and `handle_line` carries out exactly those
  -- commands, in order, and reports the error if there is one.
  pub line-runs :
      (p : Parser)
      → IsValid p.cursor
      → (cs : List ParsedCommand) × (e : End) × Gives p cs e
        × Verdict e (validate p)
        × ((z : Zhemon) → handle_line call z p ≡ some (after (execute_all z cs) e))
  unfolding validate handle_line
  line-runs p v = line_from (length p.cursor.bytes + 1) p v (omega arith)
