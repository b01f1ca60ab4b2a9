-- ===== src/Zhemon/Parser/Next.antt =====
-- src/zhemon/parser.rs: `parse_next` returns, and a command it returns lies behind the cursor.
use zheos.Common.{ℕ, zero, suc, ◌+◌, ◌*◌, ◌<◌, ◌≤◌, ◌≡◌, refl, none, some, arith}
use zheos.Common.{length, Option-cases, inl, inr, true, false, ap, ◌∙◌, subst}
use zheos.Zhemon.Cursor
use zheos.Zhemon.Cursor.{Cursor, IsValid, Consumed, get_elem?-lt, consume_spaces-Consumed}
use zheos.Zhemon.Parser.{Parser, Step, ParsedCommand, LineParseError, Mode, ok, err, default, set}
use zheos.Zhemon.Parser.{parse_at, at_end, next_from, parse_next}
use zheos.Zhemon.Parser.Total.{
  Ahead, Progress, weight, bytes_stored, Mode-cases, at-Progress, Step-cases, Progress-command,
  Progress-quiet,
}

-- What `parse_next` may return.
pub data Next (p : Parser) : Step → Type 0 where
  command : {c : ParsedCommand} {q : Parser} → Ahead p.cursor q.cursor → Next p (ok (some c) q)
  finished : {q : Parser} → q.cursor.bytes ≡ p.cursor.bytes → Next p (ok none q)
  rejected : {e : LineParseError} {q : Parser} → Next p (err e q)

Next-at_end : (p q : Parser) → q.cursor.bytes ≡ p.cursor.bytes → Next p (at_end q)
Next-at_end p q same = elim (Mode-cases q.mode) [
  | inl f ↦ rw (f, at_end) (finished same)
  | inr (inl f) ↦ rw (f, at_end) (finished same)
  | inr (inr f) ↦ rw (f, at_end) rejected
]

-- A parser that came later in the line finds what an earlier one may find.
Next-later :
    (p q : Parser) (s : Step)
    → q.cursor.bytes ≡ p.cursor.bytes
    → p.cursor.pos ≤ q.cursor.pos
    → Next q s
    → Next p s
Next-later p q (ok (some c) r) same le (command a) = command (record {
  same = a.same ∙ same;
  moved = omega (arith, a.moved);
  within = omega (arith, ap length same, a.within);
})
Next-later p q (ok none r) same le (finished e) = finished (e ∙ same)
Next-later p q (err e r) same le rejected = rejected

pub Next-command :
    {p q : Parser} {c : ParsedCommand} → Next p (ok (some c) q) → Ahead p.cursor q.cursor
Next-command (command a) = a

bytes_stored-le : (m : Mode) → bytes_stored m ≤ 1
bytes_stored-le default = omega arith
bytes_stored-le (set true) = omega arith
bytes_stored-le (set false) = omega arith

pub next_from-Next :
    (fuel : ℕ) (p : Parser)
    → IsValid p.cursor
    → weight p < fuel
    → (s : Step) × (next_from fuel p ≡ some s) × Next p s
unfolding next_from
next_from-Next zero p v h = absurd (omega arith)
next_from-Next (suc fuel) p v h =
    let c = Cursor.consume_spaces p.cursor in
    let t = consume_spaces-Consumed p.cursor v in
    let q : Parser = record p { cursor = c } in
    let l = ap length t.same in
    let w : IsValid c = record {
      within = omega (arith, t.within, l);
      short = omega (arith, v.short, l);
    } in
    let le = t.ahead in
    elim (Option-cases (Cursor.peek c)) [
      | inl e ↦ (at_end q, rw (e, next_from) refl, Next-at_end p q t.same)
      | inr (b, e) ↦
          let inside = get_elem?-lt c.bytes c.pos e in
          let step = at-Progress q b w inside in
          elim (Step-cases (parse_at q b)) [
            | inl (k, r, f) ↦
                let a = Progress-command (subst (Progress q) f step) in
                (
                  ok (some k) r,
                  rw (e, f, next_from) refl,
                  Next-later p q (ok (some k) r) t.same le (command a),
                )
            | inr (inl (r, f)) ↦
                let (same, further, within, less) = Progress-quiet (subst (Progress q) f step) in
                let l' = ap length same in
                let lighter : weight q ≤ weight p = omega (arith, t.ahead, l) in
                let (s, g, n) =
                  next_from-Next fuel r
                    (record {
                      within = omega (arith, l', within);
                      short = omega (arith, l', w.short);
                    })
                    (omega (arith, lighter, less, h)) in
                (
                  s,
                  rw (e, f, next_from) g,
                  Next-later p r s (same ∙ t.same) (omega (arith, le, further)) n,
                )
            | inr (inr (x, r, f)) ↦ (err x r, rw (e, f, next_from) refl, rejected)
          ]
    ]

-- On a line shorter than 2 ^ 63 bytes `parse_next` returns, and when it returns a command it has
-- moved on in the line.
pub parse_next-Next :
    (p : Parser) → IsValid p.cursor → (s : Step) × (parse_next p ≡ some s) × Next p s
unfolding parse_next
parse_next-Next p v =
    next_from-Next (2 * length p.cursor.bytes + 2) p v (omega (arith, bytes_stored-le p.mode))
