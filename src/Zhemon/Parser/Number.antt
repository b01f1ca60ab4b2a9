-- ===== src/Zhemon/Parser/Number.antt =====
-- src/zhemon/parser.rs, `parse_hex_number`: it reads the whole run of digits at the cursor, and
-- the cursor ends behind it.
use zheos.Common.{
  ℕ, zero, suc, ◌+◌, ◌<◌, ◌≤◌, ◌≡◌, refl, none, some, List, arith, ◌==◌, if◌then◌else◌,
}
use zheos.Common.{
  ◌^◌, length, get_elem?, add64, Option-cases, inl, inr, drop, [], ◌∷◌, true, false, ap, ◌∙◌, ltb,
  ◌⊎◌, ◌*◌, Bool-cases, leb, ◌&&◌, ◌%◌, ◌↔◌,
}
use zheos.Zhemon.Cursor.{Cursor, IsValid}
use zheos.Zhemon.Parser.{Hex, digit, append, number_from, finish_number, parse_hex_number}
use zheos.Zhemon.Parser.{number, failed, no_digits, too_long}

-- The values of the digits at the front of the bytes.
abbrev pub digit_run : List ℕ → List ℕ
digit_run [] = []
digit_run (b ∷ bs) = let rest = digit_run bs in elim (digit b) [ none ↦ [] | some d ↦ d ∷ rest ]

-- The number that digits write, appended to one read before.
abbrev pub value_from : ℕ → List ℕ → ℕ
value_from n [] = n
value_from n (d ∷ ds) = value_from (append n d) ds

-- The number that digits write in base 16, behind one read before.
abbrev pub value : ℕ → List ℕ → ℕ
value n [] = n
value n (d ∷ ds) = value (16 * n + d) ds

append-wraps : (n d : ℕ) → append (n % 2 ^ 64) d ≡ (16 * n + d) % 2 ^ 64
unfolding append
append-wraps n d = omega arith

value_from-value : (n : ℕ) (ds : List ℕ) → value_from (n % 2 ^ 64) ds ≡ value n ds % 2 ^ 64
value_from-value n [] = refl
value_from-value n (d ∷ ds) =
    ap (λ m. value_from m ds) (append-wraps n d) ∙ value_from-value (16 * n + d) ds

-- The byte is the character of the digit: `0` to `9`, `a` to `f` or `A` to `F`.
abbrev pub Writes : ℕ → ℕ → Type 0
Writes b d = ((d < 10) × (b ≡ 48 + d)) ⊎ ((10 ≤ d) × (d < 16) × ((b ≡ 87 + d) ⊎ (b ≡ 55 + d)))

digit-Writes : (b d : ℕ) → digit b ≡ some d → Writes b d
unfolding digit
digit-Writes b d e = elim (Bool-cases (leb b'0' b && leb b b'9')) [
  | inl h ↦ inl (ground (arith, e, h), ground (arith, e, h))
  | inr h ↦ inr (elim (Bool-cases (leb b'a' b && leb b b'f')) [
    | inl g ↦ (ground (arith, e, h, g), ground (arith, e, h, g), inl (ground (arith, e, h, g)))
    | inr g ↦ (ground (arith, e, h, g), ground (arith, e, h, g), inr (ground (arith, e, h, g)))
  ])
]

Writes-digit : (b d : ℕ) → Writes b d → digit b ≡ some d
unfolding digit
Writes-digit b d (inl (h, e)) = rw e (ground arith)
Writes-digit b d (inr (lo, hi, inl e)) = rw e (ground arith)
Writes-digit b d (inr (lo, hi, inr e)) = rw e (ground arith)

-- What a run of digits means, when they write the number `v`: `done` digits were read before, and `left` more are allowed.
abbrev pub report : ℕ → ℕ → ℕ → Cursor → List ℕ → Hex
report done left v c ds =
    if done + length ds == 0
    then failed no_digits
    else (if ltb left (length ds)
        then failed (too_long (c.pos + done + left))
        else number v (record c { pos = c.pos + (done + length ds) }))

abbrev read_run : ℕ → ℕ → ℕ → Cursor → List ℕ → Hex
read_run done left n c ds = report done left (value_from n ds) c ds

-- The digit at a place is the front of the run there.
run_look :
    (bs : List ℕ) (i : ℕ)
    → ((elim (get_elem? bs i) [ none ↦ none | some b ↦ digit b ]) ≡ none)
        × (digit_run (drop i bs) ≡ [])
      ⊎ ((d : ℕ) × ((elim (get_elem? bs i) [ none ↦ none | some b ↦ digit b ]) ≡ some d)
          × (digit_run (drop i bs) ≡ d ∷ digit_run (drop (suc i) bs))
          × (i < length bs))
run_look [] zero = inl (refl, refl)
run_look [] (suc i) = inl (refl, refl)
run_look (b ∷ bs) zero = elim (Option-cases (digit b)) [
  | inl e ↦ inl (e, rw (e, digit_run, drop) refl)
  | inr (d, e) ↦ inr (d, e, rw (e, digit_run, drop) refl, omega arith)
]
run_look (b ∷ bs) (suc i) = elim (run_look bs i) [
  | inl r ↦ inl r
  | inr (d, e, f, h) ↦ inr (d, e, f, omega (arith, h))
]

finish_number-read :
    (left : ℕ) (c : Cursor) (done n : ℕ)
    → c.pos + done < 2 ^ 64
    → finish_number c done n ≡ read_run done left n c []
unfolding finish_number
finish_number-read left c zero n h = refl
finish_number-read left c (suc done) n h =
    let up : add64 c.pos (suc done) ≡ c.pos + (suc done + 0) = omega (arith, h) in
    let some_digit : (suc done == 0) ≡ false = ground arith in
    let more : (suc done + 0 == 0) ≡ false = ground arith in
    let none_over : ltb left 0 ≡ false = ground arith in
    rw (some_digit, more, none_over) (ap (λ x. number n (record c { pos = x })) up)

-- A digit moves from the allowance to those that were read.
read_run-step :
    (done left n : ℕ) (c : Cursor) (d : ℕ) (ds : List ℕ)
    → read_run (suc done) left (append n d) c ds ≡ read_run done (suc left) n c (d ∷ ds)
read_run-step done left n c d ds =
    let some_digit : ((done + suc (length ds)) == 0) ≡ false = ground arith in
    let allowed : ltb (suc left) (suc (length ds)) ≡ ltb left (length ds) = ground arith in
    let at : c.pos + suc done + left ≡ c.pos + done + suc left = omega arith in
    let end : suc done + length ds ≡ done + suc (length ds) = omega arith in
    rw (end, some_digit, allowed, at) refl

-- At `done` digits behind the cursor, with the run from there.
number_from-run :
    (left : ℕ) (c : Cursor) (done n : ℕ)
    → IsValid c
    → c.pos + done ≤ length c.bytes
    → number_from left c done n ≡ read_run done left n c (digit_run (drop (c.pos + done) c.bytes))
unfolding number_from finish_number
number_from-run zero c done n v h =
    let at : add64 c.pos done ≡ c.pos + done = omega (arith, v.short) in
    elim (run_look c.bytes (c.pos + done)) [
      | inl (e, f) ↦
          rw (f, at, e, number_from) (finish_number-read zero c done n (omega (arith, v.short)))
      | inr (d, e, f, g) ↦
          let ds = digit_run (drop (suc (c.pos + done)) c.bytes) in
          let some_digit : ((done + suc (length ds)) == 0) ≡ false = ground arith in
          rw (f, at, e, number_from)
            (let one : ltb 0 (suc (length ds)) ≡ true = ground arith in
              let end : add64 c.pos done ≡ c.pos + done + 0 = omega (arith, at) in
              rw (some_digit, one) (ap (λ x. failed (too_long x)) end))
    ]
number_from-run (suc left) c done n v h =
    let at : add64 c.pos done ≡ c.pos + done = omega (arith, v.short) in
    elim (run_look c.bytes (c.pos + done)) [
      | inl (e, f) ↦
          rw (f, at, e, number_from)
            (finish_number-read (suc left) c done n (omega (arith, v.short)))
      | inr (d, e, f, g) ↦
          let next : add64 done 1 ≡ suc done = omega (arith, v.short, g) in
          let rest = number_from-run left c (suc done) (append n d) v (omega arith) in
          let place : c.pos + suc done ≡ suc (c.pos + done) = omega arith in
          let run_at : ℕ → Hex =
            λ x. read_run (suc done) left (append n d) c (digit_run (drop x c.bytes)) in
          let step =
            read_run-step done left n c d (digit_run (drop (suc (c.pos + done)) c.bytes)) in
          rw (f, at, e, number_from, next) (rest ∙ ap run_at place ∙ step)
    ]

pub parse_hex_number-read_run :
    (c : Cursor) (max_digits : ℕ)
    → IsValid c
    → parse_hex_number c max_digits ≡ read_run 0 max_digits 0 c (digit_run (drop c.pos c.bytes))
unfolding parse_hex_number
parse_hex_number-read_run c max_digits v =
    let at : c.pos + 0 ≡ c.pos = omega arith in
    number_from-run max_digits c 0 0 v (omega (arith, v.within)) ∙ rw at refl

-- `parse_hex_number` reads the run of digits at the cursor as a whole: no digit is an error, more
-- digits than allowed are an error at the first one too many, and else the number is the one that
-- the run writes in base 16, in 64 bits, and the cursor stands behind it, in a line shorter than 2 ^ 63 bytes;
-- and a byte is a digit exactly when it is one of the characters of a hexadecimal digit, of its value.
pub parse_hex_number-run :
    (c : Cursor) (max_digits : ℕ)
    → IsValid c
    → (parse_hex_number c max_digits ≡ (
        let ds = digit_run (drop c.pos c.bytes) in report 0 max_digits (value 0 ds % 2 ^ 64) c ds))
      × ((b d : ℕ) → (digit b ≡ some d) ↔ Writes b d)
parse_hex_number-run c max_digits v =
    let ds = digit_run (drop c.pos c.bytes) in
    (
      parse_hex_number-read_run c max_digits v
          ∙ ap (λ n. report 0 max_digits n c ds) (value_from-value 0 ds),
      λ b d. (digit-Writes b d, Writes-digit b d),
    )
