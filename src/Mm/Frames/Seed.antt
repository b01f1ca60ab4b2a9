-- ===== src/Mm/Frames/Seed.antt =====
-- src/mm/frames/mod.rs, `seed`: the block that it takes off the front of a run.
use zheos.Common.{
  ℕ, zero, suc, ◌+◌, ◌-◌, ◌*◌, ◌/◌, ◌%◌, ◌^◌, ◌<◌, ◌≤◌, ◌≡◌, refl, ap, ◌∙◌, sym, ◌==◌, ltb, arith,
  inl, inr, Bool-cases,
}
use native.Mathlib.Nat.{pow-suc, pow-le-pow_right}
use zheos.Common.Bits.{pow-add}
use zheos.Mm.Pfn.{trailing_zeros, alignment_order, pages_until}
use zheos.Mm.Frames.{ilog2, seed_order, seed_run}
use zheos.Mm.FreeLists.{FreeLists}
use zheos.Mm.Pages.{Pages}
use zheos.Common.{Outcome, ok, panic, some, ◌⊎◌, ◌<<<◌}
use zheos.Mm.Pfn.{offset}
use zheos.Mm.Frames.{push}

trailing_zeros-divides : (w n : ℕ) → (q : ℕ) × (n ≡ q * 2 ^ trailing_zeros w n)
unfolding trailing_zeros
trailing_zeros-divides zero n = (n, omega arith)
trailing_zeros-divides (suc w) n =
    let (q, e) = trailing_zeros-divides w (n / 2) in
    elim (Bool-cases (n % 2 == 0)) [
      | inl f ↦
          let t = trailing_zeros w (n / 2) in
          let even : n ≡ n / 2 * 2 = ground arith in
          let power : q * 2 ^ t * 2 ≡ q * 2 ^ suc t =
            ground (arith, ap (λ (x : ℕ). q * x) (pow-suc 2 t)) in
          (q, rw (f, trailing_zeros) (even ∙ ap (λ (x : ℕ). x * 2) e ∙ power))
      | inr f ↦ (n, rw (f, trailing_zeros) (omega arith))
    ]

ilog2-le : (w n : ℕ) → 0 < n → 2 ^ ilog2 w n ≤ n
unfolding ilog2
ilog2-le zero n h = omega arith
ilog2-le (suc w) n h = elim (Bool-cases (ltb n 2)) [
  | inl e ↦ rw (e, ilog2) (omega arith)
  | inr e ↦
      let big : 1 < n = ground arith in
      let half : 0 < n / 2 = omega arith in
      rw (e, ilog2) (omega (arith, pow-suc 2 (ilog2 w (n / 2)), ilog2-le w (n / 2) half))
]

-- A multiple of a power of two is one of each smaller power.
divides-lower : (a b n q : ℕ) → a ≤ b → n ≡ q * 2 ^ b → (r : ℕ) × (n ≡ r * 2 ^ a)
divides-lower a b n q h e =
    let k : ℕ = b - a in
    let sum : k + a ≡ b = omega (arith, h) in
    let power : 2 ^ b ≡ 2 ^ k * 2 ^ a = ap (λ (t : ℕ). 2 ^ t) (sym sum) ∙ pow-add k a in
    (q * 2 ^ k, e ∙ ap (λ (t : ℕ). q * t) power ∙ ground arith)

-- What `seed` asks of the order of a block.
pub record FitsRun (block end order : ℕ) : Type 0 where
  pub small : order ≤ 10
  pub aligned : (q : ℕ) × (block ≡ q * 2 ^ order)
  pub within : block + 2 ^ order ≤ end

-- The block that `seed` takes off the front of a run has an order of at most ten, begins at a
-- multiple of its size and does not reach beyond the run.
pub seed_order-FitsRun :
    (block end : ℕ) → block < end → end < 2 ^ 64 → FitsRun block end (seed_order block end)
unfolding seed_order alignment_order
seed_order-FitsRun block end h bound =
    let pages : pages_until block end ≡ end - block = omega (arith, h, bound) in
    let (q, e) = trailing_zeros-divides 64 block in
    let zeros = trailing_zeros 64 block in
    let log = ilog2 64 (pages_until block end) in
    let order = seed_order block end in
    let room = ilog2-le 64 (pages_until block end) (omega (arith, pages, h)) in
    let less = pow-le-pow_right {n = 2} (omega arith) {i = order} {j = log} (omega arith) in
    record {
      small = omega arith;
      aligned = divides-lower order zeros block q (omega arith) e;
      within = omega (arith, pages, room, less, h);
    }

pos-pow : (k : ℕ) → 0 < 2 ^ k
pos-pow k = pow-le-pow_right {n = 2} (omega arith) {i = 0} {j = k} (omega arith)

Outcome-cases : {A : Type 0} (o : Outcome A) → (o ≡ panic) ⊎ ((a : A) × (o ≡ ok a))
Outcome-cases (ok a) = inr (a, refl)
Outcome-cases panic = inl refl

-- The loop of `seed` over a run ends with fuel above the number of its pages: a round takes at least
-- one page off its front.
pub seed_run-returns :
    (fuel : ℕ) (lists : FreeLists) (pages : Pages) (block end : ℕ)
    → end < 2 ^ 64
    → end - block < fuel
    → (r : Outcome (FreeLists × Pages)) × (seed_run fuel lists pages block end ≡ some r)
unfolding seed_run
seed_run-returns zero lists pages block end bound h = absurd (omega arith)
seed_run-returns (suc fuel) lists pages block end bound h = elim (Bool-cases (ltb block end)) [
  | inl e ↦
      let order = seed_order block end in
      let fits = seed_order-FitsRun block end (ground arith) bound in
      let room = fits.within in
      let moved : offset block (1 <<< order) ≡ block + 2 ^ order = omega (arith, room, bound) in
      let some_page : 0 < 2 ^ order = pos-pow order in
      elim (Outcome-cases (push lists pages block order)) [
        | inl f ↦ (panic, rw (e, f, seed_run) refl)
        | inr (r, f) ↦
            let (out, g) =
              seed_run-returns fuel r.0 r.1 (offset block (1 <<< order)) end bound
                (omega (arith, moved, room, h, some_page)) in
            (out, rw (e, f, seed_run) g)
      ]
  | inr e ↦ (ok (lists, pages), rw (e, seed_run) refl)
]
