-- ===== src/Kernel/Time/Bounds.antt =====
-- src/kernel/time.rs and src/arch/aarch64/timer.rs: a wait is never too short, and the next deadline lies
-- ahead on the grid of the interval.
use zheos.Common.{
  ℕ, zero, suc, ◌+◌, ◌*◌, ◌^◌, ◌<◌, ◌≤◌, ◌≡◌, refl, ap, ◌∙◌, some, List, [], ◌∷◌, arith, ltb, add64,
  length, get_elem?, Bool-cases, inl, inr,
}
use mathlib.Core.Option.{some-injective}
use zheos.Kernel.Time.{Duration, ticks_from, rearm_from}

-- `ticks_from` is the time in ticks, rounded up: not less, and less than a tick more, where the products do
-- not wrap.
pub ticks_from_lem :
    (d : Duration) (rate : ℕ)
    → d.secs * rate < 2 ^ 63
    → d.subsec_nanos * rate < 2 ^ 63
    → (d.secs * rate * 1000000000 + d.subsec_nanos * rate ≤ ticks_from d rate * 1000000000)
      × (ticks_from d rate * 1000000000
          < d.secs * rate * 1000000000 + d.subsec_nanos * rate + 1000000000)
unfolding ticks_from
ticks_from_lem d rate h g = omega (arith, h, g)

abbrev pub AllBelow : ℕ → List ℕ → Type 0
AllBelow now [] = Unit {0}
AllBelow now (c ∷ cs) = (c < now) × AllBelow now cs

-- The deadline that `rearm` comes to in round `k` is the first one of the grid that the counter has not
-- passed.
pub record Rearmed (interval compare : ℕ) (counts : List ℕ) (deadline : ℕ) : Type 0 where
  pub k : ℕ
  pub count : ℕ
  pub on_grid : deadline ≡ compare + suc k * interval
  pub read : get_elem? counts k ≡ some count
  pub ahead : count < deadline
  pub passed : (j c : ℕ) → j < k → get_elem? counts j ≡ some c → compare + suc j * interval ≤ c

passed_first :
    (interval compare c : ℕ) (cs : List ℕ) (k : ℕ)
    → compare + interval ≤ c
    → ((j d : ℕ) → j < k → get_elem? cs j ≡ some d → compare + interval + suc j * interval ≤ d)
    → (j d : ℕ) → j < suc k
    → get_elem? (c ∷ cs) j ≡ some d
    → compare + suc j * interval ≤ d
passed_first interval compare c cs k over h zero d less at =
    omega (arith, over, some-injective c d at)
passed_first interval compare c cs k over h (suc j) d less at =
    omega (arith, h j d (omega arith) at)

-- The loop of `rearm` ends, at the first deadline on the grid of the interval that the counter has not
-- passed, if it reads values below `now` in as many rounds as take the deadline to `now`.
pub rearm_from-Rearmed :
    (now interval compare : ℕ) (counts : List ℕ)
    → AllBelow now counts
    → now ≤ compare + length counts * interval
    → compare + length counts * interval < 2 ^ 64
    → compare < now
    → (deadline : ℕ) × (rearm_from interval compare counts ≡ some deadline)
      × Rearmed interval compare counts deadline
unfolding rearm_from
rearm_from-Rearmed now interval compare [] all reach room late = absurd (omega arith)
rearm_from-Rearmed now interval compare (c ∷ cs) (below, all) reach room late =
    let later : add64 compare interval ≡ compare + interval = omega (arith, room) in
    elim (Bool-cases (ltb c (add64 compare interval))) [
      | inl e ↦ (
        add64 compare interval,
        rw (rearm_from, e) refl,
        record {
          k = 0;
          count = c;
          on_grid = omega (arith, later);
          read = refl;
          ahead = ground arith;
          passed = λ j c h at. absurd (omega arith);
        },
      )
      | inr e ↦
          let over : compare + interval ≤ c = ground (arith, later, e) in
          let (deadline, f, r) =
            rearm_from-Rearmed now interval (compare + interval) cs all (omega (arith, reach))
              (omega (arith, room)) (omega (arith, over, below)) in
          (
            deadline,
            rw (rearm_from, e) (ap (λ l. rearm_from interval l cs) later ∙ f),
            record {
              k = suc r.k;
              count = r.count;
              on_grid = omega (arith, r.on_grid);
              read = r.read;
              ahead = r.ahead;
              passed = passed_first interval compare c cs r.k over r.passed;
            },
          )
    ]
