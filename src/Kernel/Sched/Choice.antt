-- ===== src/Kernel/Sched/Choice.antt =====
-- src/kernel/sched/mod.rs, `next_idx`: the first candidate behind the current slot, in a round of
-- the table.
use zheos.Common.{
  ℕ, zero, suc, ◌+◌, ◌-◌, ◌%◌, ◌<◌, ◌≡◌, refl, subst, Option, none, some, Bool, true, false, arith,
  inl, inr, Bool-cases, get_or, ◌==◌,
}
use zheos.Kernel.Sched.{Scheduler, is_candidate, next_from, next_idx}

-- The slot that the round meets behind `i` others.
abbrev pub place : Scheduler → ℕ → ℕ
place s i = (s.current + i + 1) % 4

abbrev pub is_candidate_at : Scheduler → ℕ → Bool
is_candidate_at s k = is_candidate (get_or s.task_table k none)

pub data Chosen (s : Scheduler) : Option ℕ → Type 0 where
  found :
      (i : ℕ)
      → i < 4
      → is_candidate_at s (place s i) ≡ true
      → ((j : ℕ) → j < i → is_candidate_at s (place s j) ≡ false)
      → Chosen s (some (place s i))
  nothing : ((j : ℕ) → j < 4 → is_candidate_at s (place s j) ≡ false) → Chosen s none

skipped_more :
    (s : Scheduler) (i : ℕ)
    → ((j : ℕ) → j < i → is_candidate_at s (place s j) ≡ false)
    → is_candidate_at s (place s i) ≡ false
    → (j : ℕ) → j < i + 1
    → is_candidate_at s (place s j) ≡ false
skipped_more s i before e j h = elim (Bool-cases (j == i)) [
  | inl same ↦ subst (λ x. is_candidate_at s (place s x) ≡ false) (ground arith) e
  | inr other ↦ before j (ground arith)
]

next_from-Chosen :
    (left : ℕ) (s : Scheduler) (i : ℕ)
    → i + left ≡ 4
    → ((j : ℕ) → j < i → is_candidate_at s (place s j) ≡ false)
    → Chosen s (next_from left s i)
unfolding next_from
next_from-Chosen zero s i h before = nothing (λ j l. before j (omega arith))
next_from-Chosen (suc left) s i h before = elim (Bool-cases (is_candidate_at s (place s i))) [
  | inl e ↦ rw (e, next_from) (found i (omega arith) e before)
  | inr e ↦
      rw (e, next_from) (next_from-Chosen left s (i + 1) (omega arith) (skipped_more s i before e))
]

-- `next_idx` goes once round the table from the slot behind the current one and takes the first
-- candidate.
pub next_idx-Chosen : (s : Scheduler) → Chosen s (next_idx s)
unfolding next_idx
next_idx-Chosen s = next_from-Chosen 4 s 0 refl (λ j l. absurd (omega arith))

-- How many slots the round meets before slot `k`.
abbrev pub distance : Scheduler → ℕ → ℕ
distance s k = (k + 7 - s.current) % 4

pub place-distance : (s : Scheduler) (k : ℕ) → s.current < 4 → k < 4 → place s (distance s k) ≡ k
place-distance s k c h = omega arith

-- With no candidate in the round there is none in the table.
pub nothing-anywhere :
    (s : Scheduler)
    → s.current < 4
    → ((j : ℕ) → j < 4 → is_candidate_at s (place s j) ≡ false)
    → (k : ℕ) → k < 4
    → is_candidate_at s k ≡ false
nothing-anywhere s c none_of k h =
    subst (λ x. is_candidate_at s x ≡ false) (place-distance s k c h)
      (none_of (distance s k) (omega arith))
