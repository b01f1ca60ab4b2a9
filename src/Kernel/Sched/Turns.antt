-- ===== src/Kernel/Sched/Turns.antt =====
-- src/kernel/sched/mod.rs: the tables that are well formed, and whose turn it is in one.
use zheos.Common.{
  ℕ, ◌<◌, ◌≡◌, ◌≢◌, refl, ap, ◌∙◌, sym, Option, none, some, true, false, arith, inl, inr,
  Bool-cases, get_or, length,
}
use zheos.Kernel.Task.{Task, ready, is_ready}
use zheos.Kernel.Sched.{Scheduler, is_candidate}
use zheos.Kernel.Sched.Choice.{Chosen, found, nothing, place, is_candidate_at}
use zheos.Kernel.Sched.Prune.{State-cases}

-- Four slots, each task in the slot of its id, a task in the current slot, and an idle task that can
-- always run.
pub record IsValid (s : Scheduler) : Type 0 where
  pub size : length s.task_table ≡ 4
  pub here : s.current < 4
  pub running : (t : Task) × (get_or s.task_table s.current none ≡ some t)
  pub named : (i : ℕ) (t : Task) → get_or s.task_table i none ≡ some t → t.id ≡ i
  pub idle : (t : Task) × (get_or s.task_table 1 none ≡ some t) × (t.state ≡ ready)

is_candidate-some :
    (o : Option Task)
    → is_candidate o ≡ true
    → (t : Task) × (o ≡ some t) × (is_ready t.state ≡ true)
is_candidate-some none h = absurd (ground arith)
is_candidate-some (some t) h = (t, refl, ground arith)

-- The task in a slot may be chosen: it is ready, and not the idle task.
abbrev pub MayRun : Scheduler → ℕ → Type 0
MayRun s k = (k ≢ 1) × ((t : Task) × (get_or s.task_table k none ≡ some t) × (t.state ≡ ready))

-- The slot of the first such task that a round meets, from the slot behind the current one on.
pub data First (s : Scheduler) : Option ℕ → Type 0 where
  met :
      (i : ℕ)
      → i < 4
      → MayRun s (place s i)
      → ((j : ℕ) → j < i → ¬ MayRun s (place s j))
      → First s (some (place s i))
  none_met : ((j : ℕ) → j < 4 → ¬ MayRun s (place s j)) → First s none

pub candidate-MayRun : (s : Scheduler) (k : ℕ) → IsValid s → is_candidate_at s k ≡ true → MayRun s k
candidate-MayRun s k v h =
    let (t, e, r) = is_candidate-some (get_or s.task_table k none) h in
    let same : is_candidate (some t) ≡ true = sym (ap is_candidate e) ∙ h in
    let state : t.state ≡ ready = elim (State-cases t.state) [
      | inl f ↦ f
      | inr (inl f) ↦ absurd (ground (arith, ap is_ready f, r))
      | inr (inr f) ↦ absurd (ground (arith, ap is_ready f, r))
    ] in
    (λ one. ground (arith, same, one, v.named k t e), (t, e, state))

pub MayRun-candidate : (s : Scheduler) (k : ℕ) → IsValid s → MayRun s k → is_candidate_at s k ≡ true
MayRun-candidate s k v (ne, (t, e, r)) =
    let named = v.named k t e in ap is_candidate e ∙ rw (r, named) (ground (arith, ne))

not-MayRun : (s : Scheduler) (k : ℕ) → IsValid s → is_candidate_at s k ≡ false → ¬ MayRun s k
not-MayRun s k v h may = let both : true ≡ false = sym (MayRun-candidate s k v may) ∙ h in cc

not_candidate : (s : Scheduler) (k : ℕ) → IsValid s → ¬ MayRun s k → is_candidate_at s k ≡ false
not_candidate s k v never = elim (Bool-cases (is_candidate_at s k)) [
  | inl h ↦ absurd (never (candidate-MayRun s k v h))
  | inr h ↦ h
]

pub Chosen-First : (s : Scheduler) (o : Option ℕ) → IsValid s → Chosen s o → First s o
Chosen-First s (some k) v (found i h e before) =
    met i h (candidate-MayRun s (place s i) v e) (λ j l. not-MayRun s (place s j) v (before j l))
Chosen-First s none v (nothing none_of) = none_met (λ j l. not-MayRun s (place s j) v (none_of j l))

pub First-Chosen : (s : Scheduler) (o : Option ℕ) → IsValid s → First s o → Chosen s o
First-Chosen s (some k) v (met i h may before) =
    found i h (MayRun-candidate s (place s i) v may)
      (λ j l. not_candidate s (place s j) v (before j l))
First-Chosen s none v (none_met none_of) =
    nothing (λ j l. not_candidate s (place s j) v (none_of j l))
