-- ===== src/Kernel/Sched/Prune.antt =====
-- src/kernel/sched/mod.rs, `prune`: what it leaves in a slot, and what it takes no task from.
use zheos.Common.{
  ◌⊎◌, ◌≢◌, ◌↔◌, ◌++◌, List, false, ==_iff, sym, ℕ, zero, suc, ◌+◌, ◌≡◌, refl, ap, ◌∙◌, Option,
  none, some, true, arith, inl, inr, Bool-cases, if◌then◌else◌, get_or, length, ◌==◌, [], ◌∷◌,
}
use zheos.Kernel.Task.{Task, ContextStack, State, ready, blocked, dead, is_ready, is_dead}
use zheos.Kernel.Sched.{
  Scheduler, Tasks, is_candidate, is_pruned, prune_from, prune, stack_of, freed_from,
}
use zheos.Kernel.Sched.Choice.{is_candidate_at}

-- The stacks that are given back, for the slots from `i` on: those of the dead tasks that are not
-- current, in the order of the table.
pub data GivesBack (current : ℕ) : ℕ → Tasks → List ContextStack → Type 0 where
  no_more : {i : ℕ} → GivesBack current i [] []
  no_task :
      {i : ℕ} {ts : Tasks} {xs : List ContextStack}
      → GivesBack current (i + 1) ts xs
      → GivesBack current i (none ∷ ts) xs
  stays :
      {i : ℕ} {t : Task} {ts : Tasks} {xs : List ContextStack}
      → (t.state ≢ dead) ⊎ (i ≡ current)
      → GivesBack current (i + 1) ts xs
      → GivesBack current i (some t ∷ ts) xs
  goes :
      {i : ℕ} {t : Task} {ts : Tasks} {xs : List ContextStack}
      → t.state ≡ dead
      → i ≢ current
      → GivesBack current (i + 1) ts xs
      → GivesBack current i (some t ∷ ts) (stack_of (some t) ++ xs)

abbrev pub pruned : ℕ → ℕ → Option Task → Option Task
pruned current i t = if is_pruned current i t then none else t

pub length-prune_from : (c k : ℕ) (ts : Tasks) → length (prune_from c k ts) ≡ length ts
unfolding prune_from
length-prune_from c k [] = refl
length-prune_from c k (t ∷ ts) = ap suc (length-prune_from c (k + 1) ts)

prune_from-get :
    (c k : ℕ) (ts : Tasks) (i : ℕ)
    → get_or (prune_from c k ts) i none ≡ pruned c (k + i) (get_or ts i none)
unfolding prune_from
prune_from-get c k [] i = refl
prune_from-get c k (t ∷ ts) zero = let at : k + 0 ≡ k = omega arith in rw at refl
prune_from-get c k (t ∷ ts) (suc i) =
    let at : k + suc i ≡ k + 1 + i = omega arith in rw at (prune_from-get c (k + 1) ts i)

pub State-cases : (x : State) → (x ≡ ready) ⊎ (x ≡ blocked) ⊎ (x ≡ dead)
State-cases ready = inl refl
State-cases blocked = inr (inl refl)
State-cases dead = inr (inr refl)

pub is_pruned_iff :
    (c i : ℕ) (t : Task) → (is_pruned c i (some t) ≡ true) ↔ ((t.state ≡ dead) × (i ≢ c))
is_pruned_iff c i t = (
  λ h. elim (State-cases t.state) [
    | inl f ↦ absurd (ground (arith, ap is_dead f, h))
    | inr (inl f) ↦ absurd (ground (arith, ap is_dead f, h))
    | inr (inr f) ↦ (f, λ e. ground (arith, h, e))
  ],
  λ both. let ne = both.1 in rw (both.0) (ground (arith, ne)),
)

kept-why : (c i : ℕ) (t : Task) → is_pruned c i (some t) ≡ false → (t.state ≢ dead) ⊎ (i ≡ c)
kept-why c i t h = elim (Bool-cases (i == c)) [
  | inl same ↦ inr ((==_iff i c).0 same)
  | inr other ↦ inl (λ f.
      let ne : i ≢ c = ground arith in
      let both : true ≡ false = sym ((is_pruned_iff c i t).1 (f, ne)) ∙ h in cc)
]

pub freed_from-GivesBack : (c i : ℕ) (ts : Tasks) → GivesBack c i ts (freed_from c i ts)
unfolding freed_from
freed_from-GivesBack c i [] = no_more
freed_from-GivesBack c i (none ∷ ts) = no_task (freed_from-GivesBack c (i + 1) ts)
freed_from-GivesBack c i (some t ∷ ts) = elim (Bool-cases (is_pruned c i (some t))) [
  | inl h ↦
      let (f, ne) = (is_pruned_iff c i t).0 h in
      rw (h, freed_from) (goes f ne (freed_from-GivesBack c (i + 1) ts))
  | inr h ↦ rw (h, freed_from) (stays (kept-why c i t h) (freed_from-GivesBack c (i + 1) ts))
]

-- What pruning leaves in a slot.
pub prune-get :
    (s : Scheduler) (i : ℕ)
    → get_or (prune s).task_table i none ≡ pruned s.current i (get_or s.task_table i none)
unfolding prune
prune-get s i =
    let at : 0 + i ≡ i = omega arith in prune_from-get s.current 0 s.task_table i ∙ rw at refl

is_pruned-ready : (c i : ℕ) (t : Task) → is_ready t.state ≡ true → is_pruned c i (some t) ≡ false
is_pruned-ready c i t e = elim (State-cases t.state) [
  | inl f ↦ rw f refl
  | inr (inl f) ↦ rw f refl
  | inr (inr f) ↦ absurd (ground (arith, ap is_ready f, e))
]

candidate-pruned : (c i : ℕ) (t : Option Task) → is_candidate (pruned c i t) ≡ is_candidate t
candidate-pruned c i none = refl
candidate-pruned c i (some t) = elim (State-cases t.state) [
  | inl f ↦ rw f refl
  | inr (inl f) ↦ rw f refl
  | inr (inr f) ↦ elim (Bool-cases (i == c)) [ inl e ↦ rw (f, e) refl | inr e ↦ rw (f, e) refl ]
]

pub candidate-prune : (s : Scheduler) (k : ℕ) → is_candidate_at (prune s) k ≡ is_candidate_at s k
candidate-prune s k =
    ap is_candidate (prune-get s k) ∙ candidate-pruned s.current k (get_or s.task_table k none)

pub pruned-some : (c i : ℕ) (o : Option Task) (t : Task) → pruned c i o ≡ some t → o ≡ some t
pruned-some c i o t e = elim (Bool-cases (is_pruned c i o)) [
  | inl f ↦ absurd (ground (arith, e, f))
  | inr f ↦ ground (arith, e, f)
]

pruned_self : (c : ℕ) (o : Option Task) → pruned c c o ≡ o
pruned_self c none = refl
pruned_self c (some t) =
    let same : (c == c) ≡ true = ground arith in
    elim (State-cases t.state) [
      | inl f ↦ rw f refl
      | inr (inl f) ↦ rw f refl
      | inr (inr f) ↦ rw (f, same) refl
    ]

-- Pruning takes no task that is current, and none that may run.
pub prune-here :
    (s : Scheduler)
    → get_or (prune s).task_table s.current none ≡ get_or s.task_table s.current none
prune-here s = prune-get s s.current ∙ pruned_self s.current (get_or s.task_table s.current none)

pub prune-ready :
    (s : Scheduler) (i : ℕ) (t : Task)
    → get_or s.task_table i none ≡ some t
    → is_ready t.state ≡ true
    → get_or (prune s).task_table i none ≡ some t
prune-ready s i t e r =
    prune-get s i
    ∙ ap (pruned s.current i) e
    ∙ ap (λ b. if b then none else some t) (is_pruned-ready s.current i t r)
