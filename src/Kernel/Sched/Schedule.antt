-- ===== src/Kernel/Sched/Schedule.antt =====
-- src/kernel/sched/mod.rs, `schedule_inner`: what a pass of the scheduler leaves, on a table that is
-- well formed.
use zheos.Common.{
  ◌≤◌, ◌⊎◌, ◌++◌, List, ltb, ℕ, ◌+◌, ◌-◌, ◌%◌, ◌<◌, ◌≡◌, ◌≢◌, refl, ap, ◌∙◌, subst, sym, Option,
  none, some, true, false, arith, inl, inr, Bool-cases, if◌then◌else◌, get_or, ◌==◌, ok, Outcome,
  panic,
}
use zheos.Kernel.Task.{Task, ContextStack, ready, dead, is_ready}
use zheos.Kernel.Sched.{
  Scheduler, Switch, stay, switch, prune, next_idx, or_idle, schedule_inner, is_pruned, freed_from,
}
use zheos.Kernel.Sched.Choice.{
  Chosen, found, nothing, place, is_candidate_at, next_idx-Chosen, distance, place-distance,
  nothing-anywhere,
}
use zheos.Kernel.Sched.Prune.{
  pruned, GivesBack, is_pruned_iff, freed_from-GivesBack, length-prune_from, prune-get,
  candidate-prune, pruned-some, prune-here, prune-ready,
}
use zheos.Kernel.Sched.Turns.{
  IsValid, MayRun, First, candidate-MayRun, MayRun-candidate, Chosen-First, First-Chosen,
}

-- What `schedule_inner` leaves: a valid table, with the task that the round met first, or the idle
-- task, in the current slot and ready to run.
pub record Scheduled (s : Scheduler) (next : Scheduler) (switched : Switch) : Type 0 where
  pub valid : IsValid next
  pub chosen : (o : Option ℕ) × First s o × (next.current ≡ or_idle o)
  pub runs : (t : Task) × (get_or next.task_table next.current none ≡ some t) × (t.state ≡ ready)
  pub told : switched ≡ (if s.current == next.current then stay else switch s.current next.current)
  pub empty : (i : ℕ) → get_or s.task_table i none ≡ none → get_or next.task_table i none ≡ none
  pub dropped :
      (i : ℕ) (t : Task)
      → get_or s.task_table i none ≡ some t
      → t.state ≡ dead
      → i ≢ s.current
      → get_or next.task_table i none ≡ none
  pub kept :
      (i : ℕ) (t : Task)
      → get_or s.task_table i none ≡ some t
      → (t.state ≢ dead) ⊎ (i ≡ s.current)
      → get_or next.task_table i none ≡ some t
  pub freed :
      (xs : List ContextStack) × GivesBack s.current 0 s.task_table xs
      × (next.freed ≡ s.freed ++ xs)

-- The slot that is chosen holds a task that is ready, also behind pruning.
Chosen-ready :
    (s : Scheduler)
    → IsValid s
    → (o : Option ℕ) → Chosen s o
    → (or_idle o < 4)
      × ((t : Task) × (get_or s.task_table (or_idle o) none ≡ some t) × (t.state ≡ ready))
Chosen-ready s v (some k) (found i h e before) =
    (omega arith, (candidate-MayRun s (place s i) v e).1)
Chosen-ready s v none (nothing none_of) = let (t, e, r) = v.idle in (omega arith, (t, e, r))

Chosen-prune : (s : Scheduler) (o : Option ℕ) → Chosen (prune s) o → Chosen s o
unfolding prune
Chosen-prune s (some k) (found i h e before) =
    found i h (sym (candidate-prune s (place s i)) ∙ e)
      (λ j l. sym (candidate-prune s (place s j)) ∙ before j l)
Chosen-prune s none (nothing none_of) =
    nothing (λ j l. sym (candidate-prune s (place s j)) ∙ none_of j l)

prune-empty :
    (s : Scheduler) (i : ℕ)
    → get_or s.task_table i none ≡ none
    → get_or (prune s).task_table i none ≡ none
prune-empty s i e = prune-get s i ∙ ap (pruned s.current i) e

prune-dropped :
    (s : Scheduler) (i : ℕ) (t : Task)
    → get_or s.task_table i none ≡ some t
    → t.state ≡ dead
    → i ≢ s.current
    → get_or (prune s).task_table i none ≡ none
prune-dropped s i t e f ne =
    prune-get s i
    ∙ ap (pruned s.current i) e
    ∙ ap (λ b. if b then none else some t) ((is_pruned_iff s.current i t).1 (f, ne))

prune-kept :
    (s : Scheduler) (i : ℕ) (t : Task)
    → get_or s.task_table i none ≡ some t
    → (t.state ≢ dead) ⊎ (i ≡ s.current)
    → get_or (prune s).task_table i none ≡ some t
prune-kept s i t e why =
    let stays : is_pruned s.current i (some t) ≡ false =
      elim (Bool-cases (is_pruned s.current i (some t))) [
        | inr f ↦ f
        | inl f ↦
            let (gone, ne) = (is_pruned_iff s.current i t).0 f in
            absurd (elim why [ inl alive ↦ alive gone | inr here ↦ ne here ])
      ] in
    prune-get s i ∙ ap (pruned s.current i) e ∙ ap (λ b. if b then none else some t) stays

prune-freed :
    (s : Scheduler)
    → (xs : List ContextStack) × GivesBack s.current 0 s.task_table xs
      × ((prune s).freed ≡ s.freed ++ xs)
unfolding prune
prune-freed s =
    (freed_from s.current 0 s.task_table, freed_from-GivesBack s.current 0 s.task_table, refl)

prune-IsValid :
    (s : Scheduler) (k : ℕ)
    → IsValid s
    → k < 4
    → (t : Task) × (get_or s.task_table k none ≡ some t) × (t.state ≡ ready)
    → IsValid (record (prune s) { current = k })
unfolding prune
prune-IsValid s k v h (t, e, r) = record {
  size = length-prune_from s.current 0 s.task_table ∙ v.size;
  here = h;
  running = (t, prune-ready s k t e (ap is_ready r));
  named = λ i u f.
      v.named i u
        (pruned-some s.current i (get_or s.task_table i none) u (sym (prune-get s i) ∙ f));
  idle = let (u, f, g) = v.idle in (u, prune-ready s 1 u f (ap is_ready g), g);
}

-- On a valid table a pass of the scheduler neither panics nor breaks the table: it drops the dead
-- tasks that are not current, moves on to the first ready task behind the current one in a round of
-- the table that is not the idle task, or to the idle task if there is none, and switches exactly when
-- that is another slot. The stacks of the tasks that are dropped are given back to the heap in order, by
-- calls whose own effect is not part of this.
pub schedule_inner-Scheduled :
    (s : Scheduler)
    → IsValid s
    → (next : Scheduler) × (switched : Switch) × (schedule_inner s ≡ ok (next, switched))
      × Scheduled s next switched
unfolding schedule_inner prune
schedule_inner-Scheduled s v =
    let o = next_idx (prune s) in
    let c = Chosen-prune s o (next_idx-Chosen (prune s)) in
    let (h, there) = Chosen-ready s v o c in
    let (t, e, r) = there in
    let valid = prune-IsValid s (or_idle o) v h (t, e, r) in
    let (from, f) = v.running in
    let from_there = prune-here s ∙ f in
    let to_there = prune-ready s (or_idle o) t e (ap is_ready r) in
    elim (Bool-cases (s.current == or_idle o)) [
      | inl same ↦
          let eq : or_idle o ≡ s.current = ground arith in
          let stays : (s.current == s.current) ≡ true = ground arith in
          (
            prune s,
            stay,
            rw same refl,
            record {
              valid = subst (λ k. IsValid (record (prune s) { current = k })) eq valid;
              chosen = (o, Chosen-First s o v c, sym eq);
              runs = (t, subst (λ k. get_or (prune s).task_table k none ≡ some t) eq to_there, r);
              told = rw stays refl;
              empty = prune-empty s;
              dropped = prune-dropped s;
              kept = prune-kept s;
              freed = prune-freed s;
            },
          )
      | inr other ↦ (
        record (prune s) { current = or_idle o },
        switch s.current (or_idle o),
        rw (other, from_there, to_there) refl,
        record {
          valid = valid;
          chosen = (o, Chosen-First s o v c, refl);
          runs = (t, to_there, r);
          told = rw other refl;
          empty = prune-empty s;
          dropped = prune-dropped s;
          kept = prune-kept s;
          freed = prune-freed s;
        },
      )
    ]

nearer :
    (s : Scheduler) (k at : ℕ) (o : Option ℕ)
    → s.current < 4
    → k < 4
    → is_candidate_at s k ≡ true
    → Chosen s o
    → at ≡ or_idle o
    → at ≢ k
    → (k + 7 - at) % 4 < distance s k
nearer s k at (some j) c h e (found i l g before) eq ne = elim (Bool-cases (ltb (distance s k) i)) [
  | inl less ↦
      let skipped = before (distance s k) (ground arith) in
      let here = subst (λ x. is_candidate_at s x ≡ false) (place-distance s k c h) skipped in
      absurd (ground (arith, e, here))
  | inr more ↦
      let behind : i ≤ distance s k = ground arith in omega (arith, c, h, l, behind, eq, ne)
]
nearer s k at none c h e (nothing none_of) eq ne =
    absurd (ground (arith, e, nothing-anywhere s c none_of k h))

abbrev scheduled : Scheduler → Outcome (Scheduler × Switch) → Scheduler
scheduled s panic = s
scheduled s (ok r) = r.0

-- A task other than the idle task that is ready, and that a pass of the scheduler does not choose,
-- comes nearer: the next round meets fewer slots ahead of it than this one did.
pub schedule_inner-nearer :
    (s next : Scheduler) (switched : Switch)
    → IsValid s
    → schedule_inner s ≡ ok (next, switched)
    → (k : ℕ) → k < 4
    → MayRun s k
    → next.current ≢ k
    → distance next k < distance s k
schedule_inner-nearer s next switched v run k h e ne =
    let (n, w, f, r) = schedule_inner-Scheduled s v in
    let (o, c, at) = r.chosen in
    let same : next ≡ n = ap (scheduled s) (sym run ∙ f) in
    nearer s k next.current o v.here h (MayRun-candidate s k v e) (First-Chosen s o v c)
      (ap (λ x. x.current) same ∙ at) ne
