-- ===== src/Mmu/Table/Grows.antt =====
-- src/arch/aarch64/mmu/mod.rs: what an operation on a tree of tables keeps.
use zheos.Common.{ℕ, ◌≤◌, ◌<◌, ◌≡◌, ◌⊎◌, inl, inr, refl, ap, ◌∙◌, some, arith}
use zheos.Mmu.Level.{Level, next, slot_of}
use zheos.Mmu.Descriptor.{table}
use zheos.Mmu.Table.{Words, get}
use zheos.Mmu.Table.Walk.{Place, Places, Covers, IsTree, walk}

-- From one tree to another: tables and links stay, and so does every walk of an address outside the range
-- from `base` to `stop`.
pub record Grows (words : Words) (places : Places) (words' : Words) (places' : Places)
    (base stop : ℕ) : Type 0 where
  pub tree : IsTree words' places'
  pub placed : (t : ℕ) (x : Place) → places t ≡ some x → places' t ≡ some x
  pub linked :
      (t : ℕ) (l finer : Level) (va : ℕ)
      → Covers places t l va
      → next l ≡ some finer
      → (get words t (slot_of l va)).kind ≡ table
      → get words' t (slot_of l va) ≡ get words t (slot_of l va)
  pub outside :
      (va : ℕ)
      → (va < base) ⊎ (stop ≤ va)
      → (t : ℕ) (l : Level) → Covers places t l va
      → walk words' t va l ≡ walk words t va l

pub Grows-refl :
    {words : Words} {places : Places} (base stop : ℕ)
    → IsTree words places
    → Grows words places words places base stop
Grows-refl base stop tree = record {
  tree = tree;
  placed = λ t x e. e;
  linked = λ t l finer va c n k. refl;
  outside = λ va o t l c. refl;
}

widen :
    {va base stop : ℕ} (base' stop' : ℕ)
    → base ≤ base'
    → stop' ≤ stop
    → (va < base) ⊎ (stop ≤ va)
    → (va < base') ⊎ (stop' ≤ va)
widen base' stop' lo hi (inl h) = inl (omega arith)
widen base' stop' lo hi (inr h) = inr (omega arith)

-- One operation after another, within one range.
pub Grows-trans :
    {w w' w'' : Words} {p p' p'' : Places} {a b a' b' base stop : ℕ}
    → base ≤ a
    → b ≤ stop
    → base ≤ a'
    → b' ≤ stop
    → Grows w p w' p' a b
    → Grows w' p' w'' p'' a' b'
    → Grows w p w'' p'' base stop
Grows-trans {w} {w'} {a} {b} {a'} {b'} la lb la' lb' first second = record {
  tree = second.tree;
  placed = λ t x e. second.placed t x (first.placed t x e);
  linked = λ t l finer va c n k.
      let same = first.linked t l finer va c n k in
      second.linked t l finer va (first.placed t _ c) n (ap (λ d. d.kind) same ∙ k) ∙ same;
  outside = λ va o t l c.
      second.outside va (widen a' b' la' lb' o) t l (first.placed t _ c)
      ∙ first.outside va (widen a b la lb o) t l c;
}
