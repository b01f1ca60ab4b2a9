-- ===== src/Mmu/Table/Walk.antt =====
-- src/arch/aarch64/mmu/mod.rs: the walk as the hardware makes it, to the descriptor at its end, and what
-- a change of the tables' memory does to it.
use zheos.Common.{
  ℕ, zero, suc, ◌/◌, ◌≡◌, ◌≢◌, ◌⊎◌, inl, inr, refl, ap, ◌∙◌, sym, arith, bit_and, bit_or, subst,
  Option, none, some,
}
use zheos.Mmu.Level.{Level, level1, level2, level3, next, slot_of, offset_mask}
use zheos.Mmu.Descriptor.{Descriptor, Kind, invalid, block, table}
use zheos.Mmu.Table.{
  Words, get, from_base, levels_left, translate_slot, translate_rounds, translate_at,
}
use zheos.Mmu.Table.Slots.{IsPage, span}

abbrev pub Leaf : Type 0
Leaf = Option (Descriptor × Level)

-- What a walk does with the descriptor of a slot.
unfoldable pub follow : (ℕ → Level → Leaf) → Descriptor → Level → Leaf
follow deeper d level = elim d.kind [
  | invalid ↦ none
  | block ↦ some (d, level)
  | table ↦ elim (next level) [
    | none ↦ some (d, level)
    | some finer ↦ elim (from_base d.address) [ none ↦ none | some child ↦ deeper child finer ]
  ]
]

unfoldable pub walk_rounds : ℕ → Words → ℕ → ℕ → Level → Leaf
walk_rounds zero words t va level = none
walk_rounds (suc n) words t va level =
    follow (λ child finer. walk_rounds n words child va finer) (get words t (slot_of level va))
      level

unfoldable pub walk : Words → ℕ → ℕ → Level → Leaf
unfolding walk_rounds
walk words t va level = walk_rounds (levels_left level) words t va level

-- Where an address lands behind the descriptor of its walk.
abbrev pub landing : ℕ → Leaf → Option (ℕ × Level)
landing va none = none
landing va (some (d, level)) = some (bit_or d.address (bit_and va (offset_mask level)), level)

follow-landing :
    (f : ℕ → Level → Option (ℕ × Level)) (g : ℕ → Level → Leaf) (va : ℕ) (words : Words) (t : ℕ)
    (l : Level)
    → ((child : ℕ) (finer : Level) → f child finer ≡ landing va (g child finer))
    → translate_slot f words t va l ≡ landing va (follow g (get words t (slot_of l va)) l)
unfolding translate_slot follow
follow-landing f g va words t level1 same =
    ground (arith, same (get words t (slot_of level1 va)).address level2)
follow-landing f g va words t level2 same =
    ground (arith, same (get words t (slot_of level2 va)).address level3)
follow-landing f g va words t level3 same = ground arith

rounds-landing :
    (n : ℕ) (words : Words) (t va : ℕ) (l : Level)
    → translate_rounds n words t va l ≡ landing va (walk_rounds n words t va l)
unfolding translate_rounds walk_rounds
rounds-landing zero words t va l = refl
rounds-landing (suc n) words t va l =
    follow-landing _ _ va words t l (λ child finer. rounds-landing n words child va finer)

-- `translate_at` gives where the walk of the hardware lands.
pub translate_at-landing :
    (words : Words) (t va : ℕ) (l : Level)
    → translate_at words t va l ≡ landing va (walk words t va l)
unfolding translate_at walk
translate_at-landing words t va l = rounds-landing (levels_left l) words t va l

-- `next` leads to the bottom.
next-left :
    (l finer : Level) (n : ℕ) → next l ≡ some finer → levels_left l ≡ suc n → levels_left finer ≡ n
next-left level1 finer n e h = ground arith
next-left level2 finer n e h = ground arith
next-left level3 finer n e h = cc

pub Kind-cases : (k : Kind) → (k ≡ table) ⊎ ((k ≡ invalid) ⊎ (k ≡ block))
Kind-cases invalid = inr (inl refl)
Kind-cases block = inr (inr refl)
Kind-cases table = inl refl

follow-same :
    (f g : ℕ → Level → Leaf) (d : Descriptor) (l : Level)
    → ((finer : Level)
        → d.kind ≡ table
        → next l ≡ some finer
        → f d.address finer ≡ g d.address finer)
    → follow f d l ≡ follow g d l
unfolding follow
follow-same f g d level1 same = elim (Kind-cases d.kind) [
  | inl e ↦ let h = same level2 e refl in ground (arith, e)
  | inr e ↦ ground (arith, e)
]
follow-same f g d level2 same = elim (Kind-cases d.kind) [
  | inl e ↦ let h = same level3 e refl in ground (arith, e)
  | inr e ↦ ground (arith, e)
]
follow-same f g d level3 same = ground arith

-- The entry of a table behind its slot.
pub follow-child :
    (g : ℕ → Level → Leaf) (d : Descriptor) (l finer : Level)
    → d.kind ≡ table
    → next l ≡ some finer
    → d.address ≢ 0
    → follow g d l ≡ g d.address finer
unfolding follow
follow-child g d level1 finer e f ne = ground arith
follow-child g d level2 finer e f ne = ground arith
follow-child g d level3 finer e f ne = cc

pub follow-invalid :
    (g : ℕ → Level → Leaf) (d : Descriptor) (l : Level) → d.kind ≡ invalid → follow g d l ≡ none
unfolding follow
follow-invalid g d l e = ground arith

pub walk-follow :
    (words : Words) (t va : ℕ) (l : Level)
    → walk words t va l
      ≡ follow (λ child finer. walk words child va finer) (get words t (slot_of l va)) l
unfolding walk walk_rounds
walk-follow words t va level1 =
    follow-same _ _ _ level1 (λ finer k e. let is : level2 ≡ finer = cc in rw (← is) refl)
walk-follow words t va level2 =
    follow-same _ _ _ level2 (λ finer k e. let is : level3 ≡ finer = cc in rw (← is) refl)
walk-follow words t va level3 = follow-same _ _ _ level3 (λ finer k e. cc)

-- A table in the tree: its level, and which of the spans of that level it covers.
pub record Place : Type 0 where
  pub level : Level
  pub prefix : ℕ

-- The place of the tables that are in use.
abbrev pub Places : Type 0
Places = ℕ → Option Place

-- `t` is a table of level `l`, and `va` is one of the addresses that it covers.
abbrev pub Covers : Places → ℕ → Level → ℕ → Type 0
Covers places t l va = places t ≡ some (record { level = l; prefix = va / span l })

-- Every table stands at a page, and an entry that leads further leads to the table of its own addresses.
-- A table has one place, so no two entries share one.
pub record IsTree (words : Words) (places : Places) : Type 0 where
  pub page : (t : ℕ) (x : Place) → places t ≡ some x → IsPage t
  pub child :
      (t : ℕ) (l finer : Level) (va : ℕ)
      → Covers places t l va
      → next l ≡ some finer
      → (get words t (slot_of l va)).kind ≡ table
      → ((get words t (slot_of l va)).address ≢ 0)
        × Covers places (get words t (slot_of l va)).address finer va

-- Memory changes, and each table's entry for an address is as it was, or its walk is; then all walks are.
module _ {words : Words} (words' : Words) {places : Places} (tree : IsTree words places) (va : ℕ)
    (same : (t : ℕ) (l : Level)
      → Covers places t l va
      → (get words' t (slot_of l va) ≡ get words t (slot_of l va))
        ⊎ (walk words' t va l ≡ walk words t va l)) where
  walk-same_below :
      (t : ℕ) (l : Level)
      → Covers places t l va
      → ((child : ℕ) (finer : Level)
          → next l ≡ some finer
          → Covers places child finer va
          → walk words' child va finer ≡ walk words child va finer)
      → walk words' t va l ≡ walk words t va l
  walk-same_below t l covers below = elim (same t l covers) [
    | inr e ↦ e
    | inl e ↦
        walk-follow words' t va l
        ∙ ap (λ d. follow (λ child finer. walk words' child va finer) d l) e
        ∙ follow-same (λ child finer. walk words' child va finer)
            (λ child finer. walk words child va finer) (get words t (slot_of l va)) l
            (λ finer k n.
              below (get words t (slot_of l va)).address finer n
                (tree.child t l finer va covers n k).1)
        ∙ sym (walk-follow words t va l)
  ]

  walk-same3 :
      (t : ℕ) → Covers places t level3 va → walk words' t va level3 ≡ walk words t va level3
  walk-same3 t covers = walk-same_below t level3 covers (λ child finer n c. cc)

  walk-same2 :
      (t : ℕ) → Covers places t level2 va → walk words' t va level2 ≡ walk words t va level2
  walk-same2 t covers = walk-same_below t level2 covers (λ child finer n c.
      let is : level3 ≡ finer = cc in
      subst (λ f. Covers places child f va → walk words' child va f ≡ walk words child va f) is
        (walk-same3 child) c)

  pub walk-same :
      (t : ℕ) (l : Level) → Covers places t l va → walk words' t va l ≡ walk words t va l
  walk-same t level3 covers = walk-same3 t covers
  walk-same t level2 covers = walk-same2 t covers
  walk-same t level1 covers = walk-same_below t level1 covers (λ child finer n c.
      let is : level2 ≡ finer = cc in
      subst (λ f. Covers places child f va → walk words' child va f ≡ walk words child va f) is
        (walk-same2 child) c)
