-- ===== src/Mmu/Table/Chunk.antt =====
-- src/arch/aarch64/mmu/mod.rs, `map_range`: the arithmetic of one pass, and the passes that are needed.
use zheos.Common.{
  ℕ, suc, ◌+◌, ◌*◌, ◌/◌, ◌%◌, ◌^◌, ◌≤◌, ◌<◌, ◌≡◌, ◌≢◌, ◌⊎◌, inl, inr, arith, min, add64, sub64,
  some, none, true, false, ◌&&◌, ◌==◌, ltb, Bool-cases, ==_iff,
}
use zheos.Mmu.Level.{Level, level1, level2, level3, next, size, is_aligned}
use zheos.Mmu.Walk.{is_aligned-multiple}
use zheos.Mmu.Table.{slot_end}
use zheos.Mmu.Table.Slots.{span, slot_end_lem}

-- The end of the chunk at `base` of a range up to `stop`.
pub record IsChunk (l : Level) (base stop m : ℕ) : Type 0 where
  pub begins : base < m
  pub ends : m ≤ stop
  pub in_slot : m ≤ (base / size l + 1) * size l
  pub cut : (m ≡ stop) ⊎ (m ≡ (base / size l + 1) * size l)

slot-after : (l : Level) (base : ℕ) → base < (base / size l + 1) * size l
unfolding size
slot-after level1 base = omega arith
slot-after level2 base = omega arith
slot-after level3 base = omega arith

pub min-IsChunk :
    (l : Level) (base stop : ℕ)
    → base < stop
    → stop ≤ 2 ^ 39
    → IsChunk l base stop (min (slot_end l base) stop)
min-IsChunk l base stop h bound =
    let e = slot_end_lem l base (omega arith) in
    let after = slot-after l base in
    record {
      begins = ground arith;
      ends = ground arith;
      in_slot = ground arith;
      cut = elim (Bool-cases (ltb (slot_end l base) stop)) [
        | inl lower ↦ inr (ground arith)
        | inr higher ↦ inl (ground arith)
      ];
    }

-- Addresses that one table covers.
pub span-same :
    (l : Level) (base va : ℕ)
    → base ≤ va
    → va < (base / span l + 1) * span l
    → va / span l ≡ base / span l
span-same level1 base va lo hi = omega arith
span-same level2 base va lo hi = omega arith
span-same level3 base va lo hi = omega arith

pub slot-same :
    (l : Level) (base va : ℕ)
    → base ≤ va
    → va < (base / size l + 1) * size l
    → va / size l ≡ base / size l
unfolding size
slot-same level1 base va lo hi = omega arith
slot-same level2 base va lo hi = omega arith
slot-same level3 base va lo hi = omega arith

pub slot-other :
    (l : Level) (base stop m va : ℕ)
    → IsChunk l base stop m
    → va / size l ≢ base / size l
    → (va < base) ⊎ (m ≤ va)
slot-other l base stop m va chunk other = elim (Bool-cases (ltb va base)) [
  | inl low ↦ inl (ground arith)
  | inr high ↦ elim (Bool-cases (ltb va m)) [
    | inl inside ↦
        absurd (other (slot-same l base va (ground arith) (ground (arith, chunk.in_slot))))
    | inr past ↦ inr (ground arith)
  ]
]

slot_end-page : (l : Level) (k : ℕ) → k * size l % 4096 ≡ 0
unfolding size
slot_end-page level1 k = omega arith
slot_end-page level2 k = omega arith
slot_end-page level3 k = omega arith

pub cut-page :
    (l : Level) (base stop m : ℕ) → IsChunk l base stop m → m % 4096 ≢ 0 → stop % 4096 ≢ 0
cut-page l base stop m chunk odd = elim chunk.cut [
  | inl e ↦ λ even. odd (omega arith)
  | inr e ↦ absurd (odd (omega (arith, slot_end-page l (base / size l + 1))))
]

-- An aligned chunk is the whole slot.
pub aligned_slot : (l : Level) (base : ℕ) → is_aligned l base ≡ true → base / size l * size l ≡ base
unfolding size
aligned_slot level1 base h = omega (arith, (is_aligned-multiple level1 base).0 h)
aligned_slot level2 base h = omega (arith, (is_aligned-multiple level2 base).0 h)
aligned_slot level3 base h = omega (arith, (is_aligned-multiple level3 base).0 h)

-- At the last level a chunk that is not a whole slot begins or ends within a page.
partial_page :
    (base stop m : ℕ)
    → base < 2 ^ 39
    → IsChunk level3 base stop m
    → (is_aligned level3 base && m == slot_end level3 base) ≡ false
    → (base % 4096 ≢ 0) ⊎ (m % 4096 ≢ 0)
unfolding size
partial_page base stop m bound chunk e = elim (Bool-cases (base % 4096 == 0)) [
  | inr odd ↦ inl (ground arith)
  | inl even ↦
      let aligned = (is_aligned-multiple level3 base).1 ((==_iff (base % 4096) 0).0 even) in
      let at = slot_end_lem level3 base (omega arith) in
      let other : (m == slot_end level3 base) ≡ false = ground arith in
      inr (λ whole. ground (arith, at, other))
]

pub bottom_page :
    (l : Level) (base stop m : ℕ)
    → next l ≡ none
    → base < 2 ^ 39
    → IsChunk l base stop m
    → (is_aligned l base && m == slot_end l base) ≡ false
    → (base % 4096 ≢ 0) ⊎ (m % 4096 ≢ 0)
bottom_page level1 base stop m n bound chunk e = cc
bottom_page level2 base stop m n bound chunk e = cc
bottom_page level3 base stop m n bound chunk e = partial_page base stop m bound chunk e

pub region_end : (base m : ℕ) → base ≤ m → m ≤ 2 ^ 39 → add64 base (sub64 m base) ≡ m
region_end base m lo hi = omega arith

-- The passes that the levels below make at most.
abbrev pub deeper_rounds : Level → ℕ
deeper_rounds level1 = 1028
deeper_rounds level2 = 514
deeper_rounds level3 = 0

pub record Enough (fuel : ℕ) (l : Level) (base stop : ℕ) : Type 0 where
  pub some_left : 0 < fuel
  pub rounds : base < stop → stop / size l + 2 + deeper_rounds l ≤ fuel + base / size l

pub Enough-deeper :
    (f : ℕ) (l finer : Level) (base stop m : ℕ)
    → next l ≡ some finer
    → base < stop
    → IsChunk l base stop m
    → Enough (suc f) l base stop
    → Enough f finer base m
unfolding size
Enough-deeper f level1 level2 base stop m n h chunk enough =
    let r = enough.rounds h in
    record { some_left = omega arith; rounds = λ b. omega (arith, chunk.in_slot) }
Enough-deeper f level2 level3 base stop m n h chunk enough =
    let r = enough.rounds h in
    record { some_left = omega arith; rounds = λ b. omega (arith, chunk.in_slot) }
Enough-deeper f level1 level1 base stop m n h chunk enough = cc
Enough-deeper f level1 level3 base stop m n h chunk enough = cc
Enough-deeper f level2 level1 base stop m n h chunk enough = cc
Enough-deeper f level2 level2 base stop m n h chunk enough = cc
Enough-deeper f level3 finer base stop m n h chunk enough = cc

size-pos : (l : Level) (base stop : ℕ) → base < stop → base / size l ≤ stop / size l
unfolding size
size-pos level1 base stop h = omega arith
size-pos level2 base stop h = omega arith
size-pos level3 base stop h = omega arith

slot-next : (l : Level) (k : ℕ) → k * size l / size l ≡ k
unfolding size
slot-next level1 k = omega arith
slot-next level2 k = omega arith
slot-next level3 k = omega arith

pub Enough-rest :
    (f : ℕ) (l : Level) (base stop m : ℕ)
    → base < stop
    → IsChunk l base stop m
    → Enough (suc f) l base stop
    → Enough f l m stop
Enough-rest f l base stop m h chunk enough =
    let r = enough.rounds h in
    let mono = size-pos l base stop h in
    record {
      some_left = omega arith;
      rounds = λ b. elim chunk.cut [
        | inl e ↦ absurd (omega arith)
        | inr e ↦
            let at : m / size l ≡ base / size l + 1 = rw e (slot-next l (base / size l + 1)) in
            omega arith
      ];
    }
