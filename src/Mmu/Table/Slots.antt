-- ===== src/Mmu/Table/Slots.antt =====
-- src/arch/aarch64/mmu/mod.rs: the words of a table, slot by slot, and the arithmetic of slots.
use zheos.Common.{
  ℕ, zero, suc, ◌+◌, ◌-◌, ◌*◌, ◌/◌, ◌%◌, ◌^◌, ◌≤◌, ◌<◌, ◌≡◌, ◌≢◌, ◌⊎◌, inl, inr, refl, ◌∙◌, false,
  ◌==◌, arith, Bool-cases, ==_iff, some,
}
use zheos.Common.Bits.{bit_and-mask, bit_and-shifted}
use zheos.Mmu.Level.{Level, level1, level2, level3, next, slot_of, size, offset_mask}
use zheos.Mmu.Descriptor.{Descriptor, from_u64}
use zheos.Mmu.Word.{IsEncodable}
use zheos.Mmu.RoundTrip.{from_u64-to_u64_descriptor}
use zheos.Mmu.Table.{Words, slot_address, set, get, clear, zero_descriptor, slot_end, link}

-- Tables begin at a page.
abbrev pub IsPage : ℕ → Type 0
IsPage t = t % 4096 ≡ 0

pub get-set_self :
    (words : Words) (t slot : ℕ) (d : Descriptor)
    → IsEncodable d
    → get (set words t slot d) t slot ≡ d
unfolding get set
get-set_self words t slot d h =
    rw ((==_iff (slot_address t slot) (slot_address t slot)).1 refl)
      (from_u64-to_u64_descriptor d h)

-- Another slot, or another table.
pub get-set_ne :
    (words : Words) (t slot : ℕ) (d : Descriptor) (q i : ℕ)
    → IsPage t
    → IsPage q
    → (t ≢ q) ⊎ (slot % 512 ≢ i % 512)
    → get (set words t slot d) q i ≡ get words q i
unfolding get set
get-set_ne words t slot d q i at aq other =
    let apart : (slot_address t slot == slot_address q i) ≡ false =
      ground (arith, bit_and-mask 9 slot, bit_and-mask 9 i) in
    rw apart refl

pub zero-IsEncodable : IsEncodable zero_descriptor
unfolding from_u64
zero-IsEncodable = record { index = tt; page = refl; width = omega arith }

pub link-IsEncodable : (child : ℕ) → IsPage child → child < 2 ^ 48 → IsEncodable (link child)
unfolding from_u64
link-IsEncodable child page width = record { index = tt; page = page; width = width }

pub get-clear :
    (n : ℕ) (words : Words) (t i : ℕ)
    → IsPage t
    → n ≤ 512
    → i < n
    → get (clear n words t) t i ≡ zero_descriptor
unfolding clear
get-clear zero words t i page bound h = elim h [ ]
get-clear (suc n) words t i page bound h = elim (Bool-cases (n == i)) [
  | inl e ↦
      let same = (==_iff n i).0 e in
      rw (← same) (get-set_self (clear n words t) t n zero_descriptor zero-IsEncodable)
  | inr e ↦
      get-set_ne (clear n words t) t n zero_descriptor t i page page (inr (ground arith))
      ∙ get-clear n words t i page (omega arith) (ground arith)
]

pub get-clear_ne :
    (n : ℕ) (words : Words) (t q i : ℕ)
    → IsPage t
    → IsPage q
    → t ≢ q
    → get (clear n words t) q i ≡ get words q i
unfolding clear
get-clear_ne zero words t q i pt pq ne = refl
get-clear_ne (suc n) words t q i pt pq ne =
    get-set_ne (clear n words t) t n zero_descriptor q i pt pq (inl ne)
    ∙ get-clear_ne n words t q i pt pq ne

-- What a table at a level covers: 512 slots.
abbrev pub span : Level → ℕ
span level1 = 2 ^ 39
span level2 = 2 ^ 30
span level3 = 2 ^ 21

pub next-span : (l finer : Level) → next l ≡ some finer → span finer ≡ size l
unfolding size
next-span level1 level1 e = cc
next-span level1 level2 e = refl
next-span level1 level3 e = cc
next-span level2 level1 e = cc
next-span level2 level2 e = cc
next-span level2 level3 e = refl
next-span level3 finer e = cc

pub slot_of-div : (l : Level) (va : ℕ) → slot_of l va ≡ va / size l % 512
unfolding slot_of size
slot_of-div level1 va = bit_and-mask 9 _
slot_of-div level2 va = bit_and-mask 9 _
slot_of-div level3 va = bit_and-mask 9 _

-- Two addresses of one table have one slot exactly if their slot numbers in all of memory agree.
pub slot_of-same :
    (l : Level) (a b : ℕ)
    → a / span l ≡ b / span l
    → slot_of l a % 512 ≡ slot_of l b % 512
    → a / size l ≡ b / size l
unfolding size
slot_of-same level1 a b e f = omega (arith, slot_of-div level1 a, slot_of-div level1 b)
slot_of-same level2 a b e f = omega (arith, slot_of-div level2 a, slot_of-div level2 b)
slot_of-same level3 a b e f = omega (arith, slot_of-div level3 a, slot_of-div level3 b)

pub slot_end_lem : (l : Level) (a : ℕ) → a < 2 ^ 63 → slot_end l a ≡ (a / size l + 1) * size l
unfolding slot_end size offset_mask
slot_end_lem level1 a h =
    omega (arith, bit_and-shifted 30 a (2 ^ 34 - 1), bit_and-mask 34 (a / 2 ^ 30))
slot_end_lem level2 a h =
    omega (arith, bit_and-shifted 21 a (2 ^ 43 - 1), bit_and-mask 43 (a / 2 ^ 21))
slot_end_lem level3 a h =
    omega (arith, bit_and-shifted 12 a (2 ^ 52 - 1), bit_and-mask 52 (a / 2 ^ 12))
