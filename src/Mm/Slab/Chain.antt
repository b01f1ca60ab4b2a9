-- ===== src/Mm/Slab/Chain.antt =====
-- src/mm/slab/mod.rs: the slots of a page and the chain of the free ones through their first words.
use zheos.Common.{
  ℕ, zero, suc, ◌+◌, ◌-◌, ◌*◌, ◌/◌, ◌%◌, ◌^◌, ◌≤◌, ◌<◌, ◌≡◌, ◌≢◌, refl, ap, ◌∙◌, sym, Option, none,
  some, Bool, true, false, ◌||◌, List, [], ◌∷◌, arith, ◌==◌, add64, sub64,
}
use native.Mathlib.Nat.{
  mul-le-mul_left, mul-lt-mul_of_pos_right, mul-div_cancel, mul-mod_left, pow-le-pow_right,
}
use zheos.Common.{ltb, Bool-cases, inl, inr, bit_and, ◌<<<◌}
use zheos.Common.Bits.{bit_and-mask}
use zheos.Mm.Layout.{is_multiple_of_pow2}
use zheos.Mm.Entry.{slot_from_raw}
use zheos.Mm.Slab.{update, mul_pow2, div_pow2}

-- A page at address `base` cut into `count` slots of `2 ^ shift` bytes.
pub record Cut (base count shift : ℕ) : Type 0 where
  pub whole : count * 2 ^ shift ≡ 4096
  pub low : 3 ≤ shift
  pub high : shift ≤ 11
  pub room : base + 4096 < 2 ^ 64
  pub page : base % 4096 ≡ 0

-- The address of a slot.
abbrev pub slot_at : ℕ → ℕ → ℕ → ℕ
slot_at base shift i = base + i * 2 ^ shift

abbrev pub head_of : List ℕ → Option ℕ
head_of [] = none
head_of (i ∷ is) = some i

-- Each free slot names the next one.
abbrev pub Chain : (ℕ → ℕ) → ℕ → ℕ → List ℕ → Type 0
Chain memory base shift [] = Unit {0}
Chain memory base shift (i ∷ is) =
    (slot_from_raw (memory (slot_at base shift i)) ≡ head_of is) × Chain memory base shift is

abbrev pub has : ℕ → List ℕ → Bool
has i [] = false
has i (j ∷ js) = (j == i) || has i js

abbrev pub Distinct : List ℕ → Type 0
Distinct [] = Unit {0}
Distinct (i ∷ is) = (has i is ≡ false) × Distinct is

abbrev pub AllBelow : ℕ → List ℕ → Type 0
AllBelow n [] = Unit {0}
AllBelow n (i ∷ is) = (i < n) × AllBelow n is

pub record InPage (count shift i : ℕ) : Type 0 where
  pub within : i * 2 ^ shift < 4096
  pub positive : 0 < 2 ^ shift
  pub least : 8 ≤ 2 ^ shift
  pub most : 2 ^ shift ≤ 2048
  pub few : count ≤ 512

pub Cut-InPage :
    {base count shift : ℕ} → Cut base count shift → (i : ℕ) → i < count → InPage count shift i
Cut-InPage {base} {count} {shift} c i h =
    let least : 8 ≤ 2 ^ shift = pow-le-pow_right {n = 2} (omega arith) {i = 3} {j = shift} c.low in
    let most : 2 ^ shift ≤ 2048 =
      pow-le-pow_right {n = 2} (omega arith) {i = shift} {j = 11} c.high in
    let below = mul-lt-mul_of_pos_right {m = i} {n = count} {k = 2 ^ shift} h (omega arith) in
    let eight = mul-le-mul_left {m = 8} {n = 2 ^ shift} count least in
    record {
      within = omega (arith, c.whole, below);
      positive = omega arith;
      least = least;
      most = most;
      few = omega (arith, c.whole, eight);
    }

-- Two slots stand at two addresses.
pub slot_at-ne :
    (base shift : ℕ) {i j : ℕ} → 0 < 2 ^ shift → i ≢ j → slot_at base shift i ≢ slot_at base shift j
slot_at-ne base shift {i} {j} h ne e = elim (Bool-cases (ltb i j)) [
  | inl less ↦
      let below = mul-lt-mul_of_pos_right {m = i} {n = j} {k = 2 ^ shift} (ground arith) h in
      absurd (omega (arith, e, below))
  | inr more ↦
      let other : j < i = ground arith in
      let below = mul-lt-mul_of_pos_right {m = j} {n = i} {k = 2 ^ shift} other h in
      absurd (omega (arith, e, below))
]

-- A write in a slot that is not on the chain leaves the chain.
pub Chain-update :
    (memory : ℕ → ℕ) (base shift j v : ℕ) (is : List ℕ)
    → 0 < 2 ^ shift
    → has j is ≡ false
    → Chain memory base shift is
    → Chain (update memory (slot_at base shift j) v) base shift is
Chain-update memory base shift j v [] h off c = tt
Chain-update memory base shift j v (i ∷ is) h off (c, cs) =
    let ne : i ≢ j = ground arith in
    let apart : (slot_at base shift i == slot_at base shift j) ≡ false =
      ground (arith, slot_at-ne base shift h ne) in
    (rw apart c, Chain-update memory base shift j v is h (ground arith) cs)

-- What the code computes with the address of a slot.
pub record AddressOf (base count shift i : ℕ) : Type 0 where
  pub address : add64 base (mul_pow2 i shift) ≡ slot_at base shift i
  pub page : slot_at base shift i / 4096 ≡ base / 4096
  pub offset : sub64 (slot_at base shift i) base ≡ i * 2 ^ shift
  pub start : is_multiple_of_pow2 (i * 2 ^ shift) (1 <<< shift) ≡ true
  pub index : div_pow2 (i * 2 ^ shift) shift ≡ i

pub Cut-AddressOf :
    {base count shift : ℕ}
    → Cut base count shift
    → (i : ℕ) → i < count
    → AddressOf base count shift i
Cut-AddressOf {base} {count} {shift} c i h =
    let p = Cut-InPage c i h in
    let one : 1 <<< shift ≡ 2 ^ shift = omega (arith, p.most) in
    let mask : sub64 (1 <<< shift) 1 ≡ 2 ^ shift - 1 = omega (arith, p.most, p.positive) in
    let masked =
      ap (bit_and (i * 2 ^ shift)) mask
      ∙ bit_and-mask shift (i * 2 ^ shift)
      ∙ mul-mod_left i (2 ^ shift) in
    record {
      address = omega (arith, p.within, c.room);
      page = omega (arith, p.within, c.page);
      offset = omega (arith, p.within, c.room);
      start = rw masked refl;
      index = mul-div_cancel i p.positive;
    }

pub count-div : {base count shift : ℕ} → Cut base count shift → div_pow2 4096 shift ≡ count
count-div {base} {count} {shift} c =
    let least : 8 ≤ 2 ^ shift = pow-le-pow_right {n = 2} (omega arith) {i = 3} {j = shift} c.low in
    ap (λ (t : ℕ). t / 2 ^ shift) (sym c.whole) ∙ mul-div_cancel count (omega arith)

pub count-pos : {base count shift : ℕ} → Cut base count shift → 0 < count
count-pos {count = zero} c = absurd (omega (arith, c.whole))
count-pos {count = suc count} c = omega arith
