-- ===== src/Mm/Heap/Sizes.antt =====
-- src/mm/heap.rs and src/mm/slab/mod.rs: the size class or the block of pages for a layout is large
-- enough.
use zheos.Common.{
  ℕ, zero, suc, ◌+◌, ◌-◌, ◌*◌, ◌/◌, ◌%◌, ◌^◌, max, ◌≤◌, ◌<◌, ◌≡◌, refl, ap, ap₂, ◌∙◌, sym, subst,
  Option, none, some, true, false, List, [], ◌∷◌, arith, ltb, leb, ◌==◌, div_ceil, sub64, get_elem?,
  Bool-cases, inl, inr, ==_iff,
}
use mathlib.Core.Option.{some-injective, none-ne-some}
use native.Mathlib.Nat.{pow-suc, mul_comm, pow-le-pow_right, one-le-pow, mul-mod_left}
use zheos.Common.Bits.{bit_and-mask, pow-add}
use zheos.Mm.Frames.{ilog2}
use zheos.Mm.Layout.{Layout, classes, class_from, class_of, is_multiple_of_pow2}
use zheos.Mm.Heap.{order_of, next_power_of_two, next_power_from}

-- A class of `c` bytes serves a layout: it has the room and is a multiple of the alignment.
abbrev pub Serves : Layout → ℕ → Type 0
Serves layout c = (layout.size ≤ c) × (c % layout.align ≡ 0)

-- The answer is the first of the classes that serves the layout; `none` if no class does.
abbrev pub IsFirst : Layout → ℕ → List ℕ → Option ℕ → Type 0
IsFirst layout i cs (some n) =
    (k : ℕ) × (c : ℕ) × (n ≡ i + k)
    × (get_elem? cs k ≡ some c)
    × Serves layout c
    × ((j d : ℕ) → j < k → get_elem? cs j ≡ some d → ¬ Serves layout d)
IsFirst layout i cs none = (j d : ℕ) → get_elem? cs j ≡ some d → ¬ Serves layout d

module _ (layout : Layout) (k : ℕ) (small : k < 64) (power : layout.align ≡ 2 ^ k) where
  multiple_lem : (c : ℕ) → is_multiple_of_pow2 c layout.align ≡ (c % layout.align == 0)
  multiple_lem c =
      let room : 2 ^ k ≤ 2 ^ 63 =
        pow-le-pow_right {n = 2} (omega arith) {i = k} {j = 63} (omega arith) in
      let positive : 1 ≤ 2 ^ k = one-le-pow k 2 (omega arith) in
      let mask : sub64 (2 ^ k) 1 ≡ 2 ^ k - 1 = omega (arith, room, positive) in
      rw (power, mask) (ap (λ t. t == 0) (bit_and-mask k c))

  none_before :
      (c : ℕ) (cs : List ℕ) (n : ℕ)
      → ¬ Serves layout c
      → ((j d : ℕ) → j < n → get_elem? cs j ≡ some d → ¬ Serves layout d)
      → (j d : ℕ) → j < suc n
      → get_elem? (c ∷ cs) j ≡ some d
      → ¬ Serves layout d
  none_before c cs n not_c f zero d h at =
      subst (λ d. ¬ Serves layout d) (some-injective c d at) not_c
  none_before c cs n not_c f (suc j) d h at = f j d (omega arith) at

  IsFirst-step :
      (i c : ℕ) (cs : List ℕ) (r : Option ℕ)
      → ¬ Serves layout c
      → IsFirst layout (i + 1) cs r
      → IsFirst layout i (c ∷ cs) r
  IsFirst-step i c cs none not_c f =
      λ j d at. none_before c cs (suc j) not_c (λ j d h. f j d) j d (omega arith) at
  IsFirst-step i c cs (some n) not_c (k', d, e, at, serves, before) =
      (suc k', d, omega arith, at, serves, none_before c cs k' not_c before)

  class_from-IsFirst : (i : ℕ) (cs : List ℕ) → IsFirst layout i cs (class_from i cs layout)
  unfolding class_from
  class_from-IsFirst i [] = λ j d at. absurd (none-ne-some d at)
  class_from-IsFirst i (c ∷ cs) =
      let rest = class_from-IsFirst (i + 1) cs in
      elim (Bool-cases (ltb c layout.size)) [
        | inl a ↦ rw (a) (
            IsFirst-step i c cs (class_from (i + 1) cs layout)
              (λ s. absurd (ground (arith, s.0, a))) rest)
        | inr a ↦ elim (Bool-cases (is_multiple_of_pow2 c layout.align)) [
          | inr b ↦
              rw (a, b)
                (IsFirst-step i c cs (class_from (i + 1) cs layout)
                  (λ s. absurd (ground (arith, s.1, b, multiple_lem c))) rest)
          | inl b ↦
              rw (a, b)
                (
                  0,
                  c,
                  omega arith,
                  refl,
                  (ground arith, (==_iff (c % layout.align) 0).0 (sym (multiple_lem c) ∙ b)),
                  λ j d h. absurd (omega arith),
                )
        ]
      ]

  -- `class_of` gives the first class that has the room for the layout and is a multiple of its
  -- alignment, and none when there is no such class, for an alignment that is a power of two.
  pub class_of-IsFirst : IsFirst layout 0 classes (class_of layout)
  unfolding class_of
  class_of-IsFirst = class_from-IsFirst 0 classes

-- The power of two that `next_power_of_two` finds.
abbrev pub IsLeastPower : ℕ → ℕ → Type 0
IsLeastPower n p = (o : ℕ) × (o ≤ 63) × (p ≡ 2 ^ o) × (n ≤ p) × (p < 2 * n)

doubled-lt : (k n : ℕ) → ltb (2 ^ k) n ≡ true → 2 ^ suc k < 2 * n
doubled-lt k n h = ground (arith, pow-suc 2 k)

next_power_from-IsLeastPower :
    (left k n : ℕ)
    → k + left ≡ 64
    → n ≤ 2 ^ 63
    → 2 ^ k < 2 * n
    → IsLeastPower n (next_power_from left (2 ^ k) n)
unfolding next_power_from
next_power_from-IsLeastPower zero k n h room least =
    let e : k ≡ 64 = omega arith in absurd (omega (arith, subst (λ k. 2 ^ k < 2 * n) e least))
next_power_from-IsLeastPower (suc left) k n h room least = elim (Bool-cases (ltb (2 ^ k) n)) [
  | inl a ↦ simp a (
      subst (λ p. IsLeastPower n (next_power_from left p n)) (pow-suc 2 k ∙ mul_comm (2 ^ k) 2)
        (next_power_from-IsLeastPower left (suc k) n (omega arith) room (doubled-lt k n a)))
  | inr a ↦ simp a (k, omega arith, refl, ground arith, least)
]

next_power_of_two-IsLeastPower : (n : ℕ) → 0 < n → n ≤ 2 ^ 63 → IsLeastPower n (next_power_of_two n)
unfolding next_power_of_two
next_power_of_two-IsLeastPower n h room =
    next_power_from-IsLeastPower 64 0 n refl room (omega arith)

ilog2-pow : (w o : ℕ) → o < w → ilog2 w (2 ^ o) ≡ o
unfolding ilog2
ilog2-pow zero o h = absurd (omega arith)
ilog2-pow (suc w) zero h = refl
ilog2-pow (suc w) (suc o) h =
    let positive = one-le-pow o 2 (omega arith) in
    let half : 2 ^ suc o / 2 ≡ 2 ^ o = omega (arith, pow-suc 2 o) in
    let big : ltb (2 ^ suc o) 2 ≡ false = ground (arith, pow-suc 2 o, positive) in
    rw big (ap suc (ap (ilog2 w) half ∙ ilog2-pow w o (omega arith)))

-- A power of two that is not smaller than another is a multiple of it.
pow-mod-pow : (a b : ℕ) → 2 ^ a ≤ 2 ^ b → 2 ^ b % 2 ^ a ≡ 0
pow-mod-pow a b h = elim (Bool-cases (leb a b)) [
  | inl e ↦
      let le : a ≤ b = ground arith in
      let split : 2 ^ b ≡ 2 ^ (b - a) * 2 ^ a =
        ap (λ (n : ℕ). 2 ^ n) (omega arith) ∙ pow-add (b - a) a in
      ap (λ (n : ℕ). n % 2 ^ a) split ∙ mul-mod_left (2 ^ (b - a)) (2 ^ a)
  | inr e ↦
      let gt : b < a = ground arith in
      let more = pow-le-pow_right {n = 2} (omega arith) {i = suc b} {j = a} gt in
      absurd (omega (arith, h, more, pow-suc 2 b, one-le-pow b 2 (omega arith)))
]

-- The pages that a layout needs for its size and its alignment.
abbrev pub pages_of : Layout → ℕ
pages_of layout = max (div_ceil layout.size 4096) (div_ceil layout.align 4096)

-- A block of `2 ^ o` pages serves the layout.
abbrev pub BlockServes : Layout → ℕ → Type 0
BlockServes layout o =
    (layout.size ≤ 2 ^ o * 4096) × (2 ^ o * 4096 % layout.align ≡ 0) × (2 ^ o < 2 * pages_of layout)

pages_of-BlockServes :
    (layout : Layout) (k o : ℕ)
    → layout.align ≡ 2 ^ k
    → pages_of layout ≤ 2 ^ o
    → 2 ^ o < 2 * pages_of layout
    → BlockServes layout o
pages_of-BlockServes layout k o power le lt =
    let fits : 2 ^ k ≤ 2 ^ (o + 12) = omega (arith, power, le, pow-add o 12) in
    let size : 2 ^ o * 4096 ≡ 2 ^ (o + 12) = sym (pow-add o 12) in
    (omega (arith, le), ap₂ (λ (n m : ℕ). n % m) size power ∙ pow-mod-pow k (o + 12) fits, lt)

-- For a layout of at most 2 ^ 63 bytes whose alignment is a power of two, the block of `order_of` has
-- the room, its size is a multiple of the alignment, and half of it would be too small.
pub order_of_lem :
    (layout : Layout) (k : ℕ)
    → k < 64
    → layout.align ≡ 2 ^ k
    → layout.size ≤ 2 ^ 63
    → BlockServes layout (order_of layout)
unfolding order_of
order_of_lem layout k small power room =
    let align_room : 2 ^ k ≤ 2 ^ 63 =
      pow-le-pow_right {n = 2} (omega arith) {i = k} {j = 63} (omega arith) in
    let positive : 1 ≤ 2 ^ k = one-le-pow k 2 (omega arith) in
    let (o, high, p, le, lt) =
      next_power_of_two-IsLeastPower (pages_of layout) (omega (arith, power, positive))
        (omega (arith, power, align_room, room)) in
    let log = ap (ilog2 64) p ∙ ilog2-pow 64 o (omega arith) in
    let serves =
      pages_of-BlockServes layout k o power (omega (arith, p, le)) (omega (arith, p, lt)) in
    subst (BlockServes layout) (sym log) serves
