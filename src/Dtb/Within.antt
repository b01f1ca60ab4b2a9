-- ===== src/Dtb/Within.antt =====
-- src/platform/dtb/cursor.rs: where a read leaves the cursor.
use zheos.Common.{
  ℕ, zero, suc, ◌+◌, ◌-◌, ◌*◌, ◌/◌, ◌^◌, ◌<◌, ◌≤◌, ◌≡◌, refl, ap, ◌∙◌, Option, none, some, List, [],
  ◌∷◌, arith, leb, add64, length, take, drop, Bool-cases, inl, inr, ◌⊎◌,
}
use zheos.Common.Bits.{bit_and-mask, bit_and-shifted}
use zheos.Dtb.Cursor.{
  Cursor, from_be_bytes, slice, rest_from, read_u32, bytes, cstring, align_u32, zero_at,
}

-- The second cursor is behind the first one in the same block, and at most three bytes behind its end.
pub record Ahead (c c' : Cursor) : Type 0 where
  pub same : c'.blob ≡ c.blob
  pub less : c.offset < c'.offset
  pub bound : c'.offset ≤ length c.blob + 3

-- As `Ahead`, not beyond the end, and perhaps where it was.
pub record Within (c c' : Cursor) : Type 0 where
  pub same : c'.blob ≡ c.blob
  pub le : c.offset ≤ c'.offset
  pub bound : c'.offset ≤ length c.blob

-- None, or a value that has the property.
abbrev pub Gives {ℓ} : {A : Type ℓ} → (A → Type 0) → Option A → Type ℓ
Gives {A = A} P o = (o ≡ none) ⊎ ((a : A) × (o ≡ some a) × P a)

pub slice-cases :
    (bs : List ℕ) (a b : ℕ)
    → (slice bs a b ≡ none) ⊎ ((x : List ℕ) × (slice bs a b ≡ some x) × (a ≤ b) × (b ≤ length bs))
unfolding slice
slice-cases bs a b = elim (Bool-cases (leb a b)) [
  | inr e ↦ inl (rw e refl)
  | inl e ↦ elim (Bool-cases (leb b (length bs))) [
    | inr f ↦ inl (rw (e, f) refl)
    | inl f ↦ inr (take (b - a) (drop a bs), rw (e, f) refl, ground arith, ground arith)
  ]
]

pub bytes-Within : (c : Cursor) (size : ℕ) → Gives (λ r. Within c r.1) (bytes c size)
unfolding bytes
bytes-Within c size = elim (slice-cases c.blob c.offset (add64 c.offset size)) [
  | inl e ↦ inl (rw (bytes, e) refl)
  | inr (x, e, le, bound) ↦ inr (
    (x, record c { offset = add64 c.offset size }),
    rw (bytes, e) refl,
    record { same = refl; le = le; bound = bound },
  )
]

pub read_u32-Within :
    (c : Cursor)
    → length c.blob < 2 ^ 63
    → Gives (λ r. Within c r.1 × (c.offset + 4 ≡ r.1.offset)) (read_u32 c)
unfolding read_u32
read_u32-Within c small = elim (slice-cases c.blob c.offset (add64 c.offset 4)) [
  | inl e ↦ inl (rw (read_u32, e) refl)
  | inr (x, e, le, bound) ↦ inr (
    (from_be_bytes x, record c { offset = add64 c.offset 4 }),
    rw (read_u32, e) refl,
    (record { same = refl; le = le; bound = bound }, omega (arith, le, bound, small)),
  )
]

zero_at-lt : (bs : List ℕ) → Gives (λ n. n < length bs) (zero_at bs)
zero_at-lt [] = inl refl
zero_at-lt (zero ∷ bs) = inr (0, refl, omega arith)
zero_at-lt (suc b ∷ bs) = elim (zero_at-lt bs) [
  | inl e ↦ inl (rw e refl)
  | inr (n, e, less) ↦ inr (suc n, rw e refl, omega (arith, less))
]

pub length-drop : (n : ℕ) (bs : List ℕ) → length (drop n bs) ≡ length bs - n
length-drop zero bs = omega arith
length-drop (suc n) [] = omega arith
length-drop (suc n) (b ∷ bs) = omega (arith, length-drop n bs)

pub cstring-Within : (c : Cursor) → length c.blob < 2 ^ 63 → Gives (λ r. Within c r.1) (cstring c)
unfolding cstring rest_from
cstring-Within c small = elim (Bool-cases (leb c.offset (length c.blob))) [
  | inr e ↦ inl (rw (cstring, e) refl)
  | inl e ↦ elim (zero_at-lt (drop c.offset c.blob)) [
    | inl f ↦ inl (rw (cstring, e) (rw f refl))
    | inr (n, f, less) ↦
        let inside : c.offset ≤ length c.blob = ground arith in
        let moved : add64 c.offset (n + 1) ≡ c.offset + n + 1 =
          omega (arith, less, length-drop c.offset c.blob, small) in
        inr (
          (take n (drop c.offset c.blob), record c { offset = add64 c.offset (n + 1) }),
          rw (cstring, e) (rw f refl),
          record {
            same = refl;
            le = omega (arith, moved);
            bound = omega (arith, moved, less, length-drop c.offset c.blob, inside);
          },
        )
  ]
]

-- Aligning moves at most three bytes on.
pub align_u32-near :
    (c : Cursor)
    → c.offset < 2 ^ 63
    → (c.offset ≤ (align_u32 c).offset) × ((align_u32 c).offset ≤ c.offset + 3)
unfolding align_u32
align_u32-near c small =
    let up : add64 c.offset 3 ≡ c.offset + 3 = omega arith in
    let masked =
      bit_and-shifted 2 (c.offset + 3) (2 ^ 62 - 1)
      ∙ ap (λ (t : ℕ). t * 2 ^ 2) (bit_and-mask 62 ((c.offset + 3) / 2 ^ 2)) in
    rw up (omega (arith, masked))

-- A place within the block, and then aligned.
pub aligned-Ahead :
    (c c' : Cursor)
    → length c.blob < 2 ^ 63
    → c.offset < c'.offset
    → c'.blob ≡ c.blob
    → c'.offset ≤ length c.blob
    → Ahead c (align_u32 c')
unfolding align_u32
aligned-Ahead c c' small less same bound =
    let (low, high) = align_u32-near c' (omega (arith, small, bound)) in
    record { same = same; less = omega (arith, low, less); bound = omega (arith, high, bound) }

pub Within-small :
    (c c' : Cursor) → length c.blob < 2 ^ 63 → c'.blob ≡ c.blob → length c'.blob < 2 ^ 63
Within-small c c' small same = omega (arith, ap (λ bs. length bs) same, small)

pub Within-trans : {a b c : Cursor} → Within a b → Within b c → Within a c
Within-trans v w = record {
  same = w.same ∙ v.same;
  le = omega (arith, v.le, w.le);
  bound = omega (arith, w.bound, ap (λ bs. length bs) v.same);
}
