-- ===== src/Mm/Entry/RoundTrip.antt =====
-- An entry survives its word: src/mm/pages.rs, `to_u64` and `from_u64`.
use zheos.Common.{
  ℕ, ◌+◌, ◌-◌, ◌*◌, ◌^◌, ◌<◌, ◌≡◌, refl, ap, ap₂, ◌∙◌, Bool, true, false, Option, none, some, arith,
}
use zheos.Common.{u8, u16, u32, bit_and, bit_or, ◌/=◌, ◌<<<◌, ◌>>>◌}
use native.Mathlib.Nat.{mod-eq_of_lt}
use zheos.Common.Bits.{bit_and-mask, bit_or-high, bit_and-bit}
use zheos.Mm.Entry.{Entry, SlabEntry, buddy, slab, bit, to_u64, from_u64}
use zheos.Mm.Entry.{slot_to_raw, slot_from_raw, arena_index_to_raw, arena_index_from_raw}

-- The value, if there is one, is below the bound.
abbrev pub IsBelow : ℕ → Option ℕ → Type 0
IsBelow n none = Unit
IsBelow n (some i) = i < n

-- Each field fits its bits, and no index is the one that stands for `None`.
pub record Fits (s : SlabEntry) : Type 0 where
  pub class : s.class < 16
  pub free_head : IsBelow 0x3ff s.free_head
  pub in_use : s.in_use < 1024
  pub next_partial : IsBelow 0x7ffff s.next_partial
  pub prev_partial : IsBelow 0x7ffff s.prev_partial

abbrev pub IsEntry : Entry → Type 0
IsEntry (buddy free order) = order < 16
IsEntry (slab s) = Fits s

-- Appending a field of `w` bits at bit `k` adds it in.
field_at :
    (k w low f : ℕ)
    → low < 2 ^ k
    → f < 2 ^ w
    → f * 2 ^ k < 2 ^ 64
    → bit_or low (bit_and f (2 ^ w - 1) <<< k) ≡ low + f * 2 ^ k
field_at k w low f h fits room =
    ap (λ t. bit_or low (t <<< k)) (bit_and-mask w f ∙ mod-eq_of_lt fits)
    ∙ ap (bit_or low) (mod-eq_of_lt room)
    ∙ bit_or-high k low f h

slot_to_raw-lt : (o : Option ℕ) → IsBelow 0x3ff o → slot_to_raw o < 1024
unfolding slot_to_raw
slot_to_raw-lt none h = omega arith
slot_to_raw-lt (some i) h = omega arith

pub slot_from_raw-to_raw : (o : Option ℕ) → IsBelow 0x3ff o → slot_from_raw (slot_to_raw o) ≡ o
unfolding slot_to_raw slot_from_raw
slot_from_raw-to_raw none h = refl
slot_from_raw-to_raw (some i) h = ground arith

arena_index_to_raw-lt : (o : Option ℕ) → IsBelow 0x7ffff o → arena_index_to_raw o < 2 ^ 19
unfolding arena_index_to_raw
arena_index_to_raw-lt none h = omega arith
arena_index_to_raw-lt (some i) h = omega arith

arena_index_from_raw-to_raw :
    (o : Option ℕ) → IsBelow 0x7ffff o → arena_index_from_raw (arena_index_to_raw o) ≡ o
unfolding arena_index_to_raw arena_index_from_raw
arena_index_from_raw-to_raw none h = refl
arena_index_from_raw-to_raw (some i) h = ground arith

-- The five fields of a slab word at their bits: 1, 5, 15, 25 and 44, above the tag.
slab_word : (c f u n p : ℕ) → ℕ
slab_word c f u n p = 1 + c * 2 ^ 1 + f * 2 ^ 5 + u * 2 ^ 15 + n * 2 ^ 25 + p * 2 ^ 44

to_u64-slab :
    (s : SlabEntry)
    → Fits s
    → to_u64 (slab s)
      ≡ slab_word s.class
          (slot_to_raw s.free_head)
          s.in_use
          (arena_index_to_raw s.next_partial)
          (arena_index_to_raw s.prev_partial)
unfolding to_u64 slab_word
to_u64-slab s fits =
    let c = s.class in
    let f = slot_to_raw s.free_head in
    let u = s.in_use in
    let n = arena_index_to_raw s.next_partial in
    let p = arena_index_to_raw s.prev_partial in
    let f-lt = slot_to_raw-lt s.free_head fits.free_head in
    let n-lt = arena_index_to_raw-lt s.next_partial fits.next_partial in
    let p-lt = arena_index_to_raw-lt s.prev_partial fits.prev_partial in
    let a = field_at 1 4 1 c (omega arith) (omega arith) (omega arith) in
    let b = field_at 5 10 (1 + c * 2 ^ 1) f (omega arith) (omega arith) (omega arith) in
    let low : ℕ = 1 + c * 2 ^ 1 + f * 2 ^ 5 in
    let d = field_at 15 10 low u (omega arith) (omega arith) (omega arith) in
    let low' : ℕ = low + u * 2 ^ 15 in
    let e = field_at 25 19 low' n (omega arith) (omega arith) (omega arith) in
    let g = field_at 44 19 (low' + n * 2 ^ 25) p (omega arith) (omega arith) (omega arith) in
    rw (a, b, d, e, g)

-- A slab word gives its fields back.
from_u64-slab_word :
    (c f u n p : ℕ)
    → c < 16
    → f < 1024
    → u < 1024
    → n < 2 ^ 19
    → p < 2 ^ 19
    → from_u64 (slab_word c f u n p)
      ≡ slab (record {
        class = c;
        free_head = slot_from_raw f;
        in_use = u;
        next_partial = arena_index_from_raw n;
        prev_partial = arena_index_from_raw p;
      })
unfolding from_u64 slab_word
from_u64-slab_word c f u n p hc hf hu hn hp =
    let v = slab_word c f u n p in
    let tag : (bit_and v 1 /= 0) ≡ true = ground (arith, bit_and-mask 1 v) in
    let class : u8 (bit_and (v >>> 1) 15) ≡ c = omega (arith, bit_and-mask 4 (v >>> 1)) in
    let head : u16 (bit_and (v >>> 5) 1023) ≡ f = omega (arith, bit_and-mask 10 (v >>> 5)) in
    let used : u16 (bit_and (v >>> 15) 1023) ≡ u = omega (arith, bit_and-mask 10 (v >>> 15)) in
    let next : u32 (bit_and (v >>> 25) 0x7ffff) ≡ n = omega (arith, bit_and-mask 19 (v >>> 25)) in
    let prev : u32 (bit_and (v >>> 44) 0x7ffff) ≡ p = omega (arith, bit_and-mask 19 (v >>> 44)) in
    rw tag (λ i. slab (record {
      class = class i;
      free_head = slot_from_raw (head i);
      in_use = used i;
      next_partial = arena_index_from_raw (next i);
      prev_partial = arena_index_from_raw (prev i);
    }))

to_u64-buddy :
    (free : Bool) (order : ℕ) → order < 16 → to_u64 (buddy free order) ≡ bit free * 2 + order * 4
unfolding to_u64
to_u64-buddy true order h = field_at 2 4 2 order (omega arith) h (omega arith)
to_u64-buddy false order h = field_at 2 4 0 order (omega arith) h (omega arith)

from_u64-buddy :
    (free : Bool) (order : ℕ) → order < 16 → from_u64 (bit free * 2 + order * 4) ≡ buddy free order
unfolding from_u64
from_u64-buddy free order h =
    let v : ℕ = bit free * 2 + order * 4 in
    let tag : (bit_and v 1 /= 0) ≡ false = ground (arith, bit_and-mask 1 v) in
    let flag : (bit_and v 2 /= 0) ≡ free = ground (arith, bit_and-bit 1 v) in
    let field : u8 (bit_and (v >>> 2) 15) ≡ order = ground (arith, bit_and-mask 4 (v >>> 2)) in
    rw tag (ap₂ buddy flag field)

-- The word of an entry whose fields fit decodes to that entry.
pub from_u64-to_u64 : (e : Entry) → IsEntry e → from_u64 (to_u64 e) ≡ e
from_u64-to_u64 (buddy free order) h =
    ap from_u64 (to_u64-buddy free order h) ∙ from_u64-buddy free order h
from_u64-to_u64 (slab s) h =
    ap from_u64 (to_u64-slab s h)
    ∙ from_u64-slab_word s.class (slot_to_raw s.free_head) s.in_use
        (arena_index_to_raw s.next_partial) (arena_index_to_raw s.prev_partial) h.class
        (slot_to_raw-lt s.free_head h.free_head) h.in_use
        (arena_index_to_raw-lt s.next_partial h.next_partial)
        (arena_index_to_raw-lt s.prev_partial h.prev_partial)
    ∙ λ i. slab (record s {
      free_head = slot_from_raw-to_raw s.free_head h.free_head i;
      next_partial = arena_index_from_raw-to_raw s.next_partial h.next_partial i;
      prev_partial = arena_index_from_raw-to_raw s.prev_partial h.prev_partial i;
    })

pub to_u64-lt : (e : Entry) → IsEntry e → to_u64 e < 2 ^ 64
unfolding slab_word
to_u64-lt (buddy free order) h = ground (arith, to_u64-buddy free order h)
to_u64-lt (slab s) h = omega (
  arith,
  to_u64-slab s h,
  h.class,
  h.in_use,
  slot_to_raw-lt s.free_head h.free_head,
  arena_index_to_raw-lt s.next_partial h.next_partial,
  arena_index_to_raw-lt s.prev_partial h.prev_partial,
)
