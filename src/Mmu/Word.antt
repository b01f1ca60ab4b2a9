-- ===== src/Mmu/Word.antt =====
-- src/arch/aarch64/mmu/descriptor.rs: no two fields of a descriptor overlap: its word is a sum.
use zheos.Common.{
  ℕ, ◌+◌, ◌-◌, ◌*◌, ◌/◌, ◌%◌, ◌^◌, ◌<◌, ◌≡◌, refl, ap, ◌∙◌, Bool, true, false, arith, bit_and,
  bit_or, ◌<<<◌,
}
use native.Mathlib.Nat.{mod-eq_of_lt}
use zheos.Common.Bits.{bit_and-mask, bit_or-high, bit_and-shifted}
use zheos.Mmu.Descriptor.{
  Descriptor, Kind, invalid, block, table, AttrIndex, normal, device, other, AccessPermissions, Sh,
  bit, to_u64, address_mask,
}
use zheos.Mmu.Descriptor.{kind_to_u64, attr_to_u64, access_to_u64, sh_to_u64}
use zheos.Mmu.Descriptor.{
  kernel_read_write, all_read_write, kernel_read_only, all_read_only, non_shareable, reserved,
  outer_shareable, inner_shareable,
}

-- The values that the fields of a word can hold: an index of a memory type that the enum does not
-- name otherwise, and the address of a page below 2 ^ 48.
abbrev pub IsIndex : AttrIndex → Type 0
IsIndex (other n) = (1 < n) × (n < 8)
IsIndex normal = Unit {0}
IsIndex device = Unit {0}

pub record IsEncodable (d : Descriptor) : Type 0 where
  pub index : IsIndex d.attr_idx
  pub page : d.address % 4096 ≡ 0
  pub width : d.address < 2 ^ 48

-- A field at bit `k` of a word that holds less below it.
field_at : (k low f : ℕ) → low < 2 ^ k → f * 2 ^ k < 2 ^ 64 → bit_or low (f <<< k) ≡ low + f * 2 ^ k
field_at k low f h room = ap (bit_or low) (mod-eq_of_lt room) ∙ bit_or-high k low f h

pub masked_address : (a : ℕ) → bit_and a address_mask ≡ a / 2 ^ 12 % 2 ^ 36 * 2 ^ 12
masked_address a =
    bit_and-shifted 12 a (2 ^ 36 - 1) ∙ ap (λ (t : ℕ). t * 2 ^ 12) (bit_and-mask 36 (a / 2 ^ 12))

unfoldable pub word : (k at ns p sh af ng page c x u : ℕ) → ℕ
word k at ns p sh af ng page c x u =
    k
    + at * 2 ^ 2
    + ns * 2 ^ 5
    + p * 2 ^ 6
    + sh * 2 ^ 8
    + af * 2 ^ 10
    + ng * 2 ^ 11
    + page * 2 ^ 12
    + c * 2 ^ 52
    + x * 2 ^ 53
    + u * 2 ^ 54

pub kind-lt : (k : Kind) → kind_to_u64 k < 4
kind-lt invalid = omega arith
kind-lt block = omega arith
kind-lt table = omega arith

pub attr-lt : (a : AttrIndex) → attr_to_u64 a < 8
attr-lt normal = omega arith
attr-lt device = omega arith
attr-lt (other n) = omega (arith, bit_and-mask 3 n)

pub access-lt : (a : AccessPermissions) → access_to_u64 a < 4
access-lt kernel_read_write = omega arith
access-lt all_read_write = omega arith
access-lt kernel_read_only = omega arith
access-lt all_read_only = omega arith

pub sh-lt : (s : Sh) → sh_to_u64 s < 4
sh-lt non_shareable = omega arith
sh-lt reserved = omega arith
sh-lt outer_shareable = omega arith
sh-lt inner_shareable = omega arith

pub bit-lt : (b : Bool) → bit b < 2
bit-lt true = omega arith
bit-lt false = omega arith

-- The word has each field at its bits.
pub to_u64-word :
    (d : Descriptor)
    → to_u64 d
      ≡ word
          (kind_to_u64 d.kind)
          (attr_to_u64 d.attr_idx)
          (bit d.ns)
          (access_to_u64 d.ap)
          (sh_to_u64 d.sh)
          (bit d.af)
          (bit d.ng)
          (d.address / 2 ^ 12 % 2 ^ 36)
          (bit d.contig)
          (bit d.pxn)
          (bit d.uxn)
unfolding to_u64 word
to_u64-word d =
    let k = kind_to_u64 d.kind in
    let at = attr_to_u64 d.attr_idx in
    let p = access_to_u64 d.ap in
    let sh = sh_to_u64 d.sh in
    let page : ℕ = d.address / 2 ^ 12 % 2 ^ 36 in
    let k' = kind-lt d.kind in
    let at' = attr-lt d.attr_idx in
    let ns' = bit-lt d.ns in
    let p' = access-lt d.ap in
    let sh' = sh-lt d.sh in
    let af' = bit-lt d.af in
    let ng' = bit-lt d.ng in
    let c' = bit-lt d.contig in
    let x' = bit-lt d.pxn in
    let u' = bit-lt d.uxn in
    let e1 = field_at 2 k at (omega arith) (omega arith) in
    let w1 : ℕ = k + at * 2 ^ 2 in
    let e2 = field_at 5 w1 (bit d.ns) (omega arith) (omega arith) in
    let w2 : ℕ = w1 + bit d.ns * 2 ^ 5 in
    let e3 = field_at 6 w2 p (omega arith) (omega arith) in
    let w3 : ℕ = w2 + p * 2 ^ 6 in
    let e4 = field_at 8 w3 sh (omega arith) (omega arith) in
    let w4 : ℕ = w3 + sh * 2 ^ 8 in
    let e5 = field_at 10 w4 (bit d.af) (omega arith) (omega arith) in
    let w5 : ℕ = w4 + bit d.af * 2 ^ 10 in
    let e6 = field_at 11 w5 (bit d.ng) (omega arith) (omega arith) in
    let w6 : ℕ = w5 + bit d.ng * 2 ^ 11 in
    let e7 = ap (bit_or w6) (masked_address d.address) ∙ bit_or-high 12 w6 page (omega arith) in
    let w7 : ℕ = w6 + page * 2 ^ 12 in
    let e8 = field_at 52 w7 (bit d.contig) (omega arith) (omega arith) in
    let w8 : ℕ = w7 + bit d.contig * 2 ^ 52 in
    let e9 = field_at 53 w8 (bit d.pxn) (omega arith) (omega arith) in
    let w9 : ℕ = w8 + bit d.pxn * 2 ^ 53 in
    let e10 = field_at 54 w9 (bit d.uxn) (omega arith) (omega arith) in
    rw (e1, e2, e3, e4, e5, e6, e7, e8, e9, e10) refl
