-- ===== src/Mmu/RoundTrip.antt =====
-- src/arch/aarch64/mmu/descriptor.rs: a descriptor survives its word.
use zheos.Common.{
  ℕ, ◌*◌, ◌/◌, ◌%◌, ◌^◌, ◌<◌, ◌≡◌, refl, ap, ◌∙◌, Bool, true, false, arith, bit_and, ◌/=◌, ◌>>>◌,
  ◌==◌,
}
use native.Mathlib.Nat.{mod-eq_of_lt}
use zheos.Common.Bits.{bit_and-mask, bit_and-bit}
use zheos.Mmu.Descriptor.{
  Descriptor, Kind, invalid, block, table, AttrIndex, normal, device, other, AccessPermissions, Sh,
  bit, to_u64, from_u64, address_mask,
}
use zheos.Mmu.Descriptor.{
  kind_to_u64, kind_from_u64, attr_to_u64, attr_from_u64, access_to_u64, access_from_u64, sh_to_u64,
  sh_from_u64,
}
use zheos.Mmu.Descriptor.{
  kernel_read_write, all_read_write, kernel_read_only, all_read_only, non_shareable, reserved,
  outer_shareable, inner_shareable,
}
use zheos.Mmu.Word.{
  IsIndex, IsEncodable, word, masked_address, kind-lt, attr-lt, access-lt, sh-lt, bit-lt,
  to_u64-word,
}

kind_from_u64-of : (k : Kind) (v : ℕ) → bit_and v 3 ≡ kind_to_u64 k → kind_from_u64 v ≡ k
unfolding kind_from_u64
kind_from_u64-of invalid v e = rw e refl
kind_from_u64-of block v e = rw e refl
kind_from_u64-of table v e = rw e refl

attr_from_u64-of :
    (a : AttrIndex) (v : ℕ) → IsIndex a → bit_and (v >>> 2) 7 ≡ attr_to_u64 a → attr_from_u64 v ≡ a
unfolding attr_from_u64
attr_from_u64-of normal v h e = rw e refl
attr_from_u64-of device v h e = rw e refl
attr_from_u64-of (other n) v (low, high) e =
    let same : bit_and (v >>> 2) 7 ≡ n = omega (arith, e, bit_and-mask 3 n) in
    let not_normal : (n == 0) ≡ false = ground arith in
    let not_device : (n == 1) ≡ false = ground arith in
    rw (same, not_normal, not_device) (ap other (mod-eq_of_lt (omega arith)))

access_from_u64-of :
    (a : AccessPermissions) (v : ℕ) → bit_and (v >>> 6) 3 ≡ access_to_u64 a → access_from_u64 v ≡ a
unfolding access_from_u64
access_from_u64-of kernel_read_write v e = rw e refl
access_from_u64-of all_read_write v e = rw e refl
access_from_u64-of kernel_read_only v e = rw e refl
access_from_u64-of all_read_only v e = rw e refl

sh_from_u64-of : (s : Sh) (v : ℕ) → bit_and (v >>> 8) 3 ≡ sh_to_u64 s → sh_from_u64 v ≡ s
unfolding sh_from_u64
sh_from_u64-of non_shareable v e = rw e refl
sh_from_u64-of reserved v e = rw e refl
sh_from_u64-of outer_shareable v e = rw e refl
sh_from_u64-of inner_shareable v e = rw e refl

-- A flag reads back from its bit.
flag_from : (b : Bool) (k v : ℕ) → v / 2 ^ k % 2 ≡ bit b → 0 < 2 ^ k → (bit_and v (2 ^ k) /= 0) ≡ b
flag_from true k v e h =
    let one : bit_and v (2 ^ k) ≡ 2 ^ k =
      bit_and-bit k v ∙ ap (λ (t : ℕ). t * 2 ^ k) e ∙ omega arith in
    ground (arith, one)
flag_from false k v e h =
    let none_set : bit_and v (2 ^ k) ≡ 0 =
      bit_and-bit k v ∙ ap (λ (t : ℕ). t * 2 ^ k) e ∙ omega arith in
    ground (arith, none_set)

-- A descriptor whose memory type and address fit their fields decodes from its word.
pub from_u64-to_u64_descriptor : (d : Descriptor) → IsEncodable d → from_u64 (to_u64 d) ≡ d
unfolding from_u64 word
from_u64-to_u64_descriptor d h =
    let k = kind-lt d.kind in
    let at = attr-lt d.attr_idx in
    let ns = bit-lt d.ns in
    let p = access-lt d.ap in
    let sh = sh-lt d.sh in
    let af = bit-lt d.af in
    let ng = bit-lt d.ng in
    let c = bit-lt d.contig in
    let x = bit-lt d.pxn in
    let u = bit-lt d.uxn in
    let w = to_u64-word d in
    let v = to_u64 d in
    let kind = kind_from_u64-of d.kind v (omega (arith, w, bit_and-mask 2 v)) in
    let attr = attr_from_u64-of d.attr_idx v h.index (omega (arith, w, bit_and-mask 3 (v >>> 2))) in
    let access = access_from_u64-of d.ap v (omega (arith, w, bit_and-mask 2 (v >>> 6))) in
    let share = sh_from_u64-of d.sh v (omega (arith, w, bit_and-mask 2 (v >>> 8))) in
    let f5 = flag_from d.ns 5 v (omega (arith, w)) (omega arith) in
    let f10 = flag_from d.af 10 v (omega (arith, w)) (omega arith) in
    let f11 = flag_from d.ng 11 v (omega (arith, w)) (omega arith) in
    let f52 = flag_from d.contig 52 v (omega (arith, w)) (omega arith) in
    let f53 = flag_from d.pxn 53 v (omega (arith, w)) (omega arith) in
    let f54 = flag_from d.uxn 54 v (omega (arith, w)) (omega arith) in
    let at_page : bit_and v address_mask ≡ d.address =
      masked_address v ∙ omega (arith, w, h.page, h.width) in
    λ i. record {
      kind = kind i;
      attr_idx = attr i;
      ns = f5 i;
      ap = access i;
      sh = share i;
      af = f10 i;
      ng = f11 i;
      address = at_page i;
      contig = f52 i;
      pxn = f53 i;
      uxn = f54 i;
    }
