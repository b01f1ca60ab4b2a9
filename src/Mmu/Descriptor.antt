-- ===== src/Mmu/Descriptor.antt =====
-- src/arch/aarch64/mmu/descriptor.rs: a descriptor and its 64-bit word.
use zheos.Common.{
  ℕ, Bool, true, false, ◌==◌, ◌/=◌, if◌then◌else◌, bit_and, bit_or, ◌<<<◌, ◌>>>◌, u8,
}
use zheos.Mmu.Level.{Level, level1, level2, level3}

abbrev pub address_mask : ℕ
address_mask = 0x0000fffffffff000

pub data Kind : Type 0 where
  invalid : Kind
  block : Kind
  table : Kind

abbrev pub kind_from_level : Level → Kind
kind_from_level level1 = block
kind_from_level level2 = block
kind_from_level level3 = table

unfoldable pub kind_from_u64 : ℕ → Kind
kind_from_u64 value =
    let bits = bit_and value 3 in
    if bits == 1 then block else (if bits == 3 then table else invalid)

abbrev pub kind_to_u64 : Kind → ℕ
kind_to_u64 invalid = 0
kind_to_u64 block = 1
kind_to_u64 table = 3

pub data AttrIndex : Type 0 where
  normal : AttrIndex
  device : AttrIndex
  other : ℕ → AttrIndex

unfoldable pub attr_from_u64 : ℕ → AttrIndex
attr_from_u64 value =
    let bits = bit_and (value >>> 2) 7 in
    if bits == 0 then normal else (if bits == 1 then device else other (u8 bits))

abbrev pub attr_to_u64 : AttrIndex → ℕ
attr_to_u64 normal = 0
attr_to_u64 device = 1
attr_to_u64 (other n) = bit_and n 7

pub data AccessPermissions : Type 0 where
  kernel_read_write : AccessPermissions
  all_read_write : AccessPermissions
  kernel_read_only : AccessPermissions
  all_read_only : AccessPermissions

unfoldable pub access_from_u64 : ℕ → AccessPermissions
access_from_u64 value =
    let bits = bit_and (value >>> 6) 3 in
    if bits == 0
    then kernel_read_write
    else (if bits == 1
        then all_read_write
        else (if bits == 2 then kernel_read_only else all_read_only))

abbrev pub access_to_u64 : AccessPermissions → ℕ
access_to_u64 kernel_read_write = 0
access_to_u64 all_read_write = 1
access_to_u64 kernel_read_only = 2
access_to_u64 all_read_only = 3

pub data Sh : Type 0 where
  non_shareable : Sh
  reserved : Sh
  outer_shareable : Sh
  inner_shareable : Sh

unfoldable pub sh_from_u64 : ℕ → Sh
sh_from_u64 value =
    let bits = bit_and (value >>> 8) 3 in
    if bits == 0
    then non_shareable
    else (if bits == 1 then reserved else (if bits == 2 then outer_shareable else inner_shareable))

abbrev pub sh_to_u64 : Sh → ℕ
sh_to_u64 non_shareable = 0
sh_to_u64 reserved = 1
sh_to_u64 outer_shareable = 2
sh_to_u64 inner_shareable = 3

pub record Descriptor : Type 0 where
  pub kind : Kind
  pub attr_idx : AttrIndex
  pub ns : Bool
  pub ap : AccessPermissions
  pub sh : Sh
  pub af : Bool
  pub ng : Bool
  pub address : ℕ
  pub contig : Bool
  pub pxn : Bool
  pub uxn : Bool

abbrev pub bit : Bool → ℕ
bit true = 1
bit false = 0

unfoldable pub from_u64 : ℕ → Descriptor
unfolding kind_from_u64 attr_from_u64 access_from_u64 sh_from_u64
from_u64 value = record {
  kind = kind_from_u64 value;
  attr_idx = attr_from_u64 value;
  ns = bit_and value (1 <<< 5) /= 0;
  ap = access_from_u64 value;
  sh = sh_from_u64 value;
  af = bit_and value (1 <<< 10) /= 0;
  ng = bit_and value (1 <<< 11) /= 0;
  address = bit_and value address_mask;
  contig = bit_and value (1 <<< 52) /= 0;
  pxn = bit_and value (1 <<< 53) /= 0;
  uxn = bit_and value (1 <<< 54) /= 0;
}

-- `|` with operands of 64 bits, to the left as in the source.
infixl 40 ◌or◌
abbrev pub ◌or◌ : ℕ → ℕ → ℕ
a or b = bit_or a b

unfoldable pub to_u64 : Descriptor → ℕ
to_u64 d =
    kind_to_u64 d.kind
    or (attr_to_u64 d.attr_idx <<< 2)
    or (bit d.ns <<< 5)
    or (access_to_u64 d.ap <<< 6)
    or (sh_to_u64 d.sh <<< 8)
    or (bit d.af <<< 10)
    or (bit d.ng <<< 11)
    or bit_and d.address address_mask
    or (bit d.contig <<< 52)
    or (bit d.pxn <<< 53)
    or (bit d.uxn <<< 54)

-- The constants of the source.
abbrev pub device_block : Descriptor
device_block = record {
  kind = block;
  attr_idx = device;
  ns = false;
  ap = kernel_read_write;
  sh = non_shareable;
  af = true;
  ng = false;
  address = 0;
  contig = false;
  pxn = true;
  uxn = true;
}

abbrev pub normal_block : Descriptor
normal_block = record {
  kind = block;
  attr_idx = normal;
  ns = false;
  ap = kernel_read_write;
  sh = inner_shareable;
  af = true;
  ng = false;
  address = 0x40000000;
  contig = false;
  pxn = false;
  uxn = true;
}

abbrev pub executable : Descriptor
executable = record normal_block { ap = kernel_read_only }

abbrev pub read_only : Descriptor
read_only = record normal_block { ap = kernel_read_only; pxn = true }

abbrev pub writable : Descriptor
writable = record normal_block { pxn = true }
