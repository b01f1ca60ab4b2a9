-- ===== src/Dtb/Blob.antt =====
-- src/platform/dtb/header.rs and src/platform/dtb/mod.rs: the blob at an address, by its header.
use zheos.Common.{ℕ, zero, suc, Bool, true, false, Option, none, some, List, [], ◌∷◌}
use zheos.Common.{ltb, ◌==◌, ◌/=◌, if◌then◌else◌, add64, u8, length, take, drop}
use zheos.Mm.Region.{Region}
use zheos.Dtb.Search.{Search, found, missing, unfinished, ◌>>=◌, lift}
use zheos.Dtb.Cursor.{slice, from_be_bytes}
use zheos.Dtb.Structure
use zheos.Dtb.Structure.{Strings, Node, Nodes, fuel_of}

abbrev pub magic_offset : ℕ
magic_offset = 0x00

abbrev pub total_size_offset : ℕ
total_size_offset = 0x04

abbrev pub off_dt_struct_offset : ℕ
off_dt_struct_offset = 0x08

abbrev pub off_dt_strings_offset : ℕ
off_dt_strings_offset = 0x0c

abbrev pub last_comp_version_offset : ℕ
last_comp_version_offset = 0x18

abbrev pub size_dt_strings_offset : ℕ
size_dt_strings_offset = 0x20

abbrev pub size_dt_struct_offset : ℕ
size_dt_struct_offset = 0x24

abbrev pub header_size : ℕ
header_size = 0x28

abbrev pub magic : ℕ
magic = 0xd00d_feed

abbrev pub supported_version : ℕ
supported_version = 17

abbrev pub root_child_depth : ℕ
root_child_depth = 1

-- The bytes of memory from an address on.
abbrev pub bytes_at : (ℕ → ℕ) → ℕ → ℕ → List ℕ
bytes_at memory base zero = []
bytes_at memory base (suc n) = u8 (memory base) ∷ bytes_at memory (add64 base 1) n

-- `Header` is its bytes.
abbrev pub Header : Type 0
Header = List ℕ

abbrev pub u32_at : Header → ℕ → ℕ
u32_at blob offset = from_be_bytes (take 4 (drop offset blob))

unfoldable pub header_at : (ℕ → ℕ) → ℕ → Option Header
header_at memory base =
    let blob = bytes_at memory base header_size in
    if u32_at blob magic_offset /= magic
    then none
    else (if ltb supported_version (u32_at blob last_comp_version_offset) then none else some blob)

pub record Dtb : Type 0 where
  pub base : ℕ
  pub blob : List ℕ
  pub header : Header
  pub strings : Strings

abbrev pub with_strings : ℕ → List ℕ → Header → Option (List ℕ) → Option Dtb
with_strings base blob header none = none
with_strings base blob header (some strings) =
    some (record { base = base; blob = blob; header = header; strings = strings })

unfoldable pub from_ptr : (ℕ → ℕ) → ℕ → Option Dtb
from_ptr memory base = elim (header_at memory base) [
  | none ↦ none
  | some header ↦
      let blob = bytes_at memory base (u32_at header total_size_offset) in
      let strings_start = u32_at header off_dt_strings_offset in
      let strings_end = add64 strings_start (u32_at header size_dt_strings_offset) in
      with_strings base blob header (slice blob strings_start strings_end)
]

abbrev pub region : Dtb → Region
region dtb = record { base = dtb.base; size = length dtb.blob }

unfoldable pub nodes : Dtb → Option Nodes
nodes dtb =
    let start = u32_at dtb.header off_dt_struct_offset in
    let end = add64 start (u32_at dtb.header size_dt_struct_offset) in
    elim (slice dtb.blob start end) [
      | none ↦ none
      | some struct_blob ↦ some (Structure.new struct_blob dtb.strings)
    ]

unfoldable pub root_cells : Dtb → Search (ℕ × ℕ)
root_cells dtb = do
  ns ← lift (nodes dtb)
  root ← Structure.next (fuel_of ns.cursor) ns
  Structure.cells root.0

-- `nodes()?.find(..)`: the first node that the predicate holds of; its end is that of the nodes.
unfoldable pub find_node : ℕ → (Node → Search Bool) → Nodes → Search Node
find_node zero predicate ns = unfinished
find_node (suc fuel) predicate ns = Structure.next (fuel_of ns.cursor) ns >>= λ r.
    if r.0.depth == root_child_depth
    then (elim (predicate r.0) [
      | found true ↦ found r.0
      | found false ↦ find_node fuel predicate r.1
      | missing ↦ missing
      | unfinished ↦ unfinished
    ])
    else find_node fuel predicate r.1

unfoldable pub find : Dtb → (Node → Search Bool) → Search Node
find dtb predicate = lift (nodes dtb) >>= λ ns. find_node (fuel_of ns.cursor) predicate ns

unfoldable pub find_compatible : Dtb → List ℕ → Search Node
find_compatible dtb compatible = find dtb (λ node. Structure.is_compatible node compatible)

unfoldable pub find_memory : Dtb → Search Node
find_memory dtb = find dtb Structure.is_memory
