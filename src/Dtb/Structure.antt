-- ===== src/Dtb/Structure.antt =====
-- src/platform/dtb/structure.rs: the nodes of the structure block in order, and their properties.
use zheos.Common.{
  ℕ, zero, suc, ◌+◌, ◌-◌, Bool, true, false, ◌&&◌, ◌||◌, Option, none, some, List, [], ◌∷◌,
}
use zheos.Common.{ltb, ◌==◌, if◌then◌else◌, add64, mul64, u32, bit_or, ◌<<<◌, length}
use zheos.Mm.Region.{Region}
use zheos.Dtb.Names.{
  device_type, memory_value, compatible_name, reg_name, interrupts_name, address_cells_name,
  size_cells_name,
}
use zheos.Dtb.Search.{Search, found, missing, unfinished, ◌>>=◌, lift}
use zheos.Dtb.Cursor
use zheos.Dtb.Cursor.{Cursor, rest_from}

abbrev pub token_begin_node : ℕ
token_begin_node = 0x01

abbrev pub token_end_node : ℕ
token_end_node = 0x02

abbrev pub token_prop : ℕ
token_prop = 0x03

abbrev pub token_noop : ℕ
token_noop = 0x04

abbrev pub token_end : ℕ
token_end = 0x09

-- `Strings` is the strings block.
abbrev pub Strings : Type 0
Strings = List ℕ

unfoldable pub string_at : Strings → ℕ → Option (List ℕ)
string_at strings offset = elim (Cursor.cstring (Cursor.new strings offset)) [
  | none ↦ none
  | some (name, _) ↦ some name
]

pub record Properties : Type 0 where
  pub cursor : Cursor
  pub strings : Strings

pub record Property : Type 0 where
  pub name : List ℕ
  pub value : List ℕ

pub record Node : Type 0 where
  pub depth : ℕ
  pub properties : Properties

pub record Nodes : Type 0 where
  pub cursor : Cursor
  pub strings : Strings
  pub depth : ℕ

abbrev pub new : List ℕ → Strings → Nodes
new blob strings = record { cursor = Cursor.new blob 0; strings = strings; depth = 0 }

-- What one pass of the loop of `Nodes::next` comes to.
pub data Pass : Type 0 where
  yields : Node → Nodes → Pass
  again : Nodes → Pass
  ends : Pass

abbrev pub begin_node : Nodes → Option (List ℕ × Cursor) → Pass
begin_node n none = ends
begin_node n (some (_, c)) =
    let cursor = Cursor.align_u32 c in
    yields
      (record { depth = n.depth; properties = record { cursor = cursor; strings = n.strings } })
      (record n { cursor = cursor; depth = u32 (n.depth + 1) })

-- The length of a property, the offset of its name, its value.
unfoldable pub skip_property : Cursor → Option Cursor
skip_property c = elim (Cursor.read_u32 c) [
  | none ↦ none
  | some (len, c) ↦ elim (Cursor.read_u32 c) [
    | none ↦ none
    | some (_, c) ↦ elim (Cursor.bytes c len) [
      | none ↦ none
      | some (_, c) ↦ some (Cursor.align_u32 c)
    ]
  ]
]

abbrev pub past_property : Nodes → Option Cursor → Pass
past_property n none = ends
past_property n (some c) = again (record n { cursor = c })

unfoldable pub on_token : Nodes → ℕ → Pass
on_token n token =
    if token == token_begin_node
    then begin_node n (Cursor.cstring n.cursor)
    else (if token == token_prop
        then past_property n (skip_property n.cursor)
        else (if token == token_end_node
            then again (record n { depth = n.depth - 1 })
            else (if token == token_noop || token == token_end then again n else ends)))

unfoldable pub pass : Nodes → Pass
pass n = if Cursor.done n.cursor then ends else (elim (Cursor.read_u32 n.cursor) [
  | none ↦ ends
  | some (token, c) ↦ on_token (record n { cursor = c }) token
])

unfoldable pub next : ℕ → Nodes → Search (Node × Nodes)
next zero n = unfinished
next (suc fuel) n = elim (pass n) [
  | yields node n' ↦ found (node, n')
  | again n' ↦ next fuel n'
  | ends ↦ missing
]

-- `Properties::next` behind the token.
unfoldable pub read_property : Properties → Cursor → Search (Property × Properties)
read_property p c = do
  len ← lift (Cursor.read_u32 c)
  name_offset ← lift (Cursor.read_u32 len.1)
  name ← lift (string_at p.strings name_offset.0)
  value ← lift (Cursor.bytes name_offset.1 len.0)
  found (record { name = name; value = value.0 }, record p { cursor = Cursor.align_u32 value.1 })

unfoldable pub next_property : Properties → Search (Property × Properties)
next_property p =
    if Cursor.done p.cursor
    then missing
    else (lift (Cursor.read_u32 p.cursor) >>= λ token.
        if token.0 == token_prop then read_property p token.1 else missing)

abbrev pub same_bytes : List ℕ → List ℕ → Bool
same_bytes [] [] = true
same_bytes (x ∷ xs) (y ∷ ys) = x == y && same_bytes xs ys
same_bytes _ _ = false

-- `properties.find(..)` on the name.
unfoldable pub find_property : ℕ → Properties → List ℕ → Search Property
find_property zero p name = unfinished
find_property (suc fuel) p name = elim (next_property p) [
  | found r ↦
      (let rest = find_property fuel r.1 name in
        if same_bytes r.0.name name then found r.0 else rest)
  | missing ↦ missing
  | unfinished ↦ unfinished
]

-- More than the rounds of a loop over the block.
abbrev pub fuel_of : Cursor → ℕ
fuel_of c = length c.blob + 8

unfoldable pub property : Node → List ℕ → Search Property
property node name = find_property (fuel_of node.properties.cursor) node.properties name

-- `is_some_and`
abbrev pub is_found_and : Search Property → (Property → Bool) → Search Bool
is_found_and (found p) f = found (f p)
is_found_and missing f = found false
is_found_and unfinished f = unfinished

unfoldable pub is_memory : Node → Search Bool
is_memory node = is_found_and (property node device_type) (λ p. same_bytes p.value memory_value)

-- `split(|&byte| byte == 0)`, with the bytes ahead put on its first entry.
abbrev pub onto_first : ℕ → List (List ℕ) → List (List ℕ)
onto_first b [] = (b ∷ []) ∷ []
onto_first b (entry ∷ entries) = (b ∷ entry) ∷ entries

abbrev pub split_zero : List ℕ → List (List ℕ)
split_zero [] = [] ∷ []
split_zero (zero ∷ bs) = [] ∷ split_zero bs
split_zero (suc b ∷ bs) = onto_first (suc b) (split_zero bs)

abbrev pub any_entry : List (List ℕ) → List ℕ → Bool
any_entry [] wanted = false
any_entry (entry ∷ entries) wanted = same_bytes entry wanted || any_entry entries wanted

unfoldable pub is_compatible : Node → List ℕ → Search Bool
is_compatible node compatible =
    is_found_and (property node compatible_name) (λ p. any_entry (split_zero p.value) compatible)

-- The loop of `read_cells`, with the cells that are left.
unfoldable pub cells_from : ℕ → ℕ → Cursor → Option ℕ
cells_from zero value c = some value
cells_from (suc left) value c = elim (Cursor.read_u32 c) [
  | none ↦ none
  | some r ↦ cells_from left (bit_or (value <<< 32) r.0) r.1
]

unfoldable pub read_cells : List ℕ → ℕ → Option ℕ
read_cells bytes cells = if ltb 2 cells then none else cells_from cells 0 (Cursor.new bytes 0)

unfoldable pub region : Node → ℕ → ℕ × ℕ → Search Region
region node index cells = do
  reg ← property node reg_name
  entry ← lift (rest_from reg.value (mul64 (mul64 index (add64 cells.0 cells.1)) 4))
  base ← lift (read_cells entry cells.0)
  behind ← lift (rest_from entry (mul64 cells.0 4))
  size ← lift (read_cells behind cells.1)
  found (record { base = base; size = size })

abbrev pub interrupt_cells : ℕ
interrupt_cells = 3

unfoldable pub interrupt : Node → ℕ → Search (ℕ × ℕ)
interrupt node index = do
  interrupts ← property node interrupts_name
  entry ← lift (rest_from interrupts.value (mul64 (mul64 index interrupt_cells) 4))
  kind ← lift (Cursor.read_u32 (Cursor.new entry 0))
  number ← lift (Cursor.read_u32 kind.1)
  found (kind.0, number.0)

-- `self.property(name).and_then(|property| property.as_u32()).unwrap_or(default)`
unfoldable pub cells_of : Node → List ℕ → ℕ → Search ℕ
cells_of node name default = elim (property node name) [
  | found p ↦ (elim (Cursor.read_u32 (Cursor.new p.value 0)) [
    | none ↦ found default
    | some r ↦ found r.0
  ])
  | missing ↦ found default
  | unfinished ↦ unfinished
]

unfoldable pub cells : Node → Search (ℕ × ℕ)
cells node = do
  address ← cells_of node address_cells_name 2
  size ← cells_of node size_cells_name 1
  found (address, size)
