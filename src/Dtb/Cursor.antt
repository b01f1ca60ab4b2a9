-- ===== src/Dtb/Cursor.antt =====
-- src/platform/dtb/cursor.rs: a place in a slice of bytes.
use zheos.Common.{ℕ, zero, suc, ◌+◌, ◌-◌, ◌*◌, ◌^◌, Bool, ◌&&◌, Option, none, some, List, [], ◌∷◌}
use zheos.Common.{ltb, leb, if◌then◌else◌, add64, bit_and, u32, length, take, drop}

pub record Cursor : Type 0 where
  pub blob : List ℕ
  pub offset : ℕ

abbrev pub u32_size : ℕ
u32_size = 4

-- `bytes.get(start..end)` and `bytes.get(start..)`.
unfoldable pub slice : List ℕ → ℕ → ℕ → Option (List ℕ)
slice bytes start end =
    if leb start end && leb end (length bytes)
    then some (take (end - start) (drop start bytes))
    else none

unfoldable pub rest_from : List ℕ → ℕ → Option (List ℕ)
rest_from bytes start = if leb start (length bytes) then some (drop start bytes) else none

-- `u32::from_be_bytes`
abbrev pub be_from : ℕ → List ℕ → ℕ
be_from acc [] = acc
be_from acc (b ∷ bs) = be_from (acc * 256 + b) bs

abbrev pub from_be_bytes : List ℕ → ℕ
from_be_bytes bytes = u32 (be_from 0 bytes)

abbrev pub new : List ℕ → ℕ → Cursor
new blob offset = record { blob = blob; offset = offset }

unfoldable pub bytes : Cursor → ℕ → Option (List ℕ × Cursor)
bytes c size = elim (slice c.blob c.offset (add64 c.offset size)) [
  | none ↦ none
  | some bs ↦ some (bs, record c { offset = add64 c.offset size })
]

unfoldable pub read_u32 : Cursor → Option (ℕ × Cursor)
read_u32 c = elim (slice c.blob c.offset (add64 c.offset u32_size)) [
  | none ↦ none
  | some bs ↦ some (from_be_bytes bs, record c { offset = add64 c.offset u32_size })
]

-- `position(|&byte| byte == 0)`
abbrev pub zero_at : List ℕ → Option ℕ
zero_at [] = none
zero_at (b ∷ bs) = elim b [
  | zero ↦ some 0
  | suc _ ↦ elim (zero_at bs) [ none ↦ none | some n ↦ some (suc n) ]
]

unfoldable pub cstring : Cursor → Option (List ℕ × Cursor)
cstring c = elim (rest_from c.blob c.offset) [
  | none ↦ none
  | some bs ↦ elim (zero_at bs) [
    | none ↦ none
    | some len ↦ some (take len bs, record c { offset = add64 c.offset (len + 1) })
  ]
]

unfoldable pub done : Cursor → Bool
done c = ltb (length c.blob) (add64 c.offset u32_size)

-- `(self.offset + 3) & !3`
unfoldable pub align_u32 : Cursor → Cursor
align_u32 c = record c { offset = bit_and (add64 c.offset 3) (2 ^ 64 - 4) }
