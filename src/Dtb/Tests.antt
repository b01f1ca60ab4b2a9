-- ===== src/Dtb/Tests.antt =====
-- Runs of src/platform, and its theorems at them: a tree with an empty root.
use zheos.Common.{ℕ, ◌≡◌, refl, List, [], ◌∷◌, ◌++◌, get_or}
use zheos.Dtb.Cursor.{slice, rest_from, read_u32, bytes, cstring, align_u32, done}
use zheos.Dtb.Structure.{
  cells, cells_of, property, find_property, next_property, read_property, next, pass, on_token,
  skip_property, is_memory, string_at,
}
use zheos.Dtb.Blob.{Dtb, nodes, root_cells, find_memory, find, find_node}
use zheos.Dtb.Board.{err, memory_text, discover}

abbrev header : List ℕ
header =
    0xd0 ∷ 0x0d ∷ 0xfe ∷ 0xed ∷ 0 ∷ 0 ∷ 0 ∷ 56 ∷ 0 ∷ 0 ∷ 0 ∷ 40 ∷ 0 ∷ 0 ∷ 0 ∷ 56 ∷ 0 ∷ 0 ∷ 0 ∷ 0 ∷ 0
    ∷ 0 ∷ 0 ∷ 17 ∷ 0 ∷ 0 ∷ 0 ∷ 16 ∷ 0 ∷ 0 ∷ 0 ∷ 0 ∷ 0 ∷ 0 ∷ 0 ∷ 0 ∷ 0 ∷ 0 ∷ 0 ∷ 16 ∷ []

abbrev structure : List ℕ
structure = 0 ∷ 0 ∷ 0 ∷ 1 ∷ 0 ∷ 0 ∷ 0 ∷ 0 ∷ 0 ∷ 0 ∷ 0 ∷ 2 ∷ 0 ∷ 0 ∷ 0 ∷ 9 ∷ []

abbrev memory : ℕ → ℕ
memory a = get_or (header ++ structure) a 0

abbrev tree : Dtb
tree = record { base = 0; blob = header ++ structure; header = header; strings = [] }

no_memory : discover tree ≡ err memory_text
unfolding discover root_cells cells cells_of property find_property next_property next pass on_token
    nodes slice read_u32 bytes cstring rest_from align_u32 done find_memory find find_node is_memory
    skip_property read_property string_at
no_memory = refl
