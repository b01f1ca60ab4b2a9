-- ===== src/Dtb/Lookups.antt =====
-- src/platform: the lookups on a node and the search for one end.
use zheos.Common.{
  ℕ, zero, suc, ◌-◌, ◌^◌, ◌<◌, ◌≤◌, ◌≡◌, refl, Bool, true, false, ◌&&◌, Option, none, some, List,
  [], ◌∷◌, arith, ◌==◌, mul64, add64, length, take, drop, leb, Bool-cases, Option-cases, inl, inr,
  ◌⊎◌,
}
use zheos.Dtb.Names.{
  device_type, compatible_name, reg_name, interrupts_name, address_cells_name, size_cells_name,
}
use zheos.Dtb.Search.{Search, found, lift, ◌>>=◌}
use zheos.Dtb.Cursor
use zheos.Dtb.Cursor.{Cursor, slice, rest_from, read_u32}
use zheos.Dtb.Structure
use zheos.Dtb.Structure.{
  next, Node, Nodes, Property, is_found_and, is_memory, is_compatible, same_bytes, property, region,
  interrupt, read_cells, cells_of, cells, fuel_of, split_zero, any_entry,
}
use zheos.Dtb.Blob.{
  Dtb, u32_at, off_dt_struct_offset, size_dt_struct_offset, nodes, root_cells, find_node, find,
  find_memory, find_compatible, root_child_depth,
}
use zheos.Dtb.Board.{intid, number_of, spi, ppi}
use zheos.Dtb.Within.{Within-small, length-drop}
use zheos.Dtb.Returns.{
  Ends, Ends-bind, Ends-lift, IsSmall, property-Ends, next-returns, left, Ahead-left,
}

-- A search that ends, whatever it finds.
abbrev pub Over {ℓ} : {A : Type ℓ} → Search A → Type ℓ
Over {A = A} s = Ends (λ _. Unit {0}) s

found-Over : {A : Type 0} (a : A) → Over (found a)
found-Over a = inr (a, refl, tt)

lift-Over :
    {A B : Type 0} (o : Option A) (f : A → Search B) → ((a : A) → Over (f a)) → Over (lift o >>= f)
lift-Over o f h = Ends-bind (lift o) f (Ends-lift o) (λ a _. h a)

pub region-Over :
    (node : Node) (index : ℕ) (cells : ℕ × ℕ) → IsSmall node → Over (region node index cells)
unfolding region
region-Over node index cells small =
    Ends-bind (property node reg_name) _ (property-Ends node reg_name small) (λ reg _.
      lift-Over (rest_from reg.value (mul64 (mul64 index (add64 cells.0 cells.1)) 4)) _ (λ entry.
        lift-Over (read_cells entry cells.0) _ (λ base.
          lift-Over (rest_from entry (mul64 cells.0 4)) _
            (λ behind. lift-Over (read_cells behind cells.1) _ (λ size. found-Over _)))))

interrupt-Over : (node : Node) (index : ℕ) → IsSmall node → Over (interrupt node index)
unfolding interrupt
interrupt-Over node index small =
    Ends-bind (property node interrupts_name) _ (property-Ends node interrupts_name small)
      (λ interrupts _. lift-Over (rest_from interrupts.value (mul64 (mul64 index 3) 4)) _ (λ entry.
        lift-Over (read_u32 (Cursor.new entry 0)) _
          (λ kind. lift-Over (read_u32 kind.1) _ (λ number. found-Over _))))

number_of-Over : (r : ℕ × ℕ) → Over (number_of r)
number_of-Over (kind, number) = elim (Bool-cases (kind == spi)) [
  | inl e ↦ rw e (found-Over _)
  | inr e ↦ elim (Bool-cases (kind == ppi)) [
    | inl f ↦ rw (e, f) (found-Over _)
    | inr f ↦ rw (e, f) (inl refl)
  ]
]

pub intid-Over : (node : Node) (index : ℕ) → IsSmall node → Over (intid node index)
unfolding intid
intid-Over node index small = elim (interrupt-Over node index small) [
  | inl e ↦ inl (rw (intid, e) refl)
  | inr (r, e, _) ↦ elim (number_of-Over r) [
    | inl f ↦ inl (rw (intid, e) f)
    | inr (n, f, _) ↦ inr (n, rw (intid, e) f, tt)
  ]
]

cells_of-Over :
    (node : Node) (name : List ℕ) (default : ℕ) → IsSmall node → Over (cells_of node name default)
unfolding cells_of
cells_of-Over node name default small = elim (property-Ends node name small) [
  | inl e ↦ inr (default, rw (cells_of, e) refl, tt)
  | inr (p, e, _) ↦ elim (Option-cases (read_u32 (Cursor.new p.value 0))) [
    | inl f ↦ inr (default, rw (cells_of, e) (rw f refl), tt)
    | inr (r, f) ↦ inr (r.0, rw (cells_of, e) (rw f refl), tt)
  ]
]

pub cells-Over : (node : Node) → IsSmall node → Over (cells node)
unfolding cells
cells-Over node small =
    Ends-bind (cells_of node address_cells_name 2) _ (cells_of-Over node address_cells_name 2 small)
      (λ address _.
        Ends-bind (cells_of node size_cells_name 1) _ (cells_of-Over node size_cells_name 1 small)
          (λ size _. found-Over _))

-- A predicate that answers on every node of a block that is not too long.
abbrev pub Answers : (Node → Search Bool) → Type 0
Answers predicate = (node : Node) → IsSmall node → (b : Bool) × (predicate node ≡ found b)

is_found_and-answers :
    (s : Search Property) (f : Property → Bool) → Over s → (b : Bool) × (is_found_and s f ≡ found b)
is_found_and-answers s f (inl e) = (false, rw e refl)
is_found_and-answers s f (inr (p, e, _)) = (f p, rw e refl)

pub is_memory-Answers : Answers is_memory
unfolding is_memory
is_memory-Answers node small =
    is_found_and-answers (property node device_type) _ (property-Ends node device_type small)

pub is_compatible-Answers : (compatible : List ℕ) → Answers (λ node. is_compatible node compatible)
unfolding is_compatible
is_compatible-Answers compatible node small =
    is_found_and-answers (property node compatible_name) _
      (property-Ends node compatible_name small)

-- Either answer of the predicate.
either :
    (b : Bool) (node : Node) (rest : Search Node)
    → IsSmall node
    → Ends IsSmall rest
    → Ends IsSmall (elim b [ true ↦ found node | false ↦ rest ])
either true node rest small h = inr (node, refl, small)
either false node rest small h = h

pub find_node-Ends :
    (fuel : ℕ) (predicate : Node → Search Bool) (ns : Nodes)
    → Answers predicate
    → length ns.cursor.blob < 2 ^ 63
    → left ns.cursor < fuel
    → Ends IsSmall (find_node fuel predicate ns)
unfolding find_node
find_node-Ends zero predicate ns answers small enough = absurd (omega arith)
find_node-Ends (suc fuel) predicate ns answers small enough =
    Ends-bind (next (fuel_of ns.cursor) ns) _ (next-returns ns small) (λ r (same, a).
      let node_small : IsSmall r.0 = Within-small ns.cursor r.0.properties.cursor small same in
      let rest =
        find_node-Ends fuel predicate r.1 answers (Within-small ns.cursor r.1.cursor small a.same)
          (omega (arith, Ahead-left a, enough)) in
      elim (Bool-cases (r.0.depth == root_child_depth)) [
        | inr e ↦ rw e rest
        | inl e ↦ let (b, f) = answers r.0 node_small in rw (e, f) (either b r.0 _ node_small rest)
      ])

length-take : (n : ℕ) (bs : List ℕ) → length (take n bs) ≤ length bs
length-take zero bs = omega arith
length-take (suc n) [] = omega arith
length-take (suc n) (b ∷ bs) = omega (arith, length-take n bs)

slice-small :
    (bs : List ℕ) (a b : ℕ)
    → length bs < 2 ^ 63
    → (slice bs a b ≡ none) ⊎ ((x : List ℕ) × (slice bs a b ≡ some x) × (length x < 2 ^ 63))
unfolding slice
slice-small bs a b small = elim (Bool-cases (leb a b && leb b (length bs))) [
  | inr e ↦ inl (rw e refl)
  | inl e ↦ inr (
    take (b - a) (drop a bs),
    rw e refl,
    omega (arith, length-take (b - a) (drop a bs), length-drop a bs, small),
  )
]

nodes-Ends :
    (dtb : Dtb)
    → length dtb.blob < 2 ^ 63
    → Ends (λ ns. length ns.cursor.blob < 2 ^ 63) (lift (nodes dtb))
unfolding nodes
nodes-Ends dtb small =
    let start = u32_at dtb.header off_dt_struct_offset in
    elim (slice-small dtb.blob start (add64 start (u32_at dtb.header size_dt_struct_offset))
      small) [
        | inl e ↦ inl (rw (nodes, e) refl)
        | inr (x, e, less) ↦ inr (Structure.new x dtb.strings, rw (nodes, e) refl, less)
      ]

pub root_cells-Over : (dtb : Dtb) → length dtb.blob < 2 ^ 63 → Over (root_cells dtb)
unfolding root_cells
root_cells-Over dtb small = Ends-bind (lift (nodes dtb)) _ (nodes-Ends dtb small) (λ ns less.
    Ends-bind (next (fuel_of ns.cursor) ns) _ (next-returns ns less) (λ root (same, _).
      cells-Over root.0 (Within-small ns.cursor root.0.properties.cursor less same)))

find-Ends :
    (dtb : Dtb) (predicate : Node → Search Bool)
    → length dtb.blob < 2 ^ 63
    → Answers predicate
    → Ends IsSmall (find dtb predicate)
unfolding find
find-Ends dtb predicate small answers =
    Ends-bind (lift (nodes dtb)) _ (nodes-Ends dtb small)
      (λ ns less. find_node-Ends (fuel_of ns.cursor) predicate ns answers less (omega arith))

pub find_memory-Ends : (dtb : Dtb) → length dtb.blob < 2 ^ 63 → Ends IsSmall (find_memory dtb)
unfolding find_memory
find_memory-Ends dtb small = find-Ends dtb is_memory small is_memory-Answers

pub find_compatible-Ends :
    (dtb : Dtb) (compatible : List ℕ)
    → length dtb.blob < 2 ^ 63
    → Ends IsSmall (find_compatible dtb compatible)
unfolding find_compatible
find_compatible-Ends dtb compatible small =
    find-Ends dtb (λ node. is_compatible node compatible) small (is_compatible-Answers compatible)
