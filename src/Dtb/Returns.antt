-- ===== src/Dtb/Returns.antt =====
-- src/platform: every search of the device tree ends within the fuel of its loops.
use zheos.Common.{
  ℕ, zero, suc, ◌+◌, ◌-◌, ◌^◌, ◌<◌, ◌≡◌, refl, ap, ◌∙◌, sym, subst, Option, none, some, List, arith,
  ◌==◌, length, Bool-cases, inl, inr, ◌⊎◌,
}
use zheos.Dtb.Search.{Search, found, missing, ◌>>=◌, lift}
use zheos.Dtb.Cursor.{Cursor, read_u32, bytes, align_u32, done}
use zheos.Dtb.Structure.{
  Node, Nodes, Pass, yields, again, ends, Properties, Property, pass, next, next_property,
  read_property, find_property, property, fuel_of, same_bytes, token_prop, string_at,
}
use zheos.Dtb.Within.{
  Ahead, Within, Gives, read_u32-Within, bytes-Within, aligned-Ahead, Within-small, Within-trans,
}
use zheos.Dtb.Progress.{Moves, stops, skips, enters, pass-Moves}

-- A search that ends, with a result that has the property.
abbrev pub Ends {ℓ} : {A : Type ℓ} → (A → Type 0) → Search A → Type ℓ
Ends {A = A} P s = (s ≡ missing) ⊎ ((a : A) × (s ≡ found a) × P a)

module _ {A B : Type 0} {P : A → Type 0} {Q : B → Type 0} where
  pub Ends-bind :
      (s : Search A) (f : A → Search B)
      → Ends P s
      → ((a : A) → P a → Ends Q (f a))
      → Ends Q (s >>= f)
  Ends-bind s f (inl e) g = inl (rw e refl)
  Ends-bind s f (inr (a, e, p)) g = subst (Ends Q) (sym (ap (λ t. t >>= f) e)) (g a p)

pub Ends-lift : {A : Type 0} (o : Option A) → Ends (λ _. Unit {0}) (lift o)
Ends-lift none = inl refl
Ends-lift (some a) = inr (a, refl, tt)

pub Gives-lift : {A : Type 0} {P : A → Type 0} (o : Option A) → Gives P o → Ends P (lift o)
Gives-lift o (inl e) = inl (ap lift e)
Gives-lift o (inr (a, e, p)) = inr (a, ap lift e, p)

-- How far a cursor is from the last place that `Ahead` allows, and one more.
abbrev pub left : Cursor → ℕ
left c = length c.blob + 4 - c.offset

pub Ahead-left : {c c' : Cursor} → Ahead c c' → left c' < left c
Ahead-left a = omega (arith, a.less, a.bound, ap (λ bs. length bs) a.same)

-- What `Nodes::next` gives: a node over the same block, and nodes that are ahead.
abbrev pub Found : Nodes → Node × Nodes → Type 0
Found n r = (r.0.properties.cursor.blob ≡ n.cursor.blob) × Ahead n.cursor r.1.cursor

Ahead-then : {a b c : Cursor} → Ahead a b → Ahead b c → Ahead a c
Ahead-then v w = record {
  same = w.same ∙ v.same;
  less = omega (arith, v.less, w.less);
  bound = omega (arith, w.bound, ap (λ bs. length bs) v.same);
}

by_pass :
    (fuel : ℕ) (n : Nodes) (p : Pass)
    → pass n ≡ p
    → Moves n p
    → ((n' : Nodes) → Ahead n.cursor n'.cursor → Ends (Found n') (next fuel n'))
    → Ends (Found n) (next (suc fuel) n)
unfolding next
by_pass fuel n ends e stops go = inl (rw (next, e) refl)
by_pass fuel n (again n') e (skips a) go = elim (go n' a) [
  | inl f ↦ inl (rw (next, e) f)
  | inr (r, f, (same, b)) ↦ inr (r, rw (next, e) f, (same ∙ a.same, Ahead-then a b))
]
by_pass fuel n (yields node n') e (enters a same) go =
    inr ((node, n'), rw (next, e) refl, (same, a))

next-Ends :
    (fuel : ℕ) (n : Nodes)
    → length n.cursor.blob < 2 ^ 63
    → left n.cursor < fuel
    → Ends (Found n) (next fuel n)
next-Ends zero n small enough = absurd (omega arith)
next-Ends (suc fuel) n small enough = by_pass fuel n (pass n) refl (pass-Moves n small) (λ n' a.
    next-Ends fuel n' (Within-small n.cursor n'.cursor small a.same)
      (omega (arith, Ahead-left a, enough)))

-- `Nodes::next` ends with the fuel that its callers give.
pub next-returns :
    (n : Nodes) → length n.cursor.blob < 2 ^ 63 → Ends (Found n) (next (fuel_of n.cursor) n)
next-returns n small = next-Ends (fuel_of n.cursor) n small (omega arith)

-- A property that was read leaves the cursor ahead.
abbrev Read : Cursor → Property × Properties → Type 0
Read c r = Ahead c r.1.cursor

read_property-Ends :
    (p : Properties) (c c0 : Cursor)
    → length c0.blob < 2 ^ 63
    → Within c0 c
    → c0.offset < c.offset
    → Ends (Read c0) (read_property p c)
unfolding read_property
read_property-Ends p c c0 small w less =
    Ends-bind (lift (read_u32 c)) _
      (Gives-lift (read_u32 c) (read_u32-Within c (Within-small c0 c small w.same)))
      (λ len (w1, _).
        let v = Within-trans w w1 in
        Ends-bind (lift (read_u32 len.1)) _
          (Gives-lift (read_u32 len.1) (read_u32-Within len.1 (Within-small c0 len.1 small v.same)))
          (λ at (w2, _).
            Ends-bind (lift (string_at p.strings at.0)) _ (Ends-lift (string_at p.strings at.0))
              (λ name _.
                Ends-bind (lift (bytes at.1 len.0)) _
                  (Gives-lift (bytes at.1 len.0) (bytes-Within at.1 len.0))
                  (λ value w3.
                    let u = Within-trans (Within-trans v w2) w3 in
                    inr (
                      (
                        record { name = name; value = value.0 },
                        record p { cursor = align_u32 value.1 },
                      ),
                      refl,
                      aligned-Ahead c0 value.1 small (omega (arith, less, w1.le, w2.le, w3.le))
                          u.same u.bound,
                    )))))

next_property-Ends :
    (p : Properties) → length p.cursor.blob < 2 ^ 63 → Ends (Read p.cursor) (next_property p)
unfolding next_property
next_property-Ends p small = elim (Bool-cases (done p.cursor)) [
  | inl e ↦ inl (rw e refl)
  | inr e ↦
      let token_Ends = Gives-lift (read_u32 p.cursor) (read_u32-Within p.cursor small) in
      rw e (
        Ends-bind (lift (read_u32 p.cursor)) _ token_Ends (λ token (w, four).
          elim (Bool-cases (token.0 == token_prop)) [
            | inl f ↦ rw f (read_property-Ends p token.1 p.cursor small w (omega (arith, four)))
            | inr f ↦ inl (rw f refl)
          ]))
]

find_property-Ends :
    (fuel : ℕ) (p : Properties) (name : List ℕ)
    → length p.cursor.blob < 2 ^ 63
    → left p.cursor < fuel
    → Ends (λ _. Unit {0}) (find_property fuel p name)
unfolding find_property
find_property-Ends zero p name small enough = absurd (omega arith)
find_property-Ends (suc fuel) p name small enough = elim (next_property-Ends p small) [
  | inl e ↦ inl (rw (find_property, e) refl)
  | inr (r, e, a) ↦ elim (Bool-cases (same_bytes r.0.name name)) [
    | inl f ↦ inr (r.0, rw (find_property, e) (rw f refl), tt)
    | inr f ↦
        elim (find_property-Ends fuel r.1 name (Within-small p.cursor r.1.cursor small a.same)
          (omega (arith, Ahead-left a, enough))) [
            | inl g ↦ inl (rw (find_property, e) (rw f g))
            | inr (q, g, _) ↦ inr (q, rw (find_property, e) (rw f g), tt)
          ]
  ]
]

-- A node over a block that is not too long.
abbrev pub IsSmall : Node → Type 0
IsSmall node = length node.properties.cursor.blob < 2 ^ 63

pub property-Ends :
    (node : Node) (name : List ℕ) → IsSmall node → Ends (λ _. Unit {0}) (property node name)
unfolding property
property-Ends node name small =
    find_property-Ends (fuel_of node.properties.cursor) node.properties name small (omega arith)
