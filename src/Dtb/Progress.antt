-- ===== src/Dtb/Progress.antt =====
-- src/platform/dtb: each token moves the cursor on, so the loops over nodes and properties end.
use zheos.Common.{
  ℕ, ◌+◌, ◌^◌, ◌<◌, ◌≡◌, refl, ap, ◌∙◌, ◌||◌, arith, ◌==◌, length, Bool-cases, inl, inr,
}
use zheos.Dtb.Cursor.{Cursor, cstring, align_u32, done}
use zheos.Dtb.Structure.{
  Node, Nodes, Pass, yields, again, ends, pass, on_token, begin_node, skip_property, past_property,
  token_begin_node, token_prop, token_end_node, token_noop, token_end,
}
use zheos.Dtb.Within.{
  Ahead, Within, Gives, bytes-Within, read_u32-Within, cstring-Within, aligned-Ahead, Within-small,
  Within-trans,
}

skip_property-Ahead :
    (c : Cursor) → length c.blob < 2 ^ 63 → Gives (λ c'. Ahead c c') (skip_property c)
unfolding skip_property
skip_property-Ahead c small = elim (read_u32-Within c small) [
  | inl e ↦ inl (rw (skip_property, e) refl)
  | inr ((len, c1), e, (w1, four)) ↦ elim (read_u32-Within c1 (Within-small c c1 small w1.same)) [
    | inl f ↦ inl (rw (skip_property, e) (rw f refl))
    | inr ((at, c2), f, (w2, _)) ↦ elim (bytes-Within c2 len) [
      | inl g ↦ inl (rw (skip_property, e) (rw f (rw g refl)))
      | inr ((value, c3), g, w3) ↦ inr (
        align_u32 c3,
        rw (skip_property, e) (rw f (rw g refl)),
        (let w = Within-trans (Within-trans w1 w2) w3 in
            aligned-Ahead c c3 small (omega (arith, four, w2.le, w3.le)) w.same w.bound),
      )
    ]
  ]
]

-- What a pass of the loop of `Nodes::next` does with the cursor.
pub data Moves (n : Nodes) : Pass → Type 0 where
  stops : Moves n ends
  skips : {n' : Nodes} → Ahead n.cursor n'.cursor → Moves n (again n')
  enters :
      {node : Node} {n' : Nodes}
      → Ahead n.cursor n'.cursor
      → node.properties.cursor.blob ≡ n.cursor.blob
      → Moves n (yields node n')

Ahead-trans : {a b c : Cursor} → Within a b → a.offset + 4 ≡ b.offset → Ahead b c → Ahead a c
Ahead-trans w four a = record {
  same = a.same ∙ w.same;
  less = omega (arith, a.less, four);
  bound = omega (arith, a.bound, ap (λ bs. length bs) w.same);
}

four-Ahead : {a b : Cursor} → Within a b → a.offset + 4 ≡ b.offset → Ahead a b
four-Ahead w four = record {
  same = w.same;
  less = omega (arith, four);
  bound = omega (arith, w.bound);
}

-- Behind a token at `c`, read from `n`.
module _ (n : Nodes) (c : Cursor) (small : length n.cursor.blob < 2 ^ 63) (w : Within n.cursor c)
    (four : n.cursor.offset + 4 ≡ c.offset) where
  begin_node-Moves : Moves n (begin_node (record n { cursor = c }) (cstring c))
  begin_node-Moves = elim (cstring-Within c (Within-small n.cursor c small w.same)) [
    | inl e ↦ rw e stops
    | inr ((name, c'), e, w') ↦
        let v = Within-trans w w' in
        let a = aligned-Ahead n.cursor c' small (omega (arith, four, w'.le)) v.same v.bound in
        rw e (enters a a.same)
  ]

  past_property-Moves : Moves n (past_property (record n { cursor = c }) (skip_property c))
  past_property-Moves = elim (skip_property-Ahead c (Within-small n.cursor c small w.same)) [
    | inl e ↦ rw e stops
    | inr (c', e, a) ↦ rw e (skips (Ahead-trans w four a))
  ]

  on_token-Moves : (token : ℕ) → Moves n (on_token (record n { cursor = c }) token)
  unfolding on_token
  on_token-Moves token = elim (Bool-cases (token == token_begin_node)) [
    | inl e ↦ rw e begin_node-Moves
    | inr e ↦ elim (Bool-cases (token == token_prop)) [
      | inl f ↦ rw (e, f) past_property-Moves
      | inr f ↦ elim (Bool-cases (token == token_end_node)) [
        | inl g ↦ rw (e, f, g) (skips (four-Ahead w four))
        | inr g ↦ elim (Bool-cases (token == token_noop || token == token_end)) [
          | inl h ↦ rw (e, f, g) (rw h (skips (four-Ahead w four)))
          | inr h ↦ rw (e, f, g) (rw h stops)
        ]
      ]
    ]
  ]

pub pass-Moves : (n : Nodes) → length n.cursor.blob < 2 ^ 63 → Moves n (pass n)
unfolding pass
pass-Moves n small = elim (Bool-cases (done n.cursor)) [
  | inl e ↦ rw e stops
  | inr e ↦ elim (read_u32-Within n.cursor small) [
    | inl f ↦ rw (e, f) stops
    | inr ((token, c), f, (w, four)) ↦ rw (e, f) (on_token-Moves n c small w four token)
  ]
]
