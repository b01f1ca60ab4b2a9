-- ===== src/Zhemon/Cursor.antt =====
-- src/zhemon/cursor.rs: a place in the bytes of a line.
use zheos.Common.{
  ℕ, zero, suc, ◌+◌, ◌<◌, ◌≤◌, ◌^◌, ◌≡◌, refl, Option, none, some, List, arith, ◌==◌, if◌then◌else◌,
  Bool, false,
}
use zheos.Common.{length, get_elem?, add64, Option-cases, Bool-cases, inl, inr, ap, true, [], ◌∷◌}

pub record Cursor : Type 0 where
  pub bytes : List ℕ
  pub pos : ℕ

unfoldable pub new : List ℕ → Cursor
new bytes = record { bytes = bytes; pos = 0 }

abbrev pub peek : Cursor → Option ℕ
peek c = get_elem? c.bytes c.pos

abbrev pub peek_offset : Cursor → ℕ → Option ℕ
peek_offset c offset = get_elem? c.bytes (add64 c.pos offset)

abbrev pub is_space : Option ℕ → Bool
is_space none = false
is_space (some b) = b == b' '

-- The loop of `consume_spaces`, at most one round for each byte of the line.
unfoldable pub consume_from : ℕ → Cursor → Cursor
consume_from zero c = c
consume_from (suc fuel) c =
    let rest = consume_from fuel (record c { pos = add64 c.pos 1 }) in
    if is_space (peek c) then rest else c

unfoldable pub consume_spaces : Cursor → Cursor
unfolding consume_from
consume_spaces c = consume_from (length c.bytes) c

abbrev pub advance : Cursor → ℕ → Cursor
advance c amount = record c { pos = add64 c.pos amount }

abbrev pub set_pos : Cursor → ℕ → Cursor
set_pos c pos = record c { pos = pos }

-- The place lies in the line or at its end, and the line is shorter than the address space.
pub record IsValid (c : Cursor) : Type 0 where
  pub within : c.pos ≤ length c.bytes
  pub short : length c.bytes < 2 ^ 63

pub get_elem?-lt : (bs : List ℕ) (i : ℕ) {b : ℕ} → get_elem? bs i ≡ some b → i < length bs
get_elem?-lt [] i e = absurd (ground arith)
get_elem?-lt (x ∷ bs) zero e = omega arith
get_elem?-lt (x ∷ bs) (suc i) e = omega (arith, get_elem?-lt bs i e)

-- What `consume_spaces` leaves: the same line, no further back, and no space ahead.
pub record Consumed (c d : Cursor) : Type 0 where
  pub same : d.bytes ≡ c.bytes
  pub ahead : c.pos ≤ d.pos
  pub within : d.pos ≤ length c.bytes
  pub clear : is_space (peek d) ≡ false

peek_end : (bs : List ℕ) (i : ℕ) → length bs ≤ i → get_elem? bs i ≡ none
peek_end [] i h = refl
peek_end (x ∷ bs) zero h = absurd (omega arith)
peek_end (x ∷ bs) (suc i) h = peek_end bs i (omega arith)

space_inside : (bs : List ℕ) (i : ℕ) → is_space (get_elem? bs i) ≡ true → i < length bs
space_inside bs i h = elim (Option-cases (get_elem? bs i)) [
  | inl e ↦ absurd (ground arith)
  | inr (b, e) ↦ get_elem?-lt bs i e
]

consume_from-Consumed :
    (fuel : ℕ) (c : Cursor)
    → IsValid c
    → length c.bytes ≤ c.pos + fuel
    → Consumed c (consume_from fuel c)
unfolding consume_from
consume_from-Consumed zero c v h = record {
  same = refl;
  ahead = omega arith;
  within = v.within;
  clear = ap is_space (peek_end c.bytes c.pos (omega arith));
}
consume_from-Consumed (suc fuel) c v h = elim (Bool-cases (is_space (peek c))) [
  | inl e ↦
      let inside = space_inside c.bytes c.pos e in
      let up : add64 c.pos 1 ≡ c.pos + 1 = omega (arith, v.short, inside) in
      let d : Cursor = record c { pos = add64 c.pos 1 } in
      let r =
        consume_from-Consumed fuel d (record { within = omega arith; short = v.short })
          (omega arith) in
      rw e (record {
        same = r.same;
        ahead = omega (arith, r.ahead);
        within = r.within;
        clear = r.clear;
      })
  | inr e ↦ rw e (record { same = refl; ahead = omega arith; within = v.within; clear = e })
]

-- One round for each byte of the line is enough.
pub consume_spaces-Consumed : (c : Cursor) → IsValid c → Consumed c (consume_spaces c)
unfolding consume_spaces
consume_spaces-Consumed c v = consume_from-Consumed (length c.bytes) c v (omega arith)
