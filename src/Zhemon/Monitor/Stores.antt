-- ===== src/Zhemon/Monitor/Stores.antt =====
-- src/zhemon/mod.rs: bytes stored one after the other, and bytes shown, stand at consecutive
-- addresses.
use zheos.Common.{
  ℕ, zero, suc, ◌+◌, ◌<◌, ◌≤◌, ◌^◌, ◌≡◌, refl, ap, ◌∙◌, some, true, false, List, [], ◌∷◌, ◌++◌, map,
  length, arith, inl, inr, Bool-cases, ◌==◌, ◌%◌, get_elem?, replicate,
}
use zheos.Zhemon.Parser.{store_continuing}
use zheos.Zhemon.Monitor.{
  Zhemon, Event, byte_value, put, new_line, gap, address_label, address_line, error_line,
  alignment_error, device_error_line, process_list,
}
use zheos.Common.{◌≢◌, add64, ◌-◌, sym, ltb}
use mathlib.Core.List.{append_assoc, append-nil}
use zheos.Zhemon.Monitor.{
  write_byte, dump_byte, dump, execute, handle_store_continuing, handle_examine_continuing,
}
use zheos.Zhemon.Monitor.Validated.{execute_all}

-- The bytes of memory from an address on.
abbrev pub memory_from : (ℕ → ℕ) → ℕ → ℕ → List ℕ
memory_from memory zero a = []
memory_from memory (suc n) a = memory a ∷ memory_from memory n (a + 1)

-- The bytes among what was printed.
abbrev pub bytes_shown : List Event → List ℕ
bytes_shown [] = []
bytes_shown (byte_value b ∷ es) = b ∷ bytes_shown es
bytes_shown (put _ ∷ es) = bytes_shown es
bytes_shown (new_line ∷ es) = bytes_shown es
bytes_shown (gap ∷ es) = bytes_shown es
bytes_shown (address_label _ ∷ es) = bytes_shown es
bytes_shown (address_line _ _ ∷ es) = bytes_shown es
bytes_shown (error_line _ ∷ es) = bytes_shown es
bytes_shown (alignment_error ∷ es) = bytes_shown es
bytes_shown (device_error_line ∷ es) = bytes_shown es
bytes_shown (process_list ∷ es) = bytes_shown es

gaps-show_none :
    (n : ℕ) (xs es : List Event)
    → bytes_shown ((replicate n gap ++ xs) ++ es) ≡ bytes_shown (xs ++ es)
gaps-show_none zero xs es = refl
gaps-show_none (suc n) xs es = gaps-show_none n xs es

dump_byte-shown :
    (memory : ℕ → ℕ) (start a : ℕ) (es : List Event)
    → bytes_shown (dump_byte memory start a ++ es) ≡ memory a ∷ bytes_shown es
dump_byte-shown memory start a es = elim (Bool-cases (a == start)) [
  | inl e ↦ elim (Bool-cases (a % 8 == 0)) [
    | inl f ↦ rw (e, f) refl
    | inr f ↦ rw (e, f) (gaps-show_none (a % 8) (byte_value (memory a) ∷ []) es)
  ]
  | inr e ↦ elim (Bool-cases (a % 8 == 0)) [ inl f ↦ rw (e, f) refl | inr f ↦ rw (e, f) refl ]
]

dump-shown :
    (n : ℕ) (memory : ℕ → ℕ) (start a : ℕ) (es : List Event)
    → bytes_shown (dump n memory start a ++ es) ≡ memory_from memory n a ++ bytes_shown es
unfolding dump
dump-shown zero memory start a es = refl
dump-shown (suc n) memory start a es =
    ap bytes_shown (append_assoc (dump_byte memory start a) (dump n memory start (a + 1)) es)
    ∙ dump_byte-shown memory start a (dump n memory start (a + 1) ++ es)
    ∙ ap (λ bs. memory a ∷ bs) (dump-shown n memory start (a + 1) es)

-- What the examination of the bytes from `next_address` to `end` leaves: `es` is printed, which shows
-- each of them once and in order, and no other.
pub record Examined (z : Zhemon) (end : ℕ) (y : Zhemon) : Type 0 where
  pub es : List Event
  pub printed : y.console ≡ z.console ++ es
  pub count : length (bytes_shown es) ≡ end + 1 - z.next_address
  pub shown :
      (a : ℕ)
      → z.next_address ≤ a
      → a ≤ end
      → get_elem? (bytes_shown es) (a - z.next_address) ≡ some (z.memory a)
  pub moved : (y.last_address ≡ end) × (y.next_address ≡ add64 end 1)
  pub kept : y.memory ≡ z.memory

length-memory_from :
    (memory : ℕ → ℕ) (n a : ℕ) (bs : List ℕ) → length (memory_from memory n a ++ bs) ≡ n + length bs
length-memory_from memory zero a bs = omega arith
length-memory_from memory (suc n) a bs = omega (arith, length-memory_from memory n (a + 1) bs)

get_elem?-memory_from :
    (memory : ℕ → ℕ) (n a i : ℕ) (bs : List ℕ)
    → i < n
    → get_elem? (memory_from memory n a ++ bs) i ≡ some (memory (a + i))
get_elem?-memory_from memory zero a i bs h = absurd (omega arith)
get_elem?-memory_from memory (suc n) a zero bs h = let at : a + 0 ≡ a = omega arith in rw at refl
get_elem?-memory_from memory (suc n) a (suc i) bs h =
    let at : a + 1 + i ≡ a + suc i = omega arith in
    get_elem?-memory_from memory n (a + 1) i bs (omega arith) ∙ ap (λ x. some (memory x)) at

-- The range of a command, both ends included, is shown.
pub examine-Examined : (z : Zhemon) (end : ℕ) → Examined z end (handle_examine_continuing z end)
unfolding handle_examine_continuing
examine-Examined z end = elim (Bool-cases (ltb end z.next_address)) [
  | inl above ↦
      rw (above, handle_examine_continuing)
        (record {
          es = [];
          printed = sym (append-nil z.console);
          count = ground arith;
          shown = λ a lo hi. absurd (ground arith);
          moved = (refl, refl);
          kept = refl;
        })
  | inr range ↦
      let n = end - z.next_address + 1 in
      let line = new_line ∷ [] in
      let all = dump-shown n z.memory z.next_address z.next_address line in
      let size = length-memory_from z.memory n z.next_address [] in
      rw (range, handle_examine_continuing)
        (record {
          es = dump n z.memory z.next_address z.next_address ++ line;
          printed = refl;
          count = ap (λ bs. length bs) all ∙ ground (arith, size);
          shown = λ a lo hi.
              ap (λ bs. get_elem? bs (a - z.next_address)) all
              ∙ get_elem?-memory_from z.memory n z.next_address (a - z.next_address) []
                  (ground arith)
              ∙ ap (λ x. some (z.memory x)) (omega arith);
          moved = (refl, refl);
          kept = refl;
        })
]

-- What storing bytes from `next_address` on leaves.
pub record Stored (z : Zhemon) (bs : List ℕ) (y : Zhemon) : Type 0 where
  pub moved : y.next_address ≡ z.next_address + length bs
  pub quiet : y.console ≡ z.console
  pub written : (i b : ℕ) → get_elem? bs i ≡ some b → y.memory (z.next_address + i) ≡ b
  pub below : (a : ℕ) → a < z.next_address → y.memory a ≡ z.memory a
  pub above : (a : ℕ) → z.next_address + length bs ≤ a → y.memory a ≡ z.memory a

write_byte-ne :
    (memory : ℕ → ℕ) (address byte a : ℕ)
    → a ≢ address
    → write_byte memory address byte a ≡ memory a
write_byte-ne memory address byte a h = let e : (a == address) ≡ false = ground arith in rw e refl

-- The first byte stays where it was written, and the others follow it.
written_at :
    (z : Zhemon) (b : ℕ) (bs : List ℕ) (y : Zhemon)
    → (handle_store_continuing z b).next_address ≡ z.next_address + 1
    → Stored (handle_store_continuing z b) bs y
    → (i c : ℕ) → get_elem? (b ∷ bs) i ≡ some c
    → y.memory (z.next_address + i) ≡ c
unfolding handle_store_continuing
written_at z b bs y up s zero c e =
    let at : z.next_address + 0 ≡ z.next_address = omega arith in
    let here : (z.next_address == z.next_address) ≡ true = ground arith in
    let byte : b ≡ c = ground arith in
    rw at (s.below z.next_address (omega (arith, up)) ∙ rw here byte)
written_at z b bs y up s (suc i) c e =
    let at : z.next_address + suc i ≡ add64 z.next_address 1 + i = omega (arith, up) in
    rw at (s.written i c e)

module _ (call : ℕ → Zhemon → Zhemon) where
  -- Commands that store bytes write them at consecutive addresses from `next_address`, which ends
  -- behind them, and touch no other address, when the addresses end below 2 ^ 64.
  pub execute_all-Stored :
      (z : Zhemon) (bs : List ℕ)
      → z.next_address + length bs < 2 ^ 64
      → Stored z bs (execute_all call z (map store_continuing bs))
  unfolding execute handle_store_continuing
  execute_all-Stored z [] h = record {
    moved = omega arith;
    quiet = refl;
    written = λ i b e. absurd (ground arith);
    below = λ a h'. refl;
    above = λ a h'. refl;
  }
  execute_all-Stored z (b ∷ bs) h =
      let y = handle_store_continuing z b in
      let up : y.next_address ≡ z.next_address + 1 = omega (arith, h) in
      let s = execute_all-Stored y bs (omega (arith, up, h)) in
      record {
        moved = omega (arith, s.moved, up);
        quiet = s.quiet;
        written = written_at z b bs (execute_all call y (map store_continuing bs)) up s;
        below = λ a l.
            s.below a (omega (arith, up, l))
            ∙ write_byte-ne z.memory z.next_address b a (omega (arith, l));
        above = λ a l.
            s.above a (omega (arith, up, l))
            ∙ write_byte-ne z.memory z.next_address b a (omega (arith, l));
      }
