-- ===== src/Tty/Console/Loop.antt =====
-- src/tty/console.rs: a pass of the loop of `read_line` edits the text that stands in the buffer and on
-- the screen.
use zheos.Common.{
  ℕ, ◌+◌, ◌-◌, ◌≤◌, ◌≡◌, ◌≢◌, refl, ap, ◌∙◌, sym, Bool, true, false, ◌||◌, List, [], ◌∷◌, ◌++◌,
  arith,
}
use zheos.Common.{
  ltb, length, set, get_elem?, get_elem?-set_self, get_elem?-set_ne, length-set, Bool-cases, inl,
  inr,
}
use zheos.Tty.Input.{InputByte}
use zheos.Tty.Console.{
  InputChar, char, backspace, newline, escape, non_printable, from_byte, Reading, continue, on_char,
  pass, mark_error, putc, erase_sequence, read_from,
}
use zheos.Tty.Console.Edit.{typed, edit, any_error, goes_on, AllGoOn, Held, from_byte-char}
use zheos.Tty.Console.Screen.{Shows, Shows-char, Shows-erase}

-- The text is what the loop holds, in a buffer of `cap` bytes, and what the screen shows.
pub record Reads (cap : ℕ) (text : List ℕ) (r : Reading) : Type 0 where
  pub index : r.i ≡ length text
  pub size : length r.buf ≡ cap
  pub fits : length text ≤ cap
  pub held : Held r.buf text
  pub shows : Shows r.echo text

Held-set : (buf text : List ℕ) (i c : ℕ) → length text ≤ i → Held buf text → Held (set buf i c) text
Held-set buf [] i c h held = tt
Held-set buf (b ∷ text) i c h (here, held) =
    let ne : i ≢ length text = omega arith in
    (get_elem?-set_ne buf c ne ∙ here, Held-set buf text i c (omega arith) held)

-- A pass on a character that does not end the line edits the text.
on_char-typed :
    (cap : ℕ) (text : List ℕ) (r : Reading) (byte : ℕ) (k : InputChar)
    → from_byte byte ≡ k
    → goes_on k ≡ true
    → Reads cap text r
    → (next : Reading) × (on_char r k ≡ continue next)
      × Reads cap (typed cap text k) next
      × (next.device_error ≡ r.device_error)
on_char-typed cap text r byte newline e g h = absurd (ground arith)
on_char-typed cap text r byte escape e g h = absurd (ground arith)
on_char-typed cap text r byte non_printable e g h = (r, refl, h, refl)
on_char-typed cap [] r byte backspace e g h =
    let none_left : ltb 0 r.i ≡ false = ground (arith, h.index) in (r, rw none_left refl, h, refl)
on_char-typed cap (c ∷ text) r byte backspace e g h =
    let some_left : ltb 0 r.i ≡ true = ground (arith, h.index) in
    (
      putc (record r { i = r.i - 1 }) erase_sequence,
      rw some_left refl,
      record {
        index = omega (arith, h.index);
        size = h.size;
        fits = omega (arith, h.fits);
        held = h.held.1;
        shows = Shows-erase r.echo text c h.shows;
      },
      refl,
    )
on_char-typed cap text r byte (char c) e g h = elim (Bool-cases (ltb (length text) cap)) [
  | inl room ↦
      let (_, low, high) = from_byte-char byte c e in
      let index : r.i ≡ length text = h.index in
      let test : ltb r.i (length r.buf) ≡ true = rw (h.index, h.size) room in
      (
        putc (record r { buf = set r.buf r.i c; i = r.i + 1 }) (c ∷ []),
        rw test refl,
        rw room (record {
          index = omega (arith, h.index);
          size = length-set r.buf r.i c ∙ h.size;
          fits = ground arith;
          held = (
            ap (get_elem? (set r.buf r.i c)) (sym index)
                ∙ get_elem?-set_self r.buf r.i c (ground (arith, test)),
            Held-set r.buf text r.i c (omega (arith, h.index)) h.held,
          );
          shows = Shows-char r.echo text c low h.shows;
        }),
        refl,
      )
  | inr full ↦
      let test : ltb r.i (length r.buf) ≡ false = rw (h.index, h.size) full in
      (r, rw test refl, rw full h, refl)
]

or-true : (b : Bool) → true ≡ (b || true)
or-true true = refl
or-true false = refl

or-false : (b : Bool) → b ≡ (b || false)
or-false true = refl
or-false false = refl

or_assoc : (a b c : Bool) → ((a || b) || c) ≡ (a || (b || c))
or_assoc true b c = refl
or_assoc false b c = refl

pub mark_error-Reads :
    (cap : ℕ) (text : List ℕ) (r : Reading) (c : InputByte)
    → Reads cap text r
    → Reads cap text (mark_error r c)
      × ((mark_error r c).device_error ≡ (r.device_error || c.error))
mark_error-Reads cap text r c h = elim (Bool-cases c.error) [
  | inl e ↦ rw e (
    record { index = h.index; size = h.size; fits = h.fits; held = h.held; shows = h.shows },
    or-true r.device_error,
  )
  | inr e ↦ rw e (h, or-false r.device_error)
]

-- The loop on bytes that do not end the line comes to the edited text.
pub read_from-edit :
    (cap : ℕ) (text : List ℕ) (r : Reading) (ks : List InputByte)
    → AllGoOn ks
    → Reads cap text r
    → (next : Reading) × ((tail : List InputByte) → read_from r (ks ++ tail) ≡ read_from next tail)
      × Reads cap (edit cap text ks) next
      × (next.device_error ≡ (r.device_error || any_error ks))
unfolding edit read_from pass
read_from-edit cap text r [] g h = (r, λ tail. refl, h, or-false r.device_error)
read_from-edit cap text r (k ∷ ks) g h =
    let (marked, error) = mark_error-Reads cap text r k h in
    let (mid, step, reads, same) =
      on_char-typed cap text (mark_error r k) k.byte (from_byte k.byte) refl g.0 marked in
    let (next, rest, done, errors) =
      read_from-edit cap (typed cap text (from_byte k.byte)) mid ks g.1 reads in
    (
      next,
      λ tail. rw (step, read_from) (rest tail),
      done,
      errors
          ∙ ap (λ b. b || any_error ks) (same ∙ error)
          ∙ or_assoc r.device_error k.error (any_error ks),
    )

pub start-Reads :
    (buf : List ℕ)
    → Reads (length buf) [] (record { buf = buf; i = 0; device_error = false; echo = [] })
start-Reads buf = record {
  index = refl;
  size = refl;
  fits = omega arith;
  held = tt;
  shows = record { before = refl; after = tt };
}
