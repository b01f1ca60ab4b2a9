-- ===== src/Tty/Console/Edit.antt =====
-- src/tty/console.rs: what typing on a line means, as an edit of a text with its newest byte first.
use zheos.Common.{
  ℕ, ◌≤◌, ◌≡◌, refl, ap, ◌∙◌, Bool, true, false, ◌||◌, some, List, [], ◌∷◌, ◌++◌, arith,
}
use zheos.Common.{
  zero, suc, ltb, if◌then◌else◌, length, take, length-append, get_elem?, Bool-cases, inl, inr,
}
use mathlib.Core.Option.{some-injective, none-ne-some}
use zheos.Tty.Input.{InputByte}
use zheos.Tty.Console.{InputChar, char, backspace, newline, escape, non_printable, from_byte}

abbrev pub erased : List ℕ → List ℕ
erased [] = []
erased (c ∷ text) = text

-- A text of at most `cap` bytes behind one character.
abbrev pub typed : ℕ → List ℕ → InputChar → List ℕ
typed cap text (char c) = if ltb (length text) cap then c ∷ text else text
typed cap text backspace = erased text
typed cap text newline = text
typed cap text escape = text
typed cap text non_printable = text

unfoldable pub edit : ℕ → List ℕ → List InputByte → List ℕ
edit cap text [] = text
edit cap text (k ∷ ks) = edit cap (typed cap text (from_byte k.byte)) ks

abbrev pub any_error : List InputByte → Bool
any_error [] = false
any_error (k ∷ ks) = k.error || any_error ks

abbrev pub in_order : List ℕ → List ℕ
in_order [] = []
in_order (c ∷ text) = in_order text ++ (c ∷ [])

abbrev pub goes_on : InputChar → Bool
goes_on newline = false
goes_on escape = false
goes_on _ = true

-- None of the bytes ends the line.
abbrev pub AllGoOn : List InputByte → Type 0
AllGoOn [] = Unit {0}
AllGoOn (k ∷ ks) = (goes_on (from_byte k.byte) ≡ true) × AllGoOn ks

abbrev pub AllPrintable : List ℕ → Type 0
AllPrintable [] = Unit {0}
AllPrintable (c ∷ cs) = (0x20 ≤ c) × (c ≤ 0x7e) × AllPrintable cs

-- The text stands in the buffer, its oldest byte at index 0.
abbrev pub Held : List ℕ → List ℕ → Type 0
Held buf [] = Unit {0}
Held buf (c ∷ text) = (get_elem? buf (length text) ≡ some c) × Held buf text

take-snoc :
    (buf : List ℕ) (n c : ℕ) → get_elem? buf n ≡ some c → take (suc n) buf ≡ take n buf ++ (c ∷ [])
take-snoc [] n c h = absurd (none-ne-some c h)
take-snoc (b ∷ bs) zero c h = ap (λ x. x ∷ []) (some-injective b c h)
take-snoc (b ∷ bs) (suc n) c h = ap (λ xs. b ∷ xs) (take-snoc bs n c h)

pub Held-take : (buf text : List ℕ) → Held buf text → take (length text) buf ≡ in_order text
Held-take buf [] h = refl
Held-take buf (c ∷ text) (here, h) =
    take-snoc buf (length text) c here ∙ ap (λ xs. xs ++ (c ∷ [])) (Held-take buf text h)

pub from_byte-char : (byte c : ℕ) → from_byte byte ≡ char c → (byte ≡ c) × (0x20 ≤ c) × (c ≤ 0x7e)
unfolding from_byte
from_byte-char byte c h = ground arith

typed-le :
    (cap : ℕ) (text : List ℕ) (c : InputChar) → length text ≤ cap → length (typed cap text c) ≤ cap
typed-le cap text (char c) h = ground arith
typed-le cap [] backspace h = h
typed-le cap (c ∷ text) backspace h = omega arith
typed-le cap text newline h = h
typed-le cap text escape h = h
typed-le cap text non_printable h = h

pub edit-le :
    (cap : ℕ) (text : List ℕ) (ks : List InputByte)
    → length text ≤ cap
    → length (edit cap text ks) ≤ cap
unfolding edit
edit-le cap text [] h = h
edit-le cap text (k ∷ ks) h =
    edit-le cap (typed cap text (from_byte k.byte)) ks (typed-le cap text (from_byte k.byte) h)

erased-AllPrintable : (text : List ℕ) → AllPrintable text → AllPrintable (erased text)
erased-AllPrintable [] h = tt
erased-AllPrintable (c ∷ text) h = h.2

typed-AllPrintable :
    (cap : ℕ) (text : List ℕ) (byte : ℕ) (k : InputChar)
    → from_byte byte ≡ k
    → AllPrintable text
    → AllPrintable (typed cap text k)
typed-AllPrintable cap text byte (char c) e h = elim (Bool-cases (ltb (length text) cap)) [
  | inl f ↦ let (_, low, high) = from_byte-char byte c e in rw f (low, high, h)
  | inr f ↦ rw f h
]
typed-AllPrintable cap text byte backspace e h = erased-AllPrintable text h
typed-AllPrintable cap text byte newline e h = h
typed-AllPrintable cap text byte escape e h = h
typed-AllPrintable cap text byte non_printable e h = h

pub edit-AllPrintable :
    (cap : ℕ) (text : List ℕ) (ks : List InputByte)
    → AllPrintable text
    → AllPrintable (edit cap text ks)
unfolding edit
edit-AllPrintable cap text [] h = h
edit-AllPrintable cap text (k ∷ ks) h =
    edit-AllPrintable cap (typed cap text (from_byte k.byte)) ks
      (typed-AllPrintable cap text k.byte (from_byte k.byte) refl h)

append-AllPrintable : (xs ys : List ℕ) → AllPrintable xs → AllPrintable ys → AllPrintable (xs ++ ys)
append-AllPrintable [] ys h g = g
append-AllPrintable (x ∷ xs) ys (a, b, h) g = (a, b, append-AllPrintable xs ys h g)

pub in_order-AllPrintable : (text : List ℕ) → AllPrintable text → AllPrintable (in_order text)
in_order-AllPrintable [] h = tt
in_order-AllPrintable (c ∷ text) (a, b, h) =
    append-AllPrintable (in_order text) (c ∷ []) (in_order-AllPrintable text h) (a, b, tt)

pub length-in_order : (text : List ℕ) → length (in_order text) ≡ length text
length-in_order [] = refl
length-in_order (c ∷ text) =
    omega (arith, length-append (in_order text) (c ∷ []), length-in_order text)
