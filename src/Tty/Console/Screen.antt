-- ===== src/Tty/Console/Screen.antt =====
-- What a terminal shows of the bytes that src/tty/console.rs puts: a line as the cells left of the
-- cursor, nearest first, and those right of it.
use zheos.Common.{ℕ, ◌≤◌, ◌≡◌, refl, ap, ◌∙◌, sym, subst, false, List, [], ◌∷◌, ◌++◌, arith}
use zheos.Common.{◌==◌, if◌then◌else◌}

pub record Screen : Type 0 where
  pub before : List ℕ
  pub after : List ℕ

abbrev pub blank_screen : Screen
blank_screen = record { before = []; after = [] }

abbrev pub behind : List ℕ → List ℕ
behind [] = []
behind (c ∷ cs) = cs

-- A backspace moves the cursor and erases nothing.
abbrev pub left_of : List ℕ → List ℕ → Screen
left_of [] after = record { before = []; after = after }
left_of (c ∷ before) after = record { before = before; after = c ∷ after }

abbrev pub show_byte : Screen → ℕ → Screen
show_byte s c =
    if c == 0x08
    then left_of s.before s.after
    else record { before = c ∷ s.before; after = behind s.after }

abbrev pub show : Screen → List ℕ → Screen
show s [] = s
show s (c ∷ cs) = show (show_byte s c) cs

abbrev pub AllBlank : List ℕ → Type 0
AllBlank [] = Unit {0}
AllBlank (c ∷ cs) = (c ≡ 0x20) × AllBlank cs

-- The line shows the text, newest byte nearest to the cursor, and nothing behind it.
pub record Shows (echo text : List ℕ) : Type 0 where
  pub before : (show blank_screen echo).before ≡ text
  pub after : AllBlank (show blank_screen echo).after

pub show-append : (s : Screen) (xs ys : List ℕ) → show s (xs ++ ys) ≡ show (show s xs) ys
show-append s [] ys = refl
show-append s (x ∷ xs) ys = show-append (show_byte s x) xs ys

behind-AllBlank : (cs : List ℕ) → AllBlank cs → AllBlank (behind cs)
behind-AllBlank [] h = tt
behind-AllBlank (c ∷ cs) h = h.1

-- A printable byte extends the text, and the erase sequence takes its newest byte away.
pub Shows-char :
    (echo text : List ℕ) (c : ℕ) → 0x20 ≤ c → Shows echo text → Shows (echo ++ (c ∷ [])) (c ∷ text)
Shows-char echo text c low s =
    let other : (c == 0x08) ≡ false = ground arith in
    let e : show blank_screen (echo ++ (c ∷ [])) ≡ record {
      before = c ∷ (show blank_screen echo).before;
      after = behind (show blank_screen echo).after;
    } =
      show-append blank_screen echo (c ∷ []) ∙ rw other refl in
    record {
      before = ap (λ t. t.before) e ∙ ap (λ cs. c ∷ cs) s.before;
      after =
          subst (λ t. AllBlank t.after) (sym e)
            (behind-AllBlank (show blank_screen echo).after s.after);
    }

erased_screen :
    (s : Screen) (c : ℕ) (text : List ℕ)
    → s.before ≡ c ∷ text
    → show s (0x08 ∷ 0x20 ∷ 0x08 ∷ []) ≡ record { before = text; after = 0x20 ∷ s.after }
erased_screen s c text e =
    let at : List ℕ → Screen = λ b. record {
      before = (left_of b s.after).before;
      after = 0x20 ∷ behind (left_of b s.after).after;
    } in
    ap at e

pub Shows-erase :
    (echo text : List ℕ) (c : ℕ)
    → Shows echo (c ∷ text)
    → Shows (echo ++ (0x08 ∷ 0x20 ∷ 0x08 ∷ [])) text
Shows-erase echo text c s =
    let e =
      show-append blank_screen echo (0x08 ∷ 0x20 ∷ 0x08 ∷ [])
      ∙ erased_screen (show blank_screen echo) c text s.before in
    record {
      before = ap (λ t. t.before) e;
      after = subst (λ t. AllBlank t.after) (sym e) (refl, s.after);
    }
