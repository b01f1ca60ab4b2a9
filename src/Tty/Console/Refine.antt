-- ===== src/Tty/Console/Refine.antt =====
-- src/tty/console.rs: `read_line` gives the text that was typed.
use zheos.Common.{
  ℕ, ◌≤◌, ◌≡◌, refl, ap, ap₂, ◌∙◌, Bool, true, false, ◌||◌, some, List, [], ◌∷◌, ◌++◌, arith,
}
use zheos.Common.{leb, length, take}
use zheos.Tty.Input.{InputByte}
use zheos.Tty.Console.{
  ready, abandoned, newline, escape, from_byte, Reading, pass, mark_error, new_line, putc,
  read_from, read_line, prefix_or_empty,
}
use zheos.Tty.Console.Edit.{
  edit, any_error, in_order, AllGoOn, AllPrintable, Held-take, edit-le, edit-AllPrintable,
  in_order-AllPrintable, length-in_order,
}
use zheos.Tty.Console.Screen.{Shows}
use zheos.Tty.Console.Loop.{Reads, mark_error-Reads, read_from-edit, start-Reads}

-- The pass that ends the line.
read_from-newline :
    (r : Reading) (last : InputByte) (rest : List InputByte)
    → from_byte last.byte ≡ newline
    → read_from r (last ∷ rest)
      ≡ some (
        ready
            (prefix_or_empty (mark_error r last).buf (mark_error r last).i)
            (mark_error r last).device_error,
        putc (mark_error r last) new_line,
        rest,
      )
unfolding read_from pass
read_from-newline r last rest e = rw (e, read_from) refl

read_from-escape :
    (r : Reading) (last : InputByte) (rest : List InputByte)
    → from_byte last.byte ≡ escape
    → read_from r (last ∷ rest) ≡ some (abandoned, putc (mark_error r last) new_line, rest)
unfolding read_from pass
read_from-escape r last rest e = rw (e, read_from) refl

ready_line :
    {cap : ℕ} {text : List ℕ} {r : Reading}
    → Reads cap text r
    → prefix_or_empty r.buf r.i ≡ in_order text
ready_line {cap} {text} {r} h =
    let inside : leb r.i (length r.buf) ≡ true = ground (arith, h.index, h.size, h.fits) in
    rw inside (ap (λ n. take n r.buf) h.index ∙ Held-take r.buf text h.held)

-- Bytes that do not end the line and a carriage return or line feed behind them: `read_line` gives the
-- text that they edit, at most as long as the buffer, oldest byte first, and whether any byte came
-- with an error, and leaves the bytes behind. Before the line break that it puts last, the screen shows
-- the text.
pub read_line-edit :
    (buf : List ℕ) (ks : List InputByte) (last : InputByte) (rest : List InputByte)
    → AllGoOn ks
    → from_byte last.byte ≡ newline
    → (r : Reading) × (read_line buf (ks ++ (last ∷ rest))
        ≡ some (
          ready (in_order (edit (length buf) [] ks)) (any_error ks || last.error),
          putc r new_line,
          rest,
        ))
      × Shows r.echo (edit (length buf) [] ks)
unfolding read_line
read_line-edit buf ks last rest g e =
    let (next, run, reads, errors) =
      read_from-edit (length buf) [] (record { buf = buf; i = 0; device_error = false; echo = [] })
        ks g (start-Reads buf) in
    let (marked, error) = mark_error-Reads (length buf) (edit (length buf) [] ks) next last reads in
    (
      mark_error next last,
      run (last ∷ rest)
          ∙ read_from-newline next last rest e
          ∙ ap₂ (λ l b. some (ready l b, putc (mark_error next last) new_line, rest))
              (ready_line marked) (error ∙ ap (λ b. b || last.error) errors),
      marked.shows,
    )

-- Escape behind them abandons the line.
pub read_line-abandoned :
    (buf : List ℕ) (ks : List InputByte) (last : InputByte) (rest : List InputByte)
    → AllGoOn ks
    → from_byte last.byte ≡ escape
    → (r : Reading) × (read_line buf (ks ++ (last ∷ rest)) ≡ some (abandoned, r, rest))
unfolding read_line
read_line-abandoned buf ks last rest g e =
    let (next, run, _, _) =
      read_from-edit (length buf) [] (record { buf = buf; i = 0; device_error = false; echo = [] })
        ks g (start-Reads buf) in
    (putc (mark_error next last) new_line, run (last ∷ rest) ∙ read_from-escape next last rest e)

-- The line that `read_line` gives is no longer than the buffer, and all its bytes are printable.
pub read_line-bounds :
    (buf : List ℕ) (ks : List InputByte) (last : InputByte) (rest : List InputByte)
    → AllGoOn ks
    → from_byte last.byte ≡ newline
    → (line : List ℕ) × (device_error : Bool) × (r : Reading) × (read_line buf (ks ++ (last ∷ rest))
        ≡ some (ready line device_error, r, rest))
      × (length line ≤ length buf)
      × AllPrintable line
read_line-bounds buf ks last rest g e =
    let (r, run, _) = read_line-edit buf ks last rest g e in
    let text = edit (length buf) [] ks in
    (
      in_order text,
      any_error ks || last.error,
      putc r new_line,
      run,
      omega (arith, length-in_order text, edit-le (length buf) [] ks (omega arith)),
      in_order-AllPrintable text (edit-AllPrintable (length buf) [] ks tt),
    )
