-- ===== src/Mm/FreeLists/Tests.antt =====
-- Runs of src/mm/frames/lists.rs, and its theorems at them.
use zheos.Common.{ℕ, ◌≡◌, refl, none, some, [], ◌∷◌, arith, replicate, zero, suc}
use zheos.Mm.FreeLists.{
  FreeLists, empty, push, pop, unlink, head, addr_from_pfn, pfn_from_addr, encode, decode,
  read_links, write_links, set_prev, set_next,
}
use zheos.Mm.FreeLists.Lists.{Lists, replace, total}
use zheos.Mm.FreeLists.Refine.{Holds, IsOff, push-Holds}
use zheos.Mm.FreeLists.Unlink.{Popped, unlink-Holds, pop-Popped}

abbrev fresh : FreeLists
unfolding empty
fresh = empty (λ _. (0, 0))

abbrev no_blocks : Lists
no_blocks o = []

none_at :
    (o n : ℕ) → head (record { heads = replicate n none; pages = 0; words = λ _. (0, 0) }) o ≡ none
none_at o zero = refl
none_at zero (suc n) = refl
none_at (suc o) (suc n) = none_at o n

fresh-Holds : Holds fresh no_blocks
unfolding empty total
fresh-Holds = record {
  size = refl;
  front = λ o h. none_at o 11;
  chain = λ o h. tt;
  small = λ o h. tt;
  distinct = λ o h. tt;
  apart = λ o k h l ne. tt;
  counted = refl;
}

abbrev one : FreeLists
one = push fresh 8 3

one-Holds : Holds one (replace no_blocks 3 (8 ∷ []))
one-Holds = push-Holds 3 (omega arith) fresh-Holds 8 (omega arith) (λ o h. refl)

push-Holds_example : Holds one (replace no_blocks 3 (8 ∷ []))
push-Holds_example = push-Holds 3 (omega arith) fresh-Holds 8 (omega arith) (λ o h. refl)

sixteen-IsOff : IsOff 16 (replace no_blocks 3 (8 ∷ []))
sixteen-IsOff o h = ground arith

abbrev two : FreeLists
two = push one 16 3

two-Holds : Holds two (replace (replace no_blocks 3 (8 ∷ [])) 3 (16 ∷ 8 ∷ []))
two-Holds = push-Holds 3 (omega arith) one-Holds 16 (omega arith) sixteen-IsOff

unlink-Holds_example :
    Holds
      (unlink two 8 3)
      (replace (replace (replace no_blocks 3 (8 ∷ [])) 3 (16 ∷ 8 ∷ [])) 3 (16 ∷ []))
unlink-Holds_example = unlink-Holds 3 (omega arith) two-Holds 8 refl

pop-Popped_example :
    Popped (replace (replace no_blocks 3 (8 ∷ [])) 3 (16 ∷ 8 ∷ [])) 3 (16 ∷ 8 ∷ []) (pop two 3)
pop-Popped_example =
    pop-Popped two (replace (replace no_blocks 3 (8 ∷ [])) 3 (16 ∷ 8 ∷ [])) 3 (omega arith)
      two-Holds

head_unlinked : head (unlink two 16 3) 3 ≡ some 8
unfolding unlink push empty read_links write_links set_prev set_next encode decode addr_from_pfn
    pfn_from_addr
head_unlinked = refl
