-- ===== src/Mmu/Table/Ends.antt =====
-- src/arch/aarch64/mmu/mod.rs: what holds of a result, and what the code asks of the heap.
use zheos.Common.{ℕ, ◌+◌, ◌%◌, ◌^◌, ◌≤◌, ◌<◌, ◌≡◌, ◌≢◌, ◌⊎◌, some, none}
use zheos.Mmu.Level.{Level}
use zheos.Mmu.Descriptor.{Descriptor}
use zheos.Mmu.Table.{
  Words, Alloc, State, page_layout, Result, done, failed, stuck, bind, MapError, out_of_memory,
  unaligned, block_in_the_way, table_in_the_way,
}
use zheos.Mmu.Table.Full.{IsFound}
use zheos.Mmu.Table.Walk.{Place, Places, walk}

-- A result within the fuel: `P` of what is done, `E` of an error and the state behind it.
abbrev pub Ends : {S A : Type 0} → (A → S → Type 0) → (S → MapError → Type 0) → Result S A → Type 0
Ends P E (done a s) = P a s
Ends P E (failed e s) = E s e
Ends P E stuck = ⊥

pub Ends-bind :
    {S A B : Type 0} (P : A → S → Type 0) (Q : B → S → Type 0) (E : S → MapError → Type 0)
    (r : Result S A) (f : A → S → Result S B)
    → Ends P E r
    → ((a : A) (s : S) → P a s → Ends Q E (f a s))
    → Ends Q E (bind r f)
Ends-bind P Q E (done a s) f h next = next a s h
Ends-bind P Q E (failed e s) f h next = h
Ends-bind P Q E stuck f h next = h

pub Ends-weaken :
    {S A : Type 0} (P Q : A → S → Type 0) (E F : S → MapError → Type 0) (r : Result S A)
    → Ends P E r
    → ((a : A) (s : S) → P a s → Q a s)
    → ((s : S) (e : MapError) → E s e → F s e)
    → Ends Q F r
Ends-weaken P Q E F (done a s) h good bad = good a s h
Ends-weaken P Q E F (failed e s) h good bad = bad s e h
Ends-weaken P Q E F stuck h good bad = h

-- The heap answers a request for a page by one that it has not given before, not the null page, and leaves what it gave.
pub record IsAllocator {H : Type 0} (alloc_layout : Alloc H) (Given : H → ℕ → Type 0) : Type 0 where
  pub page :
      (h : H) (words : Words) (a : ℕ)
      → (alloc_layout page_layout h words).0 ≡ some a
      → (a ≢ 0)
        × (a % 4096 ≡ 0)
        × (a < 2 ^ 48)
        × (¬ Given h a)
        × Given (alloc_layout page_layout h words).1 a
  pub kept :
      (h : H) (words : Words) (a : ℕ)
      → Given h a
      → Given (alloc_layout page_layout h words).1 a
        × ((i : ℕ) → i < 4096 → (alloc_layout page_layout h words).2 (a + i) ≡ words (a + i))

-- The tables are pages that the heap gave.
abbrev pub Owns : {H : Type 0} → (H → ℕ → Type 0) → H → Places → Type 0
Owns Given h places = (t : ℕ) (x : Place) → places t ≡ some x → Given h t

-- The state is the one that the heap left when it had no page for a table.
abbrev pub IsDry : {H : Type 0} → Alloc H → State H → Type 0
IsDry {H} alloc_layout s =
    (h : H) × (words : Words) × ((alloc_layout page_layout h words).0 ≡ none)
    × ((alloc_layout page_layout h words).1 ≡ s.heap)
    × ((alloc_layout page_layout h words).2 ≡ s.words)

-- Why the range from `base` to `stop` is not mapped under the table `t` of level `l`.
abbrev pub Explained : Type 0 → Words → ℕ → Level → ℕ → ℕ → MapError → Type 0
Explained Dry words t l base stop out_of_memory = Dry
Explained Dry words t l base stop (unaligned a) = (base % 4096 ≢ 0) ⊎ (stop % 4096 ≢ 0)
Explained Dry words t l base stop (block_in_the_way a at) =
    (d : Descriptor) × (base ≤ a) × (a < stop) × (walk words t a l ≡ some (d, at))
Explained Dry words t l base stop (table_in_the_way a at) =
    (x : ℕ) × (base ≤ x) × (x < stop) × IsFound (walk words t x l)
