-- ===== src/Mmu/Sample.antt =====
-- src/arch/aarch64/mmu: a heap that gives one page after another, and a root table that maps nothing.
use zheos.Common.{
  ℕ, ◌+◌, ◌*◌, ◌^◌, ◌≤◌, ◌≡◌, ◌≢◌, refl, arith, some, none, ltb, if◌then◌else◌, Bool-cases, inl,
  inr, ◌==◌, ==_iff,
}
use zheos.Mmu.Level.{level1, slot_of}
use zheos.Mmu.Descriptor.{from_u64, table}
use zheos.Mmu.Table.{Alloc, State, get}
use zheos.Mmu.Table.Walk.{Places}
use zheos.Mmu.Table.Ends.{IsAllocator}
use zheos.Mmu.Table.Identity.{IsRooted}

-- The state is the number of the next page.
abbrev pub bump : Alloc ℕ
bump layout page words =
    if ltb page (2 ^ 35) then (some ((page + 1) * 4096), page + 1, words) else (none, page, words)

abbrev pub GivenBelow : ℕ → ℕ → Type 0
GivenBelow page a = a ≤ page * 4096

pub bump-IsAllocator : IsAllocator bump GivenBelow
bump-IsAllocator = record {
  page = λ h words a e. elim (Bool-cases (ltb h (2 ^ 35))) [
    | inl room ↦
        let at : (h + 1) * 4096 ≡ a = ground arith in
        rw room (λ z. omega arith, omega arith, ground arith, λ g. omega arith, omega arith)
    | inr full ↦ absurd (ground arith)
  ];
  kept = λ h words a g. elim (Bool-cases (ltb h (2 ^ 35))) [
    | inl room ↦ rw room (omega arith, λ i b. refl)
    | inr full ↦ rw full (g, λ i b. refl)
  ];
}

abbrev pub root : ℕ
root = 0x100000

abbrev pub root_only : Places
root_only t = if root == t then some (record { level = level1; prefix = 0 }) else none

abbrev pub blank : State ℕ
blank = record { heap = 256; words = λ a. 0 }

blank-kind : (t i : ℕ) → (get blank.words t i).kind ≢ table
unfolding get from_u64
blank-kind t i = λ e. cc

pub blank-IsRooted : IsRooted GivenBelow root_only blank root
blank-IsRooted = record {
  tree = record {
    page = λ t x e. elim (Bool-cases (root == t)) [
      | inl here ↦ let at = (==_iff root t).0 here in omega arith
      | inr other ↦ absurd (ground arith)
    ];
    child = λ t l finer va c n k. absurd (blank-kind t (slot_of l va) k);
  };
  owns = λ t x e. elim (Bool-cases (root == t)) [
    | inl here ↦ let at = (==_iff root t).0 here in omega arith
    | inr other ↦ absurd (ground arith)
  ];
  root = refl;
  full = λ va e kind. absurd (blank-kind root (slot_of level1 va) kind);
}
