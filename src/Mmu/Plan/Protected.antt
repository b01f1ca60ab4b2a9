-- ===== src/Mmu/Plan/Protected.antt =====
-- src/arch/aarch64/mmu/mod.rs, `init`: the permissions that the kernel runs with.
use zheos.Common.{
  ℕ, ◌+◌, ◌/◌, ◌^◌, ◌≤◌, ◌<◌, ◌≡◌, inl, inr, refl, ◌∙◌, arith, none, List, [], map, true,
}
use zheos.Mm.Pfn.{Pfn, from_addr_up, from_addr_down}
use zheos.Mm.PageRange.{PageRange}
use zheos.Mm.Gaps.Cover.{covered}
use zheos.Mm.Gaps.Runs.{IsOrdered}
use zheos.Mm.Region
use zheos.Mm.Region.{Region}
use zheos.Mm.Image.{Symbols}
use zheos.Mm.Gaps.{gaps}
use zheos.Mm.Gaps.Bytes.{gaps-IsFree, gaps-IsOrdered}
use zheos.Mmu.Level.{level1}
use zheos.Mmu.Descriptor
use zheos.Mmu.Control
use zheos.Mmu.Control.{Instruction}
use zheos.Mmu.Table
use zheos.Mmu.Table.{Words, Alloc, State, Result, MapError, out_of_memory}
use zheos.Mmu.Table.Ends.{IsAllocator, IsDry}
use zheos.Mmu.Table.Fresh.{IsNew, new-IsNew}
use zheos.Mmu.Table.Linked.{add_place}
use zheos.Mmu.Table.Walk.{walk}
use zheos.Mmu.Table.Identity.{Within}
use zheos.Mmu.Plan.{
  Mapping, PlanError, no_table, failed, overlap, applied, bind, with_table, plan_of, apply, init,
}
use zheos.Mmu.Plan.Ends.{Ends, Ends-bind, Ends-weaken, Ends-with_table}
use zheos.Mmu.Plan.Apart.{All, All-map, All-both, IsMapping}
use zheos.Mmu.Plan.Mapped.{IsServed, IsUntouched}
use zheos.Mmu.Plan.Gap.{gap_mapping, gaps-covered-Within}
use zheos.Mmu.Plan.Clear.{regions}
use zheos.Mmu.Plan.Promise.{IsApplied, Refusal}
use zheos.Mmu.Plan.Apply.{apply-IsApplied}
use zheos.Mmu.Plan.Boot.{
  none_placed, none-IsTree, root_place, new-IsRooted, new-blank, IsImage, IsAbove,
  plan_of-IsMapping, plan_of-IsAbove, devices_below, IsProtected,
}
use zheos.Mmu.Plan.Cause.{BootFailure, FailedIn-Cause, gaps-Cause}

module _ {H : Type 0} (alloc_layout : Alloc H) (Given : H → ℕ → Type 0)
    (lawful : IsAllocator alloc_layout Given) (fuel : ℕ) (enough : 1542 ≤ fuel) (s : State H)
    (image : Symbols) (memory dtb : Region) (sctlr : ℕ) (ok : IsImage memory image)
    (memory_fits : memory.base + memory.size ≤ 2 ^ 39) (dtb_fits : dtb.base + dtb.size ≤ 2 ^ 39)
    (dtb_above : memory.base ≤ dtb.base) where
  abbrev plan : List Mapping
  plan = plan_of image dtb

  abbrev Fails : State H → PlanError → Type 0
  Fails z = BootFailure (IsDry alloc_layout z) plan

  plan_ok : All IsMapping plan
  plan_ok = plan_of-IsMapping memory image dtb ok dtb_fits

  -- The root table is new, or the heap has no page.
  with_table-Ends : Ends (IsNew Given none_placed s) Fails (with_table (Table.new alloc_layout s))
  with_table-Ends =
      Ends-with_table (IsNew Given none_placed s) (λ z e. IsDry alloc_layout z) Fails
        (Table.new alloc_layout s)
        (new-IsNew alloc_layout Given lawful (λ z e. IsDry alloc_layout z) s none_placed
          (λ dry. (s.heap, s.words, dry, refl, refl)) (none-IsTree s.words) (λ t x e. cc))
        (λ z e dry. dry)

  abbrev gs : List PageRange
  gs = gaps memory (regions plan)

  abbrev first_page : Pfn
  first_page = from_addr_up memory.base

  abbrev last_page : Pfn
  last_page = from_addr_down (Region.end memory)

  last_page-bound : last_page ≤ 2 ^ 27
  last_page-bound = omega arith

  ordered : IsOrdered first_page last_page gs
  ordered = gaps-IsOrdered memory (regions plan)

  module _ (t : ℕ) (s1 : State H) (fresh : IsNew Given none_placed s t s1) where
    abbrev First : Unit {0} → State H → Type 0
    First = IsApplied Given memory plan Descriptor.normal_block s1 t

    first-Fails :
        (z : State H) (e : PlanError)
        → Refusal (IsDry alloc_layout z) s1.words t memory plan Descriptor.normal_block e
        → Fails z e
    first-Fails z no_table x = absurd x
    first-Fails z (overlap one other) x = x
    first-Fails z (failed name e) (inl x) =
        FailedIn-Cause (IsDry alloc_layout z) s1.words t plan
          (All-map IsMapping (λ m. (va : ℕ) → Within va m.region → walk s1.words t va level1 ≡ none)
            plan (λ m h va inside. new-blank Given s t s1 fresh va) plan_ok)
          name e x
    first-Fails z (failed name e) (inr x) =
        gaps-Cause (IsDry alloc_layout z) plan Descriptor.normal_block first_page last_page gs name
          e last_page-bound ordered
          (FailedIn-Cause (IsDry alloc_layout z) s1.words t
            (map (gap_mapping Descriptor.normal_block) gs)
            (All-map (λ m. (va : ℕ) → Within va m.region → covered gs (va / 4096) ≡ true)
              (λ m. (va : ℕ) → Within va m.region → walk s1.words t va level1 ≡ none)
              (map (gap_mapping Descriptor.normal_block) gs)
              (λ m h va inside. new-blank Given s t s1 fresh va)
              (gaps-covered-Within Descriptor.normal_block last_page last_page-bound first_page gs
                ordered))
            name e x)

    First-Ends : Ends First Fails (apply alloc_layout fuel s1 t memory plan Descriptor.normal_block)
    First-Ends =
        Ends-weaken First First
          (λ z. Refusal (IsDry alloc_layout z) s1.words t memory plan Descriptor.normal_block) Fails
          (apply alloc_layout fuel s1 t memory plan Descriptor.normal_block)
          (apply-IsApplied alloc_layout Given lawful fuel enough t
            (add_place none_placed t root_place) s1 (new-IsRooted Given s t s1 fresh) memory
            memory_fits plan plan_ok Descriptor.normal_block tt)
          (λ u s2 x. x) first-Fails

    module _ (u : Unit {0}) (s2 : State H) (first : First u s2) where
      abbrev Second : Unit {0} → State H → Type 0
      Second = IsApplied Given (devices_below memory) [] Descriptor.device_block s2 t

      -- Below memory nothing is mapped yet.
      below-blank : (va : ℕ) → va < memory.base → walk s2.words t va level1 ≡ none
      below-blank va low =
          first.others va (omega arith)
            (All-map (IsAbove memory.base) (IsUntouched va) plan
              (λ m above. inr (inl (omega arith))) (plan_of-IsAbove memory image dtb ok dtb_above))
            (λ free. absurd (omega (arith, free.0)))
          ∙ new-blank Given s t s1 fresh va

      second-Fails :
          (z : State H) (e : PlanError)
          → Refusal
              (IsDry alloc_layout z)
              s2.words
              t
              (devices_below memory)
              []
              Descriptor.device_block
              e
          → Fails z e
      second-Fails z no_table x = absurd x
      second-Fails z (overlap one other) x = absurd x
      second-Fails z (failed name e) (inl x) = absurd x
      second-Fails z (failed name e) (inr x) =
          gaps-Cause (IsDry alloc_layout z) plan Descriptor.device_block
            (from_addr_up (devices_below memory).base)
            (from_addr_down (Region.end (devices_below memory))) (gaps (devices_below memory) [])
            name e (omega arith) (gaps-IsOrdered (devices_below memory) [])
            (FailedIn-Cause (IsDry alloc_layout z) s2.words t
              (map (gap_mapping Descriptor.device_block) (gaps (devices_below memory) []))
              (All-map
                (λ m.
                  (va : ℕ)
                  → Within va m.region
                  → covered (gaps (devices_below memory) []) (va / 4096) ≡ true)
                (λ m. (va : ℕ) → Within va m.region → walk s2.words t va level1 ≡ none)
                (map (gap_mapping Descriptor.device_block) (gaps (devices_below memory) []))
                (λ m h va inside.
                  let free =
                    (gaps-IsFree (devices_below memory) [] (omega arith) tt (va / 4096)).0
                      (h va inside) in
                  below-blank va (omega (arith, free.0)))
                (gaps-covered-Within Descriptor.device_block
                  (from_addr_down (Region.end (devices_below memory))) (omega arith)
                  (from_addr_up (devices_below memory).base) (gaps (devices_below memory) [])
                  (gaps-IsOrdered (devices_below memory) [])))
              name e x)

      Second-Ends :
          Ends Second Fails
            (apply alloc_layout fuel s2 t (devices_below memory) [] Descriptor.device_block)
      Second-Ends =
          Ends-weaken Second Second
            (λ z.
              Refusal (IsDry alloc_layout z) s2.words t (devices_below memory) []
                Descriptor.device_block)
            Fails (apply alloc_layout fuel s2 t (devices_below memory) [] Descriptor.device_block)
            (apply-IsApplied alloc_layout Given lawful fuel enough t first.places' s2 first.rooted
              (devices_below memory) (omega arith) [] tt Descriptor.device_block tt)
            (λ v s3 x. x) second-Fails

      -- What lies above the devices is as the plan left it.
      kept_above :
          (v : Unit {0}) (s3 : State H)
          → Second v s3
          → (va : ℕ) → va < 2 ^ 39
          → memory.base ≤ va
          → walk s3.words t va level1 ≡ walk s2.words t va level1
      kept_above v s3 second va low above =
          second.others va low tt (λ free. absurd (omega (arith, free.0)))

      both-IsProtected :
          (v : Unit {0}) (s3 : State H)
          → Second v s3
          → IsProtected image memory dtb sctlr (Control.init t sctlr) s3
      both-IsProtected v s3 second = record {
        root = t;
        turned_on = refl;
        served =
            All-both (IsServed s2 t) (λ m. IsMapping m × IsAbove memory.base m) (IsServed s3 t) plan
              (λ m serve h template is va inside.
                let (at, e) = serve template is va inside in
                (at, kept_above v s3 second va (omega (arith, h.0.bound)) (omega arith) ∙ e))
              first.served
              (All-both IsMapping (IsAbove memory.base) (λ m. IsMapping m × IsAbove memory.base m)
                plan (λ m a b. (a, b)) plan_ok (plan_of-IsAbove memory image dtb ok dtb_above));
        guarded = λ va inside.
            let above = (plan_of-IsAbove memory image dtb ok dtb_above).1.1.1.0 in
            let low = plan_ok.1.1.1.0.bound in
            kept_above v s3 second va (omega arith) (omega arith)
            ∙ first.guarded.1.1.1.0 refl va inside
            ∙ new-blank Given s t s1 fresh va;
        filled = λ va free.
            let (at, e) = first.filled va free in
            (at, kept_above v s3 second va (omega (arith, free.0)) (omega (arith, free.0)) ∙ e);
        rest = λ va low untouched taken above.
            second.others va low tt (λ free. absurd (omega (arith, free.0)))
            ∙ first.others va low untouched taken
            ∙ new-blank Given s t s1 fresh va;
        devices = λ va low. second.filled va ((omega arith, omega arith), tt);
      }

  -- For an image whose parts come in the order of the linker script, an image and a device tree above
  -- the devices, all of them and memory in the 39-bit address space, and a heap that keeps what it
  -- gave: `init` ends in the fuel. If it is done, the MMU is turned on with the tables of a root by
  -- which every region of the plan is mapped to itself with its own permissions, the stack guard is
  -- not mapped, every page of memory that no region of the plan touches is mapped to itself as
  -- ordinary memory, every whole page below memory as a device's, and no other address of the
  -- space is mapped. If not, the heap had no page when it was asked for the last time, two regions
  -- of the plan reach into one another, or one that is named does not begin or does not end at a
  -- page.
  pub init-IsProtected :
      Ends
        (IsProtected image memory dtb sctlr)
        Fails
        (init alloc_layout fuel s image memory dtb sctlr)
  unfolding init
  init-IsProtected =
      let Q = IsProtected image memory dtb sctlr in
      Ends-bind (IsNew Given none_placed s) Q Fails (with_table (Table.new alloc_layout s))
        (λ t s1. bind (apply alloc_layout fuel s1 t memory plan Descriptor.normal_block) λ _ s2.
          bind (apply alloc_layout fuel s2 t (devices_below memory) [] Descriptor.device_block)
            λ _ s3. applied (Control.init t sctlr) s3)
        with_table-Ends
        (λ t s1 fresh.
          Ends-bind (First t s1 fresh) Q Fails
            (apply alloc_layout fuel s1 t memory plan Descriptor.normal_block)
            (λ _ s2.
              bind (apply alloc_layout fuel s2 t (devices_below memory) [] Descriptor.device_block)
                λ _ s3. applied (Control.init t sctlr) s3)
            (First-Ends t s1 fresh)
            (λ u s2 first.
              Ends-bind (Second t s1 fresh u s2 first) Q Fails
                (apply alloc_layout fuel s2 t (devices_below memory) [] Descriptor.device_block)
                (λ _ s3. applied (Control.init t sctlr) s3) (Second-Ends t s1 fresh u s2 first)
                (both-IsProtected t s1 fresh u s2 first)))
