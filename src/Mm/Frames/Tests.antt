-- ===== src/Mm/Frames/Tests.antt =====
-- src/mm/frames/mod.rs: runs of pages and their blocks.
use zheos.Common.{◌≡◌, refl, some, arith, Outcome}
use zheos.Mm.Pages
use zheos.Mm.Pages.{Pages}
use zheos.Mm.FreeLists
use zheos.Mm.FreeLists.{FreeLists}
use zheos.Mm.Frames.{seed_order, seed_run}
use zheos.Mm.Frames.Seed.{FitsRun, seed_order-FitsRun, seed_run-returns}

-- From page 6 a block of two pages is aligned.
two_pages : seed_order 6 20 ≡ 1
unfolding seed_order
two_pages = refl

seed_order-FitsRun_example : FitsRun 6 20 (seed_order 6 20)
seed_order-FitsRun_example = seed_order-FitsRun 6 20 (omega arith) (omega arith)

seed_run-returns_example :
    (r : Outcome (FreeLists × Pages)) × (seed_run 15
        (FreeLists.empty (λ _. (0, 0)))
        Pages.empty
        6
        20
      ≡ some r)
seed_run-returns_example =
    seed_run-returns 15 (FreeLists.empty (λ _. (0, 0))) Pages.empty 6 20 (omega arith) (omega arith)
