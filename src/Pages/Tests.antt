-- ===== src/Pages/Tests.antt =====
-- The theorems on src/bios/pgalloc.c at a pool of three slots.
use commodore_900_cpm.Base.{ℕ, ◌≡◌, ◌≢◌, ◌⊎◌, inl, inr, refl, arith, true, not}
use commodore_900_cpm.Base.{◌==◌, some}
use commodore_900_cpm.Pages.{Pool, tpaseg, tpaphyspage, pgslot, pgsize, pginit}
use commodore_900_cpm.Pages.{
  pgalloc, pgcount, first_free, take_slot, valid_slot, pgmine, pgtparest, pgrelproc,
}
use commodore_900_cpm.Pages.{count_free}
use commodore_900_cpm.Pages.Invariant.{IsWell}
use commodore_900_cpm.Pages.Keep.{pgalloc-IsWell}
use commodore_900_cpm.Pages.Exchange.{pgtparest-home}
use commodore_900_cpm.Pages.Alloc.{IsAllocated, pgalloc_lem}
use commodore_900_cpm.Pages.Release.{IsReleased, pgrelproc-IsReleased}
use commodore_900_cpm.Pages.Reach.{
  run_process, Steps, Step, boot_descriptor, IsPageOf, pginit-IsWell, Steps-IsPageOf,
}
use commodore_900_cpm.Pages.Mine.{pgmine-exclusive}

-- The ROM reports RAM from page 8 up to page 20.
abbrev empty_pool : Pool
empty_pool = pginit 0x01000000 0x200 0x500 (λ _. boot_descriptor)

-- One slot is allocated, and then a second.
abbrev one_owned : Pool
one_owned = (pgalloc empty_pool).1

abbrev two_owned : Pool
two_owned = (pgalloc one_owned).1

empty_pool-IsWell : IsWell empty_pool
empty_pool-IsWell = pginit-IsWell 0x01000000 0x200 0x500 (λ _. boot_descriptor) refl

one_owned-IsWell : IsWell one_owned
one_owned-IsWell = pgalloc-IsWell empty_pool empty_pool-IsWell

two_owned-IsWell : IsWell two_owned
two_owned-IsWell = pgalloc-IsWell one_owned one_owned-IsWell

first_slot :
    (two_owned.own 0 ≡ 1)
    × (two_owned.own 1 ≡ 1)
    × (two_owned.nslot ≡ 3)
    × (two_owned.cur ≡ 0)
    × (valid_slot two_owned 0x28 ≡ some 0)
unfolding pginit pgsize pgalloc first_free take_slot valid_slot pgslot
first_slot = (refl, refl, refl, refl, refl)

Steps-IsPageOf_example :
    IsPageOf two_owned 0x28
    × IsPageOf two_owned 0x32
    × ((two_owned.mmu 0x28).base ≢ (two_owned.mmu 0x32).base)
Steps-IsPageOf_example =
    Steps-IsPageOf 0x01000000 0x200 0x500 (λ _. boot_descriptor) two_owned 0x28 0x32 refl
      (Steps.then empty_pool one_owned two_owned
        (Steps.then empty_pool empty_pool one_owned (Steps.start empty_pool)
          (Step.alloc empty_pool))
        (Step.alloc one_owned))
      (inr (0, omega (arith, first_slot.2), λ e. omega (arith, first_slot.0), refl)) (inl refl)
      (λ e. omega arith)

pgrelproc-IsReleased_example :
    IsReleased two_owned (pgrelproc two_owned) 0 two_owned.nslot × IsWell (pgrelproc two_owned)
pgrelproc-IsReleased_example =
    pgrelproc-IsReleased two_owned (omega (arith, first_slot.3)) two_owned-IsWell

pgtparest-home_example :
    ((pgtparest two_owned).1.tpaphys ≡ tpaphyspage)
    × ((pgtparest two_owned).0 ≡ not (two_owned.tpaphys == tpaphyspage))
    × IsWell (pgtparest two_owned).1
    × ((pgtparest two_owned).1.own ≡ two_owned.own)
    × ((pgtparest two_owned).1.held ≡ two_owned.held)
pgtparest-home_example = pgtparest-home two_owned two_owned-IsWell

pgalloc_lem_example :
    ((pgcount two_owned ≡ 0) × (pgalloc two_owned ≡ (0, two_owned)))
    ⊎ ((i : ℕ) × IsAllocated two_owned (pgalloc two_owned).1 (pgalloc two_owned).0 i
        × ((pgalloc two_owned).0 ≢ 0))
pgalloc_lem_example = pgalloc_lem two_owned (omega (arith, first_slot.3)) two_owned-IsWell.fits

one_free : pgcount two_owned ≡ 1
unfolding pginit pgsize pgalloc first_free take_slot pgcount count_free
one_free = refl

abbrev slot_segment : ℕ
slot_segment = 0x28

abbrev stack_segment : ℕ
stack_segment = 0x3f

allowed : pgmine two_owned 0x100 0x28 0 8 0 ≡ true
unfolding pginit pgsize pgalloc first_free take_slot pgmine pgslot
allowed = refl

allowed_to_all : (x : ℕ) → pgmine (run_process x two_owned) 0x100 0x3f 0x80 8 0x40 ≡ true
unfolding pgmine
allowed_to_all x = refl

pgmine-exclusive_example : (stack_segment ≡ tpaseg) ⊎ (stack_segment ≡ 0x3f)
pgmine-exclusive_example =
    pgmine-exclusive two_owned 0x100 stack_segment 0x80 8 0x40 0 1 two_owned-IsWell.fits
      (allowed_to_all 0) (allowed_to_all 1) (λ e. omega arith)
