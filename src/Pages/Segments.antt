-- ===== src/Pages/Segments.antt =====
-- The slots of src/bios/pgalloc.c as segments: PGSEG of bios/c900cfg.h and pgslot(), and the
-- sizing of the pool by pgsize().
use commodore_900_cpm.Base.{ℕ, ◌+◌, ◌*◌, ◌≤◌, ◌<◌, ◌≡◌, ◌≢◌, ◌↔◌, ◌⊎◌, ◌∙◌, ap, arith, some}
use commodore_900_cpm.Pages.{pgseg, pgslot, pgsize, max_slots, pgpglo, tpaseg}

-- A slot's segment lies from 0x0A to 0x2F, below the system, TPA, bank and video segments.
pub pgseg_bounds : (i : ℕ) → i < max_slots → (0x0a ≤ pgseg i) × (pgseg i ≤ 0x2f)
pgseg_bounds i h = ground arith

pub pgseg-injective : (i j : ℕ) → i < max_slots → j < max_slots → pgseg i ≡ pgseg j → i ≡ j
pgseg-injective i j hi hj e = ground arith

-- The slot of a slot's segment, that no other segment has it, and that it is not the TPA's.
pub pgslot-pgseg :
    (i seg : ℕ)
    → i < max_slots
    → (pgslot (pgseg i) ≡ some i) × (pgslot seg ≡ some i → seg ≡ pgseg i) × (pgseg i ≢ tpaseg)
unfolding pgslot
pgslot-pgseg i seg h = (ground arith, λ e. ground arith, ground arith)

-- For a slot below PGNSLOT, pgslot() answers it for its own segment, PGSEG(i), and for no other, and
-- that segment lies from 0x0A to 0x2F, so it is none of the TPA's, the system's, the bank's or the
-- video segments, which are 0x30 and above.
pub pgslot_iff :
    (i seg : ℕ)
    → i < max_slots
    → ((pgslot seg ≡ some i) ↔ (seg ≡ pgseg i)) × (0x0a ≤ pgseg i) × (pgseg i ≤ 0x2f)
pgslot_iff i seg h =
    let s = pgslot-pgseg i seg h in
    let b = pgseg_bounds i h in ((s.1, λ e. ap (λ (x : ℕ). pgslot x) e ∙ s.0), b.0, b.1)

-- However much memory the ROM reports, the pool has at most PGNSLOT slots, and where it has any, the
-- page of the last of them, counted from PGPGLO, lies below the top page, which the ROM keeps.
pub pgsize_bounds :
    (bram eram : ℕ)
    → (pgsize bram eram ≤ max_slots)
      × ((pgsize bram eram ≡ 0) ⊎ ((pgpglo + pgsize bram eram) * 64 + 64 ≤ eram))
unfolding pgsize
pgsize_bounds bram eram = (ground arith, ground arith)
