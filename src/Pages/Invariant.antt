-- ===== src/Pages/Invariant.antt =====
-- The invariant of the pool of src/bios/pgalloc.c: which pages its slots and the TPA stand on, and
-- what the MMU maps.
use commodore_900_cpm.Base.{ℕ, ◌+◌, ◌*◌, ◌≤◌, ◌<◌, ◌≡◌, ◌≢◌, ◌⊎◌, inl, inr, refl, arith}
use commodore_900_cpm.Base.{◌==◌, store, Bool-cases}
use commodore_900_cpm.Pages.{Pool, pgseg, tpaseg, tpaphyspage, max_slots, pgpglo, normal}

-- A page that the pool or the TPA may stand on.
abbrev pub InPool : ℕ → ℕ → Type 0
InPool n x = (x ≡ tpaphyspage) ⊎ ((pgpglo ≤ x) × (x < pgpglo + n))

-- The slots and the TPA stand on different pages, one of them on the TPA's boot page.
pub record IsPermuted (n : ℕ) (page : ℕ → ℕ) (tpa : ℕ) : Type 0 where
  pub tpa_range : InPool n tpa
  pub page_range : (i : ℕ) → i < n → InPool n (page i)
  pub distinct : (i j : ℕ) → i < n → j < n → page i ≡ page j → i ≡ j
  pub apart : (i : ℕ) → i < n → page i ≢ tpa
  pub home : (tpa ≡ tpaphyspage) ⊎ ((i : ℕ) × (i < n) × (page i ≡ tpaphyspage))

-- The pages at cold boot.
pub initial-IsPermuted : (n : ℕ) → IsPermuted n (λ i. pgpglo + i) tpaphyspage
initial-IsPermuted n = record {
  tpa_range = inl refl;
  page_range = λ i h. inr (omega arith, omega arith);
  distinct = λ i j p q e. omega arith;
  apart = λ i p e. omega arith;
  home = inl refl;
}

-- Exchanging the page of a slot with the TPA's.
pub exchange-IsPermuted :
    (n i : ℕ) (page : ℕ → ℕ) (tpa : ℕ)
    → i < n
    → IsPermuted n page tpa
    → IsPermuted n (store page i tpa) (page i)
exchange-IsPermuted n i page tpa h w = record {
  tpa_range = w.page_range i h;
  page_range = λ j p. elim (Bool-cases (j == i)) [
    | inl e ↦ rw e w.tpa_range
    | inr e ↦ rw e (w.page_range j p)
  ];
  distinct = λ j k p q e. ground (arith, w.distinct j k p q, w.apart j p, w.apart k q);
  apart = λ j p e. ground (arith, w.distinct j i p h, w.apart i h);
  home = elim w.home [
    | inl e ↦ inr (i, h, ground arith)
    | inr (j, q, e) ↦ elim (Bool-cases (j == i)) [
      | inl s ↦ inl (ground arith)
      | inr s ↦ inr (j, q, rw s e)
    ]
  ];
}

-- Owned slots and the TPA are mapped for Normal mode, each on its own page.
pub record IsMapped (p : Pool) : Type 0 where
  pub tpa_mapped : p.mmu tpaseg ≡ record { base = p.tpaphys * 256; attr = normal }
  pub slot_mapped :
      (i : ℕ)
      → i < p.nslot
      → p.own i ≢ 0
      → p.mmu (pgseg i) ≡ record { base = p.page i * 256; attr = normal }

pub record IsWell (p : Pool) : Type 0 where
  pub fits : p.nslot ≤ max_slots
  pub pages : IsPermuted p.nslot p.page p.tpaphys
  pub maps : IsMapped p
