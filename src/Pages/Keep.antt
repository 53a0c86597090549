-- ===== src/Pages/Keep.antt =====
-- The operations of src/bios/pgalloc.c keep the invariant of the pool.
use commodore_900_cpm.Base.{ℕ, zero, suc, ◌+◌, ◌*◌, ◌≤◌, ◌<◌, ◌≡◌, ◌≢◌, inl, inr, sym, ◌∙◌}
use commodore_900_cpm.Base.{arith, some, Option-cases}
use commodore_900_cpm.Base.{◌==◌, store, store_self, store_ne, u8, Bool, Bool-cases}
use native.Mathlib.Decide.{ℕ_discrete}
use commodore_900_cpm.Pages.{Pool, Descriptor, pgseg, tpaseg, max_slots, normal}
use commodore_900_cpm.Pages.{system_only, pgslot, first_free, take_slot, pgalloc}
use commodore_900_cpm.Pages.{valid_slot, free_slot, pgfree, pghold}
use commodore_900_cpm.Pages.Segments.{pgseg-injective, pgslot-pgseg}
use commodore_900_cpm.Pages.Invariant.{IsWell}

-- The first free slot is a slot, and is free.
pub first_free-some :
    (own : ℕ → ℕ) (n k i : ℕ) → first_free own n k ≡ some i → (own i ≡ 0) × (k ≤ i) × (i < k + n)
unfolding first_free
first_free-some own zero k i e = ground arith
first_free-some own (suc n) k i e = elim (Bool-cases (own k == 0)) [
  | inl z ↦ ground arith
  | inr z ↦ ground (arith, first_free-some own n (k + 1) i)
]

-- What a segment's slot is, where it is allocated.
pub valid_slot-some :
    (p : Pool) (seg i : ℕ)
    → valid_slot p seg ≡ some i
    → (pgslot seg ≡ some i) × (i < p.nslot) × (p.own i ≢ 0)
unfolding valid_slot
valid_slot-some p seg i e = ground arith

module _ (i j : ℕ) (hi : i < max_slots) (hj : j < max_slots) where
  segments_differ : j ≢ i → pgseg j ≢ pgseg i
  segments_differ h e = h (pgseg-injective j i hj hi e)

tpa_differs : (i : ℕ) → i < max_slots → tpaseg ≢ pgseg i
tpa_differs i h e = (pgslot-pgseg i 0 h).2 (sym e)

-- A descriptor write for slot `i` leaves the mapping of the TPA and of the other slots, and one
-- for the TPA leaves the slots.
module _ (n i : ℕ) (fits : n ≤ max_slots) (h : i < n) (f : ℕ → Descriptor) (d : Descriptor) where
  pub tpa_left : store f (pgseg i) d tpaseg ≡ f tpaseg
  tpa_left = store_ne f (pgseg i) d tpaseg (tpa_differs i (omega arith))

  pub slot_left : (j : ℕ) → j < n → j ≢ i → store f (pgseg i) d (pgseg j) ≡ f (pgseg j)
  slot_left j q ne =
      store_ne f (pgseg i) d (pgseg j) (segments_differ i j (omega arith) (omega arith) ne)

  pub slot_untouched : store f tpaseg d (pgseg i) ≡ f (pgseg i)
  slot_untouched = store_ne f tpaseg d (pgseg i) (λ e. tpa_differs i (omega arith) (sym e))

take_slot-IsWell : (p : Pool) (i : ℕ) → i < p.nslot → IsWell p → IsWell (take_slot p i).1
unfolding take_slot
take_slot-IsWell p i h w =
    let d : Descriptor = record { base = p.page i * 256; attr = normal } in
    record {
      fits = w.fits;
      pages = w.pages;
      maps = record {
        tpa_mapped = tpa_left p.nslot i w.fits h p.mmu d ∙ w.maps.tpa_mapped;
        slot_mapped = λ j q o. elim (ℕ_discrete j i) [
          | yes e ↦ rw e (store_self p.mmu (pgseg i) d)
          | no n ↦
              slot_left p.nslot i w.fits h p.mmu d j q n
              ∙ w.maps.slot_mapped j q (λ z. o (store_ne p.own i (u8 (p.cur + 1)) j n ∙ z))
        ];
      };
    }

-- pgalloc() keeps the invariant.
pub pgalloc-IsWell : (p : Pool) → IsWell p → IsWell (pgalloc p).1
unfolding pgalloc
pgalloc-IsWell p w = elim (Option-cases (first_free p.own p.nslot 0)) [
  | inl e ↦ rw (e, pgalloc) w
  | inr (i, e) ↦
      rw (e, pgalloc)
        (take_slot-IsWell p i (omega (arith, (first_free-some p.own p.nslot 0 i e).2)) w)
]

free_slot-IsWell : (p : Pool) (i : ℕ) → i < p.nslot → IsWell p → IsWell (free_slot p (pgseg i) i)
unfolding free_slot
free_slot-IsWell p i h w =
    let d : Descriptor = record { base = p.page i * 256; attr = system_only } in
    record {
      fits = w.fits;
      pages = w.pages;
      maps = record {
        tpa_mapped = tpa_left p.nslot i w.fits h p.mmu d ∙ w.maps.tpa_mapped;
        slot_mapped = λ j q o. elim (ℕ_discrete j i) [
          | yes e ↦ absurd (o (rw e (store_self p.own i 0)))
          | no n ↦
              slot_left p.nslot i w.fits h p.mmu d j q n
              ∙ w.maps.slot_mapped j q (λ z. o (store_ne p.own i 0 j n ∙ z))
        ];
      };
    }

-- The segment of a valid slot is the slot's.
pub valid_slot-pgseg : (p : Pool) (seg i : ℕ) → IsWell p → valid_slot p seg ≡ some i → seg ≡ pgseg i
valid_slot-pgseg p seg i w e =
    let v = valid_slot-some p seg i e in (pgslot-pgseg i seg (omega (arith, v.1, w.fits))).1 v.0

-- pgfree() keeps the invariant, whatever the segment.
pub pgfree-IsWell : (p : Pool) (seg : ℕ) → IsWell p → IsWell (pgfree p seg).1
unfolding pgfree
pgfree-IsWell p seg w = elim (Option-cases (valid_slot p seg)) [
  | inl e ↦ rw (e, pgfree) w
  | inr (i, e) ↦
      rw (e, pgfree, valid_slot-pgseg p seg i w e)
        (free_slot-IsWell p i (valid_slot-some p seg i e).1 w)
]

pub pghold-IsWell : (p : Pool) (seg : ℕ) (on : Bool) → IsWell p → IsWell (pghold p seg on).1
unfolding pghold
pghold-IsWell p seg on w = elim (Option-cases (valid_slot p seg)) [
  | inl e ↦ rw (e, pghold) w
  | inr (i, e) ↦
      rw (e, pghold)
        (record {
          fits = w.fits;
          pages = w.pages;
          maps = record { tpa_mapped = w.maps.tpa_mapped; slot_mapped = w.maps.slot_mapped };
        })
]
