-- ===== src/Pages/Exchange.antt =====
-- The exchange of the TPA's page in src/bios/pgalloc.c: pgtpaswap() and pgtparest().
use commodore_900_cpm.Base.{
  ℕ, zero, suc, ◌+◌, ◌*◌, ◌≤◌, ◌<◌, ◌≡◌, ◌≢◌, ◌⊎◌, inl, inr, refl, sym, ◌∙◌, not,
}
use commodore_900_cpm.Base.{ap, arith, none, some, Option-cases, true, false, Bool-cases}
use commodore_900_cpm.Base.{◌==◌, if◌then◌else◌, store, store_self, store_ne}
use native.Mathlib.Decide.{ℕ_discrete}
use commodore_900_cpm.Pages.{Pool, mapseg, Descriptor, pgseg, tpaseg, tpaphyspage, normal}
use commodore_900_cpm.Pages.{system_only, valid_slot, swap_slot, pgtpaswap, home_slot}
use commodore_900_cpm.Pages.{restore_slot, pgtparest}
use commodore_900_cpm.Pages.Invariant.{IsWell, exchange-IsPermuted}
use commodore_900_cpm.Pages.Keep.{tpa_left, slot_left, slot_untouched, valid_slot-some}
use commodore_900_cpm.Pages.Keep.{valid_slot-pgseg}

-- Both exchanges: slot `i` takes the TPA's page and the TPA takes page `x`, which was the slot's.
exchanged : Pool → ℕ → ℕ → ℕ → Pool
exchanged p i x attr =
    mapseg (pgseg i) (p.tpaphys * 256) attr
      (mapseg tpaseg (x * 256) normal (record p { page = store p.page i p.tpaphys; tpaphys = x }))

same_slot :
    (page : ℕ → ℕ) (f : ℕ → Descriptor) (i j tpa attr : ℕ)
    → j ≡ i
    → attr ≡ normal
    → store f (pgseg i) (record { base = tpa * 256; attr = attr }) (pgseg j)
      ≡ record { base = store page i tpa j * 256; attr = normal }
same_slot page f i j tpa attr s a =
    rw (s, a, store_self page i tpa)
      (store_self f (pgseg i) (record { base = tpa * 256; attr = normal }))

exchanged-IsWell :
    (p : Pool) (i x attr : ℕ)
    → i < p.nslot
    → IsWell p
    → x ≡ p.page i
    → (p.own i ≢ 0 → attr ≡ normal)
    → IsWell (exchanged p i x attr)
unfolding exchanged
exchanged-IsWell p i x attr h w e a =
    let t : Descriptor = record { base = x * 256; attr = normal } in
    let d : Descriptor = record { base = p.tpaphys * 256; attr = attr } in
    let f = store p.mmu tpaseg t in
    record {
      fits = w.fits;
      pages = rw e (exchange-IsPermuted p.nslot i p.page p.tpaphys h w.pages);
      maps = record {
        tpa_mapped = tpa_left p.nslot i w.fits h f d ∙ store_self p.mmu tpaseg t;
        slot_mapped = λ j q o. elim (ℕ_discrete j i) [
          | yes s ↦ same_slot p.page f i j p.tpaphys attr s (a (λ z. o (ap p.own s ∙ z)))
          | no n ↦
              slot_left p.nslot i w.fits h f d j q n
              ∙ slot_untouched p.nslot j w.fits q p.mmu t
              ∙ w.maps.slot_mapped j q o
              ∙ ap {B = Descriptor} (λ (y : ℕ). record { base = y * 256; attr = normal })
                  (sym (store_ne p.page i p.tpaphys j n))
        ];
      };
    }

swap_slot-exchanged : (p : Pool) (i : ℕ) → swap_slot p (pgseg i) i ≡ exchanged p i (p.page i) normal
unfolding swap_slot exchanged
swap_slot-exchanged p i = refl

-- pgtpaswap() keeps the invariant, whatever the segment.
pub pgtpaswap-IsWell : (p : Pool) (seg : ℕ) → IsWell p → IsWell (pgtpaswap p seg).1
unfolding pgtpaswap
pgtpaswap-IsWell p seg w = elim (Option-cases (valid_slot p seg)) [
  | inl e ↦ rw (e, pgtpaswap) w
  | inr (i, e) ↦
      rw (e, pgtpaswap, valid_slot-pgseg p seg i w e, swap_slot-exchanged)
        (exchanged-IsWell p i (p.page i) normal (valid_slot-some p seg i e).1 w refl (λ z. refl))
]

restore_slot-exchanged :
    (p : Pool) (i : ℕ)
    → restore_slot p i ≡ exchanged p i tpaphyspage (if p.own i == 0 then system_only else normal)
unfolding restore_slot exchanged
restore_slot-exchanged p i = refl

-- What the search for the boot page finds, and that it finds the slot that has it.
pub home_slot-some :
    (page : ℕ → ℕ) (n k i : ℕ)
    → home_slot page n k ≡ some i
    → (page i ≡ tpaphyspage) × (k ≤ i) × (i < k + n)
unfolding home_slot
home_slot-some page zero k i e = ground arith
home_slot-some page (suc n) k i e = elim (Bool-cases (page k == tpaphyspage)) [
  | inl z ↦ ground arith
  | inr z ↦ ground (arith, home_slot-some page n (k + 1) i)
]

pub home_slot-none :
    (page : ℕ → ℕ) (n k i : ℕ)
    → home_slot page n k ≡ none
    → k ≤ i
    → i < k + n
    → page i ≢ tpaphyspage
unfolding home_slot
home_slot-none page zero k i e p q z = omega arith
home_slot-none page (suc n) k i e p q z = elim (Bool-cases (page k == tpaphyspage)) [
  | inl z ↦ ground arith
  | inr y ↦ elim (ℕ_discrete k i) [
    | yes s ↦ ground arith
    | no t ↦ home_slot-none page n (k + 1) i (ground arith) (omega arith) (omega arith) z
  ]
]

restore_slot-IsWell :
    (p : Pool) (i : ℕ) → i < p.nslot → p.page i ≡ tpaphyspage → IsWell p → IsWell (restore_slot p i)
restore_slot-IsWell p i h e w = rw restore_slot-exchanged (
    exchanged-IsWell p i tpaphyspage (if p.own i == 0 then system_only else normal) h w (sym e)
      (λ o. ground arith))

-- The two ways that pgtparest() goes: the search never fails, as one of the slots has the boot
-- page whenever the TPA has not.
pub pgtparest_ways :
    (p : Pool)
    → IsWell p
    → ((p.tpaphys ≡ tpaphyspage) × (pgtparest p ≡ (false, p)))
      ⊎ ((i : ℕ) × (p.tpaphys ≢ tpaphyspage)
          × (i < p.nslot)
          × (p.page i ≡ tpaphyspage)
          × (pgtparest p ≡ (true, restore_slot p i)))
unfolding pgtparest
pgtparest_ways p w = elim (ℕ_discrete p.tpaphys tpaphyspage) [
  | yes t ↦ inl (t, rw t refl)
  | no t ↦ elim (Option-cases (home_slot p.page p.nslot 0)) [
    | inl e ↦ absurd (elim w.pages.home [
      | inl h ↦ t h
      | inr (j, q, h) ↦ home_slot-none p.page p.nslot 0 j e (omega arith) (omega arith) h
    ])
    | inr (i, e) ↦
        let s = home_slot-some p.page p.nslot 0 i e in
        inr (i, t, omega (arith, s.2), s.0, ground (arith, e))
  ]
]

-- On a pool that satisfies the invariant, pgtparest() always brings the TPA back to its boot page,
-- so that the return marked "cannot happen" is never reached; its answer says whether the TPA was
-- elsewhere; the pool still satisfies the invariant, and every slot keeps its owner and its hold.
pub pgtparest-home :
    (p : Pool)
    → IsWell p
    → ((pgtparest p).1.tpaphys ≡ tpaphyspage)
      × ((pgtparest p).0 ≡ not (p.tpaphys == tpaphyspage))
      × IsWell (pgtparest p).1
      × ((pgtparest p).1.own ≡ p.own)
      × ((pgtparest p).1.held ≡ p.held)
unfolding restore_slot
pgtparest-home p w = elim (pgtparest_ways p w) [
  | inl (t, e) ↦ rw e (t, ground arith, w, refl, refl)
  | inr (i, t, h, s, e) ↦ rw e (refl, ground arith, restore_slot-IsWell p i h s w, refl, refl)
]
