-- ===== src/Pages/Twice.antt =====
-- Two pgtpaswap() calls of src/bios/pgalloc.c in a row, as proc.c makes them to run a parked process
-- and to park it again.
use commodore_900_cpm.Base.{ℕ, ◌*◌, ◌≡◌, refl, ap, ◌∙◌, some}
use commodore_900_cpm.Base.{store, store_self, store_ne}
use native.Mathlib.Decide.{ℕ_discrete}
use commodore_900_cpm.Pages.{Pool, Descriptor, tpaseg, valid_slot, swap_slot, pgtpaswap, normal}
use commodore_900_cpm.Pages.Invariant.{IsWell}
use commodore_900_cpm.Pages.Keep.{valid_slot-some, valid_slot-pgseg}

-- Storing back what was there.
store-back : (f : ℕ → ℕ) (i v j : ℕ) → store (store f i v) i (f i) j ≡ f j
store-back f i v j = elim (ℕ_discrete j i) [
  | yes e ↦ rw e (store_self (store f i v) i (f i))
  | no n ↦ store_ne (store f i v) i (f i) j n ∙ store_ne f i v j n
]

-- Four descriptor writes, of which the last two put back what the segments had.
writes-back :
    (f : ℕ → Descriptor) (a b s : ℕ) (x y : Descriptor)
    → store (store (store (store f a x) b y) a (f a)) b (f b) s ≡ f s
writes-back f a b s x y = elim (ℕ_discrete s b) [
  | yes e ↦ rw e (store_self (store (store (store f a x) b y) a (f a)) b (f b))
  | no n ↦ elim (ℕ_discrete s a) [
    | yes e ↦
        store_ne (store (store (store f a x) b y) a (f a)) b (f b) s n
        ∙ rw e (store_self (store (store f a x) b y) a (f a))
    | no m ↦
        store_ne (store (store (store f a x) b y) a (f a)) b (f b) s n
        ∙ store_ne (store (store f a x) b y) a (f a) s m
        ∙ store_ne (store f a x) b y s n
        ∙ store_ne f a x s m
  ]
]

valid_slot-swap_slot :
    (p : Pool) (seg i : ℕ) → valid_slot (swap_slot p seg i) seg ≡ valid_slot p seg
unfolding valid_slot swap_slot
valid_slot-swap_slot p seg i = refl

unfoldable pub swap_twice : Pool → ℕ → Pool
swap_twice p seg = (pgtpaswap (pgtpaswap p seg).1 seg).1

pgtpaswap-some :
    (p : Pool) (seg i : ℕ) → valid_slot p seg ≡ some i → (pgtpaswap p seg).1 ≡ swap_slot p seg i
unfolding pgtpaswap
pgtpaswap-some p seg i e = rw (e, pgtpaswap) refl

swap_twice-some :
    (p : Pool) (seg i : ℕ)
    → valid_slot p seg ≡ some i
    → swap_twice p seg ≡ swap_slot (swap_slot p seg i) seg i
unfolding swap_twice
swap_twice-some p seg i e =
    ap (λ (q : Pool). (pgtpaswap q seg).1) (pgtpaswap-some p seg i e)
    ∙ pgtpaswap-some (swap_slot p seg i) seg i (valid_slot-swap_slot p seg i ∙ e)

seg_mapped :
    (p : Pool) (seg i : ℕ)
    → IsWell p
    → valid_slot p seg ≡ some i
    → p.mmu seg ≡ record { base = p.page i * 256; attr = normal }
seg_mapped p seg i w e =
    let v = valid_slot-some p seg i e in
    rw (valid_slot-pgseg p seg i w e) (w.maps.slot_mapped i v.1 v.2)

-- On a pool that satisfies the invariant, and at the segment of an owned slot, the second exchange
-- undoes the first: the TPA's page, the page of every slot and every descriptor of the MMU, whatever
-- its segment, are as before both.
pub swap_twice_lem :
    (p : Pool) (seg i : ℕ)
    → IsWell p
    → valid_slot p seg ≡ some i
    → ((swap_twice p seg).tpaphys ≡ p.tpaphys)
      × ((j : ℕ) → (swap_twice p seg).page j ≡ p.page j)
      × ((s : ℕ) → (swap_twice p seg).mmu s ≡ p.mmu s)
unfolding swap_slot
swap_twice_lem p seg i w e = rw (swap_twice-some p seg i e) (
  store_self p.page i p.tpaphys,
  λ j. store-back p.page i p.tpaphys j,
  λ s.
      rw (store_self p.page i p.tpaphys, ← w.maps.tpa_mapped, ← seg_mapped p seg i w e)
        (writes-back p.mmu tpaseg seg s (p.mmu seg) (p.mmu tpaseg)),
)
