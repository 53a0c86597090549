-- ===== src/Pages/Release.antt =====
-- pgrelproc() and pgrelall() of src/bios/pgalloc.c: what a process that ends gives back.
use commodore_900_cpm.Base.{ℕ, zero, suc, ◌+◌, ◌≤◌, ◌<◌, ◌≡◌, inl, inr, refl, ◌∙◌}
use commodore_900_cpm.Base.{arith, not, ◌&&◌, leb, ltb}
use commodore_900_cpm.Base.{◌==◌, if◌then◌else◌, store_ne, u8, Bool, false, Bool-cases}
use native.Mathlib.Decide.{ℕ_discrete}
use commodore_900_cpm.Pages.{
  Pool, pgseg, tpaphyspage, max_slots, free_slot, pgfree, pgheld, pgtparest,
}
use commodore_900_cpm.Pages.{restore_slot, release_from, pgrelproc, pgrelall}
use commodore_900_cpm.Pages.Invariant.{IsWell}
use commodore_900_cpm.Pages.Keep.{pgfree-IsWell}
use commodore_900_cpm.Pages.Exchange.{pgtparest-home, pgtparest_ways}
use commodore_900_cpm.Pages.Alloc.{pgfree-owned}

-- Slot `j` of pool `p` is scratch of the running process.
abbrev pub is_scratch : Pool → ℕ → Bool
is_scratch p j = (p.own j == u8 (p.cur + 1)) && not (p.held j)

-- What releasing the slots of pool `p` from `k` up to `n` leaves.
pub record IsReleased (p q : Pool) (k n : ℕ) : Type 0 where
  pub own : (j : ℕ) → q.own j ≡ (if leb k j && ltb j n && is_scratch p j then 0 else p.own j)
  pub held : (j : ℕ) → q.held j ≡ p.held j
  pub page : q.page ≡ p.page
  pub tpaphys : q.tpaphys ≡ p.tpaphys
  pub nslot : q.nslot ≡ p.nslot
  pub cur : q.cur ≡ p.cur

-- One round of the loop.
release_one : Pool → ℕ → Pool
release_one p i = if is_scratch p i then (pgfree p (pgseg i)).1 else p

module _ (p : Pool) (i : ℕ) (f : p.nslot ≤ max_slots) (h : i < p.nslot) (c : p.cur < 255) where
  release_one-IsReleased : IsReleased p (release_one p i) i (i + 1)
  unfolding release_one free_slot
  release_one-IsReleased = elim (Bool-cases (is_scratch p i)) [
    | inl e ↦
        rw (e, release_one, pgfree-owned p i f h (ground arith))
          (record {
            own = λ j. elim (ℕ_discrete j i) [
              | yes z ↦ rw z (ground (arith, e))
              | no n ↦ ground arith
            ];
            held = λ j. elim (ℕ_discrete j i) [
              | yes z ↦ rw z (ground (arith, e))
              | no n ↦ store_ne p.held i false j n
            ];
            page = refl;
            tpaphys = refl;
            nslot = refl;
            cur = refl;
          })
    | inr e ↦
        rw (e, release_one)
          (record {
            own = λ j. elim (ℕ_discrete j i) [
              | yes z ↦ rw z (ground (arith, e))
              | no n ↦ ground arith
            ];
            held = λ j. refl;
            page = refl;
            tpaphys = refl;
            nslot = refl;
            cur = refl;
          })
  ]

-- Releasing one range of slots and then the next.
append-IsReleased :
    (p q r : Pool) (k m n : ℕ)
    → k ≤ m
    → m ≤ n
    → IsReleased p q k m
    → IsReleased q r m n
    → IsReleased p r k n
append-IsReleased p q r k m n km mn a b = record {
  own = λ j. appended_own j;
  held = λ j. b.held j ∙ a.held j;
  page = b.page ∙ a.page;
  tpaphys = b.tpaphys ∙ a.tpaphys;
  nslot = b.nslot ∙ a.nslot;
  cur = b.cur ∙ a.cur;
}
  where
    appended_own : (j : ℕ) → r.own j ≡ (if leb k j && ltb j n && is_scratch p j then 0 else p.own j)
    appended_own j = ground (arith, a.own j, b.own j, a.held j, a.cur)

next_round : (k rounds : ℕ) → k + suc rounds ≡ k + 1 + rounds
next_round k rounds = omega arith

release_from-IsReleased :
    (p : Pool) (rounds k : ℕ)
    → p.nslot ≤ max_slots
    → k + rounds ≤ p.nslot
    → p.cur < 255
    → IsReleased p (release_from p rounds k) k (k + rounds)
unfolding release_from release_one
release_from-IsReleased p zero k f h c = record {
  own = λ j. ground arith;
  held = λ j. refl;
  page = refl;
  tpaphys = refl;
  nslot = refl;
  cur = refl;
}
release_from-IsReleased p (suc rounds) k f h c =
    let q = release_one p k in
    let a = release_one-IsReleased p k f (omega arith) c in
    append-IsReleased p q (release_from q rounds (k + 1)) k (k + 1) (k + suc rounds) (omega arith)
      (omega arith) a
      (rw (next_round k rounds) (
        release_from-IsReleased q rounds (k + 1) (rw a.nslot f) (rw a.nslot (omega arith))
          (rw a.cur c)))

release_from-IsWell : (p : Pool) (rounds k : ℕ) → IsWell p → IsWell (release_from p rounds k)
unfolding release_from
release_from-IsWell p zero k w = w
release_from-IsWell p (suc rounds) k w = elim (Bool-cases (is_scratch p k)) [
  | inl e ↦
      rw (e, release_from)
        (release_from-IsWell (pgfree p (pgseg k)).1 rounds (k + 1) (pgfree-IsWell p (pgseg k) w))
  | inr e ↦ rw (e, release_from) (release_from-IsWell p rounds (k + 1) w)
]

zero_plus : (n : ℕ) → 0 + n ≡ n
zero_plus n = omega arith

-- Where the running process's index is below 255, pgrelproc() on a pool that satisfies the
-- invariant frees exactly the slots that the running process owns and does not hold: every other
-- slot keeps its owner, every slot its hold and its page, and the TPA its page; and the pool still
-- satisfies the invariant.
pub pgrelproc-IsReleased :
    (p : Pool)
    → p.cur < 255
    → IsWell p
    → IsReleased p (pgrelproc p) 0 p.nslot × IsWell (pgrelproc p)
unfolding pgrelproc
pgrelproc-IsReleased p c w = (
  rw (zero_plus p.nslot) at (release_from-IsReleased p p.nslot 0 w.fits (omega arith) c),
  release_from-IsWell p p.nslot 0 w,
)

pub pgrelproc-IsWell : (p : Pool) → IsWell p → IsWell (pgrelproc p)
unfolding pgrelproc
pgrelproc-IsWell p w = release_from-IsWell p p.nslot 0 w

pub pgrelall-IsWell : (p : Pool) → IsWell p → IsWell (pgrelall p)
unfolding pgrelall
pgrelall-IsWell p w = elim (Bool-cases (pgheld p)) [
  | inl e ↦ rw (e, pgrelall) (pgrelproc-IsWell p w)
  | inr e ↦ rw (e, pgrelall) (pgrelproc-IsWell (pgtparest p).1 (pgtparest-home p w).2)
]

-- Where the running process's index is below 255, pgrelall() on a pool that satisfies the invariant
-- leaves the TPA where it is while an owned slot is held and otherwise brings it back to its boot
-- page; either way it frees exactly the slots that the running process owns and does not hold,
-- and every slot keeps its hold.
pub pgrelall_lem :
    (p : Pool)
    → p.cur < 255
    → IsWell p
    → ((pgrelall p).tpaphys ≡ (if pgheld p then p.tpaphys else tpaphyspage))
      × ((j : ℕ) → (pgrelall p).own j ≡ (if ltb j p.nslot && is_scratch p j then 0 else p.own j))
      × ((j : ℕ) → (pgrelall p).held j ≡ p.held j)
unfolding pgrelall restore_slot
pgrelall_lem p c w = elim (Bool-cases (pgheld p)) [
  | inl e ↦
      let r = (pgrelproc-IsReleased p c w).0 in
      rw (e, pgrelall) (r.tpaphys, λ j. ground (arith, r.own j), r.held)
  | inr e ↦ elim (pgtparest_ways p w) [
    | inl (t, s) ↦
        let r = (pgrelproc-IsReleased p c w).0 in
        rw (e, pgrelall, s) (r.tpaphys ∙ t, λ j. ground (arith, r.own j), r.held)
    | inr (i, t, h, g, s) ↦
        let v = rw s at (pgtparest-home p w).2 in
        let r = (pgrelproc-IsReleased (restore_slot p i) c v).0 in
        rw (e, pgrelall, s) (r.tpaphys, λ j. ground (arith, r.own j), r.held)
  ]
]
