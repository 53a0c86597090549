-- ===== src/Pages/Alloc.antt =====
-- pgalloc() and pgcount() of src/bios/pgalloc.c: which slot an allocation takes, and what a release
-- gives back.
use commodore_900_cpm.Base.{
  ℕ, zero, suc, ◌+◌, ◌≤◌, ◌<◌, ◌≡◌, ◌≢◌, ◌⊎◌, inl, inr, refl, sym, ◌∙◌, fun_ext,
}
use commodore_900_cpm.Base.{ap, arith, none, some, Option-cases}
use commodore_900_cpm.Base.{◌==◌, store, store_self, store_ne, u8, Bool, true, false, Bool-cases}
use native.Mathlib.Decide.{ℕ_discrete}
use commodore_900_cpm.Pages.{Pool, pgseg, max_slots}
use commodore_900_cpm.Pages.{first_free, take_slot, pgalloc, count_free, pgcount}
use commodore_900_cpm.Pages.{valid_slot, free_slot, pgfree}
use commodore_900_cpm.Pages.Segments.{pgslot-pgseg, pgseg_bounds}
use commodore_900_cpm.Pages.Keep.{first_free-some}

-- The search fails just where nothing is free, and passes only taken slots.
first_free-none : (own : ℕ → ℕ) (n k : ℕ) → first_free own n k ≡ none → count_free own n k ≡ 0
unfolding first_free count_free
first_free-none own zero k e = refl
first_free-none own (suc n) k e = elim (Bool-cases (own k == 0)) [
  | inl z ↦ ground arith
  | inr z ↦ ground (arith, first_free-none own n (k + 1))
]

first_free-first :
    (own : ℕ → ℕ) (n k i j : ℕ) → first_free own n k ≡ some i → k ≤ j → j < i → own j ≢ 0
unfolding first_free
first_free-first own zero k i j e p q z = ground arith
first_free-first own (suc n) k i j e p q z = elim (Bool-cases (own k == 0)) [
  | inl y ↦ ground arith
  | inr y ↦ elim (ℕ_discrete k j) [
    | yes s ↦ ground arith
    | no t ↦ first_free-first own n (k + 1) i j (ground arith) (omega arith) q z
  ]
]

-- Counting does not see a slot outside its range, and a slot that is taken is one less.
count_free-outside :
    (own : ℕ → ℕ) (v n k i : ℕ) → i < k → count_free (store own i v) n k ≡ count_free own n k
unfolding count_free
count_free-outside own v zero k i h = refl
count_free-outside own v (suc n) k i h =
    rw (count_free-outside own v n (k + 1) i (omega arith), store_ne own i v k (λ e. omega arith))
      refl

count_free-taken :
    (own : ℕ → ℕ) (v n k i : ℕ)
    → own i ≡ 0
    → v ≢ 0
    → k ≤ i
    → i < k + n
    → count_free (store own i v) n k + 1 ≡ count_free own n k
unfolding count_free
count_free-taken own v zero k i z o p q = omega arith
count_free-taken own v (suc n) k i z o p q = elim (ℕ_discrete k i) [
  | yes s ↦ ground (arith, count_free-outside own v n (k + 1) i)
  | no t ↦ ground (arith, count_free-taken own v n (k + 1) i z o)
]

segment_not_zero : (i : ℕ) → i < max_slots → pgseg i ≢ 0
segment_not_zero i h e = omega (arith, (pgseg_bounds i h).0)

-- What an allocation of slot `i` makes of pool `p`: pool `q` and the answer `seg`.
pub record IsAllocated (p q : Pool) (seg i : ℕ) : Type 0 where
  pub in_pool : i < p.nslot
  pub was_free : p.own i ≡ 0
  pub first : (j : ℕ) → j < i → p.own j ≢ 0
  pub segment : seg ≡ pgseg i
  pub owned : q.own i ≡ p.cur + 1
  pub others : (j : ℕ) → j ≢ i → q.own j ≡ p.own j
  pub count : pgcount q + 1 ≡ pgcount p
  pub rest : (q.held ≡ p.held) × (q.page ≡ p.page) × (q.tpaphys ≡ p.tpaphys) × (q.cur ≡ p.cur)
  pub slots : q.nslot ≡ p.nslot

take_slot-IsAllocated :
    (p : Pool) (i : ℕ)
    → p.cur < 255
    → first_free p.own p.nslot 0 ≡ some i
    → IsAllocated p (take_slot p i).1 (take_slot p i).0 i
unfolding take_slot pgcount
take_slot-IsAllocated p i c e =
    let s = first_free-some p.own p.nslot 0 i e in
    record {
      in_pool = omega (arith, s.2);
      was_free = s.0;
      first = λ j h. first_free-first p.own p.nslot 0 i j e (omega arith) h;
      segment = refl;
      owned = store_self p.own i (u8 (p.cur + 1)) ∙ omega arith;
      others = λ j n. store_ne p.own i (u8 (p.cur + 1)) j n;
      count =
          count_free-taken p.own (u8 (p.cur + 1)) p.nslot 0 i s.0 (λ z. omega arith) (omega arith)
            s.2;
      rest = (refl, refl, refl, refl);
      slots = refl;
    }

-- Where the running process's index is below 255 (the owner is kept in a byte), pgalloc() fails,
-- and changes nothing, only when pgcount() is 0; otherwise it answers the segment of the first free
-- slot, which is not 0, makes the running process the owner of that slot and of no other, leaves
-- every other slot's owner and all holds and pages, and leaves one slot less to count.
pub pgalloc_lem :
    (p : Pool)
    → p.cur < 255
    → p.nslot ≤ max_slots
    → ((pgcount p ≡ 0) × (pgalloc p ≡ (0, p)))
      ⊎ ((i : ℕ) × IsAllocated p (pgalloc p).1 (pgalloc p).0 i × ((pgalloc p).0 ≢ 0))
unfolding pgalloc pgcount
pgalloc_lem p c f = elim (Option-cases (first_free p.own p.nslot 0)) [
  | inl e ↦ inl (first_free-none p.own p.nslot 0 e, rw (e, pgalloc) refl)
  | inr (i, e) ↦
      let a = take_slot-IsAllocated p i c e in
      inr (
        rw (e, pgalloc)
          (i, a, λ z. segment_not_zero i (omega (arith, a.in_pool, f)) (sym a.segment ∙ z)))
]

-- The slot of an owned slot's segment.
pub valid_slot-owned :
    (p : Pool) (i : ℕ)
    → p.nslot ≤ max_slots
    → i < p.nslot
    → p.own i ≢ 0
    → valid_slot p (pgseg i) ≡ some i
unfolding valid_slot
valid_slot-owned p i f h o = rw ((pgslot-pgseg i 0 (omega arith)).0, valid_slot) (ground arith)

pub pgfree-owned :
    (p : Pool) (i : ℕ)
    → p.nslot ≤ max_slots
    → i < p.nslot
    → p.own i ≢ 0
    → pgfree p (pgseg i) ≡ (true, free_slot p (pgseg i) i)
unfolding pgfree
pgfree-owned p i f h o = rw (valid_slot-owned p i f h o, pgfree) refl

-- An allocation whose segment is given back at once.
unfoldable pub alloc_then_free : Pool → Bool × Pool
alloc_then_free p = pgfree (pgalloc p).1 (pgalloc p).0

alloc_then_free-some :
    (p q : Pool) (seg i : ℕ)
    → p.nslot ≤ max_slots
    → IsAllocated p q seg i
    → (pgfree q seg ≡ (true, free_slot q (pgseg i) i))
      × ((j : ℕ) → (free_slot q (pgseg i) i).own j ≡ p.own j)
      × ((j : ℕ) → p.own j ≢ 0 → (free_slot q (pgseg i) i).held j ≡ p.held j)
      × ((free_slot q (pgseg i) i).nslot ≡ p.nslot)
unfolding free_slot
alloc_then_free-some p q seg i f a =
    let q_owns : q.own i ≢ 0 = λ z. omega (arith, a.owned, z) in
    (
      rw a.segment (pgfree-owned q i (rw a.slots f) (rw a.slots a.in_pool) q_owns),
      λ j. elim (ℕ_discrete j i) [
        | yes e ↦ rw e (store_self q.own i 0 ∙ sym a.was_free)
        | no n ↦ store_ne q.own i 0 j n ∙ a.others j n
      ],
      λ j o. elim (ℕ_discrete j i) [
        | yes e ↦ absurd (o (ap p.own e ∙ a.was_free))
        | no n ↦ store_ne q.held i false j n ∙ ap (λ (h : ℕ → Bool). h j) a.rest.0
      ],
      a.slots,
    )

-- Where the running process's index is below 255 and the pool has at most PGNSLOT slots, of which
-- one is free, pgfree() accepts the segment that pgalloc() answers, and the pool is then as before:
-- every owner, the count of free slots, and the hold of every slot that was owned.
pub pgfree-pgalloc :
    (p : Pool)
    → p.cur < 255
    → p.nslot ≤ max_slots
    → pgcount p ≢ 0
    → ((alloc_then_free p).0 ≡ true)
      × ((j : ℕ) → (alloc_then_free p).1.own j ≡ p.own j)
      × (pgcount (alloc_then_free p).1 ≡ pgcount p)
      × ((j : ℕ) → (p.own j ≡ 0) ⊎ ((alloc_then_free p).1.held j ≡ p.held j))
unfolding alloc_then_free pgcount
pgfree-pgalloc p c f n = elim (pgalloc_lem p c f) [
  | inl (z, _) ↦ absurd (n z)
  | inr (i, a, _) ↦
      let s = alloc_then_free-some p (pgalloc p).1 (pgalloc p).0 i f a in
      rw s.0 (
        refl,
        s.1,
        rw s.3 (ap (λ (f : ℕ → ℕ). count_free f p.nslot 0) (fun_ext s.1)),
        λ j. elim (ℕ_discrete (p.own j) 0) [ yes z ↦ inl z | no z ↦ inr (s.2 j z) ],
      )
]
