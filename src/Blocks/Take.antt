-- ===== src/Blocks/Take.antt =====
-- getaloc() of src/bdos/dskutil.c: the first free block is taken, and nothing else changes.
use commodore_900_cpm.Base.{ℕ, zero, suc, ◌+◌, ◌-◌, ◌/◌, ◌≤◌, ◌<◌, true, false, not, ◌||◌}
use commodore_900_cpm.Base.{◌==◌, has, ◌≡◌, ◌⊎◌, inl, inr, refl, ap, ◌∙◌, arith, Bool-cases}
use native.Mathlib.Decide.{ℕ_discrete}
use commodore_900_cpm.Blocks.{Drive, block_mask, setaloc, clraloc, used, free_block_from, getaloc}
use commodore_900_cpm.Blocks.Masks.{mark_lem}
use commodore_900_cpm.Blocks.Marks.{IsPool, used-setaloc}

module _ (v : Drive) (b : ℕ) (pool : ℕ → ℕ) (i : ℕ) where
  setaloc_outside : (i < v.alv) ⊎ (v.alv + v.dsm / 8 < i) → setaloc v b pool i ≡ pool i
  unfolding setaloc
  setaloc_outside out = ground arith

  clraloc_outside : (i < v.alv) ⊎ (v.alv + v.dsm / 8 < i) → clraloc v b pool i ≡ pool i
  unfolding clraloc
  clraloc_outside out = ground arith

module _ (v : Drive) (pool : ℕ → ℕ) (bytes : IsPool pool) where
  -- getaloc's test is that the block is not marked.
  free_test : (i : ℕ) → has (0xffff - pool (v.alv + i / 8)) (block_mask i) ≡ not (used v pool i)
  unfolding used IsPool
  free_test i = (mark_lem (pool (v.alv + i / 8)) i i (bytes (v.alv + i / 8))).4

  free_block_from-found :
      (i left : ℕ)
      → used v pool i ≡ false
      → free_block_from v i (suc left) pool ≡ record { block = i; pool = setaloc v i pool }
  unfolding free_block_from
  free_block_from-found i left free = simp (free_test i, free) refl

  free_block_from-next :
      (i left : ℕ)
      → used v pool i ≡ true
      → free_block_from v i (suc left) pool ≡ free_block_from v (i + 1) left pool
  unfolding free_block_from
  free_block_from-next i left taken = simp (free_test i, taken) refl

  -- A marked block extends what has been looked at.
  look_on :
      {X : Type 0} (i c : ℕ)
      → used v pool i ≡ true
      → ((c < i + 1) ⊎ X) ⊎ (used v pool c ≡ true)
      → ((c < i) ⊎ X) ⊎ (used v pool c ≡ true)
  look_on i c taken (inr u) = inr u
  look_on i c taken (inl (inr x)) = inl (inr x)
  look_on i c taken (inl (inl lt)) = elim (ℕ_discrete c i) [
    | yes e ↦ inr (ap (used v pool) e ∙ taken)
    | no ne ↦ inl (inl (omega (arith, lt, ne)))
  ]

  free_block_from_lem :
      (i left : ℕ)
      → let r = free_block_from v i left pool in
        ((i ≤ r.block)
          × (r.block < i + left)
          × (used v pool r.block ≡ false)
          × ((c : ℕ) → ((c < i) ⊎ (r.block ≤ c)) ⊎ (used v pool c ≡ true))
          × (r.pool ≡ setaloc v r.block pool))
        ⊎ ((r.block ≡ 0xffff)
            × ((c : ℕ) → ((c < i) ⊎ (i + left ≤ c)) ⊎ (used v pool c ≡ true))
            × (r.pool ≡ pool))
  unfolding free_block_from
  free_block_from_lem i zero = inr (refl, λ c. ground arith, refl)
  free_block_from_lem i (suc left) =
      let rest = free_block_from_lem (i + 1) left in
      let past : (c : ℕ)
          → ((c < i + 1) ⊎ (i + 1 + left ≤ c)) ⊎ (used v pool c ≡ true)
          → ((c < i + 1) ⊎ (i + suc left ≤ c)) ⊎ (used v pool c ≡ true) =
        λ c h. ground (arith, h) in
      elim (Bool-cases (used v pool i)) [
        | inl taken ↦ simp (free_block_from-next i left taken) (elim rest [
          | inl r ↦
              inl (omega (arith, r.0), omega (arith, r.1), r.2, λ c. look_on i c taken (r.3 c), r.4)
          | inr r ↦ inr (r.0, λ c. look_on i c taken (past c (r.1 c)), r.2)
        ])
        | inr free ↦
            simp (free_block_from-found i left free)
              (inl (omega arith, omega arith, free, λ c. ground arith, refl))
      ]

  -- Either getaloc returns the lowest block, from 0 to dsm, that is not marked, and the blocks marked
  -- afterwards are that one and those marked before, or it returns 0xffff, every block is marked,
  -- and the pool is as it was.
  pub getaloc_lem :
      let r = getaloc v pool in
      ((r.block ≤ v.dsm)
        × (used v pool r.block ≡ false)
        × ((c : ℕ) → (r.block ≤ c) ⊎ (used v pool c ≡ true))
        × ((c : ℕ) → used v r.pool c ≡ (r.block == c) || used v pool c))
      ⊎ ((r.block ≡ 0xffff) × ((c : ℕ) → (v.dsm < c) ⊎ (used v pool c ≡ true)) × (r.pool ≡ pool))
  unfolding getaloc
  getaloc_lem = elim (free_block_from_lem 0 (v.dsm + 1)) [
    | inl r ↦
        let room : (free_block_from v 0 (v.dsm + 1) pool).block ≤ v.dsm = omega (arith, r.1) in
        inl (
          room,
          r.2,
          λ c. (let l = r.3 c in ground (arith, l)),
          λ c. simp (r.4) (
              let m = used-setaloc v (free_block_from v 0 (v.dsm + 1) pool).block pool bytes c in
              ground (arith, m, room)),
        )
    | inr r ↦ inr (r.0, λ c. (let l = r.1 c in ground (arith, l)), r.2)
  ]

  -- A byte of the pool outside this drive's vector, which is dsm/8 + 1 bytes long, is not written by
  -- setaloc, clraloc or getaloc, whatever block number the first two are given.
  pub pool_outside :
      (b i : ℕ)
      → (i < v.alv) ⊎ (v.alv + v.dsm / 8 < i)
      → (setaloc v b pool i ≡ pool i)
        × (clraloc v b pool i ≡ pool i)
        × ((getaloc v pool).pool i ≡ pool i)
  unfolding getaloc
  pool_outside b i out = (
    setaloc_outside v b pool i out,
    clraloc_outside v b pool i out,
    elim (free_block_from_lem 0 (v.dsm + 1)) [
      | inl r ↦ ap (λ (q : ℕ → ℕ). q i) r.4 ∙ setaloc_outside v _ pool i out
      | inr r ↦ ap (λ (q : ℕ → ℕ). q i) r.2
    ],
  )
