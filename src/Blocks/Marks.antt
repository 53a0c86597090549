-- ===== src/Blocks/Marks.antt =====
-- setaloc() and clraloc() of src/bdos/dskutil.c on the set of marked blocks and on the pool that
-- the drives share.
use commodore_900_cpm.Base.{ℕ, ◌+◌, ◌/◌, ◌%◌, ◌<◌, not, ◌&&◌, ◌||◌}
use commodore_900_cpm.Base.{◌==◌, leb, ◌≡◌, arith}
use native.Mathlib.Decide.{ℕ_discrete}
use commodore_900_cpm.Blocks.{Drive, setaloc, clraloc, used}
use commodore_900_cpm.Blocks.Masks.{mark_lem}

unfoldable pub IsPool : (ℕ → ℕ) → Type 0
IsPool pool = (i : ℕ) → pool i < 256

same_block : (b c : ℕ) → b / 8 ≡ c / 8 → (b % 8 == c % 8) ≡ (b == c)
same_block b c e = ground arith

module _ (v : Drive) (b : ℕ) (pool : ℕ → ℕ) (bytes : IsPool pool) where
  pub setaloc-IsPool : IsPool (setaloc v b pool)
  unfolding setaloc IsPool
  setaloc-IsPool i =
      let m = mark_lem (pool (v.alv + b / 8)) b b (bytes (v.alv + b / 8)) in
      ground (arith, m, bytes i)

  pub clraloc-IsPool : IsPool (clraloc v b pool)
  unfolding clraloc IsPool
  clraloc-IsPool i =
      let m = mark_lem (pool (v.alv + b / 8)) b b (bytes (v.alv + b / 8)) in
      ground (arith, m, bytes i)

  pub used-setaloc :
      (c : ℕ) → used v (setaloc v b pool) c ≡ ((b == c) && leb b v.dsm) || used v pool c
  unfolding setaloc used IsPool
  used-setaloc c =
      let m = (mark_lem (pool (v.alv + b / 8)) b c (bytes (v.alv + b / 8))).0 in
      elim (ℕ_discrete (b / 8) (c / 8)) [
        | yes e ↦ let s = same_block b c e in rw⁻¹ e (ground (arith, m, s))
        | no ne ↦ ground (arith, ne)
      ]

  pub used-clraloc :
      (c : ℕ)
      → used v (clraloc v b pool) c
        ≡ not ((b == c) && (not (b == 0) && leb b v.dsm)) && used v pool c
  unfolding clraloc used IsPool
  used-clraloc c =
      let m = (mark_lem (pool (v.alv + b / 8)) b c (bytes (v.alv + b / 8))).1 in
      elim (ℕ_discrete (b / 8) (c / 8)) [
        | yes e ↦ let s = same_block b c e in rw⁻¹ e (ground (arith, m, s))
        | no ne ↦ ground (arith, ne)
      ]

  -- On the set of marked blocks of a drive, setaloc puts one in and clraloc takes one out, but
  -- setaloc of a block above dsm, clraloc of one above dsm and clraloc of block 0 do nothing. The
  -- pool is bytes.
  pub marks_lem :
      (c : ℕ)
      → (used v (setaloc v b pool) c ≡ ((b == c) && leb b v.dsm) || used v pool c)
        × (used v (clraloc v b pool) c
            ≡ not ((b == c) && (not (b == 0) && leb b v.dsm)) && used v pool c)
  marks_lem c = (used-setaloc c, used-clraloc c)
