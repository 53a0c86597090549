-- ===== src/Position/Records.antt =====
-- From a position in an extent to a block of the disk map and a sector: blkindx() and do_io() of
-- src/bdos/bdosrw.c.
use native.Mathlib.Nat.{mod-lt}
use commodore_900_cpm.Base.{
  ℕ, zero, suc, ◌+◌, ◌-◌, ◌*◌, ◌/◌, ◌%◌, ◌^◌, ◌<◌, bit_and, ◌==◌, ◌≡◌, refl, ap, ap₂, ◌∙◌, arith,
  ==_iff, ltb, ltb→lt,
}
use commodore_900_cpm.Base.Bits.{every_below, every_below_lem}
use commodore_900_cpm.Position.{Fcb, Shape, extent_off, cur_rec_off, blkindx, sector}

-- A disk whose blocks are 2^bsh records, and whose directory entries hold 2^k extents.
pub record IsShape (k : ℕ) (d : Shape) : Type 0 where
  pub shift : d.bsh < 8
  pub folding : k < 5
  pub block_mask : d.blm ≡ 2 ^ d.bsh - 1
  pub extent_mask : d.exm ≡ 2 ^ k - 1

mask_table : (n : ℕ) → n < 2048 → bit_and (n % 256) (2 ^ (n / 256) - 1) ≡ n % 256 % 2 ^ (n / 256)
unfolding every_below
mask_table n h = (==_iff _ _).0 (
    every_below_lem (λ x. bit_and (x % 256) (2 ^ (x / 256) - 1) == x % 256 % 2 ^ (x / 256)) n 2048 h
      refl)

low_bits : (x k : ℕ) → x < 256 → k < 8 → bit_and x (2 ^ k - 1) ≡ x % 2 ^ k
low_bits x k hx hk =
    let n = x + k * 256 in
    let low : n % 256 ≡ x = omega arith in
    let high : n / 256 ≡ k = omega arith in
    let t = mask_table n (omega arith) in rw (low, high) at t

-- A record number split at bit `b`, with `a` extents before it.
block_split : (b a c : ℕ) → b < 8 → (a * 2 ^ (7 - b) + c / 2 ^ b) * 2 ^ b + c % 2 ^ b ≡ a * 128 + c
block_split zero a c h = omega arith
block_split (suc zero) a c h = omega arith
block_split (suc (suc zero)) a c h = omega arith
block_split (suc (suc (suc zero))) a c h = omega arith
block_split (suc (suc (suc (suc zero)))) a c h = omega arith
block_split (suc (suc (suc (suc (suc zero))))) a c h = omega arith
block_split (suc (suc (suc (suc (suc (suc zero)))))) a c h = omega arith
block_split (suc (suc (suc (suc (suc (suc (suc zero))))))) a c h = omega arith
block_split (suc (suc (suc (suc (suc (suc (suc (suc b)))))))) a c h = absurd (omega arith)

rest_below : (b c : ℕ) → b < 8 → c % 2 ^ b < 2 ^ b
unfolding every_below
rest_below b c h =
    let some_power = ltb→lt 0 (2 ^ b) (every_below_lem (λ n. ltb 0 (2 ^ n)) b 8 h refl) in
    mod-lt c some_power

-- A position in a directory entry is the record `e * 128 + r` of it, for extent `e` of those that
-- the entry holds and record `r` of the extent. The entry's block that blkindx() gives and the
-- place in the block that do_io() takes from the record are that number's quotient and remainder
-- by the records of a block: two positions share a sector only if they are the same record. Blocks
-- are of 1 to 128 records, and an entry holds 1 to 16 extents.
pub blkindx-sector :
    (k : ℕ) (d : Shape) (f : Fcb)
    → IsShape k d
    → f extent_off < 256
    → f cur_rec_off < 128
    → (blkindx d f * 2 ^ d.bsh + sector d 0 (f cur_rec_off)
        ≡ f extent_off % 2 ^ k * 128 + f cur_rec_off)
      × (sector d 0 (f cur_rec_off) < 2 ^ d.bsh)
      × ((block : ℕ)
          → sector d block (f cur_rec_off) ≡ block * 2 ^ d.bsh + sector d 0 (f cur_rec_off))
unfolding blkindx sector
blkindx-sector k d f v he hc =
    let r = low_bits (f cur_rec_off) d.bsh (omega arith) v.shift in
    let x = low_bits (f extent_off) k he (omega (arith, v.folding)) in
    let place : bit_and (f cur_rec_off) d.blm ≡ f cur_rec_off % 2 ^ d.bsh =
      ap (bit_and (f cur_rec_off)) v.block_mask ∙ r in
    let part : bit_and (f extent_off) d.exm ≡ f extent_off % 2 ^ k =
      ap (bit_and (f extent_off)) v.extent_mask ∙ x in
    (
      ap₂
            (λ p q.
              (p * 2 ^ (7 - d.bsh) + f cur_rec_off / 2 ^ d.bsh) * 2 ^ d.bsh + (0 * 2 ^ d.bsh + q))
            part place
          ∙ omega (arith, block_split d.bsh (f extent_off % 2 ^ k) (f cur_rec_off) v.shift),
      omega (arith, place, rest_below d.bsh (f cur_rec_off) v.shift),
      λ block. omega arith,
    )
