-- ===== src/Blocks.antt =====
-- The allocation vector of a drive: setaloc(), clraloc() and getaloc() of src/bdos/dskutil.c, and
-- what alloc() and seldsk() of src/bdos/fileio.c do with it when a drive is logged in.
-- Every drive's vector is a part of one pool of bytes, alvpool of src/bios/bios900.c; `alv` is its
-- place there. dsm is the last block of the drive, at most 0xfffe.
pub mod Masks
pub mod Marks
pub mod Take
mod Tests
pub mod FcbMap
pub mod Login
pub mod Rebuild
pub mod Owned
use commodore_900_cpm.Base.{
  ℕ, zero, suc, ◌+◌, ◌-◌, ◌*◌, ◌/◌, ◌%◌, ◌^◌, Bool, true, false, not, ◌&&◌, ◌||◌,
}
use commodore_900_cpm.Base.{◌==◌, ltb, leb, if◌then◌else◌, u16, u8, has, store, bit_and, bit_or}

-- What the routines read of the drive's `struct dph` and `struct dpb`.
pub record Drive : Type 0 where
  pub alv : ℕ
  pub dsm : ℕ

-- `0x80 >> (b & 7)`
abbrev pub block_mask : ℕ → ℕ
block_mask b = 0x80 / 2 ^ (b % 8)

unfoldable pub setaloc : Drive → ℕ → (ℕ → ℕ) → ℕ → ℕ
setaloc v bitnum pool =
    let p = v.alv + bitnum / 8 in
    if ltb v.dsm bitnum then pool else store pool p (bit_or (pool p) (block_mask bitnum))

unfoldable pub clraloc : Drive → ℕ → (ℕ → ℕ) → ℕ → ℕ
clraloc v bitnum pool =
    let p = v.alv + bitnum / 8 in
    if not (bitnum == 0) && leb bitnum v.dsm
    then store pool p (bit_and (pool p) (0xff - block_mask bitnum))
    else pool

-- A block number, and the pool.
pub record Taken : Type 0 where
  pub block : ℕ
  pub pool : ℕ → ℕ

-- The loop of getaloc from block `i`, with `left` blocks to look at.
unfoldable pub free_block_from : Drive → ℕ → ℕ → (ℕ → ℕ) → Taken
free_block_from v i zero pool = record { block = 0xffff; pool = pool }
free_block_from v i (suc left) pool =
    if has (0xffff - pool (v.alv + i / 8)) (block_mask i)
    then record { block = i; pool = setaloc v i pool }
    else free_block_from v (i + 1) left pool

unfoldable pub getaloc : Drive → (ℕ → ℕ) → Taken
getaloc v pool = free_block_from v 0 (v.dsm + 1) pool

-- Is block `b` marked?
unfoldable pub used : Drive → (ℕ → ℕ) → ℕ → Bool
used v pool b = has (pool (v.alv + b / 8)) (block_mask b)
