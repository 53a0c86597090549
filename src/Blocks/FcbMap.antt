-- ===== src/Blocks/FcbMap.antt =====
-- The block numbers of an FCB's disk map, blknum() and setblk() of src/bdos/bdosrw.c.
use commodore_900_cpm.Base.{ℕ, ◌<◌, ◌≢◌, Bool, true, false, if◌then◌else◌}
use commodore_900_cpm.Base.{◌≡◌, arith}
use commodore_900_cpm.Blocks.Login.{swap, big, blknum, setblk}

-- A block number put into an FCB's disk map is the one read back from its place, in the map of words
-- for any 16-bit number and in the map of bytes for a number below 256, and every other place of the
-- map still gives the number that it gave.
pub blknum-setblk :
    (fcb : ℕ → ℕ) (index other block : ℕ) (wrdfcb : Bool)
    → block < (if wrdfcb then 0x10000 else 0x100)
    → other ≢ index
    → (blknum (setblk fcb index wrdfcb block) index wrdfcb ≡ block)
      × (blknum (setblk fcb index wrdfcb block) other wrdfcb ≡ blknum fcb other wrdfcb)
unfolding blknum setblk swap big
blknum-setblk fcb index other block true lt ne = (ground arith, ground arith)
blknum-setblk fcb index other block false lt ne = (ground arith, ground arith)
