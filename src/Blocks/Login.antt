-- ===== src/Blocks/Login.antt =====
-- A drive login's work on the allocation vector: alloc() of src/bdos/fileio.c, called for every
-- directory entry, and the part of seldsk() that clears the vector and marks the directory.
-- drvlbl and drvsfcb are the two bytes of the drive being logged in.
use commodore_900_cpm.Base.{ℕ, zero, suc, ◌+◌, ◌*◌, ◌/◌, ◌%◌, ◌^◌, Bool, not}
use commodore_900_cpm.Base.{◌==◌, ltb, if◌then◌else◌, u16, u8, store, bit_and}
use commodore_900_cpm.Blocks.{Drive, setaloc, clraloc}

pub record Login : Type 0 where
  pub pool : ℕ → ℕ
  pub hiwater : ℕ
  pub drvlbl : ℕ
  pub drvsfcb : ℕ

abbrev pub de_xfcb : ℕ
de_xfcb = 0x10

abbrev pub de_label : ℕ
de_label = 0x20

abbrev pub de_sfcb : ℕ
de_sfcb = 0x21

-- The byte swapper, and `dskmap.big[i]`, which the machine reads high byte first.
unfoldable pub swap : ℕ → ℕ
swap w = w % 2 ^ 8 * 2 ^ 8 + w / 2 ^ 8

unfoldable pub big : (ℕ → ℕ) → ℕ → ℕ
big d i = d (16 + 2 * i) * 2 ^ 8 + d (17 + 2 * i)

-- The block numbers of an entry's disk map, in either of its two forms.
unfoldable pub map_block : Drive → (ℕ → ℕ) → ℕ → ℕ
map_block v d i = if ltb v.dsm 256 then d (16 + i) else swap (big d i)

unfoldable pub map_length : Drive → ℕ
map_length v = if ltb v.dsm 256 then 16 else 8

-- The two loops of alloc, up to block `n` of the map.
unfoldable pub mark_map : Drive → (ℕ → ℕ) → ℕ → (ℕ → ℕ) → ℕ → ℕ
mark_map v d zero pool = pool
mark_map v d (suc n) pool = setaloc v (map_block v d n) (mark_map v d n pool)

-- alloc, but for its call of dhadd, which does not touch this state.
unfoldable pub alloc : Drive → (ℕ → ℕ) → ℕ → Login → Login
alloc v d dirindx s =
    if d 0 == de_label
    then record s { drvlbl = d 12; hiwater = dirindx }
    else if d 0 == de_sfcb
    then record s { drvsfcb = 1 }
    else if not (ltb (d 0) de_sfcb)
    then s
    else if ltb (d 0) de_xfcb
    then record s { hiwater = dirindx; pool = mark_map v d (map_length v) s.pool }
    else record s { hiwater = dirindx }

-- `do clraloc(i); while (i--)`
unfoldable pub clear_blocks : Drive → ℕ → (ℕ → ℕ) → ℕ → ℕ
clear_blocks v zero pool = clraloc v 0 pool
clear_blocks v (suc i) pool = clear_blocks v i (clraloc v (suc i) pool)

-- `do setaloc(--i); while (i)`, entered with at least one block
unfoldable pub mark_directory : Drive → ℕ → (ℕ → ℕ) → ℕ → ℕ
mark_directory v zero pool = pool
mark_directory v (suc i) pool = mark_directory v i (setaloc v i pool)

-- The number of directory blocks, rounded up.
unfoldable pub directory_blocks : ℕ → ℕ → ℕ
directory_blocks drm blm =
    let i = u16 (drm + 1) / (4 * (blm + 1)) in
    let j = u16 (drm + 1) % (4 * (blm + 1)) in if not (j == 0) then i + 1 else i

-- `dirscan(alloc, NULL, 0x0e)`: alloc for each entry below `n` whose record dirget could read.
unfoldable pub alloc_entries : Drive → (ℕ → ℕ → ℕ) → (ℕ → Bool) → ℕ → Login → Login
alloc_entries v dir got zero s = s
alloc_entries v dir got (suc n) s =
    let u = alloc_entries v dir got n s in if got n then alloc v (dir n) n u else u

unfoldable pub login_alloc : Drive → ℕ → ℕ → (ℕ → ℕ → ℕ) → (ℕ → Bool) → Login → Login
login_alloc v drm blm dir got s = alloc_entries v dir got (drm + 1) (record s {
  drvlbl = 0;
  drvsfcb = 0;
  pool = mark_directory v (directory_blocks drm blm) (clear_blocks v v.dsm s.pool);
})

-- The two loops of delete that free an entry's blocks, the last of the map first.
unfoldable pub unmark_map : Drive → (ℕ → ℕ) → ℕ → (ℕ → ℕ) → ℕ → ℕ
unmark_map v d zero pool = pool
unmark_map v d (suc i) pool = unmark_map v d i (clraloc v (map_block v d i) pool)

-- blknum and setblk of src/bdos/bdosrw.c, on the bytes of an FCB. `s2 &= 0x7f` clears the write
-- flag; the big map is written high byte first.
unfoldable pub blknum : (ℕ → ℕ) → ℕ → Bool → ℕ
blknum fcb index wrdfcb = if wrdfcb then swap (big fcb index) else fcb (16 + index)

unfoldable pub setblk : (ℕ → ℕ) → ℕ → Bool → ℕ → ℕ → ℕ
setblk fcb index wrdfcb block =
    let cleared = store fcb 14 (bit_and (fcb 14) 0x7f) in
    if wrdfcb
    then store (store cleared (16 + 2 * index) (swap block / 2 ^ 8)) (17 + 2 * index)
        (swap block % 2 ^ 8)
    else store cleared (16 + index) (u8 block)
