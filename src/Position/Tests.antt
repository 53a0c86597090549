-- ===== src/Position/Tests.antt =====
-- Positions at concrete FCBs.
use commodore_900_cpm.Base.{ℕ, ◌+◌, ◌*◌, ◌<◌, bit_and, true, false, store, ◌≡◌, ◌≢◌, refl, arith}
use commodore_900_cpm.Position.{
  Fcb, Shape, Calls, extent_off, s2_off, cur_rec_off, ran_off, at_least, target, setran, blkindx,
  sector, new_ext, incr_rr, get_random, put_random, get_rc,
}
use commodore_900_cpm.Position.Random.{random_there, random_astray}
use commodore_900_cpm.Position.Records.{blkindx-sector}

-- An FCB at module `m`, extent 5, record 9.
abbrev at_module : ℕ → Fcb
at_module m = store (store (store (λ i. 0) s2_off m) extent_off 5) cur_rec_off 9

-- The hard disk's shape: blocks of 32 records, two extents to an entry.
abbrev hard_disk : Shape
hard_disk = record { bsh = 5; blm = 31; exm = 1; dsm = 1000 }

random_there_example :
    (target true (setran (at_module 3)) ≡ record { module_no = 3; extent_no = 5 })
    × (bit_and (setran (at_module 3) (ran_off + 2)) 0x7f ≡ 9)
random_there_example = random_there (at_module 3) (omega arith) (omega arith)

-- Record 33417, four megabytes into a file.
random_astray_example :
    ((target true (setran (at_module 8))).module_no ≡ 0xf8)
    × (at_least (target true (setran (at_module 8))).module_no 64 ≡ false)
    × (bit_and (target true (setran (at_module 8))).module_no 0x3f ≢ 8)
random_astray_example = random_astray (at_module 8) (omega arith) (omega arith) (omega arith)

blkindx-sector_example :
    (blkindx hard_disk (at_module 3) * 32 + sector hard_disk 0 9 ≡ 137)
    × (sector hard_disk 0 9 < 32)
    × ((block : ℕ) → sector hard_disk block 9 ≡ block * 32 + sector hard_disk 0 9)
blkindx-sector_example =
    blkindx-sector 1 hard_disk (at_module 3) (omega arith) (omega arith) (omega arith)

-- Nothing is found, and closing succeeds.
abbrev nothing_there : Calls ℕ
nothing_there = record {
  close_fi = λ f s. (0, f, s + 1);
  open_scan = λ f s. (255, f, s + 1);
  create_scan = λ f s. (255, f, s + 1);
}

reads_unwritten : (new_ext nothing_there hard_disk true false (at_module 3) 0).0 ≡ 4
unfolding new_ext
reads_unwritten = refl

counts_up : get_random (incr_rr (put_random 0x1ffff (λ i. 0))) ≡ 0x20000
unfolding get_random incr_rr put_random
counts_up = refl

full_extent : get_rc hard_disk (store (at_module 3) 31 1) ≡ 0
unfolding get_rc
full_extent = refl
