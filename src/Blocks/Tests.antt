-- ===== src/Blocks/Tests.antt =====
-- The properties of the allocation vector, applied to a drive of 20 blocks whose vector starts at
-- byte 4 of the pool.
use commodore_900_cpm.Base.{ℕ, ◌≤◌, ◌<◌, ◌⊎◌, inr, true, false, not, ◌&&◌, ◌||◌, [], ◌∷◌, get_or}
use commodore_900_cpm.Base.{◌==◌, leb, u8, ◌≡◌, ◌↔◌, ◌*◌, refl, arith, if◌then◌else◌}
use commodore_900_cpm.Blocks.{Drive, setaloc, clraloc, getaloc, used}
use commodore_900_cpm.Blocks.Marks.{IsPool, marks_lem}
use commodore_900_cpm.Blocks.Take.{getaloc_lem}
use commodore_900_cpm.Blocks.FcbMap.{blknum-setblk}
use commodore_900_cpm.Blocks.Login.{
  Login, blknum, setblk, login_alloc, map_length, mark_map, unmark_map,
}
use commodore_900_cpm.Blocks.Rebuild.{unmark_map-mark_map}
use commodore_900_cpm.Blocks.Owned.{Owned, login_alloc-Owned}

abbrev small_drive : Drive
small_drive = record { alv = 4; dsm = 19 }

-- blocks 0 to 9 are marked
abbrev pool : ℕ → ℕ
pool i = u8 (get_or (9 ∷ 9 ∷ 9 ∷ 9 ∷ 255 ∷ 192 ∷ 0 ∷ 77 ∷ []) i 0)

pool-IsPool : IsPool pool
unfolding IsPool
pool-IsPool i = omega arith

-- no block but the directory's is marked
abbrev fresh : ℕ → ℕ
fresh i = if i == 4 then 128 else 0

fresh-IsPool : IsPool fresh
unfolding IsPool
fresh-IsPool i = ground arith

marks_lem_example :
    (used small_drive (setaloc small_drive 12 pool) 12
      ≡ ((12 == 12) && leb 12 19) || used small_drive pool 12)
    × (used small_drive (clraloc small_drive 12 pool) 12
        ≡ not ((12 == 12) && (not (12 == 0) && leb 12 19)) && used small_drive pool 12)
marks_lem_example = marks_lem small_drive 12 pool pool-IsPool 12

abbrev taken : ℕ
taken = 10

getaloc_lem_example :
    (((getaloc small_drive pool).block ≤ 19)
      × (used small_drive pool (getaloc small_drive pool).block ≡ false)
      × ((c : ℕ) → ((getaloc small_drive pool).block ≤ c) ⊎ (used small_drive pool c ≡ true))
      × ((c : ℕ)
          → used small_drive (getaloc small_drive pool).pool c
            ≡ ((getaloc small_drive pool).block == c) || used small_drive pool c))
    ⊎ (((getaloc small_drive pool).block ≡ 0xffff)
        × ((c : ℕ) → (19 < c) ⊎ (used small_drive pool c ≡ true))
        × ((getaloc small_drive pool).pool ≡ pool))
getaloc_lem_example = getaloc_lem small_drive pool pool-IsPool

blknum-setblk_example :
    (blknum (setblk pool 3 true 0x1234) 3 true ≡ 0x1234)
    × (blknum (setblk pool 3 true 0x1234) 2 true ≡ blknum pool 2 true)
blknum-setblk_example =
    blknum-setblk pool 3 2 0x1234 true (omega arith) (λ e. absurd (omega (arith, e)))

-- a file entry with blocks 5 and 6, and 200, which the drive does not have
abbrev entry : ℕ → ℕ
entry i =
    get_or
      (0 ∷ 65 ∷ 32 ∷ 32 ∷ 32 ∷ 32 ∷ 32 ∷ 32 ∷ 32 ∷ 32 ∷ 32 ∷ 32 ∷ 0 ∷ 0 ∷ 0 ∷ 9 ∷ 5 ∷ 6 ∷ 200 ∷ [])
      i 0

abbrev before : Login
before = record { pool = pool; hiwater = 0; drvlbl = 0; drvsfcb = 0 }

entry_bytes : (i : ℕ) → entry i < 256
entry_bytes i = ground arith

login_alloc-Owned_example :
    (used small_drive (login_alloc small_drive 7 0 (λ i. entry) (λ i. true) before).pool 5 ≡ true)
    ↔ ((5 * 4 ≤ 7) ⊎ Owned small_drive (λ i. entry) (λ i. true) 8 5)
login_alloc-Owned_example =
    login_alloc-Owned small_drive 7 0 (λ i. entry) (λ i. true) before 5 pool-IsPool
      (λ k. entry_bytes) (omega arith) (omega arith)

five_free : used small_drive fresh 5 ≡ false
unfolding used
five_free = refl

unmark_map-mark_map_example :
    used small_drive
      (unmark_map small_drive entry
        (map_length small_drive)
        (mark_map small_drive entry (map_length small_drive) fresh))
      5
    ≡ used small_drive fresh 5
unmark_map-mark_map_example =
    unmark_map-mark_map small_drive entry fresh 5 fresh-IsPool (omega arith)
      (λ e. absurd (omega (arith, e))) (inr five_free)
