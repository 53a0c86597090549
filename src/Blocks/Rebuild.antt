-- ===== src/Blocks/Rebuild.antt =====
-- After a login the allocation vector is that of the directory: the blocks marked are those of the
-- directory itself and those in the disk map of a file entry.
use commodore_900_cpm.Base.{
  ℕ, zero, suc, ◌+◌, ◌*◌, ◌/◌, ◌%◌, ◌≤◌, ◌<◌, Bool, false, not, ◌&&◌, ◌||◌,
}
use commodore_900_cpm.Base.{
  ◌==◌, ltb, leb, if◌then◌else◌, u16, ◌≡◌, ◌≢◌, ◌⊎◌, refl, ap, arith, Bool-cases, inl, inr,
}
use native.Mathlib.Decide.{ℕ_discrete}
use native.Mathlib.Nat.{div-add-mod'}
use commodore_900_cpm.Blocks.{Drive, setaloc, clraloc, used}
use commodore_900_cpm.Blocks.Marks.{
  IsPool, setaloc-IsPool, clraloc-IsPool, used-setaloc, used-clraloc,
}
use commodore_900_cpm.Blocks.Login.{
  Login, map_block, map_length, mark_map, unmark_map, alloc, clear_blocks, mark_directory,
  directory_blocks, alloc_entries, login_alloc, de_xfcb,
}

-- Is `c` one of the first `n` blocks of the map?
unfoldable pub in_map : Drive → (ℕ → ℕ) → ℕ → ℕ → Bool
in_map v d zero c = false
in_map v d (suc n) c = (map_block v d n == c) || in_map v d n c

-- Is `c` a block of one of the first `n` entries that could be read and are files?
unfoldable pub in_files : Drive → (ℕ → ℕ → ℕ) → (ℕ → Bool) → ℕ → ℕ → Bool
in_files v dir got zero c = false
in_files v dir got (suc n) c =
    (got n && (ltb (dir n 0) de_xfcb && in_map v (dir n) (map_length v) c))
    || in_files v dir got n c

module _ (v : Drive) where
  -- The pool after a loop is bytes, and a block of the drive is marked as said.
  mark_map_lem :
      (d : ℕ → ℕ) (n : ℕ) (pool : ℕ → ℕ)
      → IsPool pool
      → IsPool (mark_map v d n pool)
        × ((c : ℕ) → c ≤ v.dsm → used v (mark_map v d n pool) c ≡ in_map v d n c || used v pool c)
  unfolding mark_map in_map
  mark_map_lem d zero pool b = (b, λ c le. refl)
  mark_map_lem d (suc n) pool b =
      let rest = mark_map_lem d n pool b in
      let q = mark_map v d n pool in
      (
        setaloc-IsPool v (map_block v d n) q rest.0,
        λ c le.
            let m = used-setaloc v (map_block v d n) q rest.0 c in
            let e = rest.1 c le in ground (arith, m, e),
      )

  clear_blocks_lem :
      (n : ℕ) (pool : ℕ → ℕ)
      → IsPool pool
      → n ≤ v.dsm
      → IsPool (clear_blocks v n pool)
        × ((c : ℕ)
            → used v (clear_blocks v n pool) c ≡ not (leb c n && not (c == 0)) && used v pool c)
  unfolding clear_blocks
  clear_blocks_lem zero pool b le =
      (clraloc-IsPool v 0 pool b, λ c. let m = used-clraloc v 0 pool b c in ground (arith, m))
  clear_blocks_lem (suc n) pool b le =
      let q = clraloc v (suc n) pool in
      let rest = clear_blocks_lem n q (clraloc-IsPool v (suc n) pool b) (omega arith) in
      (
        rest.0,
        λ c. let m = used-clraloc v (suc n) pool b c in let e = rest.1 c in ground (arith, m, e),
      )

  mark_directory_lem :
      (n : ℕ) (pool : ℕ → ℕ)
      → IsPool pool
      → IsPool (mark_directory v n pool)
        × ((c : ℕ) → c ≤ v.dsm → used v (mark_directory v n pool) c ≡ ltb c n || used v pool c)
  unfolding mark_directory
  mark_directory_lem zero pool b = (b, λ c le. ground arith)
  mark_directory_lem (suc n) pool b =
      let rest = mark_directory_lem n (setaloc v n pool) (setaloc-IsPool v n pool b) in
      (
        rest.0,
        λ c le. let m = used-setaloc v n pool b c in let e = rest.1 c le in ground (arith, m, e),
      )

  unmark_map_lem :
      (d : ℕ → ℕ) (n : ℕ) (pool : ℕ → ℕ)
      → IsPool pool
      → (c : ℕ) → c ≤ v.dsm
      → used v (unmark_map v d n pool) c ≡ (not (in_map v d n c) || c == 0) && used v pool c
  unfolding unmark_map in_map
  unmark_map_lem d zero pool b c le = refl
  unmark_map_lem d (suc i) pool b c le =
      let q = clraloc v (map_block v d i) pool in
      let m = used-clraloc v (map_block v d i) pool b c in
      let e = unmark_map_lem d i q (clraloc-IsPool v (map_block v d i) pool b) c le in
      ground (arith, m, e)

  -- Of the entries only a file's touches the vector.
  alloc_pool :
      (d : ℕ → ℕ) (i : ℕ) (s : Login)
      → (alloc v d i s).pool
        ≡ (if ltb (d 0) de_xfcb then mark_map v d (map_length v) s.pool else s.pool)
  unfolding alloc
  alloc_pool d i s = ground arith

  alloc_lem :
      (d : ℕ → ℕ) (i : ℕ) (s : Login)
      → IsPool s.pool
      → IsPool (alloc v d i s).pool
        × ((c : ℕ)
            → c ≤ v.dsm
            → used v (alloc v d i s).pool c
              ≡ (ltb (d 0) de_xfcb && in_map v d (map_length v) c) || used v s.pool c)
  alloc_lem d i s b =
      let m = mark_map_lem d (map_length v) s.pool b in
      elim (Bool-cases (ltb (d 0) de_xfcb)) [
        | inl file ↦ simp (alloc_pool d i s, file) (m.0, λ c le. m.1 c le)
        | inr other ↦ simp (alloc_pool d i s, other) (b, λ c le. refl)
      ]

  alloc_entries_lem :
      (dir : ℕ → ℕ → ℕ) (got : ℕ → Bool) (n : ℕ) (s : Login)
      → IsPool s.pool
      → IsPool (alloc_entries v dir got n s).pool
        × ((c : ℕ)
            → c ≤ v.dsm
            → used v (alloc_entries v dir got n s).pool c
              ≡ in_files v dir got n c || used v s.pool c)
  unfolding alloc_entries in_files
  alloc_entries_lem dir got zero s b = (b, λ c le. refl)
  alloc_entries_lem dir got (suc n) s b =
      let rest = alloc_entries_lem dir got n s b in
      let last = alloc_lem (dir n) n (alloc_entries v dir got n s) rest.0 in
      elim (Bool-cases (got n)) [
        | inl read ↦
            simp read
              (last.0, λ c le. let e = rest.1 c le in let f = last.1 c le in ground (arith, e, f))
        | inr skipped ↦ simp skipped rest
      ]

-- The quotient and the remainder are not both zero.
directory_blocks_positive : (drm blm : ℕ) → drm < 0xffff → 1 ≤ directory_blocks drm blm
unfolding directory_blocks
directory_blocks_positive drm blm lt =
    let n = u16 (drm + 1) in
    let m = 4 * (blm + 1) in
    elim (ℕ_discrete (n / m) 0) [
      | yes e ↦
          let none = ap (λ (q : ℕ). q * m + n % m) e in
          let left : n % m ≢ 0 = λ z. omega (arith, none, div-add-mod' n m, lt, z) in
          ground (arith, left)
      | no ne ↦ ground (arith, ne)
    ]

-- The vector after a login, in the words of its loops.
pub login_alloc_lem :
    (v : Drive) (drm blm : ℕ) (dir : ℕ → ℕ → ℕ) (got : ℕ → Bool) (s : Login) (c : ℕ)
    → IsPool s.pool
    → drm < 0xffff
    → c ≤ v.dsm
    → used v (login_alloc v drm blm dir got s).pool c
      ≡ ltb c (directory_blocks drm blm) || in_files v dir got (drm + 1) c
unfolding login_alloc
login_alloc_lem v drm blm dir got s c b lt le =
    let cleared = clear_blocks_lem v v.dsm s.pool b (omega arith) in
    let marked =
      mark_directory_lem v (directory_blocks drm blm) (clear_blocks v v.dsm s.pool) cleared.0 in
    let files =
      alloc_entries_lem v dir got (drm + 1)
        (record s {
          drvlbl = 0;
          drvsfcb = 0;
          pool = mark_directory v (directory_blocks drm blm) (clear_blocks v v.dsm s.pool);
        })
        marked.0 in
    let some_block = directory_blocks_positive drm blm lt in
    let e = cleared.1 c in
    let f = marked.1 c le in let h = files.1 c le in ground (arith, e, f, h, some_block)

-- Freeing an entry's blocks, as delete does, undoes what alloc's loop marks: a block of the drive
-- other than 0 that is not in the entry's map, or was not marked before, is marked after the two
-- loops exactly when it was.
pub unmark_map-mark_map :
    (v : Drive) (d : ℕ → ℕ) (pool : ℕ → ℕ) (c : ℕ)
    → IsPool pool
    → c ≤ v.dsm
    → c ≢ 0
    → (in_map v d (map_length v) c ≡ false) ⊎ (used v pool c ≡ false)
    → used v (unmark_map v d (map_length v) (mark_map v d (map_length v) pool)) c ≡ used v pool c
unmark_map-mark_map v d pool c b le ne free =
    let marked = mark_map_lem v d (map_length v) pool b in
    let m = marked.1 c le in
    let u = unmark_map_lem v d (map_length v) (mark_map v d (map_length v) pool) marked.0 c le in
    ground (arith, m, u)
