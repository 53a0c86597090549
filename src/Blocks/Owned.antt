-- ===== src/Blocks/Owned.antt =====
-- The allocation vector after a login (seldsk() and alloc() of src/bdos/fileio.c) against the format
-- of the directory: 32-byte entries, four to a record, whose bytes from 16 on are sixteen block
-- numbers of a byte, or eight of a word, low byte first, on a drive of more than 256 blocks.
use mathlib.Core.Path.{subst}
use native.Mathlib.Decide.{ℕ_discrete}
use native.Mathlib.Nat.{div-add-mod', mul-le-mul_right, mod-lt}
use commodore_900_cpm.Base.{
  ℕ, zero, suc, ◌+◌, ◌*◌, ◌/◌, ◌%◌, ◌^◌, ◌≤◌, ◌<◌, Bool, true, false, ltb, u16, ◌≡◌, ◌⊎◌, ◌↔◌, refl,
  ap, sym, ◌∙◌, arith, Bool-cases, inl, inr,
}
use commodore_900_cpm.Blocks.{Drive, used}
use commodore_900_cpm.Blocks.Marks.{IsPool}
use commodore_900_cpm.Blocks.Login.{
  Login, map_block, map_length, swap, big, directory_blocks, login_alloc,
}
use commodore_900_cpm.Blocks.Rebuild.{in_map, in_files, login_alloc_lem}

-- Block `c` is named by the map of entry `d`.
abbrev pub Names : Drive → (ℕ → ℕ) → ℕ → Type 0
Names v d c =
    ((v.dsm < 256) × (k : ℕ) × (k < 16) × (c ≡ d (16 + k)))
    ⊎ ((256 ≤ v.dsm) × (k : ℕ) × (k < 8) × (c ≡ d (16 + 2 * k) + d (17 + 2 * k) * 256))

-- Block `c` is named by one of the first `n` entries that could be read, of a file.
abbrev pub Owned : Drive → (ℕ → ℕ → ℕ) → (ℕ → Bool) → ℕ → ℕ → Type 0
Owned v dir got n c = (k : ℕ) × (k < n) × (got k ≡ true) × (dir k 0 < 16) × Names v (dir k) c

swap_word : (hi lo : ℕ) → hi < 256 → lo < 256 → swap (lo * 2 ^ 8 + hi) ≡ lo + hi * 256
unfolding swap
swap_word hi lo a b = omega arith

-- A block of the first `n` map entries, in the words of the loops.
in_map_iff :
    (v : Drive) (d : ℕ → ℕ) (n c : ℕ)
    → (in_map v d n c ≡ true) ↔ ((k : ℕ) × (k < n) × (c ≡ map_block v d k))
unfolding in_map
in_map_iff v d zero c = (λ e. absurd (ground arith), λ q. absurd (omega (arith, q.1)))
in_map_iff v d (suc n) c =
    let rest = in_map_iff v d n c in
    (
      λ e. elim (ℕ_discrete (map_block v d n) c) [
        | yes same ↦ (n, omega arith, omega (arith, same))
        | no other ↦ let (k, lt, here) = rest.0 (ground arith) in (k, omega arith, here)
      ],
      λ q.
          let (k, lt, here) = q in
          elim (ℕ_discrete k n) [
            | yes last ↦ let block = ap (map_block v d) last in ground (arith, block, here)
            | no before ↦ let more = rest.1 (k, omega arith, here) in ground (arith, more)
          ],
    )

small_block : (v : Drive) (d : ℕ → ℕ) (k : ℕ) → ltb v.dsm 256 ≡ true → map_block v d k ≡ d (16 + k)
unfolding map_block
small_block v d k e = rw e refl

large_block :
    (v : Drive) (d : ℕ → ℕ) (k : ℕ)
    → ((i : ℕ) → d i < 256)
    → ltb v.dsm 256 ≡ false
    → map_block v d k ≡ d (16 + 2 * k) + d (17 + 2 * k) * 256
unfolding map_block big
large_block v d k bytes e =
    rw e (swap_word (d (17 + 2 * k)) (d (16 + 2 * k)) (bytes (17 + 2 * k)) (bytes (16 + 2 * k)))

-- The loops go over the map that the drive has.
map_length_small : (v : Drive) → ltb v.dsm 256 ≡ true → map_length v ≡ 16
unfolding map_length
map_length_small v e = rw e refl

map_length_large : (v : Drive) → ltb v.dsm 256 ≡ false → map_length v ≡ 8
unfolding map_length
map_length_large v e = rw e refl

map_iff :
    (v : Drive) (d : ℕ → ℕ) (c : ℕ)
    → ((i : ℕ) → d i < 256)
    → (in_map v d (map_length v) c ≡ true) ↔ Names v d c
map_iff v d c bytes = elim (Bool-cases (ltb v.dsm 256)) [
  | inl small ↦
      let n = map_length_small v small in
      let found = in_map_iff v d (map_length v) c in
      (
        λ e.
            let (k, lt, here) = found.0 e in
            inl (ground arith, k, omega (arith, n), here ∙ small_block v d k small),
        λ q. elim q [
          | inl r ↦ found.1 (r.1, omega (arith, n, r.2), r.3 ∙ sym (small_block v d r.1 small))
          | inr r ↦ absurd (ground (arith, r.0))
        ],
      )
  | inr large ↦
      let n = map_length_large v large in
      let found = in_map_iff v d (map_length v) c in
      (
        λ e.
            let (k, lt, here) = found.0 e in
            inr (ground arith, k, omega (arith, n), here ∙ large_block v d k bytes large),
        λ q. elim q [
          | inl r ↦ absurd (ground (arith, r.0))
          | inr r ↦
              found.1 (r.1, omega (arith, n, r.2), r.3 ∙ sym (large_block v d r.1 bytes large))
        ],
      )
]

files_iff :
    (v : Drive) (dir : ℕ → ℕ → ℕ) (got : ℕ → Bool) (n c : ℕ)
    → ((k i : ℕ) → dir k i < 256)
    → (in_files v dir got n c ≡ true) ↔ Owned v dir got n c
unfolding in_files
files_iff v dir got zero c bytes = (λ e. absurd (ground arith), λ q. absurd (omega (arith, q.1)))
files_iff v dir got (suc n) c bytes =
    let rest = files_iff v dir got n c bytes in
    let last = map_iff v (dir n) c (bytes n) in
    (
      λ e. elim (Bool-cases (in_files v dir got n c)) [
        | inl old ↦ let r = rest.0 old in (r.0, omega (arith, r.1), r.2, r.3, r.4)
        | inr new ↦ (n, omega arith, ground arith, ground arith, last.0 (ground arith))
      ],
      λ q.
          let (k, lt, read, file, named) = q in
          elim (ℕ_discrete k n) [
            | yes here ↦
                let file_here = ap (λ j. dir j 0) here in
                let read_here = ap got here in
                let map_here = last.1 (subst (λ j. Names v (dir j) c) here named) in
                ground (arith, file_here, read_here, map_here, read, file)
            | no before ↦
                let old = rest.1 (k, omega arith, read, file, named) in ground (arith, old)
          ],
    )

-- The directory's own blocks are those that an entry's number falls into.
directory_iff :
    (drm blm c : ℕ)
    → drm < 0xffff
    → (ltb c (directory_blocks drm blm) ≡ true) ↔ (c * (4 * (blm + 1)) ≤ drm)
unfolding directory_blocks
directory_iff drm blm c lt =
    let n = u16 (drm + 1) in
    let m = 4 * (blm + 1) in
    let all = div-add-mod' n m in
    let part = mod-lt n {m = m} (omega arith) in
    elim (ℕ_discrete (n % m) 0) [
      | yes e ↦ (
        λ h.
            let up = mul-le-mul_right {m = c + 1} {n = n / m} m (ground arith) in
            omega (arith, all, up, e),
        λ h. elim (Bool-cases (ltb c (n / m))) [
          | inl less ↦ ground arith
          | inr more ↦
              let up = mul-le-mul_right {m = n / m} {n = c} m (ground arith) in
              absurd (omega (arith, all, up, e))
        ],
      )
      | no ne ↦ (
        λ h.
            let up = mul-le-mul_right {m = c} {n = n / m} m (ground arith) in
            omega (arith, all, up, ne),
        λ h. elim (Bool-cases (ltb c (n / m + 1))) [
          | inl less ↦ ground arith
          | inr more ↦
              let up = mul-le-mul_right {m = n / m + 1} {n = c} m (ground arith) in
              absurd (omega (arith, all, part, up))
        ],
      )
    ]

-- A login makes the allocation vector that of the directory, whatever it was before: a block of the
-- drive is marked exactly when it holds a directory entry, of which there are drm + 1 and
-- 4 * (blm + 1) to a block, or is named by the disk map of an entry with a user number below 10h,
-- of those whose record could be read. A map is sixteen bytes on a drive of at most 256 blocks and
-- eight words, low byte first, on a larger one. The vector and the entries are bytes, and drm is
-- below FFFFh.
pub login_alloc-Owned :
    (v : Drive) (drm blm : ℕ) (dir : ℕ → ℕ → ℕ) (got : ℕ → Bool) (s : Login) (c : ℕ)
    → IsPool s.pool
    → ((k i : ℕ) → dir k i < 256)
    → drm < 0xffff
    → c ≤ v.dsm
    → (used v (login_alloc v drm blm dir got s).pool c ≡ true)
      ↔ ((c * (4 * (blm + 1)) ≤ drm) ⊎ Owned v dir got (drm + 1) c)
login_alloc-Owned v drm blm dir got s c b bytes lt le =
    let e = login_alloc_lem v drm blm dir got s c b lt le in
    let own = directory_iff drm blm c lt in
    let files = files_iff v dir got (drm + 1) c bytes in
    (
      λ u. elim (Bool-cases (ltb c (directory_blocks drm blm))) [
        | inl here ↦ inl (own.0 here)
        | inr no_dir ↦ inr (files.0 (ground (arith, e)))
      ],
      λ q. elim q [
        | inl here ↦ let h = own.1 here in ground (arith, e, h)
        | inr named ↦ let h = files.1 named in ground (arith, e, h)
      ],
    )
