-- ===== src/Directory/Unread.antt =====
-- A login by seldsk that cannot read a record of the directory, and the signature table of
-- src/bdos/dskhash.c after it.
use commodore_900_cpm.Base.{ℕ, zero, suc, ◌+◌, ◌<◌, Bool, true, false}
use commodore_900_cpm.Base.{◌≡◌, ◌≢◌, refl, ◌⊎◌, inl, inr, arith, Bool-cases}
use commodore_900_cpm.Directory.{
  Bytes, Gbl, Hash, dhmax, dhset, dhadd, dhopen, dhdone, add_entries, login_hash,
}
use commodore_900_cpm.Directory.Table.{add_entries_words}

-- The tables agree on signature `j`.
unfoldable SameSignature : Hash → Hash → ℕ → Type 0
SameSignature t u j = (t.usr j ≡ u.usr j) × (t.nam j ≡ u.nam j) × (t.ext j ≡ u.ext j)

dhadd_other :
    (i j : ℕ) (d : Bytes) (t u : Hash)
    → i ≢ j
    → SameSignature t u j
    → SameSignature (dhadd i d t) u j
unfolding dhadd dhset SameSignature
dhadd_other i j d t u ne s = ground (arith, s)

add_entries_unread :
    (dir : ℕ → Bytes) (got : ℕ → Bool) (n j : ℕ) (t : Hash)
    → got j ≡ false
    → SameSignature (add_entries dir got n t) t j
unfolding add_entries SameSignature
add_entries_unread dir got zero j t no_read = (refl, refl, refl)
add_entries_unread dir got (suc n) j t no_read =
    let rest = add_entries_unread dir got n j t no_read in
    elim (Bool-cases (got n)) [
      | inl read ↦ simp read (
          dhadd_other n j (dir n) (add_entries dir got n t) t
            (λ e. absurd (ground (arith, e, read, no_read))) rest)
      | inr skipped ↦ simp skipped rest
    ]

-- On a drive without checksums whose directory fits the table and whose switch in hashen is on: a
-- login that rebuilds the table puts it in use for that drive, and each entry whose record it could
-- not read then has the signature that stood in its place before, whatever drive that was of.
pub login_hash_unread :
    (hashen : ℕ → ℕ) (g : Gbl) (dsknum drm j : ℕ) (dir : ℕ → Bytes) (got : ℕ → Bool) (t : Hash)
    → g.cks ≡ 0
    → drm < dhmax
    → hashen dsknum ≢ 0
    → (t.dhok ≡ false) ⊎ (t.dhdrv ≢ dsknum)
    → got j ≡ false
    → ((login_hash hashen g dsknum drm dir got t).dhok ≡ true)
      × ((login_hash hashen g dsknum drm dir got t).dhdrv ≡ dsknum)
      × ((login_hash hashen g dsknum drm dir got t).usr j ≡ t.usr j)
      × ((login_hash hashen g dsknum drm dir got t).nam j ≡ t.nam j)
      × ((login_hash hashen g dsknum drm dir got t).ext j ≡ t.ext j)
unfolding login_hash dhdone dhopen SameSignature
login_hash_unread hashen g dsknum drm j dir got t cks fits on stale unread =
    let o = record t { dhok = false; dhdrv = dsknum; dhbld = true } in
    let opened : dhopen hashen g dsknum drm t ≡ o = ground (arith, stale) in
    let words = add_entries_words dir got (drm + 1) o in
    let kept = add_entries_unread dir got (drm + 1) j o unread in
    simp opened (ground (arith, words, kept))
