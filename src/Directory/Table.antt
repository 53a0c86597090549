-- ===== src/Directory/Table.antt =====
-- The signature table of src/bdos/dskhash.c against the directory it describes: rebuilt by a drive
-- login, and kept up to date by every directory write.
use commodore_900_cpm.Base.{ℕ, zero, suc, ◌+◌, ◌<◌, Bool, true, false}
use commodore_900_cpm.Base.{◌≡◌, ◌≢◌, refl, ap, ◌∙◌, ◌⊎◌, inl, inr, arith, Bool-cases}
use commodore_900_cpm.Directory.{
  Bytes, Gbl, Hash, dhmax, dhset, dhopen, dhadd, dhdone, login_hash, add_entries,
}
use native.Mathlib.Decide.{ℕ_discrete}
use commodore_900_cpm.Directory.Filter.{Signs}

-- The table has the signatures of the first `n` entries of the directory.
unfoldable pub Describes : Hash → (ℕ → Bytes) → ℕ → Type 0
Describes t dir n = (i : ℕ) → i < n → i < dhmax → Signs t i (dir i)

module _ (i j : ℕ) (d e : Bytes) (t : Hash) where
  pub dhset-Signs_self : i < dhmax → Signs (dhset i d t) i d
  unfolding dhset Signs
  dhset-Signs_self h = ground arith

  pub dhset-Signs_ne : i ≢ j → Signs t j e → Signs (dhset i d t) j e
  unfolding dhset Signs
  dhset-Signs_ne ne h = ground arith

pub dhset_words :
    (i : ℕ) (d : Bytes) (t : Hash)
    → ((dhset i d t).dhok ≡ t.dhok)
      × ((dhset i d t).dhbld ≡ t.dhbld)
      × ((dhset i d t).dhdrv ≡ t.dhdrv)
unfolding dhset
dhset_words i d t = ground arith

-- An entry recorded in its own place keeps a description right.
dhset-Signs :
    (i j : ℕ) (dir : ℕ → Bytes) (t : Hash)
    → j < dhmax
    → (i ≡ j) ⊎ Signs t j (dir j)
    → Signs (dhset i (dir i) t) j (dir j)
dhset-Signs i j dir t h s = elim (ℕ_discrete i j) [
  | yes e ↦ rw e (dhset-Signs_self j j (dir j) (dir j) t h)
  | no ne ↦ elim s [ inl e ↦ absurd (ne e) | inr old ↦ dhset-Signs_ne i j (dir i) (dir j) t ne old ]
]

module _ (dir : ℕ → Bytes) (got : ℕ → Bool) where
  pub add_entries_words :
      (n : ℕ) (t : Hash)
      → let u = add_entries dir got n t in
        (u.dhok ≡ t.dhok) × (u.dhbld ≡ t.dhbld) × (u.dhdrv ≡ t.dhdrv)
  unfolding add_entries dhadd
  add_entries_words zero t = (refl, refl, refl)
  add_entries_words (suc n) t =
      let rest = add_entries_words n t in
      let last = dhset_words n (dir n) (add_entries dir got n t) in ground (arith, rest, last)

  add_entries-Signs :
      (n j : ℕ) (t : Hash)
      → ((i : ℕ) → got i ≡ true)
      → j < dhmax
      → ((t.dhbld ≡ true) × (j < n)) ⊎ Signs t j (dir j)
      → Signs (add_entries dir got n t) j (dir j)
  unfolding add_entries dhadd
  add_entries-Signs zero j t all h s = elim s [
    | inl p ↦ absurd (omega (arith, p.1))
    | inr old ↦ old
  ]
  add_entries-Signs (suc n) j t all h s =
      let u = add_entries dir got n t in
      let words = add_entries_words n t in
      let earlier = add_entries-Signs n j t all h in
      elim (Bool-cases t.dhbld) [
        | inl on ↦
            let before : (n ≡ j) ⊎ Signs u j (dir j) = elim s [
              | inl p ↦ elim (ℕ_discrete n j) [
                | yes e ↦ inl e
                | no ne ↦ inr (earlier (inl (p.0, omega (arith, p.1, ne))))
              ]
              | inr old ↦ inr (earlier (inr old))
            ] in
            simp (all n, words.1, on) (dhset-Signs n j dir u h before)
        | inr off ↦ elim s [
          | inl p ↦ absurd (cc)
          | inr old ↦ simp (all n, words.1, off) (earlier (inr old))
        ]
      ]

-- The two ways out of dhopen with a table in use or being built.
dhopen-cases :
    (hashen : ℕ → ℕ) (g : Gbl) (dsknum drm : ℕ) (t : Hash)
    → let u = dhopen hashen g dsknum drm t in
      ((u.dhok ≡ false) × (u.dhbld ≡ false))
      ⊎ (((t.dhok ≡ true) × (t.dhdrv ≡ dsknum) × (u ≡ t))
          ⊎ ((u.dhok ≡ false) × (u.dhbld ≡ true) × (u.dhdrv ≡ dsknum) × (drm < dhmax)))
unfolding dhopen
dhopen-cases hashen g dsknum drm t = ground arith

dhdone-cases :
    (t : Hash)
    → let u = dhdone t in
      (u.dhdrv ≡ t.dhdrv)
      × ((u.dhok ≡ true) → (t.dhok ≡ true) ⊎ (t.dhbld ≡ true))
      × ((j : ℕ) (d : Bytes) → Signs t j d → Signs u j d)
unfolding dhdone Signs
dhdone-cases t = (ground arith, ground arith, λ j d s. ground (arith, s))

module _ (hashen : ℕ → ℕ) (g : Gbl) (dsknum drm : ℕ) (dir : ℕ → Bytes) (got : ℕ → Bool) where
  -- Once a login has read the whole directory, the table, if it is in use, is of that drive and has
  -- the signature of every entry up to drm and below DHMAX. Before it the table may be of another
  -- drive, out of use or being built; if it was in use for this drive, it had those signatures.
  pub login_hash-Describes :
      (t : Hash)
      → ((i : ℕ) → got i ≡ true)
      → (t.dhok ≡ true → t.dhdrv ≡ dsknum → Describes t dir (drm + 1))
      → (login_hash hashen g dsknum drm dir got t).dhok ≡ true
      → ((login_hash hashen g dsknum drm dir got t).dhdrv ≡ dsknum)
        × Describes (login_hash hashen g dsknum drm dir got t) dir (drm + 1)
  unfolding login_hash Describes
  login_hash-Describes t all before on =
      let o = dhopen hashen g dsknum drm t in
      let u = add_entries dir got (drm + 1) o in
      let words = add_entries_words dir got (drm + 1) o in
      let done = dhdone-cases u in
      let live = done.1 on in
      elim (dhopen-cases hashen g dsknum drm t) [
        | inl off ↦ absurd (ground (arith, words, off, live))
        | inr some_table ↦ elim some_table [
          | inl same ↦ (
            done.0 ∙ words.2 ∙ ap (λ (h : Hash). h.dhdrv) same.2 ∙ same.1,
            λ j lt max. done.2 j (dir j) (
                add_entries-Signs dir got (drm + 1) j o all max
                  (inr (simp (same.2) (before same.0 same.1 j lt max)))),
          )
          | inr fresh ↦ (
            done.0 ∙ words.2 ∙ fresh.2,
            λ j lt max.
                done.2 j (dir j)
                  (add_entries-Signs dir got (drm + 1) j o all max (inl (fresh.1, lt))),
          )
        ]
      ]
