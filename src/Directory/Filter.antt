-- ===== src/Directory/Filter.antt =====
-- The filter of dhstart and the test dhcand of src/bdos/dskhash.c, as dirscan of
-- src/bdos/dskutil.c uses them: no entry that the scan wants is passed over.
use commodore_900_cpm.Base.{ℕ, ◌-◌, ◌/◌, ◌%◌, ◌<◌, Bool, true, false}
use commodore_900_cpm.Base.{bit_and, bit_xor, ◌≡◌, refl, ap₂, ◌∙◌, ◌⊎◌, inl, inr, arith}
use commodore_900_cpm.Directory.{
  Bytes, Gbl, Hash, Dhq, ScanFunc, entry_at, fname_at, extent_at, s2_at, dhname, extent_word,
  has_wildcard, match, dhcand, dhstart, name_filter, wanted, scan_filter, passes_over, is_create,
  no_filter, matches_with_extent, matches_name_only,
}
use commodore_900_cpm.Directory.Sound.{
  match-parts, dhname_same, entry_same, extent_same, module_same,
}

-- Signature `i` of the table is that of the entry `d`.
unfoldable pub Signs : Hash → ℕ → Bytes → Type 0
Signs t i d = (t.usr i ≡ d entry_at) × (t.nam i ≡ dhname d) × (t.ext i ≡ extent_word d)

unfoldable pub IsBytes : Bytes → Type 0
IsBytes d = (i : ℕ) → d i < 256

word_bytes :
    (d : Bytes) → IsBytes d → (extent_word d % 256 ≡ d extent_at) × (extent_word d / 256 ≡ d s2_at)
unfolding extent_word IsBytes
word_bytes d b = let x = b extent_at in let y = b s2_at in (omega arith, omega arith)

module _ (g : Gbl) (p d : Bytes) (exm : g.exm < 256) (pb : IsBytes p) (db : IsBytes d) where
  extents_agree :
      bit_and (bit_xor (p extent_at) (d extent_at)) (0xffff - g.exm) ≡ 0
      → bit_and (bit_xor (extent_word d) (extent_word p)) (bit_and (0xffff - g.exm) 0xff) ≡ 0
  extents_agree e = extent_same (extent_word p) (extent_word d) g.exm exm (
      ap₂ (λ (x y : ℕ). bit_and (bit_xor x y) (0xffff - g.exm)) (word_bytes p pb).0
        (word_bytes d db).0
      ∙ e)

  modules_agree :
      bit_and (bit_xor (p s2_at) (d s2_at)) 0x3f ≡ 0
      → bit_and (bit_xor (extent_word d) (extent_word p)) 0x3f00 ≡ 0
  modules_agree e =
      module_same (extent_word p) (extent_word d)
        (ap₂ (λ (x y : ℕ). bit_and (bit_xor x y) 0x3f) (word_bytes p pb).1 (word_bytes d db).1 ∙ e)

  name_filter-candidate :
      (t u : Hash) (chk : Bool) (i : ℕ)
      → has_wildcard p fname_at 11 ≡ false
      → match g p d chk ≡ true
      → Signs u i d
      → dhcand u (name_filter g t chk p) i ≡ true
  unfolding dhcand name_filter Signs
  name_filter-candidate t u chk i w m s =
      let parts = match-parts g p d chk m in
      let name = dhname_same p d parts.0 w in
      let user = entry_same p d parts.0 in
      rw (s.0, s.1, s.2)
        (elim parts.1 [
          | inl e ↦ ground (arith, name, user)
          | inr e ↦ ground (arith, name, user, e, extents_agree, modules_agree)
        ])

-- A table not in use, or of another drive, rules nothing out.
dhcand_elsewhere :
    (u : Hash) (q : Dhq) (i : ℕ) → (dhcand u q i ≡ true) ⊎ ((u.dhok ≡ true) × (u.dhdrv ≡ q.drv))
unfolding dhcand
dhcand_elsewhere u q i = ground arith

-- A filter is absent, for create, or by name.
scan_filter-cases :
    (g : Gbl) (log_dsk : ℕ) (t : Hash) (f : ScanFunc) (p : Bytes)
    → let q = scan_filter g log_dsk t f p in
      (q.mode ≡ 0)
      ⊎ ((t.dhdrv ≡ g.curdsk)
          × (((is_create f ≡ true) × (q ≡ record no_filter { mode = 2; drv = t.dhdrv }))
              ⊎ ((is_create f ≡ false)
                  × (has_wildcard p fname_at 11 ≡ false)
                  × (((matches_with_extent f ≡ true) × (q ≡ name_filter g t true p))
                      ⊎ ((matches_with_extent f ≡ false)
                          × (matches_name_only f ≡ true)
                          × (q ≡ name_filter g t false p))))))
unfolding scan_filter dhstart
scan_filter-cases g log_dsk t f p = ground (arith)

kept-by_mode : (u : Hash) (q : Dhq) (i : ℕ) → q.mode ≡ 0 → passes_over u q i ≡ false
unfolding passes_over
kept-by_mode u q i m = ground (arith, m)

kept-by_slot :
    (u : Hash) (q : Dhq) (i : ℕ)
    → q.mode ≡ 2
    → (u.dhok ≡ true → u.dhdrv ≡ q.drv → u.usr i ≡ 0xe5)
    → passes_over u q i ≡ false
unfolding passes_over dhcand
kept-by_slot u q i m e = ground (arith, m, e)

module _ (g : Gbl) (p d : Bytes) (exm : g.exm < 256) (pb : IsBytes p) (db : IsBytes d) where
  kept-by_name :
      (t u : Hash) (chk : Bool) (i : ℕ)
      → has_wildcard p fname_at 11 ≡ false
      → match g p d chk ≡ true
      → (u.dhok ≡ true → u.dhdrv ≡ t.dhdrv → Signs u i d)
      → passes_over u (name_filter g t chk p) i ≡ false
  unfolding passes_over name_filter
  kept-by_name t u chk i w m s = elim (dhcand_elsewhere u (name_filter g t chk p) i) [
    | inl c ↦ ground (arith, c)
    | inr e ↦
        let c = name_filter-candidate g p d exm pb db t u chk i w m (s e.0 e.1) in ground (arith, c)
  ]

wanted-cases :
    (g : Gbl) (f : ScanFunc) (p d : Bytes)
    → wanted g f p d ≡ true
    → (is_create f ≡ true → d entry_at ≡ 0xe5)
      × (is_create f ≡ false → matches_with_extent f ≡ true → match g p d true ≡ true)
      × (is_create f ≡ false
          → matches_with_extent f ≡ false
          → matches_name_only f ≡ true
          → match g p d false ≡ true)
unfolding wanted
wanted-cases g f p d w =
    (λ c. ground (arith, c, w), λ c e. ground (arith, c, e, w), λ c e n. ground (arith, c, e, n, w))

-- Whatever the function, the FCB and the state of the table in which dirscan builds its filter for
-- a scan of the selected drive, and whatever table the scan finds later, which may describe another
-- drive: if that table, when it is in use for the selected drive, has in place i the signature of
-- the directory entry d, and the function wants that entry (its call of match answers TRUE, or
-- create meets an empty slot), then the filter does not pass over entry i. FCB and entry are bytes.
pub passes_over-wanted :
    (g : Gbl) (log_dsk : ℕ) (t u : Hash) (f : ScanFunc) (p d : Bytes) (i : ℕ)
    → g.exm < 256
    → IsBytes p
    → IsBytes d
    → (u.dhok ≡ true → u.dhdrv ≡ g.curdsk → Signs u i d)
    → wanted g f p d ≡ true
    → passes_over u (scan_filter g log_dsk t f p) i ≡ false
unfolding Signs
passes_over-wanted g log_dsk t u f p d i exm pb db s w =
    let by = wanted-cases g f p d w in
    elim (scan_filter-cases g log_dsk t f p) [
      | inl absent ↦ kept-by_mode u _ i absent
      | inr filter ↦ elim filter.1 [
        | inl slot ↦
            rw (slot.1)
              (kept-by_slot u _ i refl (λ on same. (s on (same ∙ filter.0)).0 ∙ by.0 slot.0))
        | inr name ↦ elim name.2 [
          | inl whole ↦ rw (whole.1) (
              kept-by_name g p d exm pb db t u true i name.1 (by.1 name.0 whole.0)
                (λ on same. s on (same ∙ filter.0)))
          | inr part ↦ rw (part.2) (
              kept-by_name g p d exm pb db t u false i name.1 (by.2 name.0 part.0 part.1)
                (λ on same. s on (same ∙ filter.0)))
        ]
      ]
    ]
