-- ===== src/Directory/Runs.antt =====
-- The signature table of src/bdos/dskhash.c over a run of the system: logins of any drive by
-- seldsk, and writes of directory records by dir_wr of src/bdos/dskutil.c, in any order.
use commodore_900_cpm.Base.{ℕ, ◌+◌, ◌*◌, ◌^◌, ◌≤◌, ◌<◌, true, false}
use commodore_900_cpm.Base.{store, store_self, store_ne, ◌≡◌, refl, sym, ◌∙◌, arith}
use native.Mathlib.Decide.{ℕ_discrete}
use commodore_900_cpm.Directory.{
  Bytes, Gbl, Hash, ScanFunc, dhmax, dhrec, login_hash, wanted, scan_filter, passes_over,
}
use commodore_900_cpm.Directory.Filter.{IsBytes, passes_over-wanted}
use commodore_900_cpm.Directory.Table.{Describes, login_hash-Describes}
use commodore_900_cpm.Directory.Keep.{put_record, dhrec_words, dhrec_elsewhere, dhrec-Describes}

-- The directories of the drives, and the one table.
pub record System : Type 0 where
  pub dirs : ℕ → ℕ → Bytes
  pub table : Hash

module _ (hashen drm cks exm : ℕ → ℕ) where
  -- the globals with drive `d` selected
  unfoldable pub selected : ℕ → Gbl
  selected d = record { curdsk = d; cks = cks d; exm = exm d }

  -- A login that reads the whole directory of a drive, and a write of one of its records.
  pub data Step : System → System → Type 0 where
    login :
        (s : System) (d : ℕ)
        → Step s (record s {
          table = login_hash hashen (selected d) d (drm d) (s.dirs d) (λ _. true) s.table;
        })
    write :
        (s : System) (d sec : ℕ) (buf : ℕ → Bytes)
        → sec * 4 + 3 < 2 ^ 16
        → Step s (record {
          dirs = store s.dirs d (put_record sec buf (s.dirs d));
          table = dhrec (selected d) sec buf s.table;
        })

  -- The table is out of use at the start.
  pub data Reachable : System → Type 0 where
    start : (s : System) → s.table.dhok ≡ false → Reachable s
    step : {s u : System} → Reachable s → Step s u → Reachable u

  unfoldable pub IsCurrent : System → Type 0
  IsCurrent s =
      (d : ℕ) → s.table.dhok ≡ true → s.table.dhdrv ≡ d → Describes s.table (s.dirs d) (drm d + 1)

  at_drive :
      (t : Hash) (dirs : ℕ → ℕ → Bytes) (d e : ℕ)
      → d ≡ e
      → Describes t (dirs d) (drm d + 1)
      → Describes t (dirs e) (drm e + 1)
  at_drive t dirs d e q h = rw⁻¹ q h

  after_login :
      (s : System) (d : ℕ)
      → IsCurrent s
      → IsCurrent (record s {
        table = login_hash hashen (selected d) d (drm d) (s.dirs d) (λ _. true) s.table;
      })
  unfolding IsCurrent
  after_login s d c e on here =
      let login =
        login_hash-Describes hashen (selected d) d (drm d) (s.dirs d) (λ _. true) s.table
          (λ _. refl) (c d) on in
      at_drive (login_hash hashen (selected d) d (drm d) (s.dirs d) (λ _. true) s.table) s.dirs d e
        (sym login.0 ∙ here) login.1

  after_write :
      (s : System) (d sec : ℕ) (buf : ℕ → Bytes)
      → sec * 4 + 3 < 2 ^ 16
      → IsCurrent s
      → IsCurrent (record {
        dirs = store s.dirs d (put_record sec buf (s.dirs d));
        table = dhrec (selected d) sec buf s.table;
      })
  unfolding IsCurrent selected
  after_write s d sec buf room c e on here =
      let g = selected d in
      let new = put_record sec buf (s.dirs d) in
      let words = dhrec_words g sec buf s.table room in
      elim (ℕ_discrete e d) [
        | yes same ↦ at_drive (dhrec g sec buf s.table) (store s.dirs d new) d e (sym same) (
            simp (store_self s.dirs d new) (
              dhrec-Describes g sec (drm d + 1) buf (s.dirs d) s.table room (c d) on (here ∙ same)))
        | no other ↦
            let stays = dhrec_elsewhere g sec buf s.table (λ q. other (sym here ∙ words.1 ∙ q)) in
            simp (stays, store_ne s.dirs d new e other)
              (c e (sym words.0 ∙ on) (sym words.1 ∙ here))
      ]

  Step-IsCurrent : {s u : System} → Step s u → IsCurrent s → IsCurrent u
  Step-IsCurrent (login s d) c = after_login s d c
  Step-IsCurrent (write s d sec buf room) c = after_write s d sec buf room c

  Reachable-IsCurrent : {s : System} → Reachable s → IsCurrent s
  unfolding IsCurrent
  Reachable-IsCurrent (start s off) d on here = absurd (ground (arith, on, off))
  Reachable-IsCurrent (step r t) d on here = Step-IsCurrent t (Reachable-IsCurrent r) d on here

  -- Over any run of logins, each of which reads the whole directory of its drive, and of directory
  -- writes by dir_wr, on any drives and in any order: a scan never passes over an entry that its
  -- function wants. The filter may have been built from any earlier table; the entry is one of the
  -- selected drive's directory as it is now, below DHMAX and up to the drive's drm.
  pub Reachable-passes_over :
      {s : System} (d log_dsk i : ℕ) (t : Hash) (f : ScanFunc) (p : Bytes)
      → Reachable s
      → exm d < 256
      → IsBytes p
      → IsBytes (s.dirs d i)
      → i ≤ drm d
      → i < dhmax
      → wanted (selected d) f p (s.dirs d i) ≡ true
      → passes_over s.table (scan_filter (selected d) log_dsk t f p) i ≡ false
  unfolding IsCurrent Describes selected
  Reachable-passes_over {s = s} d log_dsk i t f p r lt pb db le max w =
      passes_over-wanted (selected d) log_dsk t s.table f p (s.dirs d i) i lt pb db
        (λ on here. Reachable-IsCurrent r d on here i (omega arith) max) w
