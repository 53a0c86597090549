-- ===== src/Directory/Keep.antt =====
-- The signature table of src/bdos/dskhash.c over a run of the system: logins of any drive by
-- seldsk, and writes of directory records by dir_wr of src/bdos/dskutil.c, in any order.
use commodore_900_cpm.Base.{ℕ, zero, suc, ◌+◌, ◌*◌, ◌/◌, ◌%◌, ◌^◌, ◌≤◌, ◌<◌, true, false}
use commodore_900_cpm.Base.{
  ◌==◌, if◌then◌else◌, u16, ◌≡◌, ◌≢◌, refl, sym, ap, ◌∙◌, ◌⊎◌, inl, inr, arith,
}
use native.Mathlib.Decide.{ℕ_discrete}
use commodore_900_cpm.Directory.{Bytes, Gbl, Hash, dhmax, dhrec, record_entries}
use commodore_900_cpm.Directory.Filter.{Signs}
use commodore_900_cpm.Directory.Table.{Describes, dhset-Signs_self, dhset-Signs_ne, dhset_words}

-- The directory after its record `sec` is overwritten.
unfoldable pub put_record : ℕ → (ℕ → Bytes) → (ℕ → Bytes) → ℕ → Bytes
put_record sec buf dir i = if i / 4 == sec then buf (i % 4) else dir i

put_record_in :
    (sec : ℕ) (buf dir : ℕ → Bytes) (j k : ℕ)
    → sec * 4 + k ≡ j
    → k < 4
    → put_record sec buf dir j ≡ buf k
unfolding put_record
put_record_in sec buf dir j k e lt =
    let here : j / 4 ≡ sec = omega arith in
    let byte : buf (j % 4) ≡ buf k = ap buf (omega arith) in ground (arith, here, byte)

put_record_out :
    (sec : ℕ) (buf dir : ℕ → Bytes) (j : ℕ) → j / 4 ≢ sec → put_record sec buf dir j ≡ dir j
unfolding put_record
put_record_out sec buf dir j ne = ground arith

module _ (sec : ℕ) (buf dir : ℕ → Bytes) (room : sec * 4 + 3 < 2 ^ 16) where
  record_entries_words :
      (k : ℕ) (t : Hash)
      → let u = record_entries (u16 (sec * 2 ^ 2)) buf k t in
        (u.dhok ≡ t.dhok) × (u.dhbld ≡ t.dhbld) × (u.dhdrv ≡ t.dhdrv)
  unfolding record_entries
  record_entries_words zero t = (refl, refl, refl)
  record_entries_words (suc k) t =
      let u = record_entries (u16 (sec * 2 ^ 2)) buf k t in
      let last = dhset_words (u16 (u16 (sec * 2 ^ 2) + k)) (buf k) u in
      let rest = record_entries_words k t in (last.0 ∙ rest.0, last.1 ∙ rest.1, last.2 ∙ rest.2)

  record_entries-Signs :
      (k j : ℕ) (t : Hash)
      → k ≤ 4
      → j < dhmax
      → ((j / 4 ≡ sec) × (j % 4 < k)) ⊎ ((j / 4 ≢ sec) × Signs t j (dir j))
      → Signs (record_entries (u16 (sec * 2 ^ 2)) buf k t) j (put_record sec buf dir j)
  unfolding record_entries
  record_entries-Signs zero j t le lt s = elim s [
    | inl p ↦ absurd (omega (arith, p.1))
    | inr p ↦ simp (put_record_out sec buf dir j p.0) p.1
  ]
  record_entries-Signs (suc k) j t le lt s =
      let u = record_entries (u16 (sec * 2 ^ 2)) buf k t in
      let place : u16 (u16 (sec * 2 ^ 2) + k) ≡ sec * 4 + k = omega arith in
      simp place (elim (ℕ_discrete (sec * 4 + k) j) [
        | yes e ↦
            simp (e, put_record_in sec buf dir j k e (omega arith))
              (dhset-Signs_self j j (buf k) (buf k) u lt)
        | no ne ↦ dhset-Signs_ne (sec * 4 + k) j (buf k) (put_record sec buf dir j) u ne (
            record_entries-Signs k j t (omega arith) lt
              (elim s [ inl p ↦ inl (p.0, omega (arith, p.0, p.1, ne)) | inr p ↦ inr p ]))
      ])

pub dhrec_words :
    (g : Gbl) (sec : ℕ) (buf : ℕ → Bytes) (t : Hash)
    → sec * 4 + 3 < 2 ^ 16
    → ((dhrec g sec buf t).dhok ≡ t.dhok) × ((dhrec g sec buf t).dhdrv ≡ t.dhdrv)
unfolding dhrec
dhrec_words g sec buf t room =
    let words = record_entries_words sec buf buf room 4 t in ground (arith, words)

pub dhrec_elsewhere :
    (g : Gbl) (sec : ℕ) (buf : ℕ → Bytes) (t : Hash) → t.dhdrv ≢ g.curdsk → dhrec g sec buf t ≡ t
unfolding dhrec
dhrec_elsewhere g sec buf t ne = ground arith

dhrec-cases :
    (g : Gbl) (sec : ℕ) (buf : ℕ → Bytes) (t : Hash)
    → ((dhrec g sec buf t ≡ t) × ((t.dhok ≡ false) ⊎ (t.dhdrv ≢ g.curdsk)))
      ⊎ (dhrec g sec buf t ≡ record_entries (u16 (sec * 2 ^ 2)) buf 4 t)
unfolding dhrec
dhrec-cases g sec buf t = ground arith

pub dhrec-Describes :
    (g : Gbl) (sec n : ℕ) (buf dir : ℕ → Bytes) (t : Hash)
    → sec * 4 + 3 < 2 ^ 16
    → (t.dhok ≡ true → t.dhdrv ≡ g.curdsk → Describes t dir n)
    → (dhrec g sec buf t).dhok ≡ true
    → (dhrec g sec buf t).dhdrv ≡ g.curdsk
    → Describes (dhrec g sec buf t) (put_record sec buf dir) n
unfolding Describes
dhrec-Describes g sec n buf dir t room before on here j lt max = elim (dhrec-cases g sec buf t) [
  | inl same ↦
      let u = sym same.0 in
      absurd (elim same.1 [
        | inl off ↦ ground (arith, on, same.0, off)
        | inr other ↦ other (ap (λ (h : Hash). h.dhdrv) u ∙ here)
      ])
  | inr new ↦
      let words = record_entries_words sec buf dir room 4 t in
      simp new (
        record_entries-Signs sec buf dir room 4 j t (omega arith) max
          (elim (ℕ_discrete (j / 4) sec) [
            | yes e ↦ inl (e, omega arith)
            | no ne ↦ inr (
              ne,
              before (sym words.0 ∙ ap (λ (h : Hash). h.dhok) (sym new) ∙ on)
                  (sym words.2 ∙ ap (λ (h : Hash). h.dhdrv) (sym new) ∙ here) j lt max,
            )
          ]))
]
