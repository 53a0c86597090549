-- ===== src/Buffer/Runs.antt =====
-- Runs of several processes over the directory buffers of src/bdos/dskutil.c.
use commodore_900_cpm.Base.{
  ℕ, ◌+◌, ◌%◌, ◌≤◌, ◌<◌, Bool, true, false, Bool-cases, ◌==◌, if◌then◌else◌, u16, store, store_self,
  store_ne, Option, none, some, ◌≡◌, ◌≢◌, ◌⊎◌, inl, inr, refl, sym, ap, ◌∙◌, arith, &&-both, ==_iff,
}
use mathlib.Core.Path.{subst}
use native.Mathlib.Decide.{ℕ_discrete}
use commodore_900_cpm.Buffer.{
  Phase, Proc, System, drive_writes, same_record, dirhave, dirdrop, dir_rd_sample, dir_rd_transfer,
  dir_rd_publish, dir_rd_fail, dir_wr, dir_wr_attempt, dir_wr_fail, abort, is_moving, select,
  select_fail, foreign_transfer, edit,
}
use commodore_900_cpm.Buffer.Fresh.{
  IsCopy, IsPublished, InPhase, IsCoherent, survives, counted-Change, attempted-Change, written_far,
}

module _ {R : Type 0} where
  -- The steps of one process that change nothing but itself.
  pub data Alone (s : System R) (p : Proc R) : Proc R → Type 0 where
    sample : (sec : ℕ) → Alone s p (dir_rd_sample s sec p)
    transfer : (sec : ℕ) → p.phase ≡ Phase.sampled sec → Alone s p (dir_rd_transfer s sec p)
    publish : (sec : ℕ) → p.phase ≡ Phase.transferred sec → Alone s p (dir_rd_publish sec p)
    read_fails : Alone s p (dir_rd_fail p)
    aborts : (any : R) → Alone s p (abort any p)
    drop : p.phase ≡ Phase.idle → Alone s p (dirdrop p)
    selects : (d : ℕ) → Alone s p (select d p)
    select_fails : Alone s p (select_fail p)
    borrows : (any : R) → is_moving p.phase ≡ false → Alone s p (foreign_transfer any p)
    edits : (new : R) → Alone s p (edit new p)

  pub data Step (s : System R) : System R → Type 0 where
    alone :
        (i : ℕ) (q : Proc R)
        → Alone s (s.procs i) q
        → Step s (record s { procs = store s.procs i q })
    writes : (i sec : ℕ) → (s.procs i).curdsk < 16 → Step s (dir_wr i sec s)
    attempts :
        (i sec : ℕ) (partial : R)
        → (s.procs i).curdsk < 16
        → Step s (dir_wr_attempt i sec partial s)
    write_fails :
        (i : ℕ)
        → (s.procs i).curdsk < 16
        → (s.procs i).phase ≡ Phase.refused
        → Step s (dir_wr_fail i s)

  -- No process has a copy at the start.
  pub data Reachable : System R → Type 0 where
    start :
        (s : System R)
        → ((i : ℕ) → (s.procs i).phase ≡ Phase.idle)
        → ((i : ℕ) → (s.procs i).dirsecn ≡ none)
        → Reachable s
    step : {s u : System R} → Reachable s → Step s u → Reachable u

  at_phase :
      (disk : ℕ → ℕ → R) (w : ℕ → ℕ) (u : ℕ → Bool) (p : Proc R) (f g : Phase)
      → f ≡ g
      → InPhase disk w u p f
      → InPhase disk w u p g
  at_phase disk w u p f g e h = rw⁻¹ e h

  -- A process that an abort has left with dirown keeps its tag over a transfer for data.
  keeps_phase :
      (disk : ℕ → ℕ → R) (w : ℕ → ℕ) (u : ℕ → Bool) (any : R) (p : Proc R) (f : Phase)
      → is_moving f ≡ false
      → p.dirown ≡ true
      → InPhase disk w u p f
      → InPhase disk w u (record p { buf = any }) f
  unfolding InPhase is_moving IsPublished
  keeps_phase disk w u any p Phase.idle still own h = elim h.1 [
    | inl e ↦ absurd (ground (arith, e, own))
    | inr e ↦ (subst (λ o. IsPublished disk w u (record p { buf = any }) o) (sym e) refl, inr e)
  ]
  keeps_phase disk w u any p Phase.editing still own h = refl
  keeps_phase disk w u any p Phase.aborted still own h = refl
  keeps_phase disk w u any p Phase.refused still own h = absurd (ground arith)
  keeps_phase disk w u any p (Phase.sampled sec) still own h = absurd (ground arith)
  keeps_phase disk w u any p (Phase.transferred sec) still own h = absurd (ground arith)

  borrow-IsCoherent :
      (disk : ℕ → ℕ → R) (w : ℕ → ℕ) (u : ℕ → Bool) (any : R) (p : Proc R)
      → is_moving p.phase ≡ false
      → IsCoherent disk w u p
      → IsCoherent disk w u (foreign_transfer any p)
  unfolding IsCoherent InPhase IsPublished foreign_transfer
  borrow-IsCoherent disk w u any p still c = elim (Bool-cases p.dirown) [
    | inl own ↦
        subst (IsCoherent disk w u)
          (ap
            (λ (b : Bool).
              if b
              then record p { buf = any }
              else record p { dirsecn = none; buf = any; phase = Phase.idle })
            (sym own))
          (elim c [
            | inl large ↦ inl large
            | inr h ↦ inr (keeps_phase disk w u any p p.phase still own h)
          ])
    | inr free ↦
        subst (IsCoherent disk w u)
          (ap
            (λ (b : Bool).
              if b
              then record p { buf = any }
              else record p { dirsecn = none; buf = any; phase = Phase.idle })
            (sym free))
          (inr (refl, inr refl))
  ]

  Alone-IsCoherent :
      (s : System R) (p q : Proc R)
      → Alone s p q
      → IsCoherent s.disk s.writes s.unmarked p
      → IsCoherent s.disk s.writes s.unmarked q
  unfolding IsCoherent InPhase IsPublished IsCopy dir_rd_sample dir_rd_transfer dir_rd_publish
      dir_rd_fail dirdrop select select_fail edit abort drive_writes
  Alone-IsCoherent s p q (sample sec) c = inr (omega arith)
  Alone-IsCoherent s p q (transfer sec e) c = elim c [
    | inl large ↦ inl large
    | inr h ↦
        inr (at_phase s.disk s.writes s.unmarked p p.phase (Phase.sampled sec) e h, inr (inr refl))
  ]
  Alone-IsCoherent s p q (publish sec e) c = elim c [
    | inl large ↦ inl large
    | inr h ↦
        inr (at_phase s.disk s.writes s.unmarked p p.phase (Phase.transferred sec) e h, inl refl)
  ]
  Alone-IsCoherent s p q read_fails c = inr (refl, inl refl)
  Alone-IsCoherent s p q (aborts any) c = inr refl
  Alone-IsCoherent s p q (drop e) c =
      inr (
        at_phase s.disk s.writes s.unmarked (dirdrop p) Phase.idle p.phase (sym e) (refl, inr refl))
  Alone-IsCoherent s p q (selects d) c = inr (refl, inr refl)
  Alone-IsCoherent s p q select_fails c = inl (omega arith)
  Alone-IsCoherent s p q (borrows any still) c =
      borrow-IsCoherent s.disk s.writes s.unmarked any p still c
  Alone-IsCoherent s p q (edits new) c = inr refl

  all_but :
      (procs : ℕ → Proc R) (i : ℕ) (q : Proc R) (P : Proc R → Type 0)
      → P q
      → ((j : ℕ) → P (procs j))
      → (j : ℕ) → P (store procs i q j)
  all_but procs i q P here rest j = elim (ℕ_discrete j i) [
    | yes e ↦ simp (e, store_self procs i q) here
    | no ne ↦ simp (store_ne procs i q j ne) (rest j)
  ]

  -- The writer's own copy is the record as it now stands.
  own_write :
      (s : System R) (i sec : ℕ)
      → (s.procs i).curdsk < 16
      → IsCoherent
          (dir_wr i sec s).disk
          (dir_wr i sec s).writes
          (dir_wr i sec s).unmarked
          (record (s.procs i) {
            dirown = false;
            dirsecn = some sec;
            seen = drive_writes s (s.procs i) + 1;
            phase = Phase.idle;
          })
  unfolding IsCoherent InPhase IsPublished IsCopy dir_wr drive_writes
  own_write s i sec lt =
      let d = (s.procs i).curdsk in
      let count = store_self s.writes (d % 16) (s.writes (d % 16) + 1) in
      let now =
        ap (λ (f : ℕ → R). f sec) (store_self s.disk d (store (s.disk d) sec (s.procs i).buf))
        ∙ store_self (s.disk d) sec (s.procs i).buf in
      inr ((omega (arith, count), inr (inr (sym now))), inl refl)

  no_copy :
      (disk : ℕ → ℕ → R) (w : ℕ → ℕ) (u : ℕ → Bool) (p : Proc R)
      → p.phase ≡ Phase.idle
      → p.dirsecn ≡ none
      → IsCoherent disk w u p
  unfolding IsCoherent InPhase IsPublished
  no_copy disk w u p e o = inr (simp (e, o) (refl, inr refl))

  abbrev Coherent : System R → Type 0
  Coherent s = (j : ℕ) → IsCoherent s.disk s.writes s.unmarked (s.procs j)

  write-Coherent :
      (s : System R) (i sec : ℕ) → (s.procs i).curdsk < 16 → Coherent s → Coherent (dir_wr i sec s)
  unfolding dir_wr drive_writes
  write-Coherent s i sec lt c =
      let p = s.procs i in
      let d = p.curdsk in
      let t = dir_wr i sec s in
      let q = record p {
        dirown = false;
        dirsecn = some sec;
        seen = s.writes (d % 16) + 1;
        phase = Phase.idle;
      } in
      all_but s.procs i q (IsCoherent t.disk t.writes t.unmarked) (own_write s i sec lt) (λ k.
        survives s.disk t.disk s.writes t.writes s.unmarked t.unmarked
          (counted-Change s.disk s.writes s.unmarked d sec p.buf lt t.disk
            (written_far s.disk s.writes s.unmarked d sec p.buf lt))
          (s.procs k) (c k))

  attempt-Coherent :
      (s : System R) (i sec : ℕ) (partial : R)
      → (s.procs i).curdsk < 16
      → Coherent s
      → Coherent (dir_wr_attempt i sec partial s)
  unfolding dir_wr_attempt IsCoherent InPhase
  attempt-Coherent s i sec partial lt c =
      let p = s.procs i in
      let t = dir_wr_attempt i sec partial s in
      all_but s.procs i (record p { dirown = true; phase = Phase.refused })
        (IsCoherent t.disk t.writes t.unmarked) (inr refl)
        (λ k.
          survives s.disk t.disk s.writes t.writes s.unmarked t.unmarked
            (attempted-Change s.disk s.writes s.unmarked p.curdsk sec partial lt) (s.procs k) (c k))

  fail-Coherent :
      (s : System R) (i : ℕ) → (s.procs i).curdsk < 16 → Coherent s → Coherent (dir_wr_fail i s)
  unfolding dir_wr_fail drive_writes
  fail-Coherent s i lt c =
      let p = s.procs i in
      let t = dir_wr_fail i s in
      let q = record p { dirown = false; dirsecn = none; phase = Phase.idle } in
      all_but s.procs i q (IsCoherent t.disk t.writes t.unmarked)
        (no_copy t.disk t.writes t.unmarked q refl refl)
        (λ k.
          survives s.disk t.disk s.writes t.writes s.unmarked t.unmarked
            (counted-Change s.disk s.writes s.unmarked p.curdsk 0 p.buf lt s.disk (λ x ne. refl))
            (s.procs k) (c k))

  Step-Coherent : {s u : System R} → Step s u → Coherent s → Coherent u
  Step-Coherent {s = s} (alone i q a) c =
      all_but s.procs i q (IsCoherent s.disk s.writes s.unmarked)
        (Alone-IsCoherent s (s.procs i) q a (c i)) c
  Step-Coherent {s = s} (writes i sec lt) c = write-Coherent s i sec lt c
  Step-Coherent {s = s} (attempts i sec partial lt) c = attempt-Coherent s i sec partial lt c
  Step-Coherent {s = s} (write_fails i lt e) c = fail-Coherent s i lt c

  Reachable-Coherent : {s : System R} → Reachable s → Coherent s
  Reachable-Coherent (start s e o) j = no_copy s.disk s.writes s.unmarked (s.procs j) (e j) (o j)
  Reachable-Coherent (step r t) j = Step-Coherent t (Reachable-Coherent r) j

  published_copy :
      (disk : ℕ → ℕ → R) (w : ℕ → ℕ) (u : ℕ → Bool) (p : Proc R) (o : Option ℕ) (sec : ℕ)
      → IsPublished disk w u p o
      → same_record o sec ≡ true
      → (p.seen ≤ w (p.curdsk % 16))
        × ((p.seen ≢ w (p.curdsk % 16))
            ⊎ ((u (p.curdsk % 16) ≡ true) ⊎ (p.buf ≡ disk p.curdsk sec)))
  unfolding IsPublished IsCopy same_record
  published_copy disk w u p none sec h e = absurd (ground (arith, e))
  published_copy disk w u p (some q) sec h e =
      let same : q ≡ sec = (==_iff q sec).0 e in rw⁻¹ same h

  have_lem :
      (s : System R) (p : Proc R) (sec : ℕ)
      → IsCoherent s.disk s.writes s.unmarked p
      → p.curdsk < 16
      → p.phase ≡ Phase.idle
      → s.unmarked (p.curdsk % 16) ≡ false
      → drive_writes s p < p.seen + 0x10000
      → dirhave s p sec ≡ true
      → p.buf ≡ s.disk p.curdsk sec
  unfolding IsCoherent dirhave InPhase drive_writes
  have_lem s p sec c lt idle_now clean few have =
      let both = &&-both (same_record p.dirsecn sec) (u16 p.seen == u16 (drive_writes s p)) have in
      let same = (==_iff (u16 p.seen) (u16 (drive_writes s p))).0 both.1 in
      elim c [
        | inl large ↦ absurd (omega (arith, large, lt))
        | inr h ↦
            let copy =
              published_copy s.disk s.writes s.unmarked p p.dirsecn sec
                (at_phase s.disk s.writes s.unmarked p p.phase Phase.idle idle_now h).0 both.0 in
            elim copy.1 [
              | inl stale ↦ absurd (stale (omega (arith, copy.0, few, same)))
              | inr fresh ↦ elim fresh [
                | inl failed ↦ absurd (ground (arith, failed, clean))
                | inr now ↦ now
              ]
            ]
      ]

  -- Whatever several processes do, in any order, with the directory buffer of their own, and whatever
  -- the reads and writes that fail or that the operator aborts: when dirhave answers that a process
  -- has a record of its drive, the buffer is that record as the disk has it now. The drive is one of
  -- the sixteen; the process is neither reading nor changing its buffer, and has read, written or
  -- selected since an abort; no attempt to write the drive has failed without the count of its writes
  -- moving since; and the drive has been written fewer than 2^16 times since the copy's generation
  -- was sampled.
  pub dirhave-current :
      {s : System R} (i sec : ℕ)
      → Reachable s
      → (s.procs i).curdsk < 16
      → (s.procs i).phase ≡ Phase.idle
      → s.unmarked ((s.procs i).curdsk % 16) ≡ false
      → drive_writes s (s.procs i) < (s.procs i).seen + 0x10000
      → dirhave s (s.procs i) sec ≡ true
      → (s.procs i).buf ≡ s.disk (s.procs i).curdsk sec
  dirhave-current {s = s} i sec r lt e clean few have =
      have_lem s (s.procs i) sec (Reachable-Coherent r i) lt e clean few have
