-- ===== src/Procs/Dispatch.antt =====
-- The two switches of src/bdos/proc.c, pyield() and pdisp(): what they choose and what they leave
-- alone.
use mathlib.Core.Path.{subst}
use commodore_900_cpm.Base.{
  ℕ, ◌<◌, Bool, true, false, ◌||◌, ◌==◌, ltb, if◌then◌else◌, ◌≡◌, ◌≢◌, refl, ap, sym, inl, inr, ◌∙◌,
  arith, Bool-cases, store_self, &&-both,
}
use commodore_900_cpm.Procs.{Sched, Proc, World, pnproc, is_live, put_proc, pnext, runnable}
use commodore_900_cpm.Procs.Switch.{pgone, pyield, pdisp, park, save_frame, psave, with_nsp}
use commodore_900_cpm.Procs.Turns.{pnext-IsNext}
use commodore_900_cpm.Procs.Images.{IsPlaced, Keeps, IsLive, gone-IsPlaced, gone-Keeps, gone_cur}
use commodore_900_cpm.Procs.Alike.{
  Alike, Alike-trans, Alike-IsPlaced, Alike-Keeps, Alike-refl, pnext-Alike, put-Alike, SameLock,
  Alike-SameLock, gone-SameLock,
}

Keeps-trans : (s t u : Sched) → Keeps s t → Keeps t u → Keeps s u
Keeps-trans s t u a b i h l = let x = a i h l in let y = b i h x.0 in (y.0, y.1 ∙ x.1, y.2 ∙ x.2)

-- What a switch leaves: the invariant, each live process's image and state, who runs, and the lock.
abbrev pub Moved : Sched → Sched → ℕ → Type 0
Moved s t nxt = IsPlaced t × Keeps s t × (t.cur ≡ nxt) × SameLock s t

stays-Moved : (s t : Sched) → Alike s t → IsPlaced s → Moved s t s.cur
stays-Moved s t a w = (Alike-IsPlaced s t a w, Alike-Keeps s t a, a.cur, Alike-SameLock s t a)

gone-Moved :
    (s t : Sched) (nxt : ℕ)
    → Alike s t
    → (t.pd t.cur).saved ≡ t.resident
    → nxt < pnproc
    → IsLive t nxt
    → nxt ≢ t.cur
    → IsPlaced s
    → Moved s (pgone nxt t) nxt
gone-Moved s t nxt a kept lt l ne w =
    let v = Alike-IsPlaced s t a w in
    let slot = (v.parked nxt lt l ne).1 in
    (
      gone-IsPlaced t nxt v lt l ne slot.0 slot.1,
      Keeps-trans s t (pgone nxt t) (Alike-Keeps s t a)
          (gone-Keeps t nxt v lt l ne slot.0 slot.1 kept),
      gone_cur t nxt v lt l ne,
      gone-SameLock s t nxt a lt l ne w,
    )

psave-Alike : (s : Sched) → Alike s (psave s)
unfolding psave
psave-Alike s = put-Alike s (record (s.pd s.cur) { saved = s.resident }) refl refl

module _ (s : Sched) (f : ℕ → ℕ) (b : Bool) where
  abbrev framed : Sched
  framed = put_proc s.cur (record (s.pd s.cur) { frame = f }) s

  abbrev set_aside : Sched
  set_aside = put_proc s.cur (record ((psave framed).pd s.cur) { inc = b }) (psave framed)

  aside-Alike : Alike s set_aside
  unfolding psave
  aside-Alike =
      Alike-trans s framed set_aside (put-Alike s (record (s.pd s.cur) { frame = f }) refl refl) (
        Alike-trans framed (psave framed) set_aside (psave-Alike framed)
          (put-Alike (psave framed) (record ((psave framed).pd s.cur) { inc = b }) refl refl))

  aside_saved : (set_aside.pd set_aside.cur).saved ≡ set_aside.resident
  unfolding psave
  aside_saved =
      ap (λ (q : Proc). q.saved)
        (store_self (psave framed).pd s.cur (record ((psave framed).pd s.cur) { inc = b }))
      ∙ ap (λ (q : Proc). q.saved)
          (store_self framed.pd s.cur (record (framed.pd s.cur) { saved = s.resident }))

-- The process that pnext() chooses, where it is another, is live.
next-IsLive :
    (w : World) (s : Sched)
    → s.cur < pnproc
    → (pnext w s.cur s).0 ≢ s.cur
    → ((pnext w s.cur s).0 < pnproc) × IsLive (pnext w s.cur s).1 (pnext w s.cur s).0
unfolding runnable
next-IsLive w s lt ne = elim (pnext-IsNext w s.cur s lt) [
  | inl (small, ok, least) ↦ (small, (&&-both _ _ ok).0)
  | inr (same, dead) ↦ absurd (ne same)
]

-- The chosen process takes over from one that has been set aside.
aside_first :
    (w : World) (s : Sched) (f : ℕ → ℕ) (b : Bool)
    → IsPlaced s
    → ((pnext w s.cur s).0 == s.cur) ≡ false
    → Moved s (pgone (pnext w s.cur s).0 (set_aside (pnext w s.cur s).1 f b)) (pnext w s.cur s).0
aside_first w s f b v e =
    let nxt = (pnext w s.cur s).0 in
    let t = (pnext w s.cur s).1 in
    let scan = pnext-Alike w s.cur s in
    let aside = aside-Alike t f b in
    let ne : nxt ≢ s.cur = ground arith in
    let (lt, l) = next-IsLive w s v.small ne in
    gone-Moved s (set_aside t f b) nxt (Alike-trans s t (set_aside t f b) scan aside)
      (aside_saved t f b) lt (ap is_live (aside.state nxt) ∙ l) (λ g. ne (g ∙ aside.cur ∙ scan.cur))
      v

module _ (w : World) (nsp : ℕ × ℕ) (s : Sched) where
  abbrev picked : ℕ × Sched
  picked = pnext w s.cur s

  yield_held : (ltb s.nlive 2 || s.noyld) ≡ true → pyield w nsp s ≡ (false, s)
  unfolding pyield
  yield_held e =
      ap
        (λ (b : Bool).
          if b
          then (false, s)
          else if picked.0 == s.cur
          then (false, picked.1)
          else (true, pgone picked.0 (park nsp picked.1)))
        e

  yield_free :
      (ltb s.nlive 2 || s.noyld) ≡ false
      → pyield w nsp s ≡ (
          if picked.0 == s.cur
          then (false, picked.1)
          else (true, pgone picked.0 (park nsp picked.1)))
  unfolding pyield
  yield_free e =
      ap
        (λ (b : Bool).
          if b
          then (false, s)
          else if picked.0 == s.cur
          then (false, picked.1)
          else (true, pgone picked.0 (park nsp picked.1)))
        e

  parked_first :
      IsPlaced s
      → (picked.0 == s.cur) ≡ false
      → Moved s (pgone picked.0 (park nsp picked.1)) picked.0
  unfolding park psave
  parked_first v e = aside_first w s (with_nsp nsp (picked.1.pd picked.1.cur).frame) true v e

  abbrev Result : Bool × Sched → Type 0
  Result r = Moved s r.1 (if r.0 then picked.0 else s.cur)

  -- pyield() leaves every live process its image's physical page and its resident state, whether it
  -- switches or not, and the invariant that places them: the running process on the TPA and each
  -- other one on a slot of its own. Where it switches, the process that pnext() chooses runs, and
  -- where it does not, the same one. The file-system lock, the number of live processes and the
  -- states of all are as they were.
  pub pyield-Moved : IsPlaced s → Result (pyield w nsp s)
  pyield-Moved v = elim (Bool-cases (ltb s.nlive 2 || s.noyld)) [
    | inl e ↦ subst Result (sym (yield_held e)) (stays-Moved s s (Alike-refl s) v)
    | inr e ↦ subst Result (sym (yield_free e)) (elim (Bool-cases (picked.0 == s.cur)) [
      | inl f ↦ rw f (stays-Moved s picked.1 (pnext-Alike w s.cur s) v)
      | inr f ↦ rw f (parked_first v f)
    ])
  ]

module _ (w : World) (frame : ℕ → ℕ) (nsp : ℕ × ℕ) (s : Sched) where
  -- The slice is spent before anything else.
  abbrev spent : Sched
  spent = record s { pquant = (s.pd s.cur).quant }

  abbrev chosen_then : ℕ × Sched
  chosen_then = pnext w s.cur spent

  spent-Alike : Alike s spent
  spent-Alike = record {
    cur = refl;
    pool = refl;
    resident = refl;
    lkown = refl;
    lkdep = refl;
    nlive = refl;
    state = λ i. refl;
    seg = λ i. refl;
    saved = λ i ne. refl;
  }

  abbrev answered : Sched
  answered =
      if chosen_then.0 == s.cur
      then chosen_then.1
      else pgone chosen_then.0 (save_frame frame nsp chosen_then.1)

  abbrev Dispatched : Sched → Type 0
  Dispatched t = Moved s t (if ltb s.nlive 2 then s.cur else chosen_then.0)

  saved_first :
      IsPlaced s
      → (chosen_then.0 == s.cur) ≡ false
      → Moved s (pgone chosen_then.0 (save_frame frame nsp chosen_then.1)) chosen_then.0
  unfolding save_frame psave
  saved_first v e =
      let old = (chosen_then.1.pd chosen_then.1.cur).frame in
      let m =
        aside_first w spent (with_nsp nsp (λ (k : ℕ). if ltb k 18 then frame k else old k)) false
          (Alike-IsPlaced s spent spent-Alike v) e in
      let lock = m.3 in
      (
        m.0,
        m.1,
        m.2,
        record { lkown = lock.lkown; lkdep = lock.lkdep; nlive = lock.nlive; state = lock.state },
      )

  dispatch_one : ltb s.nlive 2 ≡ true → pdisp w frame nsp s ≡ spent
  unfolding pdisp
  dispatch_one e = ap (λ (b : Bool). if b then spent else answered) e

  dispatch_more : ltb s.nlive 2 ≡ false → pdisp w frame nsp s ≡ answered
  unfolding pdisp
  dispatch_more e = ap (λ (b : Bool). if b then spent else answered) e

  -- pdisp() leaves every live process its image's physical page and its resident state, and the
  -- invariant that places them, and the process that pnext() chooses runs; with one live process,
  -- that one goes on. The file-system lock, the number of live processes and the states of all are
  -- as they were.
  pub pdisp-Moved : IsPlaced s → Dispatched (pdisp w frame nsp s)
  pdisp-Moved v = elim (Bool-cases (ltb s.nlive 2)) [
    | inl e ↦ subst Dispatched (sym (dispatch_one e)) (rw e (stays-Moved s spent spent-Alike v))
    | inr e ↦ subst Dispatched (sym (dispatch_more e)) (
        rw e (elim (Bool-cases (chosen_then.0 == s.cur)) [
          | inl f ↦
              let same : chosen_then.0 ≡ s.cur = ground arith in
              let scan =
                Alike-trans s spent chosen_then.1 spent-Alike (pnext-Alike w s.cur spent) in
              rw f (
                Alike-IsPlaced s chosen_then.1 scan v,
                Alike-Keeps s chosen_then.1 scan,
                scan.cur ∙ sym same,
                Alike-SameLock s chosen_then.1 scan,
              )
          | inr f ↦ rw f (saved_first v f)
        ]))
  ]
