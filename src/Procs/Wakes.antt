-- ===== src/Procs/Wakes.antt =====
-- Blocking and the wake-ups of src/bdos/proc.c: pblock(), punblk(), pwake() and pwscan().
use mathlib.Core.Path.{subst}
use commodore_900_cpm.Base.{
  ℕ, ◌<◌, Bool, true, ◌&&◌, ◌==◌, ltb, if◌then◌else◌, store, ◌≡◌, ◌≢◌, ◌≤◌, ◌⊎◌, ◌↔◌, refl, ap, sym,
  inl, inr, ◌∙◌, arith, Bool-cases,
}
use commodore_900_cpm.Procs.{
  Sched, Proc, Status, is_live, pnproc, pw_run, wake_from, pwake, awaits, pwscan, due, World,
  pblock, punblk, padopt,
}
use commodore_900_cpm.Procs.Counts.{
  count, count-le, count-store, count_zero, blocked, IsCounted, woken, wake_proc-IsCounted,
  wake_from-IsCounted, wake_from-pd, wake_from_lem, OnlyWoken,
}

awaits-blocked :
    (why obj : ℕ) → why ≢ pw_run → (p : Proc) → awaits why obj p ≡ true → blocked p ≡ true
unfolding awaits
awaits-blocked why obj ne p h = ground arith

pub due-blocked : (w : World) (i : ℕ) (p : Proc) → due w i p ≡ true → blocked p ≡ true
unfolding due
due-blocked w i p h = ground arith

-- The table after a wake-up.
abbrev pub awake : (ℕ → Proc → Bool) → (ℕ → Proc) → ℕ → Proc
awake test pd j = if ltb j pnproc && test j (pd j) then woken (pd j) else pd j

pub awake_none :
    (test : ℕ → Proc → Bool) (some_wait : (k : ℕ) (p : Proc) → test k p ≡ true → blocked p ≡ true)
    (pd : ℕ → Proc) (j : ℕ)
    → count blocked pd pnproc ≡ 0
    → pd j ≡ awake test pd j
awake_none test some_wait pd j e = elim (Bool-cases (ltb j pnproc && test j (pd j))) [
  | inl h ↦ absurd (ground (arith, count_zero blocked pd pnproc j e, some_wait j (pd j)))
  | inr h ↦ rw h refl
]

pub awake_all :
    (test : ℕ → Proc → Bool) (s : Sched) (j : ℕ)
    → (wake_from test pnproc 0 s).pd j ≡ awake test s.pd j
awake_all test s j = wake_from-pd test pnproc 0 s j ∙ ground arith

live_state : (st : Status) → is_live st ≡ true → st ≡ Status.live
live_state Status.live e = refl
live_state Status.free e = absurd (ground arith)
live_state Status.reserved e = absurd (ground arith)

pub is_live-state : (st : Status) → (is_live st ≡ true) ↔ (st ≡ Status.live)
is_live-state st = (live_state st, λ e. ap is_live e)

-- `new` is what a wake-up of the descriptors with `P` makes of descriptor `j`.
abbrev pub Fate : (ℕ → Proc → Type 0) → (ℕ → Proc) → Proc → ℕ → Type 0
Fate P pd new j =
    ((j < pnproc) × P j (pd j) × (new ≡ woken (pd j)))
    ⊎ (((pnproc ≤ j) ⊎ (¬ P j (pd j))) × (new ≡ pd j))

pub awake-Fate :
    (test : ℕ → Proc → Bool) (P : ℕ → Proc → Type 0) (pd : ℕ → Proc) (j : ℕ)
    → (test j (pd j) ≡ true) ↔ P j (pd j)
    → Fate P pd (awake test pd j) j
awake-Fate test P pd j same = elim (Bool-cases (ltb j pnproc)) [
  | inl inside ↦ elim (Bool-cases (test j (pd j))) [
    | inl e ↦ inl (ground arith, same.0 e, rw (inside, e) refl)
    | inr e ↦ inr (inr (λ h. absurd (ground (arith, same.1 h))), rw (inside, e) refl)
  ]
  | inr outside ↦ inr (inl (ground arith), rw outside refl)
]

-- A live process that waits for the event: for this reason, on this object.
abbrev pub WaitsFor : ℕ → ℕ → Proc → Type 0
WaitsFor why obj p = (p.state ≡ Status.live) × (p.wait ≡ why) × (p.wobj ≡ obj)

awaits_iff : (why obj : ℕ) (p : Proc) → (awaits why obj p ≡ true) ↔ WaitsFor why obj p
unfolding awaits
awaits_iff why obj p = (
  λ e. (live_state p.state (ground arith), ground arith, ground arith),
  λ h. let live_now : is_live p.state ≡ true = ap is_live h.0 in ground (arith, live_now, h),
)

pwake_table :
    (why obj : ℕ) (s : Sched)
    → why ≢ pw_run
    → IsCounted s
    → (j : ℕ) → (pwake why obj s).pd j ≡ awake (λ i. awaits why obj) s.pd j
unfolding pwake
pwake_table why obj s ne c j = elim (Bool-cases (s.nwait == 0)) [
  | inl e ↦
      rw e (awake_none (λ i. awaits why obj) (λ i. awaits-blocked why obj ne) s.pd j (ground arith))
  | inr e ↦ rw e (awake_all (λ i. awaits why obj) s j)
]

-- A wake-up by pwake() clears the wait reason of exactly the descriptors of the table that are live
-- and whose reason and object are these, also where pnwait makes it skip the table, and changes
-- nothing else but pnwait, which stays the number of descriptors that have a wait reason, if it was
-- that before. The reason is not PW_RUN.
pub pwake_lem :
    (why obj : ℕ) (s : Sched)
    → why ≢ pw_run
    → IsCounted s
    → IsCounted (pwake why obj s)
      × ((j : ℕ) → Fate (λ k. WaitsFor why obj) s.pd ((pwake why obj s).pd j) j)
      × OnlyWoken s (pwake why obj s)
unfolding pwake
pwake_lem why obj s ne c = (
  elim (Bool-cases (s.nwait == 0)) [
    | inl e ↦ rw e c
    | inr e ↦ rw e (
        wake_from-IsCounted (λ i. awaits why obj) (λ i. awaits-blocked why obj ne) pnproc 0 s
          (omega arith) c)
  ],
  (λ j.
      subst (λ p. Fate (λ k. WaitsFor why obj) s.pd p j) (sym (pwake_table why obj s ne c j))
        (awake-Fate (λ i. awaits why obj) (λ k. WaitsFor why obj) s.pd j
          (awaits_iff why obj (s.pd j)))),
  elim (Bool-cases (s.nwait == 0)) [
    | inl e ↦ rw e refl
    | inr e ↦ rw e (wake_from_lem (λ i. awaits why obj) pnproc 0 s)
  ],
)

pub pwscan_lem :
    (w : World) (s : Sched)
    → IsCounted s
    → IsCounted (pwscan w s)
      × ((j : ℕ) → (pwscan w s).pd j ≡ awake (due w) s.pd j)
      × OnlyWoken s (pwscan w s)
unfolding pwscan
pwscan_lem w s c = (
  wake_from-IsCounted (due w) (due-blocked w) pnproc 0 s (omega arith) c,
  awake_all (due w) s,
  wake_from_lem (due w) pnproc 0 s,
)

pub punblk-IsCounted : (s : Sched) → s.cur < pnproc → IsCounted s → IsCounted (punblk s)
unfolding punblk
punblk-IsCounted s lt c = elim (Bool-cases ((s.pd s.cur).wait == pw_run)) [
  | inl e ↦ rw e c
  | inr e ↦ rw e (wake_proc-IsCounted s.cur s lt (ground arith) c)
]

pub pblock-IsCounted :
    (why obj dl : ℕ) (s : Sched)
    → s.cur < pnproc
    → s.nlive ≢ 0
    → why ≢ pw_run
    → IsCounted s
    → IsCounted (pblock why obj dl s)
unfolding pblock padopt
pblock-IsCounted why obj dl s lt ne run c =
    let me = s.pd s.cur in
    let new = record me { wait = why; wobj = obj; wtick = dl } in
    let e = count-store blocked s.pd s.cur new pnproc lt in
    let few = count-le blocked (store s.pd s.cur new) pnproc in
    elim (Bool-cases (s.nlive == 0)) [
      | inl z ↦ absurd (ground arith)
      | inr z ↦ rw z (ground (arith, e, few))
    ]
