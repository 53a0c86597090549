-- ===== src/Procs/Turns.antt =====
-- The choice of the next process, pnext() of src/bdos/proc.c: round robin, and who waits how long.
use mathlib.Core.Path.{subst}
use commodore_900_cpm.Base.{
  ℕ, zero, suc, ◌+◌, ◌-◌, ◌≤◌, ◌<◌, Bool, true, false, ◌==◌, ltb, if◌then◌else◌, Option, none, some,
  ◌≡◌, ◌⊎◌, ◌↔◌, ◌%◌, ◌^◌, u32, sym, refl, ap, inl, inr, ◌∙◌, arith, Bool-cases,
}
use commodore_900_cpm.Procs.{
  Sched, Proc, Status, pw_run, pw_tick, pw_con, pnproc, pnext, next_from, next_slot, chosen,
  runnable, World, pwscan, due,
}
use commodore_900_cpm.Procs.Counts.{wake_from-pd, IsCounted, OnlyWoken}
use commodore_900_cpm.Procs.Wakes.{
  awake, awake_none, due-blocked, pwscan_lem, Fate, awake-Fate, is_live-state,
}

-- How far slot `j` is ahead of slot `i` in the round of the table: 1 to 6.
abbrev pub ahead : ℕ → ℕ → ℕ
ahead i j = if ltb i j then j - i else j + pnproc - i

-- What a round of `rounds` slots from `i` finds.
abbrev Finds : (ℕ → Bool) → ℕ → ℕ → Option ℕ → Type 0
Finds test rounds i none = (k : ℕ) → k < pnproc → ahead i k ≤ rounds → test k ≡ false
Finds test rounds i (some j) =
    (j < pnproc) × (test j ≡ true) × ((k : ℕ) → k < pnproc → test k ≡ true → ahead i j ≤ ahead i k)

-- A slot that is not the next one is one nearer from the next one.
ahead_next :
    (test : ℕ → Bool) (i k : ℕ)
    → i < pnproc
    → k < pnproc
    → test (next_slot i) ≡ false
    → (test k ≡ false) ⊎ (ahead i k ≡ ahead (next_slot i) k + 1)
ahead_next test i k lt h e = elim (Bool-cases (k == next_slot i)) [
  | inl s ↦ let same : k ≡ next_slot i = ground arith in inl (ap test same ∙ e)
  | inr s ↦ inr (ground arith)
]

next_slot-Finds :
    (test : ℕ → Bool) (rounds i : ℕ) (o : Option ℕ)
    → i < pnproc
    → test (next_slot i) ≡ false
    → Finds test rounds (next_slot i) o
    → Finds test (suc rounds) i o
next_slot-Finds test rounds i none lt e f = λ k h near. elim (ahead_next test i k lt h e) [
  | inl no_k ↦ no_k
  | inr s ↦ f k h (omega (arith, s))
]
next_slot-Finds test rounds i (some j) lt e f = (
  f.0,
  f.1,
  λ k h t. elim (ahead_next test i k lt h e) [
    | inl no_k ↦ absurd (ground arith)
    | inr s ↦ elim (ahead_next test i j lt f.0 e) [
      | inl no_j ↦ absurd (ground (arith, f.1))
      | inr r ↦ omega (arith, s, r, f.2 k h t)
    ]
  ],
)

next_from-Finds :
    (test : ℕ → Bool) (rounds i : ℕ) → i < pnproc → Finds test rounds i (next_from test rounds i)
unfolding next_from
next_from-Finds test zero i lt = λ k h near. absurd (ground arith)
next_from-Finds test (suc rounds) i lt = elim (Bool-cases (test (next_slot i))) [
  | inl e ↦ rw e (ground arith, e, λ k h t. ground arith)
  | inr e ↦ rw e (
      next_slot-Finds test rounds i (next_from test rounds (next_slot i)) lt e
        (next_from-Finds test rounds (next_slot i) (ground arith)))
]

-- The first slot after `i` in the round of the table that passes, or `i` and none passes.
abbrev pub IsNext : (ℕ → Bool) → ℕ → ℕ → Type 0
IsNext test i j =
    ((j < pnproc)
      × (test j ≡ true)
      × ((k : ℕ) → k < pnproc → test k ≡ true → ahead i j ≤ ahead i k))
    ⊎ ((j ≡ i) × ((k : ℕ) → k < pnproc → test k ≡ false))

pub chosen-IsNext :
    (test : ℕ → Bool) (i : ℕ) → i < pnproc → IsNext test i (chosen (next_from test pnproc i) i)
unfolding chosen
chosen-IsNext test i lt = decide (next_from test pnproc i) (next_from-Finds test pnproc i lt)
  where
    decide : (o : Option ℕ) → Finds test pnproc i o → IsNext test i (chosen o i)
    decide none f = inr (refl, λ k h. f k h (ground arith))
    decide (some j) f = inl f

-- A process that is runnable stays so in the scan.
scan-runnable :
    (w : World) (s : Sched) (p : ℕ)
    → runnable (s.pd p) ≡ true
    → runnable ((pnext w s.cur s).1.pd p) ≡ true
unfolding pnext pwscan runnable due
scan-runnable w s p r = elim (Bool-cases (s.nwait == 0)) [
  | inl e ↦ rw e r
  | inr e ↦ rw e (ground (arith, wake_from-pd (due w) pnproc 0 s p))
]

-- The deadline `dl` is not after the tick: the counter has gone on by less than half its range
-- since.
abbrev pub Passed : ℕ → ℕ → Type 0
Passed tick dl = (d : ℕ) × (d < 2 ^ 31) × ((dl + d) % 2 ^ 32 ≡ tick % 2 ^ 32)

deadline_iff :
    (tick dl : ℕ) → dl < 2 ^ 32 → (ltb (u32 (tick + 2 ^ 32 - dl)) (2 ^ 31) ≡ true) ↔ Passed tick dl
deadline_iff tick dl h = (
  λ e. (u32 (tick + 2 ^ 32 - dl), ground arith, omega arith),
  λ q. let (d, small, there) = q in ground (arith, small, there),
)

-- What wakes a process in descriptor `k`: it is live, and waits for a deadline that has passed, or
-- for a console that has a character.
abbrev pub IsDue : World → ℕ → Proc → Type 0
IsDue w k p =
    (p.state ≡ Status.live)
    × (((p.wait ≡ pw_tick) × Passed (w.tick k) p.wtick)
        ⊎ ((p.wait ≡ pw_con) × (w.key k p.wobj ≡ true)))

due_iff : (w : World) (k : ℕ) (p : Proc) → p.wtick < 2 ^ 32 → (due w k p ≡ true) ↔ IsDue w k p
unfolding due
due_iff w k p h = (
  (λ e. (
    (is_live-state p.state).0 (ground arith),
    elim (Bool-cases (p.wait == pw_tick)) [
      | inl t ↦ inl (ground arith, (deadline_iff (w.tick k) p.wtick h).0 (ground arith))
      | inr t ↦ inr (ground arith, ground arith)
    ],
  )),
  (λ q.
      let live_now = (is_live-state p.state).1 q.0 in
      elim q.1 [
        | inl r ↦
            let passed = (deadline_iff (w.tick k) p.wtick h).1 r.1 in
            ground (arith, live_now, r.0, passed)
        | inr r ↦ ground (arith, live_now, r)
      ]),
)

-- A live process with no wait reason.
abbrev pub CanRun : Proc → Type 0
CanRun p = (p.state ≡ Status.live) × (p.wait ≡ pw_run)

runnable_iff : (p : Proc) → (runnable p ≡ true) ↔ CanRun p
unfolding runnable
runnable_iff p = (
  λ e. ((is_live-state p.state).0 (ground arith), ground arith),
  λ h. let live_now = (is_live-state p.state).1 h.0 in ground (arith, live_now, h),
)

-- The first descriptor after `i` in the round of the table whose process can run, or `i`, and none
-- can.
abbrev pub IsTurn : (ℕ → Proc) → ℕ → ℕ → Type 0
IsTurn pd i j =
    ((j < pnproc) × CanRun (pd j) × ((k : ℕ) → k < pnproc → CanRun (pd k) → ahead i j ≤ ahead i k))
    ⊎ ((j ≡ i) × ((k : ℕ) → k < pnproc → ¬ CanRun (pd k)))

next-IsTurn : (pd : ℕ → Proc) (i j : ℕ) → IsNext (λ k. runnable (pd k)) i j → IsTurn pd i j
next-IsTurn pd i j (inl (small, ok, least)) =
    inl (small, (runnable_iff (pd j)).0 ok, λ k lt h. least k lt ((runnable_iff (pd k)).1 h))
next-IsTurn pd i j (inr (same, dead)) =
    inr (same, λ k lt h. absurd (ground (arith, dead k lt, (runnable_iff (pd k)).1 h)))

scan_table :
    (w : World) (i : ℕ) (s : Sched)
    → IsCounted s
    → (k : ℕ) → (pnext w i s).1.pd k ≡ awake (due w) s.pd k
unfolding pnext
scan_table w i s c k = elim (Bool-cases (s.nwait == 0)) [
  | inl e ↦ rw e (awake_none (due w) (due-blocked w) s.pd k (ground arith))
  | inr e ↦ rw e ((pwscan_lem w s c).1 k)
]

scan-OnlyWoken : (w : World) (i : ℕ) (s : Sched) → IsCounted s → OnlyWoken s (pnext w i s).1
unfolding pnext
scan-OnlyWoken w i s c = elim (Bool-cases (s.nwait == 0)) [
  | inl e ↦ rw e refl
  | inr e ↦ rw e (pwscan_lem w s c).2
]

-- A round that takes the first slot chooses `p` or comes nearer to it.
closer :
    (test : ℕ → Bool) (i j p : ℕ)
    → i < pnproc
    → p < pnproc
    → test p ≡ true
    → IsNext test i j
    → (j < pnproc) × ((j ≡ p) ⊎ (ahead j p < ahead i p))
closer test i j p lt hp r (inl (small, ok, least)) =
    let near : ahead i j ≤ ahead i p = least p hp r in
    (small, elim (Bool-cases (j == p)) [ inl e ↦ inl (ground arith) | inr e ↦ inr (ground arith) ])
closer test i j p lt hp r (inr (same, dead)) = absurd (ground (arith, dead p hp))

pub pnext-IsNext :
    (w : World) (i : ℕ) (s : Sched)
    → i < pnproc
    → IsNext (λ k. runnable ((pnext w i s).1.pd k)) i (pnext w i s).0
unfolding pnext
pnext-IsNext w i s lt =
    chosen-IsNext (λ k. runnable ((if s.nwait == 0 then s else pwscan w s).pd k)) i lt

nearer :
    (w : World) (s : Sched) (p : ℕ)
    → s.cur < pnproc
    → p < pnproc
    → runnable (s.pd p) ≡ true
    → ((pnext w s.cur s).0 < pnproc)
      × (((pnext w s.cur s).0 ≡ p) ⊎ (ahead (pnext w s.cur s).0 p < ahead s.cur p))
nearer w s p lt hp r =
    closer (λ k. runnable ((pnext w s.cur s).1.pd k)) s.cur (pnext w s.cur s).0 p lt hp
      (scan-runnable w s p r) (pnext-IsNext w s.cur s lt)

-- pnext() first clears the wait reason of exactly the live processes whose deadline has passed or
-- whose console has a character, also where pnwait makes it skip the scan, and then takes the first
-- live process without a wait reason in the round of the table that starts after `i`; `i` itself is
-- the last, and the answer where there is none. pnwait is the number of descriptors that have a
-- wait reason, and the deadlines are words of 32 bits.
pub pnext_lem :
    (w : World) (i : ℕ) (s : Sched)
    → i < pnproc
    → IsCounted s
    → ((k : ℕ) → (s.pd k).wtick < 2 ^ 32)
    → IsTurn (pnext w i s).1.pd i (pnext w i s).0
      × ((k : ℕ) → Fate (IsDue w) s.pd ((pnext w i s).1.pd k) k)
      × OnlyWoken s (pnext w i s).1
pnext_lem w i s lt c words = (
  next-IsTurn (pnext w i s).1.pd i (pnext w i s).0 (pnext-IsNext w i s lt),
  (λ k.
      subst (λ p. Fate (IsDue w) s.pd p k) (sym (scan_table w i s c k))
        (awake-Fate (due w) (IsDue w) s.pd k (due_iff w k (s.pd k) (words k)))),
  scan-OnlyWoken w i s c,
)

-- A sequence of dispatches, each of whatever table the processes have made meanwhile.
module _ (w : ℕ → World) (s : ℕ → Sched) (p : ℕ) (hp : p < pnproc)
    (stays : (n : ℕ) → runnable ((s n).pd p) ≡ true)
    (dispatched : (n : ℕ) → (s (suc n)).cur ≡ (pnext (w n) (s n).cur (s n)).0) where
  turn_within :
      (d n : ℕ)
      → (s n).cur < pnproc
      → ahead (s n).cur p ≤ d
      → (m : ℕ) × (m < n + d) × ((s (suc m)).cur ≡ p)
  turn_within zero n lt near = absurd (ground arith)
  turn_within (suc d) n lt near =
      let (small, either) = nearer (w n) (s n) p lt hp (stays n) in
      elim either [
        | inl e ↦ (n, omega arith, dispatched n ∙ e)
        | inr closer_now ↦
            let here = dispatched n in
            let (m, before, there) =
              turn_within d (suc n) (rw here small) (rw here (omega arith)) in
            (m, omega arith, there)
      ]

  -- Whatever the other processes do between the dispatches and whatever the clock and the consoles
  -- answer: a process that is runnable at each of the dispatches gets the machine at one of the
  -- next six. Each dispatch gives the machine to the process that pnext() chooses.
  pub turn_comes : (s 0).cur < pnproc → (m : ℕ) × (m < pnproc) × ((s (suc m)).cur ≡ p)
  turn_comes lt =
      let (m, before, there) = turn_within pnproc 0 lt (ground arith) in (m, omega arith, there)
