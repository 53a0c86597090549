-- ===== src/Procs/Exclusion.antt =====
-- The recursive file-system lock of src/bdos/proc.c over any run of the processes: plock() passes
-- for the holder and for no other.
use mathlib.Core.Path.{subst}
use native.Mathlib.Decide.{ℕ_discrete}
use commodore_900_cpm.Base.{
  ℕ, ◌+◌, ◌-◌, ◌<◌, false, not, ◌==◌, some, store, ◌≡◌, ◌≢◌, refl, ap, sym, inl, inr, ◌∙◌, arith,
  Bool-cases,
}
use commodore_900_cpm.Procs.{
  Sched, World, pnproc, is_live, put_proc, pwake, dec16, pblock, block_running, padopt, punblk,
  wake_proc,
}
use commodore_900_cpm.Procs.Lock.{owned_by, must_wait, lock_take, punlock, plkdrop}
use commodore_900_cpm.Procs.Switch.{pyield, pdisp, resumed}
use commodore_900_cpm.Procs.Counts.{count, alive}
use commodore_900_cpm.Procs.Images.{IsPlaced, IsLive}
use commodore_900_cpm.Procs.Dispatch.{pyield-Moved, pdisp-Moved}
use commodore_900_cpm.Procs.Alike.{Alike, Alike-refl, Alike-trans, put-Alike}
use commodore_900_cpm.Procs.Guarded.{
  count_two, IsGuarded, same-IsGuarded, wake-Alike, Alike-IsGuarded, nonzero, take-IsGuarded,
  holder, release-IsGuarded, drop-IsGuarded,
}

-- What one process does to the lock, or what happens that leaves the lock alone.
pub data Step (s : Sched) (held : ℕ → ℕ) : Sched → (ℕ → ℕ) → Type 0 where
  takes :
      must_wait s ≡ false
      → s.lkdep < 0x7fff
      → Step s held (lock_take s) (store held s.cur (held s.cur + 1))
  releases : 0 < held s.cur → Step s held (punlock s) (store held s.cur (held s.cur - 1))
  drops : Step s held (plkdrop s) (store held s.cur 0)
  yields : (w : World) (nsp : ℕ × ℕ) → Step s held (pyield w nsp s).1 held
  dispatches : (w : World) (frame : ℕ → ℕ) (nsp : ℕ × ℕ) → Step s held (pdisp w frame nsp s) held
  resumes : Step s held (resumed s) held
  blocks : (why obj dl : ℕ) → Step s held (pblock why obj dl s) held
  unblocks : Step s held (punblk s) held
  wakes : (why obj : ℕ) → Step s held (pwake why obj s) held

pub data Run : Sched → (ℕ → ℕ) → Type 0 where
  start :
      (s : Sched) → IsPlaced s → s.nlive ≡ count alive s.pd pnproc → s.lkdep ≡ 0 → Run s (λ i. 0)
  next : {s t : Sched} {h k : ℕ → ℕ} → Run s h → Step s h t k → Run t k

recount-Alike : (s : Sched) (n : ℕ) → Alike s (record s { nwait = n })
recount-Alike s n = record {
  cur = refl;
  pool = refl;
  resident = refl;
  lkown = refl;
  lkdep = refl;
  nlive = refl;
  state = λ i. refl;
  seg = λ i. refl;
  saved = λ i ne. refl;
}

-- Changes of the running process's descriptor, and of none.
unblock-Alike : (s : Sched) → Alike s (punblk s)
unfolding punblk wake_proc
unblock-Alike s = elim (Bool-cases ((s.pd s.cur).wait == 0)) [
  | inl e ↦ rw e (Alike-refl s)
  | inr e ↦ rw e (
      Alike-trans s (put_proc s.cur (record (s.pd s.cur) { wait = 0 }) s) (wake_proc s.cur s)
        (put-Alike s (record (s.pd s.cur) { wait = 0 }) refl refl)
        (recount-Alike (put_proc s.cur (record (s.pd s.cur) { wait = 0 }) s) (dec16 s.nwait)))
]

resume-Alike : (s : Sched) → Alike s (resumed s)
unfolding resumed
resume-Alike s = put-Alike s (record (s.pd s.cur) { inc = false }) refl refl

padopt_again : (s : Sched) → s.nlive ≢ 0 → padopt s ≡ s
unfolding padopt
padopt_again s ne = let z : (s.nlive == 0) ≡ false = ground arith in rw (z, padopt) refl

block_running-Alike : (why obj dl : ℕ) (s : Sched) → Alike s (block_running why obj dl s)
unfolding block_running
block_running-Alike why obj dl s =
    let q = record (s.pd s.cur) { wait = why; wobj = obj; wtick = dl } in
    Alike-trans s (put_proc s.cur q s) (block_running why obj dl s) (put-Alike s q refl refl)
      (recount-Alike (put_proc s.cur q s) (block_running why obj dl s).nwait)

block-Alike : (why obj dl : ℕ) (s : Sched) → s.nlive ≢ 0 → Alike s (pblock why obj dl s)
unfolding pblock
block-Alike why obj dl s ne =
    subst (λ t. Alike s (block_running why obj dl t)) (sym (padopt_again s ne))
      (block_running-Alike why obj dl s)

Step-IsGuarded : {s t : Sched} {h k : ℕ → ℕ} → Step s h t k → IsGuarded s h → IsGuarded t k
Step-IsGuarded {s = s} {h = h} (takes e lt) g = take-IsGuarded s h g e lt
Step-IsGuarded {s = s} {h = h} (releases pos) g = release-IsGuarded s h g pos
Step-IsGuarded {s = s} {h = h} drops g = drop-IsGuarded s h g
Step-IsGuarded {s = s} {h = h} (yields w nsp) g =
    let m = pyield-Moved w nsp s g.placed in same-IsGuarded s (pyield w nsp s).1 h m.3 m.0 g
Step-IsGuarded {s = s} {h = h} (dispatches w frame nsp) g =
    let m = pdisp-Moved w frame nsp s g.placed in same-IsGuarded s (pdisp w frame nsp s) h m.3 m.0 g
Step-IsGuarded {s = s} {h = h} resumes g = Alike-IsGuarded s (resumed s) h (resume-Alike s) g
Step-IsGuarded {s = s} {h = h} (blocks why obj dl) g =
    Alike-IsGuarded s (pblock why obj dl s) h (block-Alike why obj dl s (nonzero s h g)) g
Step-IsGuarded {s = s} {h = h} unblocks g = Alike-IsGuarded s (punblk s) h (unblock-Alike s) g
Step-IsGuarded {s = s} {h = h} (wakes why obj) g =
    Alike-IsGuarded s (pwake why obj s) h (wake-Alike why obj s) g

Run-IsGuarded : {s : Sched} {h : ℕ → ℕ} → Run s h → IsGuarded s h
unfolding owned_by
Run-IsGuarded (start s w c z) = record {
  placed = w;
  counted = c;
  owner = λ ne. absurd (ne z);
  depth = λ i lt. ground arith;
  bound = omega arith;
}
Run-IsGuarded (next r st) = Step-IsGuarded st (Run-IsGuarded r)

-- Over any run of plock(), punlock() and plkdrop() by the running process, of waits, wake-ups and
-- both kinds of switch, and while the lock is taken fewer than 2^15 - 1 times over: when a process
-- has taken the lock and not released it as often, no other has, lkdep counts its acquisitions,
-- and plock() passes for it and goes on waiting for every other process that runs.
pub Run-excludes :
    (s : Sched) (held : ℕ → ℕ) (i : ℕ)
    → Run s held
    → i < pnproc
    → 0 < held i
    → ((j : ℕ) → j < pnproc → 0 < held j → j ≡ i)
      × (s.lkdep ≡ held i)
      × (must_wait s ≡ not (s.cur == i))
unfolding must_wait owned_by
Run-excludes s held i r lt pos =
    let g = Run-IsGuarded r in
    let (o, d) = holder s held i g lt pos in
    let c = g.counted in
    (
      (λ j lj pj.
          let other = (holder s held j g lj pj).0 in let one = sym other ∙ o in ground arith),
      sym d,
      elim (ℕ_discrete i s.cur) [
        | yes same ↦ rw o (ground arith)
        | no ne ↦
            let (j, e, lj, l) = g.owner (λ z. absurd (omega arith)) in
            let both : some j ≡ some i = sym e ∙ o in
            let here : j ≡ i = ground arith in
            let alive_i : IsLive s i = ap (λ k. is_live (s.pd k).state) (sym here) ∙ l in
            let two =
              count_two alive s.pd pnproc i s.cur lt g.placed.small ne alive_i g.placed.running in
            rw o (ground arith)
      ],
    )
