-- ===== src/Procs/Tests.antt =====
-- The process table of src/bdos/proc.c at concrete states.
use mathlib.Core.Path.{subst}
use native.Mathlib.Decide.{ℕ_discrete}
use commodore_900_cpm.Base.{
  ℕ, suc, ◌+◌, ◌%◌, ◌<◌, true, false, not, ◌==◌, ltb, if◌then◌else◌, some, store, ◌≡◌, ◌^◌, ◌≢◌,
  ◌⊎◌, inl, inr, refl, sym, arith, Bool-cases,
}
use commodore_900_cpm.Pages.{Pool, pgseg, tpaphyspage, pgpglo, normal, valid_slot, pgslot}
use commodore_900_cpm.Procs.{
  Sched, Proc, Context, World, Status, live, free, pnproc, pw_lock, pwake, pnext, runnable,
}
use commodore_900_cpm.Procs.Switch.{pyield, pdisp}
use commodore_900_cpm.Procs.Lock.{lock_take, must_wait}
use commodore_900_cpm.Procs.Counts.{IsCounted, count, OnlyWoken}
use commodore_900_cpm.Procs.Wakes.{Fate, WaitsFor, pwake_lem}
use commodore_900_cpm.Procs.Turns.{IsTurn, IsDue, pnext_lem, turn_comes}
use commodore_900_cpm.Procs.Images.{IsPlaced}
use commodore_900_cpm.Procs.Dispatch.{Moved, pyield-Moved, pdisp-Moved}
use commodore_900_cpm.Procs.Exclusion.{Run, start, next, takes, Run-excludes}

abbrev pub blank_context : Context
blank_context = record {
  gbl = λ _. 0;
  user = 0;
  rsxhead = 0;
  rsxtop = 0;
  tpa_lp = 0;
  tpa_lt = 0;
  tpa_hp = 0;
  tpa_ht = 0;
  spflag = false;
}

abbrev pub process : Status → ℕ → ℕ → Proc
process st seg wait = record {
  state = st;
  seg = seg;
  con = 0;
  name = λ _. 0x20;
  sess = false;
  prio = 0;
  dma0 = 0;
  frame = λ _. 0;
  saved = blank_context;
  stk = 0xfc00;
  inc = false;
  wait = wait;
  wobj = 0;
  wtick = 0;
  quant = 5;
  catt = λ _. false;
  chome = 0;
  mrtseg = 0;
}

-- Seven slots, of which two park the images of processes.
abbrev pub two_taken : Pool
two_taken = record {
  own = λ i. if ltb i 2 then 1 else 0;
  held = λ i. ltb i 2;
  page = λ i. pgpglo + i;
  cur = 0;
  tpaphys = tpaphyspage;
  nslot = 7;
  bram = 0;
  eram = 0;
  mmu = λ _. record { base = 0; attr = normal };
}

-- Process 0 runs, process 1 is ready, process 2 waits for the file-system lock.
abbrev pub table : ℕ → Proc
table i =
    if i == 0
    then process live 0 0
    else if i == 1
    then process live (pgseg 0) 0
    else if i == 2
    then process live (pgseg 1) pw_lock
    else process free 0 0

abbrev pub three : Sched
three = record {
  pd = table;
  cur = 0;
  nlive = 3;
  nwait = 1;
  nsplit = 0;
  lkown = some 0;
  lkdep = 0;
  noyld = false;
  concur = 0;
  sysstk = 0xfc00;
  pquant = 5;
  psched = true;
  resident = blank_context;
  pool = two_taken;
}

abbrev quiet : World
quiet = record { tick = λ _. 0; key = λ _ _. false }

pwake_wakes : ((pwake pw_lock 0 three).pd 2).wait ≡ 0
unfolding pwake
pwake_wakes = refl

pnext_chooses : (pnext quiet 0 three).0 ≡ 1
unfolding pnext
pnext_chooses = refl

pyield_switches : (pyield quiet (0, 0) three).1.cur ≡ 1
unfolding pyield
pyield_switches = refl

three-IsCounted : IsCounted three
unfolding count
three-IsCounted = refl

abbrev IsParked : ℕ → Type 0
IsParked i = ((table i).seg ≢ 0) × ((k : ℕ) × (valid_slot two_taken (table i).seg ≡ some k))

first-IsParked : IsParked 1
unfolding valid_slot pgslot
first-IsParked = ((λ e. omega arith), (0, refl))

second-IsParked : IsParked 2
unfolding valid_slot pgslot
second-IsParked = ((λ e. omega arith), (1, refl))

three-IsPlaced : IsPlaced three
unfolding valid_slot pgslot
three-IsPlaced = record {
  small = omega arith;
  running = refl;
  home = refl;
  parked = λ i h l ne. elim (ℕ_discrete i 1) [
    | yes e ↦ subst IsParked (sym e) first-IsParked
    | no a ↦ elim (ℕ_discrete i 2) [
      | yes e ↦ subst IsParked (sym e) second-IsParked
      | no b ↦ absurd (ground arith)
    ]
  ];
  apart = λ i j hi hj li lj a b e. ground arith;
}

pwake_lem_example :
    IsCounted (pwake pw_lock 0 three)
    × ((j : ℕ) → Fate (λ k. WaitsFor pw_lock 0) table ((pwake pw_lock 0 three).pd j) j)
    × OnlyWoken three (pwake pw_lock 0 three)
pwake_lem_example = pwake_lem pw_lock 0 three (omega arith) three-IsCounted

table_words : (k : ℕ) → (table k).wtick < 2 ^ 32
table_words k = ground arith

pnext_lem_example :
    IsTurn (pnext quiet 0 three).1.pd 0 (pnext quiet 0 three).0
    × ((k : ℕ) → Fate (IsDue quiet) table ((pnext quiet 0 three).1.pd k) k)
    × OnlyWoken three (pnext quiet 0 three).1
pnext_lem_example = pnext_lem quiet 0 three (omega arith) three-IsCounted table_words

-- Processes 0 and 1 in turns.
abbrev turns : ℕ → Sched
turns n = record three { cur = n % 2 }

turn_stays : (n : ℕ) → runnable ((turns n).pd 1) ≡ true
unfolding runnable
turn_stays n = refl

turn_from :
    (x y : ℕ)
    → ((x ≡ 0) × (y ≡ 1)) ⊎ ((x ≡ 1) × (y ≡ 0))
    → y ≡ (pnext quiet x (record three { cur = x })).0
unfolding pnext
turn_from x y (inl (e, f)) = rw (e, f) refl
turn_from x y (inr (e, f)) = rw (e, f) refl

turn_dispatched : (n : ℕ) → (turns (suc n)).cur ≡ (pnext quiet (turns n).cur (turns n)).0
turn_dispatched n =
    let parity : ((n % 2 ≡ 0) × (suc n % 2 ≡ 1)) ⊎ ((n % 2 ≡ 1) × (suc n % 2 ≡ 0)) =
      elim (Bool-cases (n % 2 == 0)) [ inl e ↦ inl (ground arith) | inr e ↦ inr (ground arith) ] in
    turn_from (n % 2) (suc n % 2) parity

turn_comes_example : (m : ℕ) × (m < pnproc) × ((turns (suc m)).cur ≡ 1)
turn_comes_example =
    turn_comes (λ n. quiet) turns 1 (omega arith) turn_stays turn_dispatched (omega arith)

pyield-Moved_example :
    Moved three
      (pyield quiet (0, 0) three).1
      (if (pyield quiet (0, 0) three).0 then (pnext quiet 0 three).0 else 0)
pyield-Moved_example = pyield-Moved quiet (0, 0) three three-IsPlaced

pdisp-Moved_example :
    Moved three
      (pdisp quiet (λ k. k) (0, 0) three)
      (if ltb 3 2 then 0 else (pnext quiet 0 (record three { pquant = 5 })).0)
pdisp-Moved_example = pdisp-Moved quiet (λ k. k) (0, 0) three three-IsPlaced

may_take : must_wait three ≡ false
unfolding must_wait
may_take = refl

one_taken : Run (lock_take three) (store (λ i. 0) 0 1)
unfolding count
one_taken = next (start three three-IsPlaced refl refl) (takes may_take (omega arith))

Run-excludes_example :
    ((j : ℕ) → j < pnproc → 0 < store (λ i. 0) 0 1 j → j ≡ 0)
    × ((lock_take three).lkdep ≡ 1)
    × (must_wait (lock_take three) ≡ not ((lock_take three).cur == 0))
Run-excludes_example =
    Run-excludes (lock_take three) (store (λ i. 0) 0 1) 0 one_taken (omega arith) (omega arith)
