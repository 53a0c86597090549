-- ===== src/Procs/Guarded.antt =====
-- What plock(), punlock() and plkdrop() of src/bdos/proc.c keep of the lock's books.
use native.Mathlib.Decide.{ℕ_discrete}
use commodore_900_cpm.Base.{
  ℕ, zero, suc, ◌+◌, ◌-◌, ◌≤◌, ◌<◌, Bool, true, false, not, ◌&&◌, ◌||◌, ◌==◌, ltb, leb,
  if◌then◌else◌, u16, Option, none, some, store, ◌≡◌, ◌≢◌, ◌⊎◌, refl, ap, sym, inl, inr, ◌∙◌, arith,
  Bool-cases, Option-cases, &&-both,
}
use commodore_900_cpm.Procs.{Sched, Proc, pnproc, is_live, pw_lock, pwake, awaits, dec16}
use commodore_900_cpm.Procs.Lock.{owned_by, must_wait, lock_take, lock_free, punlock, plkdrop}
use commodore_900_cpm.Procs.Counts.{count, alive}
use commodore_900_cpm.Procs.Images.{IsPlaced, IsLive}
use commodore_900_cpm.Procs.Alike.{
  Alike, Alike-IsPlaced, Alike-refl, SameLock, Alike-SameLock, wake_all-Alike,
}

count_one :
    (test : Proc → Bool) (pd : ℕ → Proc) (n i : ℕ)
    → i < n
    → test (pd i) ≡ true
    → 1 ≤ count test pd n
unfolding count
count_one test pd zero i lt e = elim lt [ ]
count_one test pd (suc n) i lt e = elim (ℕ_discrete i n) [
  | yes s ↦ let here : test (pd n) ≡ true = ap (λ k. test (pd k)) (sym s) ∙ e in ground arith
  | no s ↦ let less : i < n = omega arith in omega (arith, count_one test pd n i less e)
]

pub count_two :
    (test : Proc → Bool) (pd : ℕ → Proc) (n i j : ℕ)
    → i < n
    → j < n
    → i ≢ j
    → test (pd i) ≡ true
    → test (pd j) ≡ true
    → 2 ≤ count test pd n
unfolding count
count_two test pd zero i j li lj ne e f = elim li [ ]
count_two test pd (suc n) i j li lj ne e f = elim (ℕ_discrete i n) [
  | yes s ↦
      let here : test (pd n) ≡ true = ap (λ k. test (pd k)) (sym s) ∙ e in
      let less : j < n = omega (arith) in ground (arith, count_one test pd n j less f)
  | no s ↦
      let less : i < n = omega arith in
      elim (ℕ_discrete j n) [
        | yes r ↦
            let here : test (pd n) ≡ true = ap (λ k. test (pd k)) (sym r) ∙ f in
            ground (arith, count_one test pd n i less e)
        | no r ↦
            let below : j < n = omega arith in
            omega (arith, count_two test pd n i j less below ne e f)
      ]
]

count_same :
    (pd pe : ℕ → Proc) (n : ℕ)
    → ((i : ℕ) → (pe i).state ≡ (pd i).state)
    → count alive pe n ≡ count alive pd n
unfolding count
count_same pd pe zero same = refl
count_same pd pe (suc n) same = rw (same n, count_same pd pe n same) refl

-- `held i` is how many times over process `i` has taken the lock and not released it.
pub record IsGuarded (s : Sched) (held : ℕ → ℕ) : Type 0 where
  pub placed : IsPlaced s
  pub counted : s.nlive ≡ count alive s.pd pnproc
  pub owner : s.lkdep ≢ 0 → (j : ℕ) × (s.lkown ≡ some j) × (j < pnproc) × IsLive s j
  pub depth : (i : ℕ) → i < pnproc → held i ≡ (if owned_by i s.lkown then s.lkdep else 0)
  pub bound : s.lkdep < 0x8000

pub same-IsGuarded :
    (s t : Sched) (held : ℕ → ℕ) → SameLock s t → IsPlaced t → IsGuarded s held → IsGuarded t held
same-IsGuarded s t held m p g = record {
  placed = p;
  counted = m.nlive ∙ g.counted ∙ sym (count_same s.pd t.pd pnproc m.state);
  owner = λ ne.
      let (j, e, lt, l) = g.owner (λ z. ne (m.lkdep ∙ z)) in
      (j, m.lkown ∙ e, lt, ap is_live (m.state j) ∙ l);
  depth = λ i lt. rw (m.lkown, m.lkdep) (g.depth i lt);
  bound = rw m.lkdep g.bound;
}

pub wake-Alike : (why obj : ℕ) (s : Sched) → Alike s (pwake why obj s)
unfolding pwake
wake-Alike why obj s = elim (Bool-cases (s.nwait == 0)) [
  | inl e ↦ rw e (Alike-refl s)
  | inr e ↦ rw e (wake_all-Alike (λ i. awaits why obj) s)
]

pub Alike-IsGuarded : (s t : Sched) (held : ℕ → ℕ) → Alike s t → IsGuarded s held → IsGuarded t held
Alike-IsGuarded s t held a g =
    same-IsGuarded s t held (Alike-SameLock s t a) (Alike-IsPlaced s t a g.placed) g

pub nonzero : (s : Sched) (held : ℕ → ℕ) → IsGuarded s held → s.nlive ≢ 0
nonzero s held g =
    omega (arith, g.counted, count_one alive s.pd pnproc s.cur g.placed.small g.placed.running)

-- A process that may take the lock finds it free or its own.
may_take :
    (s : Sched) (held : ℕ → ℕ)
    → IsGuarded s held
    → must_wait s ≡ false
    → (s.lkdep ≡ 0) ⊎ (s.lkown ≡ some s.cur)
unfolding must_wait owned_by
may_take s held g e = elim (ℕ_discrete s.lkdep 0) [
  | yes z ↦ inl z
  | no ne ↦
      let (j, o, lt, l) = g.owner ne in
      elim (ℕ_discrete j s.cur) [
        | yes same ↦ inr (o ∙ ap some same)
        | no other ↦
            let two =
              count_two alive s.pd pnproc j s.cur lt g.placed.small other l g.placed.running in
            let e' : (not (s.lkdep == 0) && not (owned_by s.cur (some j)) && not (ltb s.nlive 2))
                ≡ false =
              rw o at e in
            absurd (ground (arith, g.counted))
      ]
]

relocked :
    (s : Sched) (o : Option ℕ) (d : ℕ) → IsPlaced s → IsPlaced (record s { lkown = o; lkdep = d })
relocked s o d w = record {
  small = w.small;
  running = w.running;
  home = w.home;
  parked = w.parked;
  apart = w.apart;
}

pub take-IsGuarded :
    (s : Sched) (held : ℕ → ℕ)
    → IsGuarded s held
    → must_wait s ≡ false
    → s.lkdep < 0x7fff
    → IsGuarded (lock_take s) (store held s.cur (held s.cur + 1))
unfolding lock_take owned_by
take-IsGuarded s held g e lt =
    let cur = g.placed.small in
    record {
      placed = relocked s (some s.cur) (u16 (s.lkdep + 1)) g.placed;
      counted = g.counted;
      owner = λ ne. (s.cur, refl, g.placed.small, g.placed.running);
      depth = λ i h. elim (may_take s held g e) [
        | inl z ↦
            let none_held : (j : ℕ) → j < pnproc → held j ≡ 0 =
              λ j lj. ground (arith, g.depth j lj) in
            ground (arith, none_held i h, none_held s.cur cur)
        | inr o ↦ let d = rw o at g.depth i h in let c = rw o at g.depth s.cur cur in ground arith
      ];
      bound = omega arith;
    }

-- The process that has taken the lock is the owner.
pub holder :
    (s : Sched) (held : ℕ → ℕ) (i : ℕ)
    → IsGuarded s held
    → i < pnproc
    → 0 < held i
    → (s.lkown ≡ some i) × (held i ≡ s.lkdep)
unfolding owned_by
holder s held i g lt pos = elim (Option-cases s.lkown) [
  | inl e ↦ let d = rw e at g.depth i lt in absurd (omega (arith, d))
  | inr (j, e) ↦
      let d = rw e at g.depth i lt in
      elim (ℕ_discrete j i) [
        | yes same ↦ (e ∙ ap some same, ground arith)
        | no other ↦ absurd (ground arith)
      ]
]

-- The lock given back.
freed-IsGuarded :
    (s : Sched) (held : ℕ → ℕ)
    → IsPlaced s
    → s.nlive ≡ count alive s.pd pnproc
    → ((i : ℕ) → i < pnproc → held i ≡ 0)
    → IsGuarded (lock_free s) held
unfolding lock_free owned_by pwake
freed-IsGuarded s held w c all =
    let r = record s { lkdep = 0; lkown = none } in
    let free : IsGuarded r held = record {
      placed = relocked s none 0 w;
      counted = c;
      owner = λ ne. absurd (ne refl);
      depth = all;
      bound = omega arith;
    } in
    let woken = wake-Alike pw_lock 0 r in
    same-IsGuarded r (pwake pw_lock 0 r) held (Alike-SameLock r (pwake pw_lock 0 r) woken)
      (Alike-IsPlaced r (pwake pw_lock 0 r) woken free.placed) free

-- What the others hold while one process is the owner.
others_zero :
    (s : Sched) (held : ℕ → ℕ) (i : ℕ)
    → IsGuarded s held
    → s.lkown ≡ some s.cur
    → i < pnproc
    → i ≢ s.cur
    → held i ≡ 0
unfolding owned_by
others_zero s held i g o lt ne = let d = rw o at g.depth i lt in ground arith

pub release-IsGuarded :
    (s : Sched) (held : ℕ → ℕ)
    → IsGuarded s held
    → 0 < held s.cur
    → IsGuarded (punlock s) (store held s.cur (held s.cur - 1))
unfolding punlock owned_by
release-IsGuarded s held g pos =
    let (o, d) = holder s held s.cur g g.placed.small pos in
    let less : dec16 s.lkdep ≡ s.lkdep - 1 = omega (arith, d, g.bound) in
    elim (Bool-cases ((dec16 s.lkdep == 0) || leb 0x8000 (dec16 s.lkdep))) [
      | inl e ↦ rw e (
          freed-IsGuarded s (store held s.cur (held s.cur - 1)) g.placed g.counted (λ i lt.
            elim (ℕ_discrete i s.cur) [
              | yes same ↦ ground (arith, g.bound)
              | no ne ↦ ground (arith, others_zero s held i g o lt ne)
            ]))
      | inr e ↦ rw e (record {
        placed = relocked s s.lkown (dec16 s.lkdep) g.placed;
        counted = g.counted;
        owner = λ ne. (s.cur, o, g.placed.small, g.placed.running);
        depth = λ i lt. let before = rw o at g.depth i lt in simp o (ground (arith, before));
        bound = omega (arith, g.bound);
      })
    ]

owned_some : (i : ℕ) (o : Option ℕ) → owned_by i o ≡ true → o ≡ some i
unfolding owned_by
owned_some i none e = ground arith
owned_some i (some j) e = ground arith

pub drop-IsGuarded :
    (s : Sched) (held : ℕ → ℕ) → IsGuarded s held → IsGuarded (plkdrop s) (store held s.cur 0)
unfolding plkdrop
drop-IsGuarded s held g = elim (Bool-cases (not (s.lkdep == 0) && owned_by s.cur s.lkown)) [
  | inl e ↦
      let o =
        owned_some s.cur s.lkown (&&-both (not (s.lkdep == 0)) (owned_by s.cur s.lkown) e).1 in
      rw e (
        freed-IsGuarded s (store held s.cur 0) g.placed g.counted (λ i lt.
          elim (ℕ_discrete i s.cur) [
            | yes same ↦ ground arith
            | no ne ↦ ground (arith, others_zero s held i g o lt ne)
          ]))
  | inr e ↦ rw e (record {
    placed = g.placed;
    counted = g.counted;
    owner = g.owner;
    depth = λ i lt. elim (ℕ_discrete i s.cur) [
      | yes same ↦ ground (arith, g.depth i lt)
      | no ne ↦ ground (arith, g.depth i lt)
    ];
    bound = g.bound;
  })
]
