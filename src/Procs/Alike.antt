-- ===== src/Procs/Alike.antt =====
-- States of src/bdos/proc.c that differ at most in what a switch does not depend on.
use native.Mathlib.Decide.{ℕ_discrete}
use commodore_900_cpm.Base.{
  ℕ, ◌<◌, Bool, ◌&&◌, ◌==◌, ltb, ◌≡◌, ◌≢◌, refl, ap, sym, inl, inr, ◌∙◌, Bool-cases, store_self,
  store_ne,
}
use commodore_900_cpm.Procs.{
  Sched, Proc, World, pnproc, is_live, put_proc, pcur_set, pnext, pwscan, due, wake_from,
}
use commodore_900_cpm.Procs.Switch.{pgone, exchange_images, hand_over}
use commodore_900_cpm.Procs.Counts.{woken, wake_from_lem}
use commodore_900_cpm.Procs.Wakes.{awake, awake_all}
use commodore_900_cpm.Procs.Images.{
  IsPlaced, Keeps, IsLive, context_running, context_parked, gone, gone_field,
}

-- The states differ at most in what a switch does not depend on.
pub record Alike (s t : Sched) : Type 0 where
  pub cur : t.cur ≡ s.cur
  pub pool : t.pool ≡ s.pool
  pub resident : t.resident ≡ s.resident
  pub lkown : t.lkown ≡ s.lkown
  pub lkdep : t.lkdep ≡ s.lkdep
  pub nlive : t.nlive ≡ s.nlive
  pub state : (i : ℕ) → (t.pd i).state ≡ (s.pd i).state
  pub seg : (i : ℕ) → (t.pd i).seg ≡ (s.pd i).seg
  pub saved : (i : ℕ) → i ≢ s.cur → (t.pd i).saved ≡ (s.pd i).saved

pub Alike-trans : (s t u : Sched) → Alike s t → Alike t u → Alike s u
Alike-trans s t u a b = record {
  cur = b.cur ∙ a.cur;
  pool = b.pool ∙ a.pool;
  resident = b.resident ∙ a.resident;
  lkown = b.lkown ∙ a.lkown;
  lkdep = b.lkdep ∙ a.lkdep;
  nlive = b.nlive ∙ a.nlive;
  state = λ i. b.state i ∙ a.state i;
  seg = λ i. b.seg i ∙ a.seg i;
  saved = λ i ne. b.saved i (λ e. ne (e ∙ a.cur)) ∙ a.saved i ne;
}

module _ (s t : Sched) (a : Alike s t) where
  Alike-IsLive : (i : ℕ) → IsLive t i → IsLive s i
  Alike-IsLive i l = ap is_live (sym (a.state i)) ∙ l

  pub Alike-IsPlaced : IsPlaced s → IsPlaced t
  Alike-IsPlaced w = record {
    small = rw a.cur w.small;
    running = rw a.cur (ap is_live (a.state s.cur) ∙ w.running);
    home = rw a.cur (a.seg s.cur ∙ w.home);
    parked = λ i h l ne.
        let old = w.parked i h (Alike-IsLive i l) (λ e. ne (e ∙ sym a.cur)) in
        ((λ e. old.0 (sym (a.seg i) ∙ e)), (old.1.0, rw (a.pool, a.seg i) old.1.1));
    apart = λ i j hi hj li lj x y e.
        w.apart i j hi hj (Alike-IsLive i li) (Alike-IsLive j lj) (λ r. x (r ∙ sym a.cur))
          (λ r. y (r ∙ sym a.cur)) (sym (a.seg i) ∙ e ∙ a.seg j);
  }

  pub Alike-Keeps : Keeps s t
  Alike-Keeps i h l = (
    ap is_live (a.state i) ∙ l,
    rw (a.cur, a.pool, a.seg i) refl,
    elim (ℕ_discrete i s.cur) [
      | yes f ↦ context_running t i (f ∙ sym a.cur) ∙ a.resident ∙ sym (context_running s i f)
      | no b ↦ context_parked t i (λ f. b (f ∙ a.cur)) ∙ a.saved i b ∙ sym (context_parked s i b)
    ],
  )

pub Alike-refl : (s : Sched) → Alike s s
Alike-refl s = record {
  cur = refl;
  pool = refl;
  resident = refl;
  lkown = refl;
  lkdep = refl;
  nlive = refl;
  state = λ i. refl;
  seg = λ i. refl;
  saved = λ i ne. refl;
}

module _ (test : ℕ → Proc → Bool) (pd : ℕ → Proc) (j : ℕ) where
  awake_field :
      {X : Type 0} (f : Proc → X)
      → ((q : Proc) → f (woken q) ≡ f q)
      → f (awake test pd j) ≡ f (pd j)
  awake_field f same = elim (Bool-cases (ltb j pnproc && test j (pd j))) [
    | inl e ↦ rw e (same (pd j))
    | inr e ↦ rw e refl
  ]

-- A wake-up moves no process.
pub wake_all-Alike : (test : ℕ → Proc → Bool) (s : Sched) → Alike s (wake_from test pnproc 0 s)
wake_all-Alike test s =
    let only = wake_from_lem test pnproc 0 s in
    let each = awake_all test s in
    record {
      cur = ap (λ (t : Sched). t.cur) only;
      pool = ap (λ (t : Sched). t.pool) only;
      resident = ap (λ (t : Sched). t.resident) only;
      lkown = ap (λ (t : Sched). t.lkown) only;
      lkdep = ap (λ (t : Sched). t.lkdep) only;
      nlive = ap (λ (t : Sched). t.nlive) only;
      state = λ i.
          ap (λ (q : Proc). q.state) (each i) ∙ awake_field test s.pd i (λ q. q.state) (λ q. refl);
      seg =
          λ i. ap (λ (q : Proc). q.seg) (each i) ∙ awake_field test s.pd i (λ q. q.seg) (λ q. refl);
      saved = λ i ne.
          ap (λ (q : Proc). q.saved) (each i) ∙ awake_field test s.pd i (λ q. q.saved) (λ q. refl);
    }

pub pnext-Alike : (w : World) (i : ℕ) (s : Sched) → Alike s (pnext w i s).1
unfolding pnext pwscan
pnext-Alike w i s = elim (Bool-cases (s.nwait == 0)) [
  | inl e ↦ rw e (Alike-refl s)
  | inr e ↦ rw e (wake_all-Alike (due w) s)
]

-- A change of the running process's descriptor that leaves its state and its segment.
pub put-Alike :
    (s : Sched) (q : Proc)
    → q.state ≡ (s.pd s.cur).state
    → q.seg ≡ (s.pd s.cur).seg
    → Alike s (put_proc s.cur q s)
put-Alike s q st sg = record {
  cur = refl;
  pool = refl;
  resident = refl;
  lkown = refl;
  lkdep = refl;
  nlive = refl;
  state = λ i. elim (ℕ_discrete i s.cur) [
    | yes e ↦ rw e (ap (λ (p : Proc). p.state) (store_self s.pd s.cur q) ∙ st)
    | no b ↦ ap (λ (p : Proc). p.state) (store_ne s.pd s.cur q i b)
  ];
  seg = λ i. elim (ℕ_discrete i s.cur) [
    | yes e ↦ rw e (ap (λ (p : Proc). p.seg) (store_self s.pd s.cur q) ∙ sg)
    | no b ↦ ap (λ (p : Proc). p.seg) (store_ne s.pd s.cur q i b)
  ];
  saved = λ i ne. ap (λ (p : Proc). p.saved) (store_ne s.pd s.cur q i ne);
}

-- The lock, the number of live processes and the states of all are the same.
pub record SameLock (s t : Sched) : Type 0 where
  pub lkown : t.lkown ≡ s.lkown
  pub lkdep : t.lkdep ≡ s.lkdep
  pub nlive : t.nlive ≡ s.nlive
  pub state : (i : ℕ) → (t.pd i).state ≡ (s.pd i).state

pub Alike-SameLock : (s t : Sched) → Alike s t → SameLock s t
Alike-SameLock s t a = record { lkown = a.lkown; lkdep = a.lkdep; nlive = a.nlive; state = a.state }

pub gone-SameLock :
    (s t : Sched) (nxt : ℕ)
    → Alike s t
    → nxt < pnproc
    → IsLive t nxt
    → nxt ≢ t.cur
    → IsPlaced s
    → SameLock s (pgone nxt t)
unfolding exchange_images hand_over pcur_set
gone-SameLock s t nxt a lt l ne w =
    let v = Alike-IsPlaced s t a w in
    let e = gone t nxt v lt l ne in
    record {
      lkown = ap (λ (u : Sched). u.lkown) e ∙ a.lkown;
      lkdep = ap (λ (u : Sched). u.lkdep) e ∙ a.lkdep;
      nlive = ap (λ (u : Sched). u.nlive) e ∙ a.nlive;
      state = λ i. gone_field t nxt v lt l ne (λ q. q.state) i (λ q n. refl) ∙ a.state i;
    }
