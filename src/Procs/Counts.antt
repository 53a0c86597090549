-- ===== src/Procs/Counts.antt =====
-- The counts of src/bdos/proc.c, pnlive and pnwait, against the descriptors, and what the wake-ups
-- do to the table.
use mathlib.Core.Path.{subst}
use commodore_900_cpm.Base.{
  ℕ, zero, suc, ◌+◌, ◌≤◌, ◌<◌, Bool, true, false, not, ◌&&◌, ◌==◌, ltb, leb, if◌then◌else◌, store,
  bit, ◌≡◌, refl, ap, sym, inl, inr, ◌∙◌, arith, Bool-cases, store_ne,
}
use commodore_900_cpm.Procs.{Sched, Proc, pnproc, pw_run, wake_proc, wake_from, is_live}

-- How many of the descriptors below `n` pass a test.
unfoldable pub count : (Proc → Bool) → (ℕ → Proc) → ℕ → ℕ
count test pd zero = 0
count test pd (suc n) = bit (test (pd n)) + count test pd n

abbrev pub blocked : Proc → Bool
blocked p = not (p.wait == pw_run)

abbrev pub alive : Proc → Bool
alive p = is_live p.state

pub count-le : (test : Proc → Bool) (pd : ℕ → Proc) (n : ℕ) → count test pd n ≤ n
unfolding count
count-le test pd zero = omega arith
count-le test pd (suc n) = ground (arith, count-le test pd n)

count-store_above :
    (test : Proc → Bool) (pd : ℕ → Proc) (i : ℕ) (p : Proc) (n : ℕ)
    → n ≤ i
    → count test (store pd i p) n ≡ count test pd n
unfolding count
count-store_above test pd i p zero h = refl
count-store_above test pd i p (suc n) h =
    let e : store pd i p n ≡ pd n = store_ne pd i p n (omega arith) in
    simp (e, count-store_above test pd i p n (omega arith)) refl

-- A write to one descriptor changes a count by that descriptor.
pub count-store :
    (test : Proc → Bool) (pd : ℕ → Proc) (i : ℕ) (p : Proc) (n : ℕ)
    → i < n
    → count test (store pd i p) n + bit (test (pd i)) ≡ count test pd n + bit (test p)
unfolding count
count-store test pd i p zero h = elim h [ ]
count-store test pd i p (suc n) h = elim (Bool-cases (n == i)) [
  | inl e ↦
      let same : n ≡ i = ground arith in
      let here : store pd i p n ≡ p = rw e refl in
      omega (
        arith,
        ap (λ q. bit (test q)) here,
        ap (λ k. bit (test (pd k))) same,
        count-store_above test pd i p n (omega arith),
      )
  | inr e ↦
      let there : store pd i p n ≡ pd n = rw e refl in
      omega (arith, ap (λ q. bit (test q)) there, count-store test pd i p n (ground arith))
]

-- What a count of 0 says of each descriptor.
pub count_zero :
    (test : Proc → Bool) (pd : ℕ → Proc) (n i : ℕ)
    → count test pd n ≡ 0
    → i < n
    → test (pd i) ≡ false
unfolding count
count_zero test pd zero i e h = elim h [ ]
count_zero test pd (suc n) i e h = elim (Bool-cases (i == n)) [
  | inl s ↦ let same : i ≡ n = ground arith in rw same (ground arith)
  | inr s ↦ count_zero test pd n i (omega arith) (ground arith)
]

-- pnwait is the number of descriptors with a wait reason.
abbrev pub IsCounted : Sched → Type 0
IsCounted s = s.nwait ≡ count blocked s.pd pnproc

abbrev pub woken : Proc → Proc
woken p = record p { wait = pw_run }

pub wake_proc-IsCounted :
    (i : ℕ) (s : Sched)
    → i < pnproc
    → blocked (s.pd i) ≡ true
    → IsCounted s
    → IsCounted (wake_proc i s)
unfolding wake_proc
wake_proc-IsCounted i s lt b c =
    let e = count-store blocked s.pd i (woken (s.pd i)) pnproc lt in
    let few = count-le blocked s.pd pnproc in
    let one : bit (blocked (s.pd i)) ≡ 1 = rw b refl in omega (arith, e, few, one)

-- One round of a loop that applies `f` where a test holds, seen at `j`.
module _ {A : Type 0} (test : ℕ → A → Bool) (f : A → A) (pd : ℕ → A) (rounds i j : ℕ) where
  abbrev sweep : (ℕ → A) → ℕ → ℕ → A
  sweep g n k = if leb k j && ltb j (k + n) && test j (g j) then f (g j) else g j

  sweep_hit :
      test i (pd i) ≡ true → sweep (store pd i (f (pd i))) rounds (i + 1) ≡ sweep pd (suc rounds) i
  sweep_hit e = elim (Bool-cases (j == i)) [
    | inl s ↦
        let same : j ≡ i = ground arith in ground (arith, ap pd same, ap (λ k. test k (pd k)) same)
    | inr s ↦ ground arith
  ]

  sweep_miss : test i (pd i) ≡ false → sweep pd rounds (i + 1) ≡ sweep pd (suc rounds) i
  sweep_miss e = elim (Bool-cases (j == i)) [
    | inl s ↦
        let same : j ≡ i = ground arith in ground (arith, ap pd same, ap (λ k. test k (pd k)) same)
    | inr s ↦ ground arith
  ]

-- What a loop that wakes makes of each descriptor.
abbrev pub swept : (ℕ → Proc → Bool) → ℕ → ℕ → (ℕ → Proc) → ℕ → Proc
swept test rounds i pd j =
    if leb i j && ltb j (i + rounds) && test j (pd j) then woken (pd j) else pd j

module _ (test : ℕ → Proc → Bool) (rounds i : ℕ) (s : Sched) where
  wake_from_hit :
      test i (s.pd i) ≡ true
      → wake_from test (suc rounds) i s ≡ wake_from test rounds (i + 1) (wake_proc i s)
  unfolding wake_from
  wake_from_hit e =
      ap (λ (b : Bool). wake_from test rounds (i + 1) (if b then wake_proc i s else s)) e

  wake_from_miss :
      test i (s.pd i) ≡ false → wake_from test (suc rounds) i s ≡ wake_from test rounds (i + 1) s
  unfolding wake_from
  wake_from_miss e =
      ap (λ (b : Bool). wake_from test rounds (i + 1) (if b then wake_proc i s else s)) e

module _ (test : ℕ → Proc → Bool)
    (some_wait : (k : ℕ) (p : Proc) → test k p ≡ true → blocked p ≡ true) where
  pub wake_from-IsCounted :
      (rounds i : ℕ) (s : Sched)
      → i + rounds ≤ pnproc
      → IsCounted s
      → IsCounted (wake_from test rounds i s)
  unfolding wake_from
  wake_from-IsCounted zero i s h c = c
  wake_from-IsCounted (suc rounds) i s h c = elim (Bool-cases (test i (s.pd i))) [
    | inl e ↦ subst IsCounted (sym (wake_from_hit test rounds i s e)) (
        wake_from-IsCounted rounds (i + 1) (wake_proc i s) (omega arith)
          (wake_proc-IsCounted i s (omega arith) (some_wait i (s.pd i) e) c))
    | inr e ↦
        subst IsCounted (sym (wake_from_miss test rounds i s e))
          (wake_from-IsCounted rounds (i + 1) s (omega arith) c)
  ]

pub wake_from-pd :
    (test : ℕ → Proc → Bool) (rounds i : ℕ) (s : Sched) (j : ℕ)
    → (wake_from test rounds i s).pd j ≡ swept test rounds i s.pd j
unfolding wake_from wake_proc
wake_from-pd test zero i s j = ground arith
wake_from-pd test (suc rounds) i s j = elim (Bool-cases (test i (s.pd i))) [
  | inl e ↦
      ap (λ (t : Sched). t.pd j) (wake_from_hit test rounds i s e)
      ∙ wake_from-pd test rounds (i + 1) (wake_proc i s) j
      ∙ sweep_hit test woken s.pd rounds i j e
  | inr e ↦
      ap (λ (t : Sched). t.pd j) (wake_from_miss test rounds i s e)
      ∙ wake_from-pd test rounds (i + 1) s j
      ∙ sweep_miss test woken s.pd rounds i j e
]

-- Nothing else of the state moves.
abbrev pub OnlyWoken : Sched → Sched → Type 0
OnlyWoken s t = t ≡ record s { pd = t.pd; nwait = t.nwait }

pub wake_from_lem :
    (test : ℕ → Proc → Bool) (rounds i : ℕ) (s : Sched) → OnlyWoken s (wake_from test rounds i s)
unfolding wake_from wake_proc
wake_from_lem test zero i s = refl
wake_from_lem test (suc rounds) i s = elim (Bool-cases (test i (s.pd i))) [
  | inl e ↦
      subst (OnlyWoken s) (sym (wake_from_hit test rounds i s e))
        (wake_from_lem test rounds (i + 1) (wake_proc i s))
  | inr e ↦
      subst (OnlyWoken s) (sym (wake_from_miss test rounds i s e))
        (wake_from_lem test rounds (i + 1) s)
]
