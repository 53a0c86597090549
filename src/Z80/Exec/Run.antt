-- ===== src/Z80/Exec/Run.antt =====
-- The budget of z80run() of shim/z80run.c.
use commodore_900_cpm.Base.{
  ℕ, zero, suc, ◌+◌, ◌≤◌, ◌≡◌, ◌≢◌, ◌⊎◌, inl, inr, refl, sym, ◌∙◌, ap, arith,
}
use commodore_900_cpm.Z80.State.{Z80}
use commodore_900_cpm.Z80.Groups.{Exit}
use commodore_900_cpm.Z80.Exec.{z80step, z80run}

-- A run of `b` more steps behind one that ended with `r`, its count added.
abbrev pub resume : ℕ → Exit × ℕ × Z80 → Exit × ℕ × Z80
resume b (Exit.ok, k, s) = let (e, l, t) = z80run b s in (e, k + l, t)
resume b r = r

-- How a run goes on after its first step.
first_step : Exit → ℕ → Z80 → Exit × ℕ × Z80
first_step Exit.ok n m = let (e, k, s) = z80run n m in (e, k + 1, s)
first_step e n m = (e, 0, m)

z80run-suc : (n : ℕ) (m : Z80) → z80run (suc n) m ≡ first_step (z80step m).0 n (z80step m).1
unfolding z80run first_step
z80run-suc n m = step_case (z80step m).0 (z80step m).1
  where
    step_case :
        (e : Exit) (s : Z80)
        → elim e [
          | Exit.ok ↦ (let (e', k, t) = z80run n s in (e', k + 1, t))
          | other ↦ (other, 0, s)
        ]
          ≡ first_step e n s
    step_case Exit.ok s = refl
    step_case Exit.unimp s = refl
    step_case Exit.bad s = refl
    step_case Exit.hook s = refl
    step_case Exit.halted s = refl

shift_count :
    (b : ℕ) (r : Exit × ℕ × Z80)
    → resume b (r.0, r.1 + 1, r.2) ≡ ((resume b r).0, (resume b r).1 + 1, (resume b r).2)
shift_count b (Exit.ok, k, s) = ap (λ (n : ℕ). ((z80run b s).0, n, (z80run b s).2)) (omega arith)
shift_count b (Exit.unimp, k, s) = refl
shift_count b (Exit.bad, k, s) = refl
shift_count b (Exit.hook, k, s) = refl
shift_count b (Exit.halted, k, s) = refl

resume-first_step :
    (a b : ℕ)
    → ((s : Z80) → z80run (a + b) s ≡ resume b (z80run a s))
    → (e : Exit) (s : Z80) → first_step e (a + b) s ≡ resume b (first_step e a s)
unfolding first_step
resume-first_step a b h Exit.ok s =
    ap (λ (r : Exit × ℕ × Z80). (r.0, r.1 + 1, r.2)) (h s) ∙ sym (shift_count b (z80run a s))
resume-first_step a b h Exit.unimp s = refl
resume-first_step a b h Exit.bad s = refl
resume-first_step a b h Exit.hook s = refl
resume-first_step a b h Exit.halted s = refl

zero_plus : (n : ℕ) → 0 + n ≡ n
zero_plus n = omega arith

suc_plus : (a b : ℕ) → suc a + b ≡ suc (a + b)
suc_plus a b = omega arith

z80run-zero : (b : ℕ) (m : Z80) → z80run (0 + b) m ≡ resume b (z80run 0 m)
unfolding z80run
z80run-zero b m = rw (zero_plus b, zero_plus (z80run b m).1) refl

-- A budget may be split at will: running `a + b` steps is running `a` and then, where each of these
-- was executed, `b` from the state they left, with the counts of executed instructions added.
pub z80run-resume : (a b : ℕ) (m : Z80) → z80run (a + b) m ≡ resume b (z80run a m)
z80run-resume zero b m = z80run-zero b m
z80run-resume (suc a) b m =
    ap (λ (n : ℕ). z80run n m) (suc_plus a b)
    ∙ z80run-suc (a + b) m
    ∙ resume-first_step a b (z80run-resume a b) (z80step m).0 (z80step m).1
    ∙ ap (resume b) (sym (z80run-suc a m))

-- What a run of `n` steps may have counted.
abbrev pub Counted : ℕ → Exit × ℕ × Z80 → Type 0
Counted n r = ((r.0 ≡ Exit.ok) × (r.1 ≡ n)) ⊎ ((r.0 ≢ Exit.ok) × (r.1 + 1 ≤ n))

first_step-Counted :
    (n : ℕ)
    → ((s : Z80) → Counted n (z80run n s))
    → (e : Exit) (s : Z80) → Counted (suc n) (first_step e n s)
unfolding first_step
first_step-Counted n h Exit.ok s = elim (h s) [
  | inl (e, k) ↦ inl (e, omega (arith, k))
  | inr (e, k) ↦ inr (e, omega (arith, k))
]
first_step-Counted n h Exit.unimp s = inr (λ e. ground arith, omega arith)
first_step-Counted n h Exit.bad s = inr (λ e. ground arith, omega arith)
first_step-Counted n h Exit.hook s = inr (λ e. ground arith, omega arith)
first_step-Counted n h Exit.halted s = inr (λ e. ground arith, omega arith)

-- A run of `n` steps that ends with X_OK has counted `n` executed instructions, and one that ends
-- with another answer fewer.
pub z80run-Counted : (n : ℕ) (m : Z80) → Counted n (z80run n m)
unfolding z80run
z80run-Counted zero m = inl (refl, refl)
z80run-Counted (suc n) m =
    rw (z80run-suc n m) (first_step-Counted n (z80run-Counted n) (z80step m).0 (z80step m).1)
