-- ===== src/Z80/Exec/Loop.antt =====
-- A DCR of a register with a jump back to it while the count is not zero, one instruction at a
-- time, as z80step() of shim/z80exec.c runs it.
use commodore_900_cpm.Base.{
  ℕ, zero, suc, ◌+◌, ◌*◌, ◌<◌, ◌≡◌, ◌≢◌, ◌⊎◌, inl, inr, refl, ◌∙◌, ap, ap₂,
}
use commodore_900_cpm.Base.{arith, Bool-cases, false, ◌==◌, if◌then◌else◌, u8, u16, u32}
use native.Mathlib.Numerals.{add-one}
use commodore_900_cpm.Z80.State.{Z80, Lz}
use commodore_900_cpm.Z80.Flags.{keeps, lazy, z80lcond, cond_of_class, lazy_test}
use commodore_900_cpm.Z80.Flags.Cond.{u8-byte}
use commodore_900_cpm.Z80.Tables.{Op}
use commodore_900_cpm.Z80.Decode.{z80dec}
use commodore_900_cpm.Z80.Groups.{Exit}
use commodore_900_cpm.Z80.Exec.{
  dcr, when_cond, execute, z80exec, is_bad, z80step, z80run, jump, finish_dcr,
}
use commodore_900_cpm.Z80.Exec.Register.{put_a, put_pairs, z80setr-eq, put_a-put_a}
use commodore_900_cpm.Z80.Exec.Register.{put_pairs-put_pairs, z80getr-put}

-- The state after a DCR left `k` in register `x`, at `p`, with `n` instructions executed.
abbrev pub left : Z80 → ℕ → ℕ → ℕ → ℕ → Z80
left b x k n p = record b {
  a = put_a x k b.a;
  rp = put_pairs x k b.rp;
  lz = Lz.dcr;
  la = u8 (k + 1);
  lb = 1;
  lr = u8 k;
  lc = 0;
  ninsn = n;
  pc = p;
}

abbrev pub one_more : Exit × ℕ × Z80 → Exit × ℕ × Z80
one_more r = (r.0, r.1 + 1, r.2)

pub z80run-ok :
    (n : ℕ) (m m' : Z80) → z80step m ≡ (Exit.ok, m') → z80run (suc n) m ≡ one_more (z80run n m')
unfolding z80run
z80run-ok n m m' h = rw (h, z80run) (rw h)

-- DCR once more.
dcr-left : (b : Z80) (x k n p : ℕ) → x ≢ 6 → k < 255 → dcr (left b x (suc k) n p) x ≡ left b x k n p
unfolding dcr lazy keeps
dcr-left b x k n p h hk = rw (
  z80getr-put (left b x (suc k) n p) x (suc k) b.a b.rp h (omega arith),
  byte,
  z80setr-eq _ x k h,
  put_a-put_a x (suc k) k b.a,
  put_pairs-put_pairs x (suc k) k b.rp,
  ← add-one k,
)
  where
    byte : u8 (suc k + 255) ≡ k
    byte = omega arith

-- The two instructions: `DCR x` at `p`, and behind it a jump of `len` bytes to `p` on not zero.
pub record Spins (mem : ℕ → ℕ) (p x len : ℕ) : Type 0 where
  pub here : p < 65536
  pub count_op : (z80dec mem p).op ≡ Op.dcr
  pub count_x : (z80dec mem p).x ≡ x
  pub count_len : (z80dec mem p).len ≡ 1
  pub jump_op : ((z80dec mem (u16 (p + 1))).op ≡ Op.jcc) ⊎ ((z80dec mem (u16 (p + 1))).op ≡ Op.jr)
  pub jump_x : (z80dec mem (u16 (p + 1))).x ≡ 0
  pub jump_imm : (z80dec mem (u16 (p + 1))).imm ≡ p
  pub jump_len : (z80dec mem (u16 (p + 1))).len ≡ len

not_zero :
    (b : Z80) (x k n q p : ℕ)
    → k < 256
    → when_cond (left b x k n q) 0 (jump p) ≡ left b x k n (if k == 0 then q else p)
unfolding when_cond z80lcond cond_of_class lazy_test
not_zero b x k n q p hk = elim (Bool-cases (k == 0)) [
  | inl e ↦ rw (u8-byte k hk, e)
  | inr e ↦ rw (u8-byte k hk, e)
]

pub next_count : (c : ℕ) → u32 (u32 c + 1) ≡ u32 (c + 1)
next_count c = omega arith

pub next_pc : (p n : ℕ) → u16 (u16 (p + 1) + n) ≡ u16 (p + 1 + n)
next_pc p n = omega arith

jumped :
    (b : Z80) (x k c p len : ℕ)
    → k < 256
    → when_cond (left b x k (u32 (u32 c + 1)) (u16 (u16 (p + 1) + len))) 0 (jump p)
      ≡ left b x k (u32 (c + 1)) (if k == 0 then u16 (p + 1 + len) else p)
jumped b x k c p len hk =
    rw (next_count c, next_pc p len) (not_zero b x k (u32 (c + 1)) (u16 (p + 1 + len)) p hk)

-- The jump is taken while the count is not zero.
jump-left :
    (b : Z80) (x k c p len : ℕ)
    → Spins b.mem p x len
    → k < 256
    → z80step (left b x k (u32 c) (u16 (p + 1)))
      ≡ (Exit.ok, left b x k (u32 (c + 1)) (if k == 0 then u16 (p + 1 + len) else p))
unfolding z80step z80exec is_bad execute
jump-left b x k c p len w hk = elim w.jump_op [
  | inl e ↦
      rw (e, w.jump_x, w.jump_imm, w.jump_len) (ap (λ m. (Exit.ok, m)) (jumped b x k c p len hk))
  | inr e ↦
      rw (e, w.jump_x, w.jump_imm, w.jump_len) (ap (λ m. (Exit.ok, m)) (jumped b x k c p len hk))
]

suc-eq-zero : (k : ℕ) → (suc k == 0) ≡ false
suc-eq-zero k = ground arith

back-left :
    (b : Z80) (x k c p len : ℕ)
    → Spins b.mem p x len
    → suc k < 256
    → z80step (left b x (suc k) (u32 c) (u16 (p + 1))) ≡ (Exit.ok, left b x (suc k) (u32 (c + 1)) p)
back-left b x k c p len w hk =
    jump-left b x (suc k) c p len w hk
    ∙ ap (λ t. (Exit.ok, left b x (suc k) (u32 (c + 1)) (if t then u16 (p + 1 + len) else p)))
        (suc-eq-zero k)

pub stepped : (m : Z80) (x p r : ℕ) → m.fast ≡ false → finish_dcr m x p r ≡ m
unfolding finish_dcr
stepped m x p r h = ground arith

-- A DCR that does not reach the count of zero steps.
count-left :
    (b : Z80) (x k c p len : ℕ)
    → b.fast ≡ false
    → Spins b.mem p x len
    → x ≢ 6
    → k < 255
    → z80step (left b x (suc k) (u32 c) p) ≡ (Exit.ok, left b x k (u32 (c + 1)) (u16 (p + 1)))
unfolding z80step z80exec is_bad execute
count-left b x k c p len slow w h hk =
    rw (w.count_op, w.count_x, w.count_len, dcr-left b x k _ _ h hk)
      (ap (λ m. (Exit.ok, m))
        (stepped _ x p _ slow ∙ ap (λ n. left b x k n (u16 (p + 1))) (next_count c)))

-- The instructions that are left after a DCR that left `k`: a jump and a DCR for each, and the
-- jump that is not taken.
abbrev pub remaining : ℕ → ℕ
remaining zero = 1
remaining (suc k) = suc (suc (remaining k))

pub remaining-eq : (k : ℕ) → remaining k ≡ 2 * k + 1
remaining-eq zero = refl
remaining-eq (suc k) = omega (arith, remaining-eq k)

pub run-left :
    (b : Z80) (x k c p len : ℕ)
    → b.fast ≡ false
    → Spins b.mem p x len
    → x ≢ 6
    → k < 256
    → z80run (remaining k) (left b x k (u32 c) (u16 (p + 1)))
      ≡ (Exit.ok, remaining k, left b x 0 (u32 (c + remaining k)) (u16 (p + 1 + len)))
unfolding z80run
run-left b x zero c p len slow w h hk = z80run-ok 0 _ _ (jump-left b x 0 c p len w hk)
run-left b x (suc k) c p len slow w h hk =
    z80run-ok (suc (remaining k)) _ _ (back-left b x k c p len w hk)
    ∙ ap one_more
        (z80run-ok (remaining k) _ _ (count-left b x k (c + 1) p len slow w h (omega arith)))
    ∙ ap (λ r. one_more (one_more r)) (run-left b x k (c + 1 + 1) p len slow w h (omega arith))
    ∙ ap₂ (λ n d. (Exit.ok, n, left b x 0 (u32 d) (u16 (p + 1 + len)))) two_more (shifted c)
  where
    two_more : remaining k + 1 + 1 ≡ suc (suc (remaining k))
    two_more = omega arith

    shifted : (c : ℕ) → c + 1 + 1 + remaining k ≡ c + suc (suc (remaining k))
    shifted c = omega arith
