-- ===== src/Z80/Flags/Assembled.antt =====
-- A flag byte assembled by `or_if` from five tests, as z80flags() of shim/z80exec.c does it.
use commodore_900_cpm.Base.{ℕ, Bool, ◌≡◌, ◌∙◌, arith, has, or_if}
use commodore_900_cpm.Z80.Flags.{f_cy, f_one, f_pa, f_ac, f_ze, f_si, clear_z80x}

abbrev pub assembled : Bool → Bool → Bool → Bool → Bool → ℕ
assembled z s p c h =
    clear_z80x (or_if h f_ac (or_if c f_cy (or_if p f_pa (or_if s f_si (or_if z f_ze f_one)))))

-- What can be read back of a flag byte.
pub record Shows (f : ℕ) (z s p c h : Bool) : Type 0 where
  pub zero_flag : has f f_ze ≡ z
  pub sign_flag : has f f_si ≡ s
  pub parity_flag : has f f_pa ≡ p
  pub carry_flag : has f f_cy ≡ c
  pub half_flag : has f f_ac ≡ h

pub assembled-Shows : (z s p c h : Bool) → Shows (assembled z s p c h) z s p c h
assembled-Shows z s p c h = ground arith

-- The five tests may be replaced by equal ones.
pub Shows-cong :
    {f : ℕ} {z s p c h z' s' p' c' h' : Bool}
    → Shows f z s p c h
    → z ≡ z'
    → s ≡ s'
    → p ≡ p'
    → c ≡ c'
    → h ≡ h'
    → Shows f z' s' p' c' h'
Shows-cong w z s p c h = record {
  zero_flag = w.zero_flag ∙ z;
  sign_flag = w.sign_flag ∙ s;
  parity_flag = w.parity_flag ∙ p;
  carry_flag = w.carry_flag ∙ c;
  half_flag = w.half_flag ∙ h;
}
