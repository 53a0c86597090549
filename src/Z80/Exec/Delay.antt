-- ===== src/Z80/Exec/Delay.antt =====
-- z80delay() of shim/z80exec.c against the loop stepped instruction by instruction.
use commodore_900_cpm.Base.{ℕ, suc, ◌+◌, ◌*◌, ◌<◌, ◌≡◌, ◌≢◌, refl, ◌∙◌, ap, ap₂}
use native.Mathlib.Numerals.{add-one}
use commodore_900_cpm.Base.{arith, Bool, true, false, ◌==◌, if◌then◌else◌, u8, u16, u32}
use commodore_900_cpm.Z80.State.{Z80, Lz, z80getr, z80rb, z80rw}
use commodore_900_cpm.Z80.Flags.{keeps, lazy, z80flags, materialise, class_flags}
use commodore_900_cpm.Z80.Groups.{Exit}
use commodore_900_cpm.Z80.Exec.{dcr, loop_len, loop_time, charge, z80delay, finish_dcr}
use commodore_900_cpm.Z80.Exec.{execute, z80exec, is_bad, z80step, z80run}
use commodore_900_cpm.Z80.Exec.Register.{put_a, put_pairs, z80setr-eq, put_a-put_a}
use commodore_900_cpm.Z80.Exec.Register.{put_pairs-put_pairs}
use commodore_900_cpm.Z80.Exec.Spins.{loop_len-Spins}
use commodore_900_cpm.Z80.Exec.Loop.{left, Spins, one_more, z80run-ok, remaining, remaining-eq}
use commodore_900_cpm.Z80.Exec.Loop.{run-left, stepped}

-- Two states that differ at most in `fast` and in the books of skipped time.
abbrev pub Agree : Z80 → Z80 → Type 0
Agree s t = record s { fast = t.fast; nskip = t.nskip; owed = t.owed; sleeps = t.sleeps } ≡ t

-- What lazy() keeps of a state before a DCR record replaces the pending one.
abbrev folded_for_dcr : Lz → Z80 → Z80
folded_for_dcr k m = if keeps Lz.dcr k then m else materialise k m

-- The switch `fast` has no part in it.
folded-fast :
    (k : Lz) (m : Z80) (t : Bool)
    → folded_for_dcr k (record m { fast = t })
      ≡ (let m' = folded_for_dcr k m in record m' { fast = t })
unfolding keeps materialise class_flags
folded-fast Lz.none m t = refl
folded-fast k m t = refl

-- What it leaves alone of the rest.
folded-same :
    (k : Lz) (m : Z80)
    → ((folded_for_dcr k m).mem ≡ m.mem)
      × ((folded_for_dcr k m).fast ≡ m.fast)
      × ((folded_for_dcr k m).ninsn ≡ m.ninsn)
      × ((folded_for_dcr k m).pc ≡ m.pc)
      × ((folded_for_dcr k m).a ≡ m.a)
      × ((folded_for_dcr k m).rp ≡ m.rp)
unfolding keeps materialise
folded-same Lz.none m = (refl, refl, refl, refl, refl, refl)
folded-same k m = (refl, refl, refl, refl, refl, refl)

z80getr-lt : (m : Z80) (x : ℕ) → z80getr m x < 256
unfolding z80getr z80rb
z80getr-lt m x = ground arith

-- The first DCR of a loop, from any state.
dcr-first :
    (m : Z80) (x r : ℕ)
    → x ≢ 6
    → u8 (z80getr m x + 255) ≡ r
    → dcr m x ≡ (let b = folded_for_dcr m.lz m in left b x r b.ninsn b.pc)
unfolding dcr lazy z80flags
dcr-first m x r h e = rw (e, z80setr-eq _ x r h, operand)
  where
    operand : u8 (z80getr m x) ≡ u8 (r + 1)
    operand = omega (arith, z80getr-lt m x)

-- The state in which the first DCR leaves everything but the register and the record.
abbrev base : Z80 → Bool → Z80
base m t =
    folded_for_dcr m.lz (record m { ninsn = u32 (m.ninsn + 1); pc = u16 (m.pc + 1); fast = t })

abbrev started : Z80 → Bool → Z80
started m t = record m { ninsn = u32 (m.ninsn + 1); pc = u16 (m.pc + 1); fast = t }

counted :
    (m : Z80) (x r : ℕ) (t : Bool)
    → x ≢ 6
    → u8 (z80getr (started m t) x + 255) ≡ r
    → dcr (started m t) x ≡ left (base m t) x r (u32 (m.ninsn + 1)) (u16 (m.pc + 1))
counted m x r t hx e =
    dcr-first (started m t) x r hx e
    ∙ ap₂ (λ n p. left (base m t) x r n p) (folded-same m.lz (started m t)).2
        (folded-same m.lz (started m t)).3

z80getr-started : (m : Z80) (x : ℕ) (t : Bool) → z80getr (started m t) x ≡ z80getr m x
unfolding z80getr z80rb
z80getr-started m x t = refl

module _ (m : Z80) (x len : ℕ) (w : Spins m.mem m.pc x len) (hx : x ≢ 6) where
  first-step :
      (t : Bool) (r : ℕ)
      → u8 (z80getr m x + 255) ≡ r
      → z80step (record m { fast = t })
        ≡ (Exit.ok, finish_dcr (left (base m t) x r (u32 (m.ninsn + 1)) (u16 (m.pc + 1))) x m.pc r)
  unfolding z80step z80exec is_bad execute
  first-step t r e =
      let e' : u8 (z80getr (started m t) x + 255) ≡ r = unfold z80getr z80rb in e in
      rw (w.count_op, w.count_x, w.count_len)
        (ap₂ (λ s v. (Exit.ok, finish_dcr s x m.pc v)) (counted m x r t hx e') e')

  -- Stepped one at a time.
  slow-run :
      (r : ℕ)
      → u8 (z80getr m x + 255) ≡ r
      → z80run (suc (remaining r)) (record m { fast = false }) ≡ (
        Exit.ok,
        suc (remaining r),
        left (base m false) x 0 (u32 (m.ninsn + 1 + remaining r)) (u16 (m.pc + 1 + len)),
      )
  slow-run r e =
      let b = base m false in
      let same = folded-same m.lz (started m false) in
      let s = left b x r (u32 (m.ninsn + 1)) (u16 (m.pc + 1)) in
      let spins : Spins b.mem m.pc x len = rw same.0 w in
      z80run-ok (remaining r) _ s
        (first-step false r e ∙ ap (λ s. (Exit.ok, s)) (stepped s x m.pc r same.1))
      ∙ ap one_more (run-left b x r (m.ninsn + 1) m.pc len same.1 spins hx (omega (arith, e)))
      ∙ ap (λ n. (Exit.ok, n, left b x 0 (u32 (m.ninsn + 1 + remaining r)) (u16 (m.pc + 1 + len))))
          (add-one (remaining r))

-- The books of time are outside what Agree compares.
charge-eq :
    (s : Z80) (n : ℕ)
    → charge s n ≡ record s { owed = (charge s n).owed; sleeps = (charge s n).sleeps }
unfolding charge
charge-eq s n = ground arith

charge-Agree : (s t : Z80) (n : ℕ) → Agree s t → Agree (charge s n) t
charge-Agree s t n h =
    ap {B = Z80}
      (λ (c : Z80). record c { fast = t.fast; nskip = t.nskip; owed = t.owed; sleeps = t.sleeps })
      (charge-eq s n)
    ∙ h

loop_len-mem : (s m : Z80) (p : ℕ) → s.mem ≡ m.mem → loop_len s p ≡ loop_len m p
unfolding loop_len z80rb z80rw
loop_len-mem s m p e = λ i. loop_len (record m { mem = e i }) p

-- The loop finished in one step.
delayed : Z80 → ℕ → ℕ → ℕ → ℕ → ℕ → Z80
delayed b x r n p len = record b {
  a = put_a x 0 b.a;
  rp = put_pairs x 0 b.rp;
  lz = Lz.dcr;
  la = 1;
  lb = 1;
  lr = 0;
  lc = 0;
  ninsn = u32 (n + (2 * r + 1));
  nskip = u32 (b.nskip + (2 * r + 1));
  pc = u16 (p + 1 + len);
}

delay-left :
    (b : Z80) (x r n q p len : ℕ)
    → x ≢ 6
    → loop_len (left b x r n q) p ≡ len
    → len ≢ 0
    → z80delay (left b x r n q) x p r ≡ charge (delayed b x r n p len) (loop_time len r)
unfolding z80delay lazy keeps delayed
delay-left b x r n q p len hx e h =
    rw (e, open_loop, z80setr-eq _ x 0 hx, put_a-put_a x r 0 b.a, put_pairs-put_pairs x r 0 b.rp)
  where
    open_loop : (len == 0) ≡ false
    open_loop = ground arith

finish_dcr-eq :
    (m : Z80) (x p r : ℕ) → x ≢ 6 → r ≢ 0 → m.fast ≡ true → finish_dcr m x p r ≡ z80delay m x p r
unfolding finish_dcr
finish_dcr-eq m x p r hx hr h = ground arith

base-fast : (m : Z80) → base m true ≡ (let b = base m false in record b { fast = true })
base-fast m = folded-fast m.lz (started m false) true

module _ (m : Z80) (x r : ℕ) (w : Spins m.mem m.pc x (loop_len m m.pc)) (hx : x ≢ 6)
    (hl : loop_len m m.pc ≢ 0) (e : u8 (z80getr m x + 255) ≡ r) (hr : r ≢ 0) where
  abbrev finished : Z80
  finished = delayed (base m true) x r (u32 (m.ninsn + 1)) m.pc (loop_len m m.pc)

  fast-step :
      z80step (record m { fast = true })
      ≡ (Exit.ok, charge finished (loop_time (loop_len m m.pc) r))
  fast-step =
      let b = base m true in
      let same = folded-same m.lz (started m true) in
      let s = left b x r (u32 (m.ninsn + 1)) (u16 (m.pc + 1)) in
      first-step m x (loop_len m m.pc) w hx true r e
      ∙ ap (λ s. (Exit.ok, s))
          (finish_dcr-eq s x m.pc r hx hr same.1
            ∙ delay-left b x r (u32 (m.ninsn + 1)) (u16 (m.pc + 1)) m.pc (loop_len m m.pc) hx
                (loop_len-mem s m m.pc same.0) hl)

  finished-Agree :
      Agree finished (
        left
          (base m false)
          x
          0
          (u32 (m.ninsn + 1 + remaining r))
          (u16 (m.pc + 1 + loop_len m m.pc)))
  unfolding delayed
  finished-Agree =
      rw (base-fast m)
        (ap (λ n. left (base m false) x 0 n (u16 (m.pc + 1 + loop_len m m.pc))) instructions)
    where
      instructions : u32 (u32 (m.ninsn + 1) + (2 * r + 1)) ≡ u32 (m.ninsn + 1 + remaining r)
      instructions = omega (arith, remaining-eq r)

-- Started from any state whose PC is a word, at a DCR of a register, not of the byte at (HL), that
-- opens a delay loop and does not bring the register to zero: one step with the fast loops on and
-- `2 r + 2` steps with them off (`r` what the DCR leaves) both answer X_OK, none of the steps stops
-- early, and the states that they leave agree in everything, registers, flags record, PC, memory and
-- instruction count included, but the switch itself and the books of skipped time.
pub z80delay-Agree :
    (m : Z80) (x : ℕ)
    → m.pc < 65536
    → x < 8
    → x ≢ 6
    → u8 (m.mem m.pc) ≡ 5 + 8 * x
    → loop_len m m.pc ≢ 0
    → u8 (z80getr m x + 255) ≢ 0
    → let r = u8 (z80getr m x + 255) in
      let (e, s) = z80step (record m { fast = true }) in
      let (e', n, t) = z80run (2 * r + 2) (record m { fast = false }) in
      (e ≡ Exit.ok) × (e' ≡ Exit.ok) × (n ≡ 2 * r + 2) × Agree s t
z80delay-Agree m x hp hx8 hx op hl hr =
    let r = u8 (z80getr m x + 255) in
    let w = loop_len-Spins m m.pc x hp hx8 op hl in
    let fast = fast-step m x r w hx hl refl hr in
    let slow = slow-run m x (loop_len m m.pc) w hx r refl in
    let steps : 2 * r + 2 ≡ suc (remaining r) = omega (arith, remaining-eq r) in
    rw (steps, fast, slow)
      (refl, refl, refl, charge-Agree _ _ _ (finished-Agree m x r w hx hl refl hr))
