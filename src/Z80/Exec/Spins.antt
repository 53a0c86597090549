-- ===== src/Z80/Exec/Spins.antt =====
-- The delay loop that z80delay() of shim/z80exec.c recognises in memory, as z80dec() decodes it.
use commodore_900_cpm.Base.{ℕ, zero, suc, ◌+◌, ◌*◌, ◌<◌, ◌≡◌, ◌≢◌, ◌⊎◌, inl, inr, refl, arith}
use commodore_900_cpm.Base.{false, u8, u16, has, get_or}
use commodore_900_cpm.Z80.State.{Z80, z80rb, z80rw}
use commodore_900_cpm.Z80.Tables.{Op, blen, bop, bx, bfl}
use commodore_900_cpm.Z80.Decode.{fb, sx, iw, is_jr, dec_base, z80dec}
use commodore_900_cpm.Z80.Exec.{loop_len}
use commodore_900_cpm.Z80.Exec.Loop.{Spins}

-- DCR of register `x` is opcode 5 + 8 x.
dcr_entry :
    (x : ℕ)
    → x < 8
    → (has (get_or bfl (5 + 8 * x) 0) 0x08 ≡ false)
      × (get_or bop (5 + 8 * x) Op.bad ≡ Op.dcr)
      × (get_or bx (5 + 8 * x) 0 ≡ x)
      × (get_or blen (5 + 8 * x) 0 ≡ 1)
unfolding bfl bop bx blen
dcr_entry zero h = (refl, refl, refl, refl)
dcr_entry (suc zero) h = (refl, refl, refl, refl)
dcr_entry (suc (suc zero)) h = (refl, refl, refl, refl)
dcr_entry (suc (suc (suc zero))) h = (refl, refl, refl, refl)
dcr_entry (suc (suc (suc (suc zero)))) h = (refl, refl, refl, refl)
dcr_entry (suc (suc (suc (suc (suc zero))))) h = (refl, refl, refl, refl)
dcr_entry (suc (suc (suc (suc (suc (suc zero)))))) h = (refl, refl, refl, refl)
dcr_entry (suc (suc (suc (suc (suc (suc (suc zero))))))) h = (refl, refl, refl, refl)
dcr_entry (suc (suc (suc (suc (suc (suc (suc (suc n)))))))) h = absurd (omega arith)

-- A base opcode decodes by the tables.
base-entry :
    (m : ℕ → ℕ) (pc op : ℕ)
    → u8 (m pc) ≡ op
    → has (get_or bfl op 0) 0x08 ≡ false
    → z80dec m pc ≡ dec_base m pc op
unfolding z80dec
base-entry m pc op e h = rw (e, h)

-- The bytes behind the DCR, as the decoder of the jump and as z80delay() address them.
jump_byte1 : (p : ℕ) → u16 (u16 (p + 1) + 1) ≡ u16 (p + 2)
jump_byte1 p = omega arith

jump_byte2 : (p : ℕ) → u16 (u16 (p + 1) + 2) ≡ u16 (p + 2 + 1)
jump_byte2 p = omega arith

-- JNZ with its own address, and JR NZ by -3.
jnz_target : (m : Z80) (p : ℕ) → z80rw m (p + 2) ≡ p → iw m.mem (u16 (p + 1)) 1 ≡ p
unfolding z80rw z80rb iw fb
jnz_target m p h = rw (jump_byte1 p, jump_byte2 p) h

jr_target :
    (m : Z80) (p : ℕ)
    → p < 65536
    → z80rb m (p + 2) ≡ 0xfd
    → u16 (sx (fb m.mem (u16 (p + 1)) 1) + u16 (p + 1) + 2) ≡ p
unfolding z80rb fb
jr_target m p hp h = rw (jump_byte1 p, h) sum
  where
    sum : u16 (sx 0xfd + u16 (p + 1) + 2) ≡ p
    sum = unfold sx in omega arith

-- Which loop z80delay() has found.
loop_len-cases :
    (m : Z80) (p : ℕ)
    → loop_len m p ≢ 0
    → ((loop_len m p ≡ 3) × (z80rb m (p + 1) ≡ 0xc2) × (z80rw m (p + 2) ≡ p))
      ⊎ ((loop_len m p ≡ 2) × (z80rb m (p + 1) ≡ 0x20) × (z80rb m (p + 2) ≡ 0xfd))
unfolding loop_len
loop_len-cases m p h = ground arith

module _ (m : Z80) (p x : ℕ) (hp : p < 65536) (hx : x < 8)
    (dcr_there : u8 (m.mem p) ≡ 5 + 8 * x) where
  Spins-jnz : z80rb m (p + 1) ≡ 0xc2 → z80rw m (p + 2) ≡ p → Spins m.mem p x 3
  unfolding z80rb
  Spins-jnz opcode target =
      let d = base-entry m.mem p (5 + 8 * x) dcr_there (dcr_entry x hx).0 in
      let j = base-entry m.mem (u16 (p + 1)) 0xc2 opcode (unfold bfl in refl) in
      record {
        here = hp;
        count_op = rw d (unfold dec_base in (dcr_entry x hx).1);
        count_x = rw d (unfold dec_base in (dcr_entry x hx).2);
        count_len = rw d (unfold dec_base in (dcr_entry x hx).3);
        jump_op = inl (rw j (unfold dec_base bop in refl));
        jump_x = rw j (unfold dec_base bx in refl);
        jump_imm = rw j (unfold dec_base blen in jnz_target m p target);
        jump_len = rw j (unfold dec_base blen in refl);
      }

  Spins-jr : z80rb m (p + 1) ≡ 0x20 → z80rb m (p + 2) ≡ 0xfd → Spins m.mem p x 2
  unfolding z80rb
  Spins-jr opcode target =
      let d = base-entry m.mem p (5 + 8 * x) dcr_there (dcr_entry x hx).0 in
      let j = base-entry m.mem (u16 (p + 1)) 0x20 opcode (unfold bfl in refl) in
      record {
        here = hp;
        count_op = rw d (unfold dec_base in (dcr_entry x hx).1);
        count_x = rw d (unfold dec_base in (dcr_entry x hx).2);
        count_len = rw d (unfold dec_base in (dcr_entry x hx).3);
        jump_op = inr (rw j (unfold dec_base bop in refl));
        jump_x = rw j (unfold dec_base bx in refl);
        jump_imm = rw j (unfold dec_base blen bop is_jr in jr_target m p hp target);
        jump_len = rw j (unfold dec_base blen in refl);
      }

  -- Where z80delay() finds a loop, the decoder sees one.
  pub loop_len-Spins : loop_len m p ≢ 0 → Spins m.mem p x (loop_len m p)
  loop_len-Spins h = elim (loop_len-cases m p h) [
    | inl (n, a, b) ↦ rw n (Spins-jnz a b)
    | inr (n, a, b) ↦ rw n (Spins-jr a b)
  ]
