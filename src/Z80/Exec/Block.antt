-- ===== src/Z80/Exec/Block.antt =====
-- LDIR of shim/z80exec.c, a step of z80step() for each byte, as a copy of memory.
use commodore_900_cpm.Base.{
  ℕ, zero, suc, ◌+◌, ◌<◌, ◌≡◌, ◌≢◌, refl, sym, ◌∙◌, ap, arith, Bool-cases, inl, inr,
}
use commodore_900_cpm.Base.{◌==◌, if◌then◌else◌, u8, u16, u32, store, store_ne}
use commodore_900_cpm.Z80.State.{Z80, Lz, Pairs, z80rb, z80wb}
use commodore_900_cpm.Z80.Flags.{z80flags, materialise, keeps, lazy}
use commodore_900_cpm.Z80.Tables.{Op, bfl}
use commodore_900_cpm.Z80.Decode.{z80dec, fb, dec_ed, edlen}
use commodore_900_cpm.Z80.Groups.{Exit, edop, load_block, with_pairs}
use commodore_900_cpm.Z80.Exec.{execute, z80exec, is_bad, z80step, z80run}
use commodore_900_cpm.Z80.Exec.Loop.{z80run-ok}

-- The copy: `n` bytes, one at a time and upwards, from `s` to `d`, both as 16-bit addresses.
unfoldable pub copy : ℕ → ℕ → ℕ → (ℕ → ℕ) → ℕ → ℕ
copy zero d s f = f
copy (suc n) d s f = copy n (u16 (d + 1)) (u16 (s + 1)) (store f (u16 d) (u8 (f (u16 s))))

-- The bytes ED B0 at `p`.
pub record IsLdir (f : ℕ → ℕ) (p : ℕ) : Type 0 where
  pub first : u8 (f p) ≡ 0xed
  pub second : u8 (f (u16 (p + 1))) ≡ 0xb0

module _ (f : ℕ → ℕ) (p : ℕ) (w : IsLdir f p) where
  decoded : z80dec f p ≡ dec_ed f p 0xb0
  unfolding z80dec fb bfl
  decoded = rw (w.first, w.second, z80dec) refl

  decoded_op : (dec_ed f p 0xb0).op ≡ Op.ed
  unfolding dec_ed edlen
  decoded_op = refl

ldir_step :
    (m : Z80)
    → IsLdir m.mem m.pc
    → z80step m
      ≡ (Exit.ok, load_block (record m { ninsn = u32 (m.ninsn + 1); pc = u16 (m.pc + 2) }) 0xb0)
unfolding z80step z80exec is_bad execute edop dec_ed edlen
ldir_step m w = rw (decoded m.mem m.pc w, z80step) refl

-- What the flag bookkeeping leaves alone.
kept_by_flags :
    (k : Lz) (m : Z80)
    → ((materialise k m).rp ≡ m.rp)
      × ((materialise k m).mem ≡ m.mem)
      × ((materialise k m).pc ≡ m.pc)
unfolding materialise
kept_by_flags Lz.none m = (refl, refl, refl)
kept_by_flags Lz.add m = (refl, refl, refl)
kept_by_flags Lz.sub m = (refl, refl, refl)
kept_by_flags Lz.and m = (refl, refl, refl)
kept_by_flags Lz.log m = (refl, refl, refl)
kept_by_flags Lz.inr m = (refl, refl, refl)
kept_by_flags Lz.dcr m = (refl, refl, refl)
kept_by_flags Lz.rot m = (refl, refl, refl)
kept_by_flags Lz.bit m = (refl, refl, refl)
kept_by_flags Lz.ldblk m = (refl, refl, refl)
kept_by_flags Lz.cpblk m = (refl, refl, refl)

kept_by_lazy :
    (m : Z80) (k : Lz) (a b r c : ℕ)
    → ((lazy m k a b r c).rp ≡ m.rp)
      × ((lazy m k a b r c).mem ≡ m.mem)
      × ((lazy m k a b r c).pc ≡ m.pc)
unfolding lazy z80flags
kept_by_lazy m k a b r c = elim (Bool-cases (keeps k m.lz)) [
  | inl e ↦ rw (e, lazy) (refl, refl, refl)
  | inr e ↦ rw (e, lazy) (kept_by_flags m.lz m)
]

-- What one LDIR step from `m` leaves in `s`.
record IsMoved (m s : Z80) : Type 0 where
  mem_moved : s.mem ≡ store m.mem (u16 m.rp.de) (u8 (m.mem (u16 m.rp.hl)))
  bc_moved : s.rp.bc ≡ u16 (m.rp.bc + 65535)
  de_moved : s.rp.de ≡ u16 (m.rp.de + 1)
  hl_moved : s.rp.hl ≡ u16 (m.rp.hl + 1)
  pc_moved : s.pc ≡ (if u16 (m.rp.bc + 65535) == 0 then m.pc else u16 (m.pc + 65534))

cut_byte : (x : ℕ) → u8 (u8 x) ≡ u8 x
cut_byte x = omega arith

load_block-IsMoved : (m : Z80) → IsMoved m (load_block m 0xb0)
unfolding load_block z80wb z80rb
load_block-IsMoved m =
    let m1 =
      with_pairs (z80wb m m.rp.de (z80rb m m.rp.hl)) (u16 (m.rp.bc + 65535)) (u16 (m.rp.de + 1))
        (u16 (m.rp.hl + 1)) in
    let moved = λ (c : ℕ). kept_by_lazy m1 Lz.ldblk 0 0 0 c in
    let stored = ap (λ (v : ℕ). store m.mem (u16 m.rp.de) v) (cut_byte (m.mem (u16 m.rp.hl))) in
    elim (Bool-cases (u16 (m.rp.bc + 65535) == 0)) [
      | inl e ↦
          rw (e, load_block)
            (record {
              mem_moved = (moved 0).1 ∙ stored;
              bc_moved = ap (λ (p : Pairs). p.bc) (moved 0).0;
              de_moved = ap (λ (p : Pairs). p.de) (moved 0).0;
              hl_moved = ap (λ (p : Pairs). p.hl) (moved 0).0;
              pc_moved = rw e (moved 0).2;
            })
      | inr e ↦
          rw (e, load_block)
            (record {
              mem_moved = (moved 1).1 ∙ stored;
              bc_moved = ap (λ (p : Pairs). p.bc) (moved 1).0;
              de_moved = ap (λ (p : Pairs). p.de) (moved 1).0;
              hl_moved = ap (λ (p : Pairs). p.hl) (moved 1).0;
              pc_moved = rw e (ap (λ (x : ℕ). u16 (x + 65534)) (moved 1).2);
            })
    ]

-- What a whole LDIR of `n` bytes from `m` leaves as the result of a run.
pub record IsCopied (m : Z80) (n : ℕ) (r : Exit × ℕ × Z80) : Type 0 where
  pub answer : r.0 ≡ Exit.ok
  pub count : r.1 ≡ n
  pub memory : r.2.mem ≡ copy n m.rp.de m.rp.hl m.mem
  pub bc_left : r.2.rp.bc ≡ 0
  pub de_left : r.2.rp.de ≡ u16 (m.rp.de + n)
  pub hl_left : r.2.rp.hl ≡ u16 (m.rp.hl + n)
  pub pc_left : r.2.pc ≡ u16 (m.pc + 2)

-- The state in which z80step() executes the instruction.
abbrev fetched : Z80 → Z80
fetched m = record m { ninsn = u32 (m.ninsn + 1); pc = u16 (m.pc + 2) }

abbrev after_byte : Z80 → Z80
after_byte m = load_block (fetched m) 0xb0

module _ (m : Z80) (w : IsLdir m.mem m.pc) where
  last_byte : m.rp.bc ≡ 1 → IsCopied m 1 (z80run 1 m)
  unfolding z80run copy
  last_byte b =
      let v = load_block-IsMoved (fetched m) in
      rw (z80run-ok 0 m (after_byte m) (ldir_step m w)) (record {
        answer = refl;
        count = refl;
        memory = v.mem_moved;
        bc_left = v.bc_moved ∙ ap (λ (x : ℕ). u16 (x + 65535)) b;
        de_left = v.de_moved;
        hl_left = v.hl_moved;
        pc_left = v.pc_moved ∙ rw b refl;
      })

  module _ (n : ℕ) (b : m.rp.bc ≡ suc (suc n)) (h : suc (suc n) < 65536) (hp : m.pc < 65536) where
    bc_after : (after_byte m).rp.bc ≡ suc n
    bc_after = (load_block-IsMoved (fetched m)).bc_moved ∙ omega (arith, b)

    pc_after : (after_byte m).pc ≡ m.pc
    pc_after = (load_block-IsMoved (fetched m)).pc_moved ∙ ground (arith, b)

    next_bytes :
        IsCopied (after_byte m) (suc n) (z80run (suc n) (after_byte m))
        → IsCopied m (suc (suc n)) (z80run (suc (suc n)) m)
    unfolding copy
    next_bytes c =
        let v = load_block-IsMoved (fetched m) in
        rw (z80run-ok (suc n) m (after_byte m) (ldir_step m w)) (record {
          answer = c.answer;
          count = omega (arith, c.count);
          memory = c.memory ∙ rw (v.de_moved, v.hl_moved, v.mem_moved) refl;
          bc_left = c.bc_left;
          de_left = c.de_left ∙ rw v.de_moved (omega arith);
          hl_left = c.hl_left ∙ rw v.hl_moved (omega arith);
          pc_left = c.pc_left ∙ rw pc_after refl;
        })

-- LDIR at PC, with BC from 1 to 65535 and none of the bytes that it writes before the last one of
-- its own two, runs in BC steps, each answering X_OK. Memory is then what a copy of BC bytes from HL
-- to DE leaves, byte by byte and upwards, so that where the ranges overlap, copied bytes are copied
-- again; BC is 0, DE and HL have gone up by BC, and PC is past the instruction.
pub ldir-IsCopied :
    (n : ℕ) (m : Z80)
    → m.pc < 65536
    → suc n < 65536
    → m.rp.bc ≡ suc n
    → IsLdir m.mem m.pc
    → ((k : ℕ) → k < n → u16 (m.rp.de + k) ≢ m.pc)
    → ((k : ℕ) → k < n → u16 (m.rp.de + k) ≢ u16 (m.pc + 1))
    → IsCopied m (suc n) (z80run (suc n) m)
ldir-IsCopied zero m hp h b w c e = last_byte m w b
ldir-IsCopied (suc n) m hp h b w c e =
    let v = load_block-IsMoved (fetched m) in
    let p = pc_after m w n b h hp in
    let start : u16 m.rp.de ≡ u16 (m.rp.de + 0) = omega arith in
    let code : IsLdir (after_byte m).mem (after_byte m).pc =
      rw (p, v.mem_moved)
        (record {
          first =
              rw
                (store_ne m.mem (u16 m.rp.de) (u8 (m.mem (u16 m.rp.hl))) m.pc
                  (λ z. c 0 (omega arith) (sym start ∙ sym z)))
                w.first;
          second =
              rw
                (store_ne m.mem (u16 m.rp.de) (u8 (m.mem (u16 m.rp.hl))) (u16 (m.pc + 1))
                  (λ z. e 0 (omega arith) (sym start ∙ sym z)))
                w.second;
        }) in
    next_bytes m w n b h hp (
      ldir-IsCopied n (after_byte m) (rw p hp) (omega arith) (bc_after m w n b h hp) code
        (λ k q z. c (k + 1) (omega arith) (omega (arith, rw (v.de_moved, p) at z)))
        (λ k q z. e (k + 1) (omega arith) (omega (arith, rw (v.de_moved, p) at z))))
