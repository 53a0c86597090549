-- ===== src/Z80/Exec/Carry.antt =====
-- The carry over the instructions of shim/z80exec.c that do not write it: INR, DCR, BIT and the
-- block compares.
use commodore_900_cpm.Base.{
  ℕ, ◌+◌, ◌-◌, ◌*◌, ◌%◌, ◌^◌, Bool, not, ◌&&◌, ◌==◌, ltb, u8, u16, u32, has, bit, bit_and, ◌≡◌, ◌⊎◌,
  inl, inr, refl, ap, ◌∙◌, arith, Bool-cases,
}
use commodore_900_cpm.Z80.State.{Z80, Lz, z80getr, z80setr, z80rb, z80wb}
use commodore_900_cpm.Z80.Flags.{f_cy, z80flags, materialise, class_flags, common_flags, lazy}
use commodore_900_cpm.Z80.Flags.Cond.{HasByteRecord}
use commodore_900_cpm.Z80.Flags.Survive.{leaves_carry, lazy-carry}
use commodore_900_cpm.Z80.Tables.{Op}
use commodore_900_cpm.Z80.Decode.{Instr}
use commodore_900_cpm.Z80.Groups.{Exit, cbop, edop, compare_block, with_pairs, towards}
use commodore_900_cpm.Z80.Exec.{
  inr as increment, dcr, finish_dcr, z80delay, charge, loop_len, loop_time, z80tick, execute,
  z80exec,
}

-- The states hold the same flags, pending or not.
record SameFlags (m t : Z80) : Type 0 where
  lz : t.lz ≡ m.lz
  f : t.f ≡ m.f
  lc : t.lc ≡ m.lc
  la : t.la ≡ m.la
  lb : t.lb ≡ m.lb
  lr : t.lr ≡ m.lr

same_class :
    (k : Lz) (m t : Z80)
    → t.f ≡ m.f
    → t.lc ≡ m.lc
    → t.la ≡ m.la
    → t.lb ≡ m.lb
    → t.lr ≡ m.lr
    → (materialise k t).f ≡ (materialise k m).f
unfolding materialise class_flags common_flags
same_class Lz.none m t f lc la lb lr = f
same_class Lz.add m t f lc la lb lr = cc
same_class Lz.sub m t f lc la lb lr = cc
same_class Lz.and m t f lc la lb lr = cc
same_class Lz.log m t f lc la lb lr = cc
same_class Lz.inr m t f lc la lb lr = cc
same_class Lz.dcr m t f lc la lb lr = cc
same_class Lz.rot m t f lc la lb lr = cc
same_class Lz.bit m t f lc la lb lr = cc
same_class Lz.ldblk m t f lc la lb lr = cc
same_class Lz.cpblk m t f lc la lb lr = cc

same_carry : (m t : Z80) → SameFlags m t → has (z80flags t).f f_cy ≡ has (z80flags m).f f_cy
unfolding z80flags
same_carry m t s =
    ap (λ n. has n f_cy)
      (ap (λ k. (materialise k t).f) s.lz ∙ same_class m.lz m t s.f s.lc s.la s.lb s.lr)

setr-SameFlags : (m : Z80) (x v : ℕ) → SameFlags m (z80setr m x v)
unfolding z80setr z80wb
setr-SameFlags m x v = elim (Bool-cases (x == 7)) [
  | inl e ↦ rw e (record { lz = refl; f = refl; lc = refl; la = refl; lb = refl; lr = refl })
  | inr e ↦ elim (Bool-cases (x == 6)) [
    | inl h ↦ rw (e, h) (record { lz = refl; f = refl; lc = refl; la = refl; lb = refl; lr = refl })
    | inr h ↦ rw (e, h) (record { lz = refl; f = refl; lc = refl; la = refl; lb = refl; lr = refl })
  ]
]

charge-SameFlags : (m : Z80) (t : ℕ) → SameFlags m (charge m t)
unfolding charge
charge-SameFlags m t = elim (Bool-cases m.can_wait) [
  | inl e ↦ elim (Bool-cases (ltb (u32 (m.owed + t)) z80tick)) [
    | inl h ↦ rw (e, h) (record { lz = refl; f = refl; lc = refl; la = refl; lb = refl; lr = refl })
    | inr h ↦ rw (e, h) (record { lz = refl; f = refl; lc = refl; la = refl; lb = refl; lr = refl })
  ]
  | inr e ↦ rw e (record { lz = refl; f = refl; lc = refl; la = refl; lb = refl; lr = refl })
]

-- The carry that the materialised flags have.
abbrev pub carry_of : Z80 → Bool
carry_of m = has (z80flags m).f f_cy

lazy-HasByteRecord : (m : Z80) (k : Lz) (a b r c : ℕ) → HasByteRecord (lazy m k a b r c)
unfolding lazy
lazy-HasByteRecord m k a b r c = record {
  la_byte = omega arith;
  lb_byte = omega arith;
  lr_byte = omega arith;
}

same_bytes : (m t : Z80) → SameFlags m t → HasByteRecord m → HasByteRecord t
same_bytes m t s v = record {
  la_byte = omega (arith, s.la, v.la_byte);
  lb_byte = omega (arith, s.lb, v.lb_byte);
  lr_byte = omega (arith, s.lr, v.lr_byte);
}

inr_carry : (m : Z80) (x : ℕ) → HasByteRecord m → carry_of (increment m x) ≡ carry_of m
unfolding increment leaves_carry
inr_carry m x v =
    let n = z80getr m x in
    let t = lazy m Lz.inr n 1 (u8 (n + 1)) 0 in
    same_carry t (z80setr t x (u8 (n + 1))) (setr-SameFlags t x (u8 (n + 1)))
    ∙ lazy-carry m Lz.inr n 1 (u8 (n + 1)) 0 v refl

-- DCR keeps the carry and leaves a record of bytes.
dcr_carry :
    (m : Z80) (x : ℕ)
    → HasByteRecord m
    → (carry_of (dcr m x) ≡ carry_of m) × HasByteRecord (dcr m x)
unfolding dcr leaves_carry
dcr_carry m x v =
    let n = z80getr m x in
    let t = lazy m Lz.dcr n 1 (u8 (n + 255)) 0 in
    let same = setr-SameFlags t x (u8 (n + 255)) in
    (
      same_carry t (z80setr t x (u8 (n + 255))) same
          ∙ lazy-carry m Lz.dcr n 1 (u8 (n + 255)) 0 v refl,
      same_bytes t (z80setr t x (u8 (n + 255))) same
          (lazy-HasByteRecord m Lz.dcr n 1 (u8 (n + 255)) 0),
    )

delay_carry : (m : Z80) (x pc0 r : ℕ) → HasByteRecord m → carry_of (z80delay m x pc0 r) ≡ carry_of m
unfolding z80delay leaves_carry
delay_carry m x pc0 r v =
    let set = z80setr m x 0 in
    let same = setr-SameFlags m x 0 in
    let t = lazy set Lz.dcr 1 1 0 0 in
    let len = loop_len m pc0 in
    let u = record t {
      ninsn = u32 (t.ninsn + (2 * r + 1));
      nskip = u32 (t.nskip + (2 * r + 1));
      pc = u16 (pc0 + 1 + len);
    } in
    elim (Bool-cases (len == 0)) [
      | inl e ↦ rw e refl
      | inr e ↦ rw e (
          same_carry u (charge u (loop_time len r)) (charge-SameFlags u (loop_time len r))
          ∙ same_carry t u
              (record { lz = refl; f = refl; lc = refl; la = refl; lb = refl; lr = refl })
          ∙ lazy-carry set Lz.dcr 1 1 0 0 (same_bytes m set same v) refl
          ∙ same_carry m set same)
    ]

finish_carry :
    (m : Z80) (x pc0 r : ℕ) → HasByteRecord m → carry_of (finish_dcr m x pc0 r) ≡ carry_of m
unfolding finish_dcr
finish_carry m x pc0 r v = elim (Bool-cases (not (r == 0) && not (x == 6) && m.fast)) [
  | inl e ↦ rw e (delay_carry m x pc0 r v)
  | inr e ↦ rw e refl
]

bit_carry : (m : Z80) (i : Instr) → i.x ≡ 1 → HasByteRecord m → carry_of (cbop m i) ≡ carry_of m
unfolding cbop leaves_carry
bit_carry m i e v =
    let n = u8 (z80getr m i.y) in
    let b = i.imm % 8 in rw e (lazy-carry m Lz.bit n b (bit_and n (2 ^ b)) 0 v refl)

compare_carry : (m : Z80) (sub : ℕ) → HasByteRecord m → carry_of (compare_block m sub) ≡ carry_of m
unfolding compare_block leaves_carry
compare_carry m sub v =
    let up = not (has sub 8) in
    let n = z80rb m m.rp.hl in
    let a = u8 m.a in
    let r = u8 (a + 256 - n) in
    let bc = u16 (m.rp.bc + 65535) in
    let moved = with_pairs m bc m.rp.de (towards up m.rp.hl) in
    let c = bit (not (bc == 0)) in
    let t = lazy moved Lz.cpblk a n r c in
    let kept =
      lazy-carry moved Lz.cpblk a n r c
        (record { la_byte = v.la_byte; lb_byte = v.lb_byte; lr_byte = v.lr_byte }) refl in
    let before =
      same_carry m moved
        (record { lz = refl; f = refl; lc = refl; la = refl; lb = refl; lr = refl }) in
    elim (Bool-cases (has sub 0x10 && not (bc == 0) && not (r == 0))) [
      | inl e ↦ rw e (
          same_carry t (record t { pc = u16 (t.pc + 65534) })
            (record { lz = refl; f = refl; lc = refl; la = refl; lb = refl; lr = refl })
          ∙ kept
          ∙ before)
      | inr e ↦ rw e (kept ∙ before)
    ]

-- INR, DCR, BIT, CPI, CPD, CPIR or CPDR.
abbrev pub SparesCarry : Instr → Type 0
SparesCarry i =
    (i.op ≡ Op.inr)
    ⊎ ((i.op ≡ Op.dcr)
        ⊎ (((i.op ≡ Op.cb) × (i.x ≡ 1))
            ⊎ ((i.op ≡ Op.ed)
                × ((i.sub ≡ 0xa1) ⊎ ((i.sub ≡ 0xa9) ⊎ ((i.sub ≡ 0xb1) ⊎ (i.sub ≡ 0xb9)))))))

compare_group :
    (m : Z80) (i : Instr)
    → (i.sub ≡ 0xa1) ⊎ ((i.sub ≡ 0xa9) ⊎ ((i.sub ≡ 0xb1) ⊎ (i.sub ≡ 0xb9)))
    → edop m i ≡ (Exit.ok, compare_block m i.sub)
unfolding edop
compare_group m i e = ground (arith, e)

ed_carry :
    (m : Z80) (i : Instr) (pc0 : ℕ)
    → HasByteRecord m
    → (i.sub ≡ 0xa1) ⊎ ((i.sub ≡ 0xa9) ⊎ ((i.sub ≡ 0xb1) ⊎ (i.sub ≡ 0xb9)))
    → carry_of (execute Op.ed m i pc0).1 ≡ carry_of m
unfolding execute
ed_carry m i pc0 v e =
    rw (compare_group m i e, execute)
      (ap (λ (q : Exit × Z80). carry_of q.1) (compare_group m i e) ∙ compare_carry m i.sub v)

executed :
    (o : Op) (m : Z80) (i : Instr) (pc0 : ℕ)
    → HasByteRecord m
    → SparesCarry (record i { op = o })
    → carry_of (execute o m i pc0).1 ≡ carry_of m
unfolding execute
executed o m i pc0 v s = elim s [
  | inl e ↦ rw e (inr_carry m i.x v)
  | inr s1 ↦ elim s1 [
    | inl e ↦ rw e (
        let d = dcr_carry m i.x v in
        finish_carry (dcr m i.x) i.x pc0 (u8 (z80getr m i.x + 255)) d.1 ∙ d.0)
    | inr s2 ↦ elim s2 [
      | inl e ↦ rw (e.0) (bit_carry m i e.1 v)
      | inr e ↦ rw (e.0) (ed_carry m i pc0 v e.1)
    ]
  ]
]

-- INR, DCR, with the delay loop that one step may finish, BIT, CPI, CPD, CPIR and CPDR leave the
-- carry of the materialised flags as it was before them, whatever operation was pending, provided
-- that it was a record of bytes.
pub z80exec-carry :
    (m : Z80) (i : Instr) (pc0 : ℕ)
    → HasByteRecord m
    → SparesCarry i
    → has (z80flags (z80exec m i pc0).1).f f_cy ≡ has (z80flags m).f f_cy
unfolding z80exec
z80exec-carry m i pc0 v s = executed i.op m i pc0 v s
