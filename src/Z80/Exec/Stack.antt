-- ===== src/Z80/Exec/Stack.antt =====
-- The guest's stack: push() and pop() of shim/z80exec.c, and PUSH PSW with POP PSW.
use commodore_900_cpm.Base.{
  ℕ, ◌+◌, ◌-◌, ◌*◌, ◌/◌, ◌<◌, ◌≡◌, ◌≢◌, ◌⊎◌, inl, inr, refl, ◌∙◌, arith, ap,
}
use commodore_900_cpm.Base.{◌==◌, u8, u16, store, store_self, store_ne}
use native.Mathlib.Decide.{ℕ_discrete}
use commodore_900_cpm.Z80.State.{Z80, Lz, Pairs, z80rb, z80wb, z80rw, z80ww}
use commodore_900_cpm.Base.{Bool, true, ◌&&◌, same, has, bit_and, bit_or}
use commodore_900_cpm.Base.Bits.{every_below, every_below_lem}
use commodore_900_cpm.Z80.Alu.{push, pop, with_sp}
use commodore_900_cpm.Z80.Flags.{
  f_cy, f_one, f_pa, f_ac, f_ze, f_si, clear_z80x, z80flags, materialise,
}
use commodore_900_cpm.Z80.Flags.Assembled.{Shows}
use commodore_900_cpm.Z80.Exec.{push_psw, pop_psw}

next_address : (a : ℕ) → u16 a ≢ u16 (a + 1)
next_address a e = omega arith

bytes_of_word : (v : ℕ) → v < 65536 → u8 (u8 v) + u8 (u8 (v / 256)) * 256 ≡ v
bytes_of_word v h = omega arith

-- A word reads back as it was written, also across the end of memory.
pub z80rw-z80ww : (m : Z80) (a v : ℕ) → v < 65536 → z80rw (z80ww m a v) a ≡ v
unfolding z80rw z80ww z80rb z80wb
z80rw-z80ww m a v h =
    rw
      (
        store_ne (store m.mem (u16 a) (u8 v)) (u16 (a + 1)) (u8 (v / 256)) (u16 a) (next_address a),
        store_self m.mem (u16 a) (u8 v),
        store_self (store m.mem (u16 a) (u8 v)) (u16 (a + 1)) (u8 (v / 256)),
      )
      (bytes_of_word v h)

back_up : (s : ℕ) → s < 65536 → u16 (u16 (s + 65536 - 2) + 2) ≡ s
back_up s h = omega arith

high_address : (s : ℕ) → s < 65536 → u16 (u16 (s + 65536 - 2) + 1) ≡ u16 (s + 65535)
high_address s h = omega arith

low_address : (s : ℕ) → s < 65536 → u16 (u16 (s + 65536 - 2)) ≡ u16 (s + 65534)
low_address s h = omega arith

-- Where the stack pointer and the value are words, pop() after push() returns the value and leaves
-- every register, counter and flag as it was before the push; of the memory, push() changes no
-- byte but the two below the stack pointer.
pub pop-push :
    (m : Z80) (v : ℕ)
    → m.rp.sp < 65536
    → v < 65536
    → ((pop (push m v)).0 ≡ v)
      × ((pop (push m v)).1 ≡ record m { mem = (push m v).mem })
      × ((a : ℕ)
          → (a ≡ u16 (m.rp.sp + 65534))
            ⊎ (a ≡ u16 (m.rp.sp + 65535))
            ⊎ ((push m v).mem a ≡ m.mem a))
unfolding push pop z80ww z80wb
pop-push m v s h =
    let s' = u16 (m.rp.sp + 65536 - 2) in
    let f = store m.mem (u16 s') (u8 v) in
    (
      z80rw-z80ww (with_sp m s') s' v h,
      rw (back_up m.rp.sp s) refl,
      λ a. elim (ℕ_discrete a (u16 s')) [
        | yes e ↦ inl (e ∙ low_address m.rp.sp s)
        | no p ↦ elim (ℕ_discrete a (u16 (s' + 1))) [
          | yes e ↦ inr (inl (e ∙ high_address m.rp.sp s))
          | no q ↦ inr (
              inr
                (store_ne f (u16 (s' + 1)) (u8 (v / 256)) a q ∙ store_ne m.mem (u16 s') (u8 v) a p))
        ]
      ],
    )

-- What POP PSW makes of a flag byte.
popped_flags : ℕ → ℕ
popped_flags g = clear_z80x (bit_or (u8 g) f_one)

abbrev flags_survive : ℕ → Bool
flags_survive g =
    same (has (popped_flags g) f_ze) (has g f_ze)
    && same (has (popped_flags g) f_si) (has g f_si)
    && same (has (popped_flags g) f_pa) (has g f_pa)
    && same (has (popped_flags g) f_cy) (has g f_cy)
    && same (has (popped_flags g) f_ac) (has g f_ac)
    && (bit_and (popped_flags g) 0x2a == f_one)

survival_table : every_below flags_survive 256 ≡ true
unfolding every_below popped_flags
survival_table = refl

survives : (g : ℕ) → g < 256 → flags_survive g ≡ true
survives g h = every_below_lem flags_survive g 256 h survival_table

popped-Shows :
    (g : ℕ)
    → g < 256
    → Shows (popped_flags g) (has g f_ze) (has g f_si) (has g f_pa) (has g f_cy) (has g f_ac)
      × (bit_and (popped_flags g) 0x2a ≡ f_one)
popped-Shows g h = ground (arith, survives g h)

materialise-keeps : (k : Lz) (m : Z80) → ((materialise k m).a ≡ m.a) × ((materialise k m).rp ≡ m.rp)
unfolding materialise
materialise-keeps Lz.none m = (refl, refl)
materialise-keeps Lz.add m = (refl, refl)
materialise-keeps Lz.sub m = (refl, refl)
materialise-keeps Lz.and m = (refl, refl)
materialise-keeps Lz.log m = (refl, refl)
materialise-keeps Lz.inr m = (refl, refl)
materialise-keeps Lz.dcr m = (refl, refl)
materialise-keeps Lz.rot m = (refl, refl)
materialise-keeps Lz.bit m = (refl, refl)
materialise-keeps Lz.ldblk m = (refl, refl)
materialise-keeps Lz.cpblk m = (refl, refl)

abbrev psw : Z80 → ℕ
psw n = u8 n.a * 256 + u8 n.f

high_of_psw : (a f : ℕ) → a < 256 → u8 ((u8 a * 256 + u8 f) / 256) ≡ a
high_of_psw a f h = omega arith

low_of_psw : (a f : ℕ) → u8 (u8 a * 256 + u8 f) ≡ u8 f
low_of_psw a f = omega arith

z80flags-keeps : (m : Z80) → ((z80flags m).a ≡ m.a) × ((z80flags m).rp ≡ m.rp)
unfolding z80flags
z80flags-keeps m = materialise-keeps m.lz m

-- Where the accumulator and the materialised flags are bytes and the stack pointer a word, PUSH PSW
-- and then POP PSW give back the accumulator, the stack pointer and the five flags, with nothing
-- pending, and in the flag byte bit 1 set and bits 3 and 5 clear, whatever they were.
pub pop_psw-push_psw :
    (m : Z80)
    → m.a < 256
    → m.rp.sp < 65536
    → (z80flags m).f < 256
    → let g = (z80flags m).f in
      let s = pop_psw (push_psw m) in
      (s.a ≡ m.a)
      × (s.rp.sp ≡ m.rp.sp)
      × (s.lz ≡ Lz.none)
      × Shows s.f (has g f_ze) (has g f_si) (has g f_pa) (has g f_cy) (has g f_ac)
      × (bit_and s.f 0x2a ≡ f_one)
unfolding pop_psw push_psw popped_flags
pop_psw-push_psw m ha hs hf =
    let n = z80flags m in
    let k = z80flags-keeps m in
    let r = pop-push n (psw n) (rw k.1 hs) (omega arith) in
    let w = popped-Shows n.f hf in
    (
      rw (r.0, high_of_psw n.a n.f (rw k.0 ha)) k.0,
      ap (λ (q : Z80). q.rp.sp) r.1 ∙ ap (λ (p : Pairs). p.sp) k.1,
      refl,
      rw (r.0, low_of_psw n.a n.f) w.0,
      rw (r.0, low_of_psw n.a n.f) w.1,
    )
