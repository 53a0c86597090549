-- ===== src/Z80/Alu/Decimal.antt =====
-- DAA of shim/z80exec.c against decimal addition.
use commodore_900_cpm.Base.{ℕ, ◌+◌, ◌*◌, ◌/◌, ◌%◌, ◌<◌, ◌≡◌, refl, ◌∙◌, arith, Bool, ◌==◌, ltb}
use commodore_900_cpm.Base.{leb, if◌then◌else◌, u8, has, or_if}
use commodore_900_cpm.Z80.State.{Z80, Lz}
use commodore_900_cpm.Z80.Flags.{
  f_cy, f_one, f_pa, f_ac, f_ze, f_si, clear_z80x, par8, z80flags, materialise, class_flags,
}
use commodore_900_cpm.Z80.Alu.{alu, carry_in, daa, daa_low, daa_carry, daa_add, daa_flags}
use commodore_900_cpm.Z80.Alu.Arith.{alu_add}

-- A number of two decimal digits, packed.
abbrev pub bcd : ℕ → ℕ
bcd n = n / 10 * 16 + n % 10

module _ (p q r t c a f : ℕ) (hp : p < 10) (hq : q < 10) (hr : r < 10) (ht : t < 10) (hc : c < 2)
    (sum : a ≡ u8 (p * 16 + q + (r * 16 + t) + c)) (low : has f f_ac ≡ leb 16 (q + t + c))
    (high : has f f_cy ≡ leb 256 (p * 16 + q + (r * 16 + t) + c)) where
  low_digit : daa_low a f ≡ (if leb 10 (q + t + c) then 6 else 0)
  unfolding daa_low
  low_digit = rw low (ground arith)

  high_digit : daa_carry a f ≡ leb 100 (p * 10 + q + (r * 10 + t) + c)
  unfolding daa_carry
  high_digit = rw high (ground arith)

  digits_add : u8 (a + daa_add a f) ≡ bcd ((p * 10 + q + (r * 10 + t) + c) % 100)
  unfolding daa_add
  digits_add = rw (low_digit, high_digit) (ground (arith, sum))

daa_flags-carry : (a f : ℕ) → has (clear_z80x (daa_flags a f)) f_cy ≡ daa_carry a f
unfolding daa_flags
daa_flags-carry a f =
    five (ltb 0x0f (a % 16 + daa_add a f % 16)) (daa_carry a f) (u8 (a + daa_add a f) == 0)
      (has (u8 (a + daa_add a f)) 0x80) (par8 (u8 (a + daa_add a f)))
  where
    five :
        (h c z s p : Bool)
        → has
            (clear_z80x
              (or_if p f_pa (or_if s f_si (or_if z f_ze (or_if c f_cy (or_if h f_ac f_one))))))
            f_cy
          ≡ c
    five h c z s p = ground arith

-- The accumulator has no part in the pending record.
with_a : Z80 → ℕ → Z80
with_a m v = record m { a = v }

materialise-with_a :
    (k : Lz) (m : Z80) (v : ℕ)
    → ((materialise k (with_a m v)).f ≡ (materialise k m).f) × ((materialise k (with_a m v)).a ≡ v)
unfolding materialise with_a class_flags
materialise-with_a Lz.none m v = (refl, refl)
materialise-with_a Lz.add m v = (refl, refl)
materialise-with_a Lz.sub m v = (refl, refl)
materialise-with_a Lz.and m v = (refl, refl)
materialise-with_a Lz.log m v = (refl, refl)
materialise-with_a Lz.inr m v = (refl, refl)
materialise-with_a Lz.dcr m v = (refl, refl)
materialise-with_a Lz.rot m v = (refl, refl)
materialise-with_a Lz.bit m v = (refl, refl)
materialise-with_a Lz.ldblk m v = (refl, refl)
materialise-with_a Lz.cpblk m v = (refl, refl)

z80flags-with_a :
    (m : Z80) (v : ℕ)
    → ((z80flags (record m { a = v })).f ≡ (z80flags m).f) × ((z80flags (record m { a = v })).a ≡ v)
unfolding z80flags with_a
z80flags-with_a m v = materialise-with_a m.lz m v

-- DAA where the accumulator and the carries are those of a sum of packed numbers.
daa-sum :
    (n : Z80) (x y c : ℕ)
    → x < 100
    → y < 100
    → c < 2
    → (z80flags n).a ≡ u8 (bcd x + bcd y + c)
    → has (z80flags n).f f_ac ≡ leb 16 (x % 10 + y % 10 + c)
    → has (z80flags n).f f_cy ≡ leb 256 (bcd x + bcd y + c)
    → ((daa n).a ≡ bcd ((x + y + c) % 100)) × (has (daa n).f f_cy ≡ leb 100 (x + y + c))
unfolding daa
daa-sum n x y c hx hy hc a l h =
    let b = u8 (z80flags n).a in
    let s : b ≡ u8 (bcd x + bcd y + c) = rw a (omega arith) in
    let k = x / 10 * 10 + x % 10 + (y / 10 * 10 + y % 10) + c in
    let d =
      digits_add (x / 10) (x % 10) (y / 10) (y % 10) c b (z80flags n).f (omega arith) (omega arith)
        (omega arith) (omega arith) hc s l h in
    let e =
      high_digit (x / 10) (x % 10) (y / 10) (y % 10) c b (z80flags n).f (omega arith) (omega arith)
        (omega arith) (omega arith) hc s l h in
    let v : k ≡ x + y + c = omega arith in
    (rw (← v) d, daa_flags-carry b (z80flags n).f ∙ rw (← v) e)

packed_byte : (y : ℕ) → y < 100 → u8 (bcd y) ≡ bcd y
packed_byte y h = omega arith

packed_digit : (y : ℕ) → y < 100 → bcd y % 16 ≡ y % 10
packed_digit y h = omega arith

bit-lt : (op : ℕ) (m : Z80) → (if op == 0 then 0 else carry_in m) < 2
bit-lt op m = ground arith

-- Where the accumulator packs a decimal number `x` below 100 and the operand one `y`, ADD (`op` 0)
-- or ADC (`op` 1) and then DAA leave the sum packed, with ADC's carry in, to two digits, and the
-- carry flag tells whether it has three.
pub daa-alu :
    (m : Z80) (op x y : ℕ)
    → op < 2
    → x < 100
    → y < 100
    → u8 m.a ≡ bcd x
    → let r = alu m op (bcd y) in
      let d = daa (record r.1 { a = r.0 }) in
      let c = if op == 0 then 0 else carry_in (z80flags m) in
      (d.a ≡ bcd ((x + y + c) % 100)) × (has d.f f_cy ≡ leb 100 (x + y + c))
daa-alu m op x y h hx hy e =
    let c = if op == 0 then 0 else carry_in (z80flags m) in
    let r = alu m op (bcd y) in
    let w = z80flags-with_a r.1 r.0 in
    let s =
      rw (e, packed_byte y hy, packed_digit x hx, packed_digit y hy) at (alu_add m op (bcd y) h) in
    daa-sum (record r.1 { a = r.0 }) x y c hx hy (bit-lt op (z80flags m)) (w.1 ∙ s.0)
      (rw w.0 s.1.half_flag) (rw w.0 s.1.carry_flag)
