-- ===== src/Z80/Decode/Bounds.antt =====
-- Every instruction that z80dec() of shim/z80dec.c fills in has fields in range.
use commodore_900_cpm.Base.{ℕ, ◌+◌, ◌≤◌, ◌<◌, ◌≡◌, refl, Bool, true, ◌&&◌}
use commodore_900_cpm.Base.{leb, ltb, u8, bit, get_or, arith}
use commodore_900_cpm.Base.Bits.{every_below, every_below_lem}
use commodore_900_cpm.Z80.Tables.{Op, blen, bop, bx, by}
use commodore_900_cpm.Z80.Decode.{Instr, fb, sx, iw, baselen, usesm, edlen}
use commodore_900_cpm.Z80.Decode.{dec_base, dec_cb, dec_ed, dec_ix, z80dec}

-- One more than the largest operand field `x` of an operation: register pairs below 4, the pair of
-- LDAX and STAX below 2, JR below 5, hooks below 64 and all else below 8.
abbrev pub x_limit : Op → ℕ
x_limit Op.lxi = 4
x_limit Op.inx = 4
x_limit Op.dcx = 4
x_limit Op.dad = 4
x_limit Op.push = 4
x_limit Op.pop = 4
x_limit Op.rot = 4
x_limit Op.cb = 4
x_limit Op.ed = 4
x_limit Op.ldax = 2
x_limit Op.stax = 2
x_limit Op.jr = 5
x_limit Op.hook = 64
x_limit Op.bad = 256
x_limit _ = 8

pub record IsDecoded (i : Instr) : Type 0 where
  pub len_pos : 1 ≤ i.len
  pub len_le : i.len ≤ 4
  pub x_fits : i.x < x_limit i.op
  pub y_fits : i.y < 8
  pub imm_word : i.imm < 65536
  pub disp_word : i.disp < 65536
  pub sub_byte : i.sub < 256

base_fits : ℕ → Bool
base_fits op =
    leb 1 (get_or blen op 0)
    && leb (get_or blen op 0) 3
    && ltb (get_or bx op 0) (x_limit (get_or bop op Op.bad))
    && ltb (get_or by op 0) 8

base_table : every_below base_fits 256 ≡ true
unfolding every_below base_fits blen bop bx by
base_table = refl

base-fits :
    (op : ℕ)
    → op < 256
    → (1 ≤ get_or blen op 0)
      × (get_or blen op 0 ≤ 3)
      × (get_or bx op 0 < x_limit (get_or bop op Op.bad))
      × (get_or by op 0 < 8)
unfolding base_fits
base-fits op h = ground (arith, every_below_lem base_fits op 256 h base_table)

fb-lt : (m : ℕ → ℕ) (pc k : ℕ) → fb m pc k < 256
unfolding fb
fb-lt m pc k = omega arith

iw-lt : (m : ℕ → ℕ) (pc k : ℕ) → iw m pc k < 65536
unfolding iw
iw-lt m pc k = omega (arith, fb-lt m pc k, fb-lt m pc (k + 1))

sx-lt : (b : ℕ) → sx b < 65536
unfolding sx
sx-lt b = ground arith

dec_base-IsDecoded : (m : ℕ → ℕ) (pc op : ℕ) → op < 256 → IsDecoded (dec_base m pc op)
unfolding dec_base
dec_base-IsDecoded m pc op h =
    let fits = base-fits op h in
    record {
      len_pos = fits.0;
      len_le = omega (arith, fits.1);
      x_fits = fits.2;
      y_fits = fits.3;
      imm_word = ground (arith, iw-lt m pc 1, fb-lt m pc 1);
      disp_word = omega arith;
      sub_byte = omega arith;
    }

dec_cb-IsDecoded : (sub : ℕ) → sub < 256 → IsDecoded (dec_cb sub)
unfolding dec_cb
dec_cb-IsDecoded sub h = omega arith

dec_ed-IsDecoded : (m : ℕ → ℕ) (pc sub : ℕ) → sub < 256 → IsDecoded (dec_ed m pc sub)
unfolding dec_ed edlen
dec_ed-IsDecoded m pc sub h = ground (arith, fb-lt m pc 2, iw-lt m pc 2)

indexed_table : every_below (λ sub. leb (get_or blen sub 0 + bit (usesm sub)) 3) 256 ≡ true
unfolding every_below usesm blen
indexed_table = refl

-- A displacement is added only to the shorter instructions.
indexed-le : (sub : ℕ) → sub < 256 → 1 + baselen sub + bit (usesm sub) ≤ 4
unfolding baselen
indexed-le sub h =
    ground (
      arith,
      every_below_lem (λ s. leb (get_or blen s 0 + bit (usesm s)) 3) sub 256 h indexed_table,
    )

dec_ix-IsDecoded : (m : ℕ → ℕ) (pc op sub : ℕ) → sub < 256 → IsDecoded (dec_ix m pc op sub)
unfolding dec_ix
dec_ix-IsDecoded m pc op sub h = ground (arith, sx-lt (fb m pc 2), indexed-le sub h)

-- Whatever the memory and address, the decoded length is from 1 to 4, the operand fields lie
-- within the register, pair, condition or hook numbers of the operation, and the immediate and
-- the displacement are words.
pub z80dec-IsDecoded : (m : ℕ → ℕ) (pc : ℕ) → IsDecoded (z80dec m pc)
unfolding z80dec
z80dec-IsDecoded m pc = ground (
  arith,
  dec_base-IsDecoded m pc (u8 (m pc)),
  dec_cb-IsDecoded (fb m pc 1),
  dec_ed-IsDecoded m pc (fb m pc 1),
  dec_ix-IsDecoded m pc (u8 (m pc)) (fb m pc 1),
  fb-lt m pc 1,
)
