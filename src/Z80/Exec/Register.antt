-- ===== src/Z80/Exec/Register.antt =====
-- Registers other than the memory byte, through z80getr() and z80setr() of shim/z80exec.c.
use commodore_900_cpm.Base.{ℕ, ◌/◌, ◌%◌, ◌<◌, ◌≡◌, ◌≢◌, arith, ◌==◌, if◌then◌else◌, u8}
use commodore_900_cpm.Z80.State.{Z80, Pairs, get_pair, set_pair, z80getr, z80setr, replace_byte}

-- The two fields that z80setr() may change, for a register that is not memory.
unfoldable pub put_a : ℕ → ℕ → ℕ → ℕ
put_a x v a = if x == 7 then u8 v else a

unfoldable pub put_pairs : ℕ → ℕ → Pairs → Pairs
put_pairs x v p = if x == 7 then p else set_pair p (x / 2) (replace_byte x (get_pair p (x / 2)) v)

pub z80setr-eq :
    (m : Z80) (x v : ℕ)
    → x ≢ 6
    → z80setr m x v ≡ record m { a = put_a x v m.a; rp = put_pairs x v m.rp }
unfolding z80setr put_a put_pairs
z80setr-eq m x v h = ground arith

pub put_a-put_a : (x u v a : ℕ) → put_a x v (put_a x u a) ≡ put_a x v a
unfolding put_a
put_a-put_a x u v a = ground arith

replace_byte-replace_byte :
    (x w u v : ℕ) → replace_byte x (replace_byte x w u) v ≡ replace_byte x w v
unfolding replace_byte
replace_byte-replace_byte x w u v = ground arith

pub get_pair-set_pair : (p : Pairs) (i v : ℕ) → get_pair (set_pair p i v) i ≡ v
unfolding get_pair set_pair
get_pair-set_pair p i v = ground arith

set_pair-set_pair : (p : Pairs) (i u v : ℕ) → set_pair (set_pair p i u) i v ≡ set_pair p i v
unfolding set_pair
set_pair-set_pair p i u v = ground arith

pub put_pairs-put_pairs :
    (x u v : ℕ) (p : Pairs) → put_pairs x v (put_pairs x u p) ≡ put_pairs x v p
unfolding put_pairs
put_pairs-put_pairs x u v p = ground (
  arith,
  get_pair-set_pair p (x / 2) (replace_byte x (get_pair p (x / 2)) u),
  set_pair-set_pair p (x / 2) (replace_byte x (get_pair p (x / 2)) u)
      (replace_byte x (get_pair p (x / 2)) v),
  replace_byte-replace_byte x (get_pair p (x / 2)) u v,
)

replace_byte-reads :
    (x w v : ℕ)
    → v < 256
    → (if x % 2 == 1 then u8 (replace_byte x w v) else u8 (replace_byte x w v / 256)) ≡ v
unfolding replace_byte
replace_byte-reads x w v h = ground arith

-- A register reads back the byte put into it.
pub z80getr-put :
    (m : Z80) (x v a : ℕ) (p : Pairs)
    → x ≢ 6
    → v < 256
    → z80getr (record m { a = put_a x v a; rp = put_pairs x v p }) x ≡ v
unfolding z80getr put_a put_pairs
z80getr-put m x v a p h hv = ground (
  arith,
  get_pair-set_pair p (x / 2) (replace_byte x (get_pair p (x / 2)) v),
  replace_byte-reads x (get_pair p (x / 2)) v hv,
)
