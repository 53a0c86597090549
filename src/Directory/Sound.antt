-- ===== src/Directory/Sound.antt =====
-- The signatures of src/bdos/dskhash.c against match() of src/bdos/fileio.c: what a matching entry
-- has in common with the FCB, word by word.
use commodore_900_cpm.Base.{ℕ, zero, suc, ◌+◌, ◌-◌, ◌/◌, ◌%◌, ◌<◌, Bool, true, false}
use commodore_900_cpm.Base.{◌==◌, bit_and, bit_xor, ◌≡◌, refl, sym, ◌∙◌, ◌⊎◌, inl, inr}
use commodore_900_cpm.Base.{arith, Bool-cases}
use commodore_900_cpm.Base.Masks.{
  masked_zero, masked_same, mask-low, low-mask, masked_bytes, byte-mask,
}
use commodore_900_cpm.Base.Bits.{bit_and-zero}
use commodore_900_cpm.Directory.{
  Bytes, Gbl, entry_at, fname_at, extent_at, s2_at, hash_bytes, dhname, has_wildcard, match_bytes,
  match,
}

-- Two names with the same low seven bits have the same hash.
hash_bytes_same :
    (p q : Bytes) (i left h : ℕ)
    → match_bytes p q i left ≡ true
    → has_wildcard p i left ≡ false
    → hash_bytes p i left h ≡ hash_bytes q i left h
unfolding match_bytes has_wildcard hash_bytes
hash_bytes_same p q i zero h m w = refl
hash_bytes_same p q i (suc left) h m w =
    let same : bit_and (p i) 0x7f ≡ bit_and (q i) 0x7f =
      masked_zero (p i) (q i) 0x7f (ground (arith)) in
    rw same (hash_bytes_same p q (i + 1) left _ (ground arith) (ground arith))

match_bytes-tail :
    (p d : Bytes) (i left : ℕ)
    → match_bytes p d i (suc left) ≡ true
    → match_bytes p d (i + 1) left ≡ true
unfolding match_bytes
match_bytes-tail p d i left m = ground arith

pub dhname_same :
    (p d : Bytes)
    → match_bytes p d 0 12 ≡ true
    → has_wildcard p fname_at 11 ≡ false
    → dhname p ≡ dhname d
unfolding dhname
dhname_same p d m w = hash_bytes_same p d 1 11 0 (match_bytes-tail p d 0 11 m) w

pub entry_same :
    (p d : Bytes)
    → match_bytes p d 0 12 ≡ true
    → (p entry_at ≡ 0x3f) ⊎ (bit_and (bit_xor (d entry_at) (p entry_at)) 0x7f ≡ 0)
unfolding match_bytes
entry_same p d m = elim (Bool-cases (p entry_at == 0x3f)) [
  | inl e ↦ inl (ground arith)
  | inr e ↦ inr (masked_same (d 0) (p 0) 0x7f (sym (masked_zero (p 0) (d 0) 0x7f (ground arith))))
]

-- The two bytes of the extent words, under the masks of dhcand.
module _ (a b : ℕ) where
  pub extent_same :
      (exm : ℕ)
      → exm < 256
      → bit_and (bit_xor (a % 256) (b % 256)) (0xffff - exm) ≡ 0
      → bit_and (bit_xor b a) (bit_and (0xffff - exm) 0xff) ≡ 0
  extent_same exm lt e =
      let m = 0xffff - exm in
      let bytes = mask-low a b m (masked_zero (a % 256) (b % 256) m e) in
      rw (byte-mask m) (masked_same b a (m % 256) (low-mask b a m (sym bytes)))

  pub module_same :
      bit_and (bit_xor (a / 256) (b / 256)) 0x3f ≡ 0 → bit_and (bit_xor b a) 0x3f00 ≡ 0
  module_same e = masked_same b a 0x3f00 (
      masked_bytes b a 0x3f00 (bit_and-zero (b % 256) ∙ sym (bit_and-zero (a % 256)))
        (sym (masked_zero (a / 256) (b / 256) 0x3f e)))

-- What `match` has established when it answers TRUE.
pub match-parts :
    (g : Gbl) (p d : Bytes) (chk_ext : Bool)
    → match g p d chk_ext ≡ true
    → (match_bytes p d 0 12 ≡ true)
      × ((chk_ext ≡ false)
          ⊎ (((p extent_at ≡ 0x3f)
                ⊎ (bit_and (bit_xor (p extent_at) (d extent_at)) (0xffff - g.exm) ≡ 0))
              × (bit_and (bit_xor (p s2_at) (d s2_at)) 0x3f ≡ 0)))
unfolding match
match-parts g p d chk_ext h = (ground arith, ground arith)
