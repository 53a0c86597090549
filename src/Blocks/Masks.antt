-- ===== src/Blocks/Masks.antt =====
-- The masks of single blocks on one byte of an allocation vector.
use commodore_900_cpm.Base.{
  ℕ, ◌-◌, ◌/◌, ◌%◌, ◌^◌, ◌<◌, Bool, true, not, ◌||◌, ◌&&◌, ◌==◌, ltb, same, same-eq, has,
}
use commodore_900_cpm.Base.{bit_and, bit_or, ◌≡◌, refl, arith, &&-both, ltb→lt}
use commodore_900_cpm.Base.Bits.{every_below, every_below_lem}
use commodore_900_cpm.Blocks.{block_mask}

-- Setting and clearing the bit of block `j`, as seen at block `k`, of the byte `x`.
byte_facts : ℕ → ℕ → ℕ → Bool
byte_facts x j k =
    same (has (bit_or x (0x80 / 2 ^ j)) (0x80 / 2 ^ k)) ((j == k) || has x (0x80 / 2 ^ k))
    && (same (has (bit_and x (0xff - 0x80 / 2 ^ j)) (0x80 / 2 ^ k))
          (not (j == k) && has x (0x80 / 2 ^ k))
        && (ltb (bit_or x (0x80 / 2 ^ j)) 256
            && (ltb (bit_and x (0xff - 0x80 / 2 ^ j)) 256
                && same (has (0xffff - x) (0x80 / 2 ^ k)) (not (has x (0x80 / 2 ^ k))))))

all_bytes : every_below (λ x. every_below (λ j. every_below (byte_facts x j) 8) 8) 256 ≡ true
unfolding every_below byte_facts
all_bytes = refl

byte_facts_hold : (x j k : ℕ) → x < 256 → j < 8 → k < 8 → byte_facts x j k ≡ true
byte_facts_hold x j k hx hj hk = every_below_lem (byte_facts x j) k 8 hk (
    every_below_lem (λ j. every_below (byte_facts x j) 8) j 8 hj
      (every_below_lem (λ x. every_below (λ j. every_below (byte_facts x j) 8) 8) x 256 hx
        all_bytes))

module _ (x b c : ℕ) (byte : x < 256) where
  pub mark_lem :
      (has (bit_or x (block_mask b)) (block_mask c) ≡ (b % 8 == c % 8) || has x (block_mask c))
      × (has (bit_and x (0xff - block_mask b)) (block_mask c)
          ≡ not (b % 8 == c % 8) && has x (block_mask c))
      × (bit_or x (block_mask b) < 256)
      × (bit_and x (0xff - block_mask b) < 256)
      × (has (0xffff - x) (block_mask c) ≡ not (has x (block_mask c)))
  unfolding byte_facts
  mark_lem =
      let f = byte_facts_hold x (b % 8) (c % 8) byte (omega arith) (omega arith) in
      let f0 = &&-both _ _ f in
      let f1 = &&-both _ _ f0.1 in
      let f2 = &&-both _ _ f1.1 in
      let f3 = &&-both _ _ f2.1 in
      (same-eq _ _ f0.0, same-eq _ _ f1.0, ltb→lt _ _ f2.0, ltb→lt _ _ f3.0, same-eq _ _ f3.1)
