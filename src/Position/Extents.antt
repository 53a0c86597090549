-- ===== src/Position/Extents.antt =====
-- Crossing from one extent to another: new_ext() of src/bdos/bdosrw.c, whatever the calls that close,
-- open and create an extent do.
use commodore_900_cpm.Base.{
  ℕ, ◌+◌, ◌-◌, ◌*◌, ◌/◌, ◌%◌, ◌≤◌, ◌<◌, bit_and, Bool, true, false, ◌&&◌, ◌==◌, store, ◌≡◌, ◌⊎◌,
}
use commodore_900_cpm.Position.{Fcb, Shape, Target, Calls, extent_off, s2_off, put_target}

-- An extent mask: one less than the number of extents in a directory entry.
abbrev pub IsMask : ℕ → Type 0
IsMask x = (x ≡ 0) ⊎ ((x ≡ 1) ⊎ ((x ≡ 3) ⊎ ((x ≡ 7) ⊎ (x ≡ 15))))

-- The target's module and its directory entry's part of the module are those that the FCB names.
abbrev pub InEntry : Shape → Target → Fcb → Type 0
InEntry d t f =
    (t.module_no ≡ f s2_off % 64)
    × (t.extent_no % 32 / (d.exm + 1) ≡ f extent_off % 32 / (d.exm + 1))

-- On a byte the two masks are one, which keeps a quotient.
abbrev checks : ℕ → ℕ → Bool
checks x n =
    (bit_and (bit_and n (0xffff - x)) 0x1f == bit_and n (31 - x))
    && (bit_and n (31 - x) == n % 32 / (x + 1) * (x + 1))

module _ {S : Type 0} (calls : Calls S) where
  -- The FCB with the module and extent bytes of another.
  abbrev pub put_back : Fcb → Fcb → Fcb
  put_back g f = store (store f s2_off (g s2_off)) extent_off (g extent_off)

  abbrev pub Result : Type 0
  Result = ℕ × Fcb × S

  -- What the call that opens the target answers, and the one that creates it after that.
  abbrev pub found : Target → Fcb → S → Result
  found t g u = calls.open_scan (put_target t g) u

  abbrev pub made : Target → Fcb → S → Result
  made t g u = calls.create_scan (found t g u).1 (found t g u).2

  -- The ways in which new_ext() ends once the old extent has been closed: the FCB is `g` and the
  -- rest of the state `u`.
  pub data Opens (reading : Bool) (t : Target) (g : Fcb) (u : S) : Result → Type 0 where
    opened : (found t g u).0 < 255 → Opens reading t g u (0, (found t g u).1, (found t g u).2)
    unwritten :
        255 ≤ (found t g u).0
        → reading ≡ true
        → Opens reading t g u (4, put_back g (found t g u).1, (found t g u).2)
    created :
        255 ≤ (found t g u).0
        → reading ≡ false
        → (made t g u).0 < 255
        → Opens reading t g u (0, (made t g u).1, (made t g u).2)
    uncreated :
        255 ≤ (found t g u).0
        → reading ≡ false
        → 255 ≤ (made t g u).0
        → Opens reading t g u (5, put_back g (made t g u).1, (made t g u).2)

  -- How new_ext() ends.
  pub data Ends (d : Shape) (reading : Bool) (t : Target) (f : Fcb) (s : S) : Result → Type 0 where
    too_large : 64 ≤ t.module_no → t.module_no < 128 → Ends d reading t f s (6, f, s)
    within : InEntry d t f → Ends d reading t f s (0, store f extent_off t.extent_no, s)
    unclosed :
        (¬ InEntry d t f)
        → 255 ≤ (calls.close_fi f s).0
        → Ends d reading t f s (3, (calls.close_fi f s).1, (calls.close_fi f s).2)
    crosses :
        {r : ℕ × Fcb × S}
        → (¬ InEntry d t f)
        → (calls.close_fi f s).0 < 255
        → Opens reading t (calls.close_fi f s).1 (calls.close_fi f s).2 r
        → Ends d reading t f s r
