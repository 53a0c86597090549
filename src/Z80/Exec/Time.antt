-- ===== src/Z80/Exec/Time.antt =====
-- The books of skipped time in z80delay() of shim/z80exec.c.
use commodore_900_cpm.Base.{ℕ, ◌+◌, ◌-◌, ◌*◌, ◌^◌, ◌<◌, ◌≡◌, arith, true}
use commodore_900_cpm.Base.{List, ◌∷◌, []}
use commodore_900_cpm.Z80.State.{Z80}
use commodore_900_cpm.Z80.Exec.{charge, z80tick}

-- The whole ticks that a list of sleeps stands for: each sleep asks for one more than it pays for.
unfoldable pub paid : List ℕ → ℕ
paid [] = 0
paid (n ∷ ns) = (n - 1) + paid ns

-- Where there is a wait routine and less than a tick is owed, charging a time that does not run over
-- 32 bits owes less than a tick again and loses no time: what was owed and paid before and the
-- charge are what is owed and paid after.
pub charge_lem :
    (m : Z80) (t : ℕ)
    → m.can_wait ≡ true
    → m.owed < z80tick
    → m.owed + t < 2 ^ 32
    → ((charge m t).owed < z80tick)
      × ((charge m t).owed + paid (charge m t).sleeps * z80tick
          ≡ m.owed + paid m.sleeps * z80tick + t)
unfolding charge paid
charge_lem m t w o b = ground arith
