-- ===== src/Z80/Exec/Step.antt =====
-- What z80step() of shim/z80exec.c leaves where it refuses an instruction.
use commodore_900_cpm.Base.{ℕ, ◌≡◌, ◌⊎◌, inl, inr, refl, arith}
use commodore_900_cpm.Z80.State.{Z80}
use commodore_900_cpm.Z80.Tables.{Op}
use commodore_900_cpm.Z80.Decode.{Instr}
use commodore_900_cpm.Z80.Groups.{Exit, edop}
use commodore_900_cpm.Z80.Exec.{execute}

-- edop() executes or leaves the state as it is.
edop-ways :
    (m : Z80) (i : Instr)
    → ((edop m i).0 ≡ Exit.ok) ⊎ (((edop m i).0 ≡ Exit.unimp) × ((edop m i).1 ≡ m))
unfolding edop
edop-ways m i = ground arith

-- What each operation answers: executed, refused with PC put back and nothing else changed,
-- a hook, or a halt with PC put back.
pub execute_ways :
    (o : Op) (m : Z80) (i : Instr) (pc0 : ℕ)
    → ((execute o m i pc0).0 ≡ Exit.ok)
      ⊎ (execute o m i pc0 ≡ (Exit.unimp, record m { pc = pc0 }))
      ⊎ (execute o m i pc0 ≡ (Exit.hook, record m { hookno = i.x }))
      ⊎ (execute o m i pc0 ≡ (Exit.halted, record m { halt = 1; pc = pc0 }))
unfolding execute
execute_ways Op.ed m i pc0 = elim (edop-ways m i) [
  | inl e ↦ inl (rw (e, execute) refl)
  | inr e ↦ inr (inl (rw (e.0, execute, e.1) refl))
]
execute_ways Op.hook m i pc0 = inr (inr (inl refl))
execute_ways Op.hlt m i pc0 = inr (inr (inr refl))
execute_ways Op.ix m i pc0 = inr (inl refl)
execute_ways Op.ixcb m i pc0 = inr (inl refl)
execute_ways Op.bad m i pc0 = inr (inl refl)
execute_ways Op.port_in m i pc0 = inr (inl refl)
execute_ways Op.port_out m i pc0 = inr (inl refl)
execute_ways _ m i pc0 = inl refl
