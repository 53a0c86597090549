-- ===== src/Z80/Tables.antt =====
-- The base map of shim/z80dec.c, and the operations of shim/z80.h.
-- A flag byte of `bfl` is the sum of its ZF_ bits: ZF_IMM 1, ZF_MEM 2, ZF_ADDR 4, ZF_PFX 8.
use commodore_900_cpm.Base.{ℕ, List, [], ◌∷◌}

-- The Z_ operation classes; Z_IN and Z_OUT are `port_in` and `port_out`.
pub data Op : Type 0 where
  bad alu jcc push pop ldrr ldri jmp lhld call ret lxi lda inx rot hook : Op
  shld dad sta inr ldax dcr rcc dcx xchg nop cma pchl ccc : Op
  stax daa stc cmc rst sphl xthl port_in port_out ei di hlt : Op
  jr djnz exaf exx cb ed ix ixcb : Op

unfoldable pub blen : List ℕ
blen =
    1 ∷ 3 ∷ 1 ∷ 1 ∷ 1 ∷ 1 ∷ 2 ∷ 1 ∷ 1 ∷ 1 ∷ 1 ∷ 1 ∷ 1 ∷ 1 ∷ 2 ∷ 1 ∷ 2 ∷ 3 ∷ 1 ∷ 1 ∷ 1 ∷ 1 ∷ 2 ∷ 1
    ∷ 2 ∷ 1 ∷ 1 ∷ 1 ∷ 1 ∷ 1 ∷ 2 ∷ 1 ∷ 2 ∷ 3 ∷ 3 ∷ 1 ∷ 1 ∷ 1 ∷ 2 ∷ 1 ∷ 2 ∷ 1 ∷ 3 ∷ 1 ∷ 1 ∷ 1 ∷ 2 ∷ 1
    ∷ 2 ∷ 3 ∷ 3 ∷ 1 ∷ 1 ∷ 1 ∷ 2 ∷ 1 ∷ 2 ∷ 1 ∷ 3 ∷ 1 ∷ 1 ∷ 1 ∷ 2 ∷ 1 ∷ 1 ∷ 1 ∷ 1 ∷ 1 ∷ 1 ∷ 1 ∷ 1 ∷ 1
    ∷ 1 ∷ 1 ∷ 1 ∷ 1 ∷ 1 ∷ 1 ∷ 1 ∷ 1 ∷ 1 ∷ 1 ∷ 1 ∷ 1 ∷ 1 ∷ 1 ∷ 1 ∷ 1 ∷ 1 ∷ 1 ∷ 1 ∷ 1 ∷ 1 ∷ 1 ∷ 1 ∷ 1
    ∷ 1 ∷ 1 ∷ 1 ∷ 1 ∷ 1 ∷ 1 ∷ 1 ∷ 1 ∷ 1 ∷ 1 ∷ 1 ∷ 1 ∷ 1 ∷ 1 ∷ 1 ∷ 1 ∷ 1 ∷ 1 ∷ 1 ∷ 1 ∷ 1 ∷ 1 ∷ 1 ∷ 1
    ∷ 1 ∷ 1 ∷ 1 ∷ 1 ∷ 1 ∷ 1 ∷ 1 ∷ 1 ∷ 1 ∷ 1 ∷ 1 ∷ 1 ∷ 1 ∷ 1 ∷ 1 ∷ 1 ∷ 1 ∷ 1 ∷ 1 ∷ 1 ∷ 1 ∷ 1 ∷ 1 ∷ 1
    ∷ 1 ∷ 1 ∷ 1 ∷ 1 ∷ 1 ∷ 1 ∷ 1 ∷ 1 ∷ 1 ∷ 1 ∷ 1 ∷ 1 ∷ 1 ∷ 1 ∷ 1 ∷ 1 ∷ 1 ∷ 1 ∷ 1 ∷ 1 ∷ 1 ∷ 1 ∷ 1 ∷ 1
    ∷ 1 ∷ 1 ∷ 1 ∷ 1 ∷ 1 ∷ 1 ∷ 1 ∷ 1 ∷ 1 ∷ 1 ∷ 1 ∷ 1 ∷ 1 ∷ 1 ∷ 1 ∷ 1 ∷ 1 ∷ 1 ∷ 1 ∷ 1 ∷ 1 ∷ 1 ∷ 1 ∷ 1
    ∷ 1 ∷ 1 ∷ 3 ∷ 3 ∷ 3 ∷ 1 ∷ 2 ∷ 1 ∷ 1 ∷ 1 ∷ 3 ∷ 1 ∷ 3 ∷ 3 ∷ 2 ∷ 1 ∷ 1 ∷ 1 ∷ 3 ∷ 2 ∷ 3 ∷ 1 ∷ 2 ∷ 1
    ∷ 1 ∷ 1 ∷ 3 ∷ 2 ∷ 3 ∷ 1 ∷ 2 ∷ 1 ∷ 1 ∷ 1 ∷ 3 ∷ 1 ∷ 3 ∷ 1 ∷ 2 ∷ 1 ∷ 1 ∷ 1 ∷ 3 ∷ 1 ∷ 3 ∷ 1 ∷ 2 ∷ 1
    ∷ 1 ∷ 1 ∷ 3 ∷ 1 ∷ 3 ∷ 1 ∷ 2 ∷ 1 ∷ 1 ∷ 1 ∷ 3 ∷ 1 ∷ 3 ∷ 1 ∷ 2 ∷ 1 ∷ []

unfoldable pub bop : List Op
bop =
    Op.nop ∷ Op.lxi ∷ Op.stax ∷ Op.inx ∷ Op.inr ∷ Op.dcr ∷ Op.ldri ∷ Op.rot ∷ Op.exaf ∷ Op.dad
    ∷ Op.ldax ∷ Op.dcx ∷ Op.inr ∷ Op.dcr ∷ Op.ldri ∷ Op.rot ∷ Op.djnz ∷ Op.lxi ∷ Op.stax ∷ Op.inx
    ∷ Op.inr ∷ Op.dcr ∷ Op.ldri ∷ Op.rot ∷ Op.jr ∷ Op.dad ∷ Op.ldax ∷ Op.dcx ∷ Op.inr ∷ Op.dcr
    ∷ Op.ldri ∷ Op.rot ∷ Op.jr ∷ Op.lxi ∷ Op.shld ∷ Op.inx ∷ Op.inr ∷ Op.dcr ∷ Op.ldri ∷ Op.daa
    ∷ Op.jr ∷ Op.dad ∷ Op.lhld ∷ Op.dcx ∷ Op.inr ∷ Op.dcr ∷ Op.ldri ∷ Op.cma ∷ Op.jr ∷ Op.lxi
    ∷ Op.sta ∷ Op.inx ∷ Op.inr ∷ Op.dcr ∷ Op.ldri ∷ Op.stc ∷ Op.jr ∷ Op.dad ∷ Op.lda ∷ Op.dcx
    ∷ Op.inr ∷ Op.dcr ∷ Op.ldri ∷ Op.cmc ∷ Op.ldrr ∷ Op.ldrr ∷ Op.ldrr ∷ Op.ldrr ∷ Op.ldrr ∷ Op.ldrr
    ∷ Op.ldrr ∷ Op.ldrr ∷ Op.ldrr ∷ Op.ldrr ∷ Op.ldrr ∷ Op.ldrr ∷ Op.ldrr ∷ Op.ldrr ∷ Op.ldrr
    ∷ Op.ldrr ∷ Op.ldrr ∷ Op.ldrr ∷ Op.ldrr ∷ Op.ldrr ∷ Op.ldrr ∷ Op.ldrr ∷ Op.ldrr ∷ Op.ldrr
    ∷ Op.ldrr ∷ Op.ldrr ∷ Op.ldrr ∷ Op.ldrr ∷ Op.ldrr ∷ Op.ldrr ∷ Op.ldrr ∷ Op.ldrr ∷ Op.ldrr
    ∷ Op.ldrr ∷ Op.ldrr ∷ Op.ldrr ∷ Op.ldrr ∷ Op.ldrr ∷ Op.ldrr ∷ Op.ldrr ∷ Op.ldrr ∷ Op.ldrr
    ∷ Op.ldrr ∷ Op.ldrr ∷ Op.ldrr ∷ Op.ldrr ∷ Op.ldrr ∷ Op.ldrr ∷ Op.ldrr ∷ Op.ldrr ∷ Op.ldrr
    ∷ Op.ldrr ∷ Op.ldrr ∷ Op.ldrr ∷ Op.hlt ∷ Op.ldrr ∷ Op.ldrr ∷ Op.ldrr ∷ Op.ldrr ∷ Op.ldrr
    ∷ Op.ldrr ∷ Op.ldrr ∷ Op.ldrr ∷ Op.ldrr ∷ Op.alu ∷ Op.alu ∷ Op.alu ∷ Op.alu ∷ Op.alu ∷ Op.alu
    ∷ Op.alu ∷ Op.alu ∷ Op.alu ∷ Op.alu ∷ Op.alu ∷ Op.alu ∷ Op.alu ∷ Op.alu ∷ Op.alu ∷ Op.alu
    ∷ Op.alu ∷ Op.alu ∷ Op.alu ∷ Op.alu ∷ Op.alu ∷ Op.alu ∷ Op.alu ∷ Op.alu ∷ Op.alu ∷ Op.alu
    ∷ Op.alu ∷ Op.alu ∷ Op.alu ∷ Op.alu ∷ Op.alu ∷ Op.alu ∷ Op.alu ∷ Op.alu ∷ Op.alu ∷ Op.alu
    ∷ Op.alu ∷ Op.alu ∷ Op.alu ∷ Op.alu ∷ Op.alu ∷ Op.alu ∷ Op.alu ∷ Op.alu ∷ Op.alu ∷ Op.alu
    ∷ Op.alu ∷ Op.alu ∷ Op.alu ∷ Op.alu ∷ Op.alu ∷ Op.alu ∷ Op.alu ∷ Op.alu ∷ Op.alu ∷ Op.alu
    ∷ Op.alu ∷ Op.alu ∷ Op.alu ∷ Op.alu ∷ Op.alu ∷ Op.alu ∷ Op.alu ∷ Op.alu ∷ Op.rcc ∷ Op.pop
    ∷ Op.jcc ∷ Op.jmp ∷ Op.ccc ∷ Op.push ∷ Op.alu ∷ Op.rst ∷ Op.rcc ∷ Op.ret ∷ Op.jcc ∷ Op.cb
    ∷ Op.ccc ∷ Op.call ∷ Op.alu ∷ Op.rst ∷ Op.rcc ∷ Op.pop ∷ Op.jcc ∷ Op.port_out ∷ Op.ccc ∷ Op.push
    ∷ Op.alu ∷ Op.rst ∷ Op.rcc ∷ Op.exx ∷ Op.jcc ∷ Op.port_in ∷ Op.ccc ∷ Op.ix ∷ Op.alu ∷ Op.rst
    ∷ Op.rcc ∷ Op.pop ∷ Op.jcc ∷ Op.xthl ∷ Op.ccc ∷ Op.push ∷ Op.alu ∷ Op.rst ∷ Op.rcc ∷ Op.pchl
    ∷ Op.jcc ∷ Op.xchg ∷ Op.ccc ∷ Op.ed ∷ Op.alu ∷ Op.rst ∷ Op.rcc ∷ Op.pop ∷ Op.jcc ∷ Op.di
    ∷ Op.ccc ∷ Op.push ∷ Op.alu ∷ Op.rst ∷ Op.rcc ∷ Op.sphl ∷ Op.jcc ∷ Op.ei ∷ Op.ccc ∷ Op.ix
    ∷ Op.alu ∷ Op.rst ∷ []

unfoldable pub bx : List ℕ
bx =
    0 ∷ 0 ∷ 0 ∷ 0 ∷ 0 ∷ 0 ∷ 0 ∷ 0 ∷ 0 ∷ 0 ∷ 0 ∷ 0 ∷ 1 ∷ 1 ∷ 1 ∷ 1 ∷ 0 ∷ 1 ∷ 1 ∷ 1 ∷ 2 ∷ 2 ∷ 2 ∷ 2
    ∷ 4 ∷ 1 ∷ 1 ∷ 1 ∷ 3 ∷ 3 ∷ 3 ∷ 3 ∷ 0 ∷ 2 ∷ 0 ∷ 2 ∷ 4 ∷ 4 ∷ 4 ∷ 0 ∷ 1 ∷ 2 ∷ 0 ∷ 2 ∷ 5 ∷ 5 ∷ 5 ∷ 0
    ∷ 2 ∷ 3 ∷ 0 ∷ 3 ∷ 6 ∷ 6 ∷ 6 ∷ 0 ∷ 3 ∷ 3 ∷ 0 ∷ 3 ∷ 7 ∷ 7 ∷ 7 ∷ 0 ∷ 0 ∷ 0 ∷ 0 ∷ 0 ∷ 0 ∷ 0 ∷ 0 ∷ 0
    ∷ 1 ∷ 1 ∷ 1 ∷ 1 ∷ 1 ∷ 1 ∷ 1 ∷ 1 ∷ 2 ∷ 2 ∷ 2 ∷ 2 ∷ 2 ∷ 2 ∷ 2 ∷ 2 ∷ 3 ∷ 3 ∷ 3 ∷ 3 ∷ 3 ∷ 3 ∷ 3 ∷ 3
    ∷ 4 ∷ 4 ∷ 4 ∷ 4 ∷ 4 ∷ 4 ∷ 4 ∷ 4 ∷ 5 ∷ 5 ∷ 5 ∷ 5 ∷ 5 ∷ 5 ∷ 5 ∷ 5 ∷ 6 ∷ 6 ∷ 6 ∷ 6 ∷ 6 ∷ 6 ∷ 0 ∷ 6
    ∷ 7 ∷ 7 ∷ 7 ∷ 7 ∷ 7 ∷ 7 ∷ 7 ∷ 7 ∷ 0 ∷ 0 ∷ 0 ∷ 0 ∷ 0 ∷ 0 ∷ 0 ∷ 0 ∷ 1 ∷ 1 ∷ 1 ∷ 1 ∷ 1 ∷ 1 ∷ 1 ∷ 1
    ∷ 2 ∷ 2 ∷ 2 ∷ 2 ∷ 2 ∷ 2 ∷ 2 ∷ 2 ∷ 3 ∷ 3 ∷ 3 ∷ 3 ∷ 3 ∷ 3 ∷ 3 ∷ 3 ∷ 4 ∷ 4 ∷ 4 ∷ 4 ∷ 4 ∷ 4 ∷ 4 ∷ 4
    ∷ 5 ∷ 5 ∷ 5 ∷ 5 ∷ 5 ∷ 5 ∷ 5 ∷ 5 ∷ 6 ∷ 6 ∷ 6 ∷ 6 ∷ 6 ∷ 6 ∷ 6 ∷ 6 ∷ 7 ∷ 7 ∷ 7 ∷ 7 ∷ 7 ∷ 7 ∷ 7 ∷ 7
    ∷ 0 ∷ 0 ∷ 0 ∷ 0 ∷ 0 ∷ 0 ∷ 0 ∷ 0 ∷ 1 ∷ 0 ∷ 1 ∷ 0 ∷ 1 ∷ 0 ∷ 1 ∷ 1 ∷ 2 ∷ 1 ∷ 2 ∷ 0 ∷ 2 ∷ 1 ∷ 2 ∷ 2
    ∷ 3 ∷ 0 ∷ 3 ∷ 0 ∷ 3 ∷ 0 ∷ 3 ∷ 3 ∷ 4 ∷ 2 ∷ 4 ∷ 0 ∷ 4 ∷ 2 ∷ 4 ∷ 4 ∷ 5 ∷ 0 ∷ 5 ∷ 0 ∷ 5 ∷ 0 ∷ 5 ∷ 5
    ∷ 6 ∷ 3 ∷ 6 ∷ 0 ∷ 6 ∷ 3 ∷ 6 ∷ 6 ∷ 7 ∷ 0 ∷ 7 ∷ 0 ∷ 7 ∷ 0 ∷ 7 ∷ 7 ∷ []

unfoldable pub by : List ℕ
by =
    0 ∷ 0 ∷ 0 ∷ 0 ∷ 0 ∷ 0 ∷ 0 ∷ 0 ∷ 0 ∷ 0 ∷ 0 ∷ 0 ∷ 0 ∷ 0 ∷ 0 ∷ 0 ∷ 0 ∷ 0 ∷ 0 ∷ 0 ∷ 0 ∷ 0 ∷ 0 ∷ 0
    ∷ 0 ∷ 0 ∷ 0 ∷ 0 ∷ 0 ∷ 0 ∷ 0 ∷ 0 ∷ 0 ∷ 0 ∷ 0 ∷ 0 ∷ 0 ∷ 0 ∷ 0 ∷ 0 ∷ 0 ∷ 0 ∷ 0 ∷ 0 ∷ 0 ∷ 0 ∷ 0 ∷ 0
    ∷ 0 ∷ 0 ∷ 0 ∷ 0 ∷ 0 ∷ 0 ∷ 0 ∷ 0 ∷ 0 ∷ 0 ∷ 0 ∷ 0 ∷ 0 ∷ 0 ∷ 0 ∷ 0 ∷ 0 ∷ 1 ∷ 2 ∷ 3 ∷ 4 ∷ 5 ∷ 6 ∷ 7
    ∷ 0 ∷ 1 ∷ 2 ∷ 3 ∷ 4 ∷ 5 ∷ 6 ∷ 7 ∷ 0 ∷ 1 ∷ 2 ∷ 3 ∷ 4 ∷ 5 ∷ 6 ∷ 7 ∷ 0 ∷ 1 ∷ 2 ∷ 3 ∷ 4 ∷ 5 ∷ 6 ∷ 7
    ∷ 0 ∷ 1 ∷ 2 ∷ 3 ∷ 4 ∷ 5 ∷ 6 ∷ 7 ∷ 0 ∷ 1 ∷ 2 ∷ 3 ∷ 4 ∷ 5 ∷ 6 ∷ 7 ∷ 0 ∷ 1 ∷ 2 ∷ 3 ∷ 4 ∷ 5 ∷ 0 ∷ 7
    ∷ 0 ∷ 1 ∷ 2 ∷ 3 ∷ 4 ∷ 5 ∷ 6 ∷ 7 ∷ 0 ∷ 1 ∷ 2 ∷ 3 ∷ 4 ∷ 5 ∷ 6 ∷ 7 ∷ 0 ∷ 1 ∷ 2 ∷ 3 ∷ 4 ∷ 5 ∷ 6 ∷ 7
    ∷ 0 ∷ 1 ∷ 2 ∷ 3 ∷ 4 ∷ 5 ∷ 6 ∷ 7 ∷ 0 ∷ 1 ∷ 2 ∷ 3 ∷ 4 ∷ 5 ∷ 6 ∷ 7 ∷ 0 ∷ 1 ∷ 2 ∷ 3 ∷ 4 ∷ 5 ∷ 6 ∷ 7
    ∷ 0 ∷ 1 ∷ 2 ∷ 3 ∷ 4 ∷ 5 ∷ 6 ∷ 7 ∷ 0 ∷ 1 ∷ 2 ∷ 3 ∷ 4 ∷ 5 ∷ 6 ∷ 7 ∷ 0 ∷ 1 ∷ 2 ∷ 3 ∷ 4 ∷ 5 ∷ 6 ∷ 7
    ∷ 0 ∷ 0 ∷ 0 ∷ 0 ∷ 0 ∷ 0 ∷ 0 ∷ 0 ∷ 0 ∷ 0 ∷ 0 ∷ 0 ∷ 0 ∷ 0 ∷ 0 ∷ 0 ∷ 0 ∷ 0 ∷ 0 ∷ 0 ∷ 0 ∷ 0 ∷ 0 ∷ 0
    ∷ 0 ∷ 0 ∷ 0 ∷ 0 ∷ 0 ∷ 0 ∷ 0 ∷ 0 ∷ 0 ∷ 0 ∷ 0 ∷ 0 ∷ 0 ∷ 0 ∷ 0 ∷ 0 ∷ 0 ∷ 0 ∷ 0 ∷ 0 ∷ 0 ∷ 0 ∷ 0 ∷ 0
    ∷ 0 ∷ 0 ∷ 0 ∷ 0 ∷ 0 ∷ 0 ∷ 0 ∷ 0 ∷ 0 ∷ 0 ∷ 0 ∷ 0 ∷ 0 ∷ 0 ∷ 0 ∷ 0 ∷ []

unfoldable pub bfl : List ℕ
bfl =
    0 ∷ 1 ∷ 2 ∷ 0 ∷ 0 ∷ 0 ∷ 1 ∷ 0 ∷ 0 ∷ 0 ∷ 2 ∷ 0 ∷ 0 ∷ 0 ∷ 1 ∷ 0 ∷ 0 ∷ 1 ∷ 2 ∷ 0 ∷ 0 ∷ 0 ∷ 1 ∷ 0
    ∷ 0 ∷ 0 ∷ 2 ∷ 0 ∷ 0 ∷ 0 ∷ 1 ∷ 0 ∷ 0 ∷ 1 ∷ 7 ∷ 0 ∷ 0 ∷ 0 ∷ 1 ∷ 0 ∷ 0 ∷ 0 ∷ 7 ∷ 0 ∷ 0 ∷ 0 ∷ 1 ∷ 0
    ∷ 0 ∷ 1 ∷ 7 ∷ 0 ∷ 2 ∷ 2 ∷ 3 ∷ 0 ∷ 0 ∷ 0 ∷ 7 ∷ 0 ∷ 0 ∷ 0 ∷ 1 ∷ 0 ∷ 0 ∷ 0 ∷ 0 ∷ 0 ∷ 0 ∷ 0 ∷ 2 ∷ 0
    ∷ 0 ∷ 0 ∷ 0 ∷ 0 ∷ 0 ∷ 0 ∷ 2 ∷ 0 ∷ 0 ∷ 0 ∷ 0 ∷ 0 ∷ 0 ∷ 0 ∷ 2 ∷ 0 ∷ 0 ∷ 0 ∷ 0 ∷ 0 ∷ 0 ∷ 0 ∷ 2 ∷ 0
    ∷ 0 ∷ 0 ∷ 0 ∷ 0 ∷ 0 ∷ 0 ∷ 2 ∷ 0 ∷ 0 ∷ 0 ∷ 0 ∷ 0 ∷ 0 ∷ 0 ∷ 2 ∷ 0 ∷ 2 ∷ 2 ∷ 2 ∷ 2 ∷ 2 ∷ 2 ∷ 0 ∷ 2
    ∷ 0 ∷ 0 ∷ 0 ∷ 0 ∷ 0 ∷ 0 ∷ 2 ∷ 0 ∷ 0 ∷ 0 ∷ 0 ∷ 0 ∷ 0 ∷ 0 ∷ 2 ∷ 0 ∷ 0 ∷ 0 ∷ 0 ∷ 0 ∷ 0 ∷ 0 ∷ 2 ∷ 0
    ∷ 0 ∷ 0 ∷ 0 ∷ 0 ∷ 0 ∷ 0 ∷ 2 ∷ 0 ∷ 0 ∷ 0 ∷ 0 ∷ 0 ∷ 0 ∷ 0 ∷ 2 ∷ 0 ∷ 0 ∷ 0 ∷ 0 ∷ 0 ∷ 0 ∷ 0 ∷ 2 ∷ 0
    ∷ 0 ∷ 0 ∷ 0 ∷ 0 ∷ 0 ∷ 0 ∷ 2 ∷ 0 ∷ 0 ∷ 0 ∷ 0 ∷ 0 ∷ 0 ∷ 0 ∷ 2 ∷ 0 ∷ 0 ∷ 0 ∷ 0 ∷ 0 ∷ 0 ∷ 0 ∷ 2 ∷ 0
    ∷ 0 ∷ 0 ∷ 4 ∷ 4 ∷ 4 ∷ 0 ∷ 1 ∷ 0 ∷ 0 ∷ 0 ∷ 4 ∷ 8 ∷ 4 ∷ 4 ∷ 1 ∷ 0 ∷ 0 ∷ 0 ∷ 4 ∷ 0 ∷ 4 ∷ 0 ∷ 1 ∷ 0
    ∷ 0 ∷ 0 ∷ 4 ∷ 0 ∷ 4 ∷ 8 ∷ 1 ∷ 0 ∷ 0 ∷ 0 ∷ 4 ∷ 2 ∷ 4 ∷ 0 ∷ 1 ∷ 0 ∷ 0 ∷ 0 ∷ 4 ∷ 0 ∷ 4 ∷ 8 ∷ 1 ∷ 0
    ∷ 0 ∷ 0 ∷ 4 ∷ 0 ∷ 4 ∷ 0 ∷ 1 ∷ 0 ∷ 0 ∷ 0 ∷ 4 ∷ 0 ∷ 4 ∷ 8 ∷ 1 ∷ 0 ∷ []
