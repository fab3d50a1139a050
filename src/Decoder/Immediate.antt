-- ===== src/Decoder/Immediate.antt =====
-- The jumps, branches and immediate operations of the opcodes from 0x02 to 0x0F.
use n_ovl.Decoder.Op.{Op, text}

abbrev pub j : Op
j = text "J" "%ns%jm"

abbrev pub jal : Op
jal = text "JAL" "%ns%jm"

abbrev pub beq : Op
beq = text "BEQ" "%ns%rs, %rt, %br"

abbrev pub bne : Op
bne = text "BNE" "%ns%rs, %rt, %br"

abbrev pub blez : Op
blez = text "BLEZ" "%ns%rs, %br"

abbrev pub bgtz : Op
bgtz = text "BGTZ" "%ns%rs, %br"

abbrev pub addi : Op
addi = text "ADDI" "%ns%rt, %rs, %ih"

abbrev pub addiu : Op
addiu = text "ADDIU" "%ns%rt, %rs, %ih"

abbrev pub slti : Op
slti = text "SLTI" "%ns%rt, %rs, %ih"

abbrev pub sltiu : Op
sltiu = text "SLTIU" "%ns%rt, %rs, %ih"

abbrev pub andi : Op
andi = text "ANDI" "%ns%rt, %rs, %ih"

abbrev pub ori : Op
ori = text "ORI" "%ns%rt, %rs, %ih"

abbrev pub xori : Op
xori = text "XORI" "%ns%rt, %rs, %ih"

abbrev pub lui : Op
lui = text "LUI" "%ns%rt, %ih"
