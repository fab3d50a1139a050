-- ===== src/Decoder/Special.antt =====
-- The functions of the opcode SPECIAL.
use n_ovl.Base.{ℕ, List, [], ◌∷◌}
use n_ovl.Base.{switch, if◌then◌else◌, ◌==◌}
use n_ovl.Base.Word.{low_bits}
use n_ovl.Decoder.Op.{Op, text, reserv}

-- The word 0 is printed as NOP.
abbrev pub sll : ℕ → Op
sll mot = if mot == 0 then text "NOP" "%n0" else text "SLL" "%ns%rd, %rt, %sa"

abbrev pub srl : Op
srl = text "SRL" "%ns%rd, %rt, %sa"

abbrev pub sra : Op
sra = text "SRA" "%ns%rd, %rt, %sa"

abbrev pub sllv : Op
sllv = text "SLLV" "%ns%rd, %rt, %rs"

abbrev pub srlv : Op
srlv = text "SRLV" "%ns%rd, %rt, %rs"

abbrev pub srav : Op
srav = text "SRAV" "%ns%rd, %rt, %rs"

abbrev pub jr : Op
jr = text "JR" "%ns%rs"

abbrev pub jalr : Op
jalr = text "JALR" "%ns%rd, %rs"

abbrev pub syscall : Op
syscall = text "SYSCALL" "%n0"

abbrev pub break : Op
break = text "BREAK" "%n0"

abbrev pub sync : Op
sync = text "SYNC" "%n0"

abbrev pub mfhi : Op
mfhi = text "MFHI" "%ns%rd"

abbrev pub mthi : Op
mthi = text "MTHI" "%ns%rs"

abbrev pub mflo : Op
mflo = text "MFLO" "%ns%rd"

abbrev pub mtlo : Op
mtlo = text "MTLO" "%ns%rs"

abbrev pub dsllv : Op
dsllv = text "DSLLV" "%ns%rd, %rt, %rs"

abbrev pub dsrlv : Op
dsrlv = text "DSRLV" "%ns%rd, %rt, %rs"

abbrev pub dsrav : Op
dsrav = text "DSRAV" "%ns%rd, %rt, %rs"

abbrev pub mult : Op
mult = text "MULT" "%ns%rs, %rt"

abbrev pub multu : Op
multu = text "MULTU" "%ns%rs, %rt"

abbrev pub div : Op
div = text "DIV" "%ns%rs, %rt"

abbrev pub divu : Op
divu = text "DIVU" "%ns%rs, %rt"

abbrev pub dmult : Op
dmult = text "DMULT" "%ns%rs, %rt"

abbrev pub dmultu : Op
dmultu = text "DMULTU" "%ns%rs, %rt"

abbrev pub ddiv : Op
ddiv = text "DDIV" "%ns%rs, %rt"

abbrev pub ddivu : Op
ddivu = text "DDIVU" "%ns%rs, %rt"

abbrev pub add : Op
add = text "ADD" "%ns%rd, %rs, %rt"

abbrev pub addu : Op
addu = text "ADDU" "%ns%rd, %rs, %rt"

abbrev pub sub : Op
sub = text "SUB" "%ns%rd, %rs, %rt"

abbrev pub subu : Op
subu = text "SUBU" "%ns%rd, %rs, %rt"

abbrev pub and : Op
and = text "AND" "%ns%rd, %rs, %rt"

abbrev pub or : Op
or = text "OR" "%ns%rd, %rs, %rt"

abbrev pub xor : Op
xor = text "XOR" "%ns%rd, %rs, %rt"

abbrev pub nor : Op
nor = text "NOR" "%ns%rd, %rs, %rt"

abbrev pub slt : Op
slt = text "SLT" "%ns%rd, %rs, %rt"

abbrev pub sltu : Op
sltu = text "SLTU" "%ns%rd, %rs, %rt"

abbrev pub dadd : Op
dadd = text "DADD" "%ns%rd, %rs, %rt"

abbrev pub daddu : Op
daddu = text "DADDU" "%ns%rd, %rs, %rt"

abbrev pub dsub : Op
dsub = text "DSUB" "%ns%rd, %rs, %rt"

abbrev pub dsubu : Op
dsubu = text "DSUBU" "%ns%rd, %rs, %rt"

abbrev pub tge : Op
tge = text "TGE" "%ns%rs, %rt"

abbrev pub tgeu : Op
tgeu = text "TGEU" "%ns%rs, %rt"

abbrev pub tlt : Op
tlt = text "TLT" "%ns%rs, %rt"

abbrev pub tltu : Op
tltu = text "TLTU" "%ns%rs, %rt"

abbrev pub teq : Op
teq = text "TEQ" "%ns%rs, %rt"

abbrev pub tne : Op
tne = text "TNE" "%ns%rs, %rt"

abbrev pub dsll : Op
dsll = text "DSLL" "%ns%rd, %rt, %sa"

abbrev pub dsrl : Op
dsrl = text "DSRL" "%ns%rd, %rt, %sa"

abbrev pub dsra : Op
dsra = text "DSRA" "%ns%rd, %rt, %sa"

abbrev pub dsll32 : Op
dsll32 = text "DSLL32" "%ns%rd, %rt, %sa"

abbrev pub dsrl32 : Op
dsrl32 = text "DSRL32" "%ns%rd, %rt, %sa"

abbrev pub dsra32 : Op
dsra32 = text "DSRA32" "%ns%rd, %rt, %sa"

unfoldable pub special_cases : ℕ → List (ℕ × Op)
special_cases mot =
    (0x00, sll mot)
    ∷ (0x02, srl)
    ∷ (0x03, sra)
    ∷ (0x04, sllv)
    ∷ (0x06, srlv)
    ∷ (0x07, srav)
    ∷ (0x08, jr)
    ∷ (0x09, jalr)
    ∷ (0x0C, syscall)
    ∷ (0x0D, break)
    ∷ (0x0F, sync)
    ∷ (0x10, mfhi)
    ∷ (0x11, mthi)
    ∷ (0x12, mflo)
    ∷ (0x13, mtlo)
    ∷ (0x14, dsllv)
    ∷ (0x16, dsrlv)
    ∷ (0x17, dsrav)
    ∷ (0x18, mult)
    ∷ (0x19, multu)
    ∷ (0x1A, div)
    ∷ (0x1B, divu)
    ∷ (0x1C, dmult)
    ∷ (0x1D, dmultu)
    ∷ (0x1E, ddiv)
    ∷ (0x1F, ddivu)
    ∷ (0x20, add)
    ∷ (0x21, addu)
    ∷ (0x22, sub)
    ∷ (0x23, subu)
    ∷ (0x24, and)
    ∷ (0x25, or)
    ∷ (0x26, xor)
    ∷ (0x27, nor)
    ∷ (0x2A, slt)
    ∷ (0x2B, sltu)
    ∷ (0x2C, dadd)
    ∷ (0x2D, daddu)
    ∷ (0x2E, dsub)
    ∷ (0x2F, dsubu)
    ∷ (0x30, tge)
    ∷ (0x31, tgeu)
    ∷ (0x32, tlt)
    ∷ (0x33, tltu)
    ∷ (0x34, teq)
    ∷ (0x36, tne)
    ∷ (0x38, dsll)
    ∷ (0x3A, dsrl)
    ∷ (0x3B, dsra)
    ∷ (0x3C, dsll32)
    ∷ (0x3E, dsrl32)
    ∷ (0x3F, dsra32)
    ∷ []

-- `special`, by the function field
unfoldable pub special : ℕ → Op
unfolding switch special_cases
special mot = switch (special_cases mot) reserv (low_bits mot 6)
