-- ===== src/Decoder/Disassemble.antt =====
-- The switch over the opcode, and the two entry points of src/decoder.c.
use n_ovl.Base.{ℕ, List, [], ◌∷◌}
use n_ovl.Base.{switch}
use n_ovl.Base.Word.{low_bits, shr}
use n_ovl.Decoder.Op.{Op, text, reserv}
use n_ovl.Decoder.Special.{special}
use n_ovl.Decoder.Regimm.{regimm}
use n_ovl.Decoder.Immediate.{
  j, jal, beq, bne, blez, bgtz, addi, addiu, slti, sltiu, andi, ori, xori, lui,
}
use n_ovl.Decoder.Cop0.{cop0}
use n_ovl.Decoder.Cop1.{cop1}
use n_ovl.Decoder.Storage.{
  beql, bnel, blezl, bgtzl, daddi, daddiu, ldl, ldr, lb, lh, lwl, lw, lbu, lhu, lwr, lwu, sb, sh,
  swl, sw, sdl, sdr, swr, cache, ll, lwc1, lld, ldc1, ld, sc, swc1, scd, sdc1, sd,
}
use n_ovl.Base.{◌++◌, false}
use n_ovl.Base.Exec.{Exec, ok}
use n_ovl.Section.{codes}
use n_ovl.Printer.Text.{hex}
use n_ovl.Printer.Conf.{Conf}
use n_ovl.Printer.Format.{prefixed, sprintf}

unfoldable pub opcode_cases : ℕ → List (ℕ × Op)
opcode_cases mot =
    (0x00, special mot)
    ∷ (0x01, regimm mot)
    ∷ (0x02, j)
    ∷ (0x03, jal)
    ∷ (0x04, beq)
    ∷ (0x05, bne)
    ∷ (0x06, blez)
    ∷ (0x07, bgtz)
    ∷ (0x08, addi)
    ∷ (0x09, addiu)
    ∷ (0x0A, slti)
    ∷ (0x0B, sltiu)
    ∷ (0x0C, andi)
    ∷ (0x0D, ori)
    ∷ (0x0E, xori)
    ∷ (0x0F, lui)
    ∷ (0x10, cop0 mot)
    ∷ (0x11, cop1 mot)
    ∷ (0x14, beql)
    ∷ (0x15, bnel)
    ∷ (0x16, blezl)
    ∷ (0x17, bgtzl)
    ∷ (0x18, daddi)
    ∷ (0x19, daddiu)
    ∷ (0x1A, ldl)
    ∷ (0x1B, ldr)
    ∷ (0x20, lb)
    ∷ (0x21, lh)
    ∷ (0x22, lwl)
    ∷ (0x23, lw)
    ∷ (0x24, lbu)
    ∷ (0x25, lhu)
    ∷ (0x26, lwr)
    ∷ (0x27, lwu)
    ∷ (0x28, sb)
    ∷ (0x29, sh)
    ∷ (0x2A, swl)
    ∷ (0x2B, sw)
    ∷ (0x2C, sdl)
    ∷ (0x2D, sdr)
    ∷ (0x2E, swr)
    ∷ (0x2F, cache)
    ∷ (0x30, ll)
    ∷ (0x31, lwc1)
    ∷ (0x34, lld)
    ∷ (0x35, ldc1)
    ∷ (0x37, ld)
    ∷ (0x38, sc)
    ∷ (0x39, swc1)
    ∷ (0x3C, scd)
    ∷ (0x3D, sdc1)
    ∷ (0x3F, sd)
    ∷ []

-- `switch((mot>>26)&0x3F)`
unfoldable pub decode : ℕ → Op
unfolding switch opcode_cases
decode mot = switch (opcode_cases mot) reserv (low_bits (shr mot 26) 6)

-- `RESERV`
abbrev pub invalid_text : ℕ → List ℕ
invalid_text mot =
    codes "INVLD("
    ++ (hex false 2 (low_bits (shr mot 26) 6) ++ (codes ")       " ++ prefixed (hex false 8 mot)))

unfoldable pub print_op : Conf → ℕ → ℕ → Op → Exec (List ℕ)
unfolding sprintf hex
print_op conf mot pc (text name fmt) = sprintf conf (codes name) mot pc (codes fmt)
print_op conf mot pc reserv = ok (invalid_text mot)

-- `mr4kd_disassemble`; the result is what is in `buffer`.
unfoldable pub disassemble : Conf → ℕ → ℕ → Exec (List ℕ)
unfolding decode print_op
disassemble conf instruction counter = print_op conf instruction counter (decode instruction)
