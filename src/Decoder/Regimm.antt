-- ===== src/Decoder/Regimm.antt =====
-- The functions of the opcode REGIMM.
use n_ovl.Base.{ℕ, List, [], ◌∷◌}
use n_ovl.Base.{switch}
use n_ovl.Base.Word.{low_bits, shr}
use n_ovl.Decoder.Op.{Op, text, reserv}

abbrev pub bltz : Op
bltz = text "BLTZ" "%ns%rs, %br"

abbrev pub bgez : Op
bgez = text "BGEZ" "%ns%rs, %br"

abbrev pub bltzl : Op
bltzl = text "BLTZL" "%ns%rs, %br"

abbrev pub bgezl : Op
bgezl = text "BGEZL" "%ns%rs, %br"

abbrev pub tgei : Op
tgei = text "TGEI" "%ns%rs, %ih"

abbrev pub tgeiu : Op
tgeiu = text "TGEIU" "%ns%rs, %ih"

abbrev pub tlti : Op
tlti = text "TLTI" "%ns%rs, %ih"

abbrev pub tltiu : Op
tltiu = text "TLTIU" "%ns%rs, %ih"

abbrev pub teqi : Op
teqi = text "TEQI" "%ns%rs, %ih"

abbrev pub tnei : Op
tnei = text "TNEI" "%ns%rs, %ih"

abbrev pub bltzal : Op
bltzal = text "BLTZAL" "%ns%rs, %br"

abbrev pub bgezal : Op
bgezal = text "BGEZAL" "%ns%rs, %br"

abbrev pub bltzall : Op
bltzall = text "BLTZALL" "%ns%rs, %br"

abbrev pub bgezall : Op
bgezall = text "BGEZALL" "%ns%rs, %br"

unfoldable pub regimm_cases : List (ℕ × Op)
regimm_cases =
    (0x00, bltz)
    ∷ (0x01, bgez)
    ∷ (0x02, bltzl)
    ∷ (0x03, bgezl)
    ∷ (0x08, tgei)
    ∷ (0x09, tgeiu)
    ∷ (0x0A, tlti)
    ∷ (0x0B, tltiu)
    ∷ (0x0C, teqi)
    ∷ (0x0E, tnei)
    ∷ (0x10, bltzal)
    ∷ (0x11, bgezal)
    ∷ (0x12, bltzall)
    ∷ (0x13, bgezall)
    ∷ []

-- `regimm`, by the field rt
unfoldable pub regimm : ℕ → Op
unfolding switch regimm_cases
regimm mot = switch regimm_cases reserv (low_bits (shr mot 16) 5)
