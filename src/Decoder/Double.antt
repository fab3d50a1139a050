-- ===== src/Decoder/Double.antt =====
-- The operations on double floats.
use n_ovl.Base.{ℕ, List, [], ◌∷◌}
use n_ovl.Base.{switch}
use n_ovl.Base.Word.{low_bits}
use n_ovl.Decoder.Op.{Op, text, reserv}

abbrev pub add_d : Op
add_d = text "ADD.D" "%ns%fd, %fs, %ft"

abbrev pub sub_d : Op
sub_d = text "SUB.D" "%ns%fd, %fs, %ft"

abbrev pub mul_d : Op
mul_d = text "MUL.D" "%ns%fd, %fs, %ft"

abbrev pub div_d : Op
div_d = text "DIV.D" "%ns%fd, %fs, %ft"

abbrev pub sqrt_d : Op
sqrt_d = text "SQRT.D" "%ns%fd, %fs"

abbrev pub abs_d : Op
abs_d = text "ABS.D" "%ns%fd, %fs"

abbrev pub mov_d : Op
mov_d = text "MOV.D" "%ns%fd, %fs"

abbrev pub neg_d : Op
neg_d = text "NEG.D" "%ns%fd, %fs"

abbrev pub round_l_d : Op
round_l_d = text "ROUND.L.D" "%ns%fd, %fs"

abbrev pub trunc_l_d : Op
trunc_l_d = text "TRUNC.L.D" "%ns%fd, %fs"

abbrev pub ceil_l_d : Op
ceil_l_d = text "CEIL.L.D" "%ns%fd, %fs"

abbrev pub floor_l_d : Op
floor_l_d = text "FLOOR.L.D" "%ns%fd, %fs"

abbrev pub round_w_d : Op
round_w_d = text "ROUND.W.D" "%ns%fd, %fs"

abbrev pub trunc_w_d : Op
trunc_w_d = text "TRUNC.W.D" "%ns%fd, %fs"

abbrev pub ceil_w_d : Op
ceil_w_d = text "CEIL.W.D" "%ns%fd, %fs"

abbrev pub floor_w_d : Op
floor_w_d = text "FLOOR.W.D" "%ns%fd, %fs"

abbrev pub cvt_s_d : Op
cvt_s_d = text "CVT.S.D" "%ns%fd, %fs"

abbrev pub cvt_w_d : Op
cvt_w_d = text "CVT.W.D" "%ns%fd, %fs"

abbrev pub cvt_l_d : Op
cvt_l_d = text "CVT.L.D" "%ns%fd, %fs"

abbrev pub c_f_d : Op
c_f_d = text "C.F.D" "%ns%fs, %ft"

abbrev pub c_un_d : Op
c_un_d = text "C.UN.D" "%ns%fs, %ft"

abbrev pub c_eq_d : Op
c_eq_d = text "C.EQ.D" "%ns%fs, %ft"

abbrev pub c_ueq_d : Op
c_ueq_d = text "C.UEQ.D" "%ns%fs, %ft"

abbrev pub c_olt_d : Op
c_olt_d = text "C.OLT.D" "%ns%fs, %ft"

abbrev pub c_ult_d : Op
c_ult_d = text "C.ULT.D" "%ns%fs, %ft"

abbrev pub c_ole_d : Op
c_ole_d = text "C.OLE.D" "%ns%fs, %ft"

abbrev pub c_ule_d : Op
c_ule_d = text "C.ULE.D" "%ns%fs, %ft"

abbrev pub c_sf_d : Op
c_sf_d = text "C.SF.D" "%ns%fs, %ft"

abbrev pub c_ngle_d : Op
c_ngle_d = text "C.NGLE.D" "%ns%fs, %ft"

abbrev pub c_seq_d : Op
c_seq_d = text "C.SEQ.D" "%ns%fs, %ft"

abbrev pub c_ngl_d : Op
c_ngl_d = text "C.NGL.D" "%ns%fs, %ft"

abbrev pub c_lt_d : Op
c_lt_d = text "C.LT.D" "%ns%fs, %ft"

abbrev pub c_nge_d : Op
c_nge_d = text "C.NGE.D" "%ns%fs, %ft"

abbrev pub c_le_d : Op
c_le_d = text "C.LE.D" "%ns%fs, %ft"

abbrev pub c_ngt_d : Op
c_ngt_d = text "C.NGT.D" "%ns%fs, %ft"

unfoldable pub double_cases : List (ℕ × Op)
double_cases =
    (0x00, add_d)
    ∷ (0x01, sub_d)
    ∷ (0x02, mul_d)
    ∷ (0x03, div_d)
    ∷ (0x04, sqrt_d)
    ∷ (0x05, abs_d)
    ∷ (0x06, mov_d)
    ∷ (0x07, neg_d)
    ∷ (0x08, round_l_d)
    ∷ (0x09, trunc_l_d)
    ∷ (0x0A, ceil_l_d)
    ∷ (0x0B, floor_l_d)
    ∷ (0x0C, round_w_d)
    ∷ (0x0D, trunc_w_d)
    ∷ (0x0E, ceil_w_d)
    ∷ (0x0F, floor_w_d)
    ∷ (0x20, cvt_s_d)
    ∷ (0x24, cvt_w_d)
    ∷ (0x25, cvt_l_d)
    ∷ (0x30, c_f_d)
    ∷ (0x31, c_un_d)
    ∷ (0x32, c_eq_d)
    ∷ (0x33, c_ueq_d)
    ∷ (0x34, c_olt_d)
    ∷ (0x35, c_ult_d)
    ∷ (0x36, c_ole_d)
    ∷ (0x37, c_ule_d)
    ∷ (0x38, c_sf_d)
    ∷ (0x39, c_ngle_d)
    ∷ (0x3A, c_seq_d)
    ∷ (0x3B, c_ngl_d)
    ∷ (0x3C, c_lt_d)
    ∷ (0x3D, c_nge_d)
    ∷ (0x3E, c_le_d)
    ∷ (0x3F, c_ngt_d)
    ∷ []

-- `D`, by the function field
unfoldable pub double : ℕ → Op
unfolding switch double_cases
double mot = switch double_cases reserv (low_bits mot 6)
