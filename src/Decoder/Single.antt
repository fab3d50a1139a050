-- ===== src/Decoder/Single.antt =====
-- The operations on single floats.
use n_ovl.Base.{ℕ, List, [], ◌∷◌}
use n_ovl.Base.{switch}
use n_ovl.Base.Word.{low_bits}
use n_ovl.Decoder.Op.{Op, text, reserv}

abbrev pub add_s : Op
add_s = text "ADD.S" "%ns%fd, %fs, %ft"

abbrev pub sub_s : Op
sub_s = text "SUB.S" "%ns%fd, %fs, %ft"

abbrev pub mul_s : Op
mul_s = text "MUL.S" "%ns%fd, %fs, %ft"

abbrev pub div_s : Op
div_s = text "DIV.S" "%ns%fd, %fs, %ft"

abbrev pub sqrt_s : Op
sqrt_s = text "SQRT.S" "%ns%fd, %fs"

abbrev pub abs_s : Op
abs_s = text "ABS.S" "%ns%fd, %fs"

abbrev pub mov_s : Op
mov_s = text "MOV.S" "%ns%fd, %fs"

abbrev pub neg_s : Op
neg_s = text "NEG.S" "%ns%fd, %fs"

abbrev pub round_l_s : Op
round_l_s = text "ROUND.L.S" "%ns%fd, %fs"

abbrev pub trunc_l_s : Op
trunc_l_s = text "TRUNC.L.S" "%ns%fd, %fs"

abbrev pub ceil_l_s : Op
ceil_l_s = text "CEIL.L.S" "%ns%fd, %fs"

abbrev pub floor_l_s : Op
floor_l_s = text "FLOOR.L.S" "%ns%fd, %fs"

abbrev pub round_w_s : Op
round_w_s = text "ROUND.W.S" "%ns%fd, %fs"

abbrev pub trunc_w_s : Op
trunc_w_s = text "TRUNC.W.S" "%ns%fd, %fs"

abbrev pub ceil_w_s : Op
ceil_w_s = text "CEIL.W.S" "%ns%fd, %fs"

abbrev pub floor_w_s : Op
floor_w_s = text "FLOOR.W.S" "%ns%fd, %fs"

abbrev pub cvt_d_s : Op
cvt_d_s = text "CVT.D.S" "%ns%fd, %fs"

abbrev pub cvt_w_s : Op
cvt_w_s = text "CVT.W.S" "%ns%fd, %fs"

abbrev pub cvt_l_s : Op
cvt_l_s = text "CVT.L.S" "%ns%fd, %fs"

abbrev pub c_f_s : Op
c_f_s = text "C.F.S" "%ns%fs, %ft"

abbrev pub c_un_s : Op
c_un_s = text "C.UN.S" "%ns%fs, %ft"

abbrev pub c_eq_s : Op
c_eq_s = text "C.EQ.S" "%ns%fs, %ft"

abbrev pub c_ueq_s : Op
c_ueq_s = text "C.UEQ.S" "%ns%fs, %ft"

abbrev pub c_olt_s : Op
c_olt_s = text "C.OLT.S" "%ns%fs, %ft"

abbrev pub c_ult_s : Op
c_ult_s = text "C.ULT.S" "%ns%fs, %ft"

abbrev pub c_ole_s : Op
c_ole_s = text "C.OLE.S" "%ns%fs, %ft"

abbrev pub c_ule_s : Op
c_ule_s = text "C.ULE.S" "%ns%fs, %ft"

abbrev pub c_sf_s : Op
c_sf_s = text "C.SF.S" "%ns%fs, %ft"

abbrev pub c_ngle_s : Op
c_ngle_s = text "C.NGLE.S" "%ns%fs, %ft"

abbrev pub c_seq_s : Op
c_seq_s = text "C.SEQ.S" "%ns%fs, %ft"

abbrev pub c_ngl_s : Op
c_ngl_s = text "C.NGL.S" "%ns%fs, %ft"

abbrev pub c_lt_s : Op
c_lt_s = text "C.LT.S" "%ns%fs, %ft"

abbrev pub c_nge_s : Op
c_nge_s = text "C.NGE.S" "%ns%fs, %ft"

abbrev pub c_le_s : Op
c_le_s = text "C.LE.S" "%ns%fs, %ft"

abbrev pub c_ngt_s : Op
c_ngt_s = text "C.NGT.S" "%ns%fs, %ft"

unfoldable pub single_cases : List (ℕ × Op)
single_cases =
    (0x00, add_s)
    ∷ (0x01, sub_s)
    ∷ (0x02, mul_s)
    ∷ (0x03, div_s)
    ∷ (0x04, sqrt_s)
    ∷ (0x05, abs_s)
    ∷ (0x06, mov_s)
    ∷ (0x07, neg_s)
    ∷ (0x08, round_l_s)
    ∷ (0x09, trunc_l_s)
    ∷ (0x0A, ceil_l_s)
    ∷ (0x0B, floor_l_s)
    ∷ (0x0C, round_w_s)
    ∷ (0x0D, trunc_w_s)
    ∷ (0x0E, ceil_w_s)
    ∷ (0x0F, floor_w_s)
    ∷ (0x21, cvt_d_s)
    ∷ (0x24, cvt_w_s)
    ∷ (0x25, cvt_l_s)
    ∷ (0x30, c_f_s)
    ∷ (0x31, c_un_s)
    ∷ (0x32, c_eq_s)
    ∷ (0x33, c_ueq_s)
    ∷ (0x34, c_olt_s)
    ∷ (0x35, c_ult_s)
    ∷ (0x36, c_ole_s)
    ∷ (0x37, c_ule_s)
    ∷ (0x38, c_sf_s)
    ∷ (0x39, c_ngle_s)
    ∷ (0x3A, c_seq_s)
    ∷ (0x3B, c_ngl_s)
    ∷ (0x3C, c_lt_s)
    ∷ (0x3D, c_nge_s)
    ∷ (0x3E, c_le_s)
    ∷ (0x3F, c_ngt_s)
    ∷ []

-- `S`, by the function field
unfoldable pub single : ℕ → Op
unfolding switch single_cases
single mot = switch single_cases reserv (low_bits mot 6)
