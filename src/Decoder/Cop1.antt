-- ===== src/Decoder/Cop1.antt =====
-- The functions of coprocessor 1 other than the operations on floats.
use n_ovl.Base.{ℕ, List, [], ◌∷◌}
use n_ovl.Base.{switch}
use n_ovl.Base.Word.{low_bits, shr}
use n_ovl.Decoder.Op.{Op, text, reserv}
use n_ovl.Decoder.Single.{single}
use n_ovl.Decoder.Double.{double}

abbrev pub mfc1 : Op
mfc1 = text "MFC1" "%ns%rt, %fs"

abbrev pub dmfc1 : Op
dmfc1 = text "DMFC1" "%ns%rt, %fs"

abbrev pub cfc1 : Op
cfc1 = text "CFC1" "%ns%rt, %fs"

abbrev pub mtc1 : Op
mtc1 = text "MTC1" "%ns%rt, %fs"

abbrev pub dmtc1 : Op
dmtc1 = text "DMTC1" "%ns%rt, %fs"

abbrev pub ctc1 : Op
ctc1 = text "CTC1" "%ns%rt, %fs"

abbrev pub bc1f : Op
bc1f = text "BC1F" "%ns%br"

abbrev pub bc1t : Op
bc1t = text "BC1T" "%ns%br"

abbrev pub bc1fl : Op
bc1fl = text "BC1FL" "%ns%br"

abbrev pub bc1tl : Op
bc1tl = text "BC1TL" "%ns%br"

unfoldable pub bc_cases : List (ℕ × Op)
bc_cases = (0x00, bc1f) ∷ (0x01, bc1t) ∷ (0x02, bc1fl) ∷ (0x03, bc1tl) ∷ []

-- `BC`, by two bits, which have no value but the four; the switch has no default
unfoldable pub bc : ℕ → Op
unfolding switch bc_cases
bc mot = switch bc_cases reserv (low_bits (shr mot 16) 2)

abbrev pub cvt_s_w : Op
cvt_s_w = text "CVT.S.W" "%ns%fd, %fs"

abbrev pub cvt_d_w : Op
cvt_d_w = text "CVT.D.W" "%ns%fd, %fs"

unfoldable pub word_cases : List (ℕ × Op)
word_cases = (0x20, cvt_s_w) ∷ (0x21, cvt_d_w) ∷ []

-- `W`, by the function field
unfoldable pub word : ℕ → Op
unfolding switch word_cases
word mot = switch word_cases reserv (low_bits mot 6)

abbrev pub cvt_s_l : Op
cvt_s_l = text "CVT.S.L" "%ns%fd, %fs"

abbrev pub cvt_d_l : Op
cvt_d_l = text "CVT.D.L" "%ns%fd, %fs"

unfoldable pub long_cases : List (ℕ × Op)
long_cases = (0x20, cvt_s_l) ∷ (0x21, cvt_d_l) ∷ []

-- `L`, by the function field
unfoldable pub long : ℕ → Op
unfolding switch long_cases
long mot = switch long_cases reserv (low_bits mot 6)

unfoldable pub cop1_cases : ℕ → List (ℕ × Op)
cop1_cases mot =
    (0x00, mfc1)
    ∷ (0x01, dmfc1)
    ∷ (0x02, cfc1)
    ∷ (0x04, mtc1)
    ∷ (0x05, dmtc1)
    ∷ (0x06, ctc1)
    ∷ (0x08, bc mot)
    ∷ (0x10, single mot)
    ∷ (0x11, double mot)
    ∷ (0x14, word mot)
    ∷ (0x15, long mot)
    ∷ []

-- `cop1`, by the field rs
unfoldable pub cop1 : ℕ → Op
unfolding switch cop1_cases
cop1 mot = switch (cop1_cases mot) reserv (low_bits (shr mot 21) 5)
