-- ===== src/Decoder/Cop0.antt =====
-- The functions of coprocessor 0.
use n_ovl.Base.{ℕ, List, [], ◌∷◌}
use n_ovl.Base.{switch}
use n_ovl.Base.Word.{low_bits, shr}
use n_ovl.Decoder.Op.{Op, text, reserv}

abbrev pub mfc0 : Op
mfc0 = text "MFC0" "%ns%rt, %cp"

abbrev pub mtc0 : Op
mtc0 = text "MTC0" "%ns%rt, %cp"

abbrev pub tlbr : Op
tlbr = text "TLBR" "%n0"

abbrev pub tlbwi : Op
tlbwi = text "TLBWI" "%n0"

abbrev pub tlbwr : Op
tlbwr = text "TLBWR" "%n0"

abbrev pub tlbp : Op
tlbp = text "TLBP" "%n0"

abbrev pub eret : Op
eret = text "ERET" "%n0"

unfoldable pub tlb_cases : List (ℕ × Op)
tlb_cases = (0x01, tlbr) ∷ (0x02, tlbwi) ∷ (0x06, tlbwr) ∷ (0x08, tlbp) ∷ (0x18, eret) ∷ []

-- `tlb`, by the function field
unfoldable pub tlb : ℕ → Op
unfolding switch tlb_cases
tlb mot = switch tlb_cases reserv (low_bits mot 6)

unfoldable pub cop0_cases : ℕ → List (ℕ × Op)
cop0_cases mot = (0x00, mfc0) ∷ (0x04, mtc0) ∷ (0x10, tlb mot) ∷ []

-- `cop0`, by the field rs
unfoldable pub cop0 : ℕ → Op
unfolding switch cop0_cases
cop0 mot = switch (cop0_cases mot) reserv (low_bits (shr mot 21) 5)
