-- ===== src/Printer/Names.antt =====
-- The tables of names in src/opprintf.c, and the colours of src/ansi.h.
use Prim.Native.String.{String}
use n_ovl.Base.{ℕ, List, [], ◌∷◌}

abbrev pub fpu_fmt_names : List ℕ
fpu_fmt_names = b'S' ∷ b'D' ∷ b'?' ∷ b'?' ∷ b'W' ∷ b'L' ∷ []

abbrev pub fp_compare_types : List String
fp_compare_types =
    "F" ∷ "UN" ∷ "EQ" ∷ "UEQ" ∷ "OLT" ∷ "ULT" ∷ "OLE" ∷ "ULE" ∷ "SF" ∷ "NGLE" ∷ "SEQ" ∷ "NGL" ∷ "LT"
    ∷ "NGE" ∷ "LE" ∷ "NGT" ∷ []

abbrev pub registers_a_gpr : List String
registers_a_gpr =
    "R0" ∷ "AT" ∷ "V0" ∷ "V1" ∷ "A0" ∷ "A1" ∷ "A2" ∷ "A3" ∷ "T0" ∷ "T1" ∷ "T2" ∷ "T3" ∷ "T4" ∷ "T5"
    ∷ "T6" ∷ "T7" ∷ "S0" ∷ "S1" ∷ "S2" ∷ "S3" ∷ "S4" ∷ "S5" ∷ "S6" ∷ "S7" ∷ "T8" ∷ "T9" ∷ "K0"
    ∷ "K1" ∷ "GP" ∷ "SP" ∷ "S8" ∷ "RA" ∷ []

abbrev pub registers_a_fpr : List String
registers_a_fpr =
    "F0" ∷ "F1" ∷ "F2" ∷ "F3" ∷ "F4" ∷ "F5" ∷ "F6" ∷ "F7" ∷ "F8" ∷ "F9" ∷ "F10" ∷ "F11" ∷ "F12"
    ∷ "F13" ∷ "F14" ∷ "F15" ∷ "F16" ∷ "F17" ∷ "F18" ∷ "F19" ∷ "F20" ∷ "F21" ∷ "F22" ∷ "F23" ∷ "F24"
    ∷ "F25" ∷ "F26" ∷ "F27" ∷ "F28" ∷ "F29" ∷ "F30" ∷ "F31" ∷ []

abbrev pub registers_a_cop : List String
registers_a_cop =
    "Index" ∷ "Random" ∷ "EntryLo0" ∷ "EntryLo1" ∷ "Context" ∷ "PageMask" ∷ "Wired" ∷ "Resrvd07"
    ∷ "BadVAddr" ∷ "Count" ∷ "EntryHi" ∷ "Compare" ∷ "Status" ∷ "Cause" ∷ "EPC" ∷ "PRevID"
    ∷ "Config" ∷ "LLAddr" ∷ "WatchLo" ∷ "WatchHi" ∷ "XContext" ∷ "Resrvd21" ∷ "Resrvd22"
    ∷ "Resrvd23" ∷ "Resrvd24" ∷ "Resrvd25" ∷ "PErr" ∷ "CacheErr" ∷ "TagLo" ∷ "TagHi" ∷ "ErrorEPC"
    ∷ "Resrvd31" ∷ []

-- `ANSI_SET_FG_BLUE` and `ANSI_RESET_DEFAULT`
abbrev pub set_fg_blue : List ℕ
set_fg_blue = 0x1B ∷ b'[' ∷ b'0' ∷ b';' ∷ b'3' ∷ b'4' ∷ b'm' ∷ []

abbrev pub reset_default : List ℕ
reset_default = 0x1B ∷ b'[' ∷ b'0' ∷ b'm' ∷ []
