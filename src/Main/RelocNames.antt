-- ===== src/Main/RelocNames.antt =====
-- `novl_str_reloc_types` and `novl_str_reloc` of src/novl.c.
use Prim.Native.String.{String}
use n_ovl.Base.{ℕ, List, [], ◌∷◌, get_elem?}
use n_ovl.Base.Exec.{Exec, non_null}

-- The terminating null pointer is not listed.
abbrev pub novl_str_reloc_types : List String
novl_str_reloc_types =
    "R_MIPS_NONE" ∷ "R_MIPS_16" ∷ "R_MIPS_32" ∷ "R_MIPS_REL32" ∷ "R_MIPS_26" ∷ "R_MIPS_HI16"
    ∷ "R_MIPS_LO16" ∷ "R_MIPS_GPREL16" ∷ "R_MIPS_LITERAL" ∷ "R_MIPS_GOT16" ∷ "R_MIPS_PC16"
    ∷ "R_MIPS_CALL16" ∷ "R_MIPS_GPREL32" ∷ "R_MIPS_SHIFT5" ∷ "R_MIPS_SHIFT6" ∷ "R_MIPS_64"
    ∷ "R_MIPS_GOT_DISP" ∷ "R_MIPS_GOT_PAGE" ∷ "R_MIPS_GOT_OFST" ∷ "R_MIPS_GOT_HI16"
    ∷ "R_MIPS_GOT_LO16" ∷ "R_MIPS_SUB" ∷ "R_MIPS_INSERT_A" ∷ "R_MIPS_INSERT_B" ∷ "R_MIPS_DELETE"
    ∷ "R_MIPS_HIGHER" ∷ "R_MIPS_HIGHEST" ∷ "R_MIPS_CALL_HI16" ∷ "R_MIPS_CALL_LO16"
    ∷ "R_MIPS_SCN_DISP" ∷ "R_MIPS_REL16" ∷ "R_MIPS_ADD_IMMEDIATE" ∷ "R_MIPS_PJUMP" ∷ "R_MIPS_RELGOT"
    ∷ "R_MIPS_JALR" ∷ "R_MIPS_TLS_DTPMOD32" ∷ "R_MIPS_TLS_DTPREL32" ∷ "R_MIPS_TLS_DTPMOD64"
    ∷ "R_MIPS_TLS_DTPREL64" ∷ "R_MIPS_TLS_GD" ∷ "R_MIPS_TLS_LDM" ∷ "R_MIPS_TLS_DTPREL_HI16"
    ∷ "R_MIPS_TLS_DTPREL_LO16" ∷ "R_MIPS_TLS_GOTTPREL" ∷ "R_MIPS_TLS_TPREL32" ∷ "R_MIPS_TLS_TPREL64"
    ∷ "R_MIPS_TLS_TPREL_HI16" ∷ "R_MIPS_TLS_TPREL_LO16" ∷ "R_MIPS_GLOB_DAT" ∷ "R_MIPS_COPY"
    ∷ "R_MIPS_JUMP_SLOT" ∷ []

-- `novl_str_reloc`, for a caller that prints the name: the null pointer behind the last name and what
-- lies behind that are faults.
unfoldable pub str_reloc : ℕ → Exec String
str_reloc reloc = non_null (get_elem? novl_str_reloc_types reloc)
