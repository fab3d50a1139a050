-- ===== src/Main/Listing/Tests.antt =====
-- The listings of a small file, and the theorems at it.
use n_ovl.Base.{ℕ, ◌*◌, ◌≡◌, refl, arith, List, [], ◌∷◌, ◌++◌, some, true}
use n_ovl.Base.{length}
use n_ovl.Base.Exec.{ok}
use n_ovl.Base.Bytes.{read_word, read_words, be_bytes, words_bytes}
use n_ovl.Section.{codes}
use n_ovl.Reloc.Entry.{reloc_mk}
use n_ovl.Overlay.{OvlHeader, Ovl, header_position, get_header, ovl_load, make_sections}
use n_ovl.Printer.Conf.{initial}
use n_ovl.Main.RelocNames.{str_reloc}
use n_ovl.Main.Listing.{disassemble_file}
use n_ovl.Main.Listing.Whole.{AreLines, listed, disassemble_all}
use n_ovl.Main.Listing.Disassembly.{concat}
use n_ovl.Main.Listing.{list_relocations}
use n_ovl.Main.Listing.Relocations.{Listed, AreLinesOf, relocation_list, list_relocations-Listed}

-- jr ra and nop in .text, one word of data, and a table of two entries.
abbrev relocations : List ℕ
relocations = reloc_mk 1 4 4 ∷ reloc_mk 2 0 2 ∷ []

abbrev header : OvlHeader
header = record {
  size_text = 8;
  size_data = 4;
  size_rodata = 0;
  size_bss = 16;
  relocation_count = 2;
}

small_file : List ℕ
small_file =
    words_bytes (
      0x03E0_0008 ∷ 0 ∷ 0x8010_0004 ∷ 8 ∷ 4 ∷ 0 ∷ 16 ∷ 2 ∷ 0x4400_0004 ∷ 0x8200_0000 ∷ 0 ∷ 0x24
      ∷ [])

abbrev small_ovl : Ovl
small_ovl = record {
  sections = make_sections header;
  relocation_count = 2;
  contents = small_file;
  relocations = 0x4400_0004 ∷ 0x8200_0000 ∷ [];
}

small_file_size : length small_file ≡ 48
unfolding small_file words_bytes be_bytes
small_file_size = refl

small_file_loads : ovl_load small_file ≡ ok small_ovl
unfolding small_file ovl_load words_bytes be_bytes get_header read_word header_position read_words
small_file_loads = refl

disassemble_all_example :
    (t d r : List (List ℕ)) × (disassemble_file initial true 0x8010_0000
        (codes "a.ovl")
        small_file
        true
      ≡ ok (
          listed
            (codes "a.ovl")
            ((codes ".text", t) ∷ (codes ".data", d) ∷ (codes ".rodata", r) ∷ [])))
    × (4 * length t ≡ 8)
    × (4 * length d ≡ 4)
    × (4 * length r ≡ 0)
    × AreLines initial true small_file 0 0x8010_0000 (t ++ (d ++ r))
disassemble_all_example =
    disassemble_all initial true 0x8010_0000 (codes "a.ovl") small_file header (omega arith)
      (omega arith) (omega (arith, small_file_size)) (omega arith) (refl, refl, refl) small_ovl
      small_file_loads refl refl

jump_listed : Listed small_ovl 0x4400_0004
unfolding reloc_mk str_reloc
jump_listed = record {
  id = 0;
  offset = 4;
  type = 4;
  section_ = record { addr = 0; size = 8; bytes = some 0 };
  name = codes ".text";
  type_name = "R_MIPS_26";
  is_entry = refl;
  id_small = omega arith;
  offset_small = omega arith;
  type_small = omega arith;
  is_section = refl;
  is_name = refl;
  is_type = refl;
  inside = omega (arith, small_file_size);
  small = omega arith;
}

pointer_listed : Listed small_ovl 0x8200_0000
unfolding reloc_mk str_reloc
pointer_listed = record {
  id = 1;
  offset = 0;
  type = 2;
  section_ = record { addr = 8; size = 4; bytes = some 8 };
  name = codes ".data";
  type_name = "R_MIPS_32";
  is_entry = refl;
  id_small = omega arith;
  offset_small = omega arith;
  type_small = omega arith;
  is_section = refl;
  is_name = refl;
  is_type = refl;
  inside = omega (arith, small_file_size);
  small = omega arith;
}

list_relocations_two :
    (lines : List (List ℕ)) × (list_relocations 0x8010_0000 (codes "a.ovl") small_file
      ≡ ok (relocation_list (codes "a.ovl") (concat lines)))
    × AreLinesOf 0x8010_0000 small_ovl small_ovl.relocations
        (jump_listed, (pointer_listed, tt))
        lines
list_relocations_two =
    list_relocations-Listed 0x8010_0000 (codes "a.ovl") small_file small_ovl small_file_loads refl
      (jump_listed, (pointer_listed, tt))
