-- ===== src/Main/Listing.antt =====
-- What src/main.c prints about an overlay file: `disassemble`, `list_relocations` and
-- `list_sections`.
pub mod Disassembly
pub mod Whole
pub mod Converted
pub mod Relocations
pub mod Table
pub mod Sections
mod Tests
use Prim.Native.String.{String}
use n_ovl.Base.{
  ℕ, zero, suc, ◌+◌, ◌-◌, ◌*◌, ◌/◌, ◌%◌, ◌^◌, List, [], ◌∷◌, ◌++◌, Option, none, some, Bool, true,
  false,
}
use n_ovl.Base.{length, take, get_elem?, ltb, if◌then◌else◌}
use n_ovl.Base.Word.{u32, add32}
use n_ovl.Base.Exec.{Exec, ok, exit, fault, ◌>>=◌, non_null}
use n_ovl.Base.Bytes.{read_word}
use n_ovl.Section.{codes}
use n_ovl.Reloc.Entry.{get_addr, get_sec, get_type}
use n_ovl.Overlay.{OvlSection, Ovl, ovl_load}
use n_ovl.Printer.Text.{hex, decimal, pad_right}
use n_ovl.Printer.Conf.{Conf}
use n_ovl.Printer.Format.{prefixed}
use n_ovl.Decoder.Disassemble.{disassemble}
use n_ovl.Main.RelocNames.{str_reloc}
use n_ovl.Main.FormatValue.{format_value}

abbrev pub newline : List ℕ
newline = 10 ∷ []

-- `ovl_section_names` of src/overlay.c, without the null pointer at its end.
abbrev pub ovl_section_names : List (List ℕ)
ovl_section_names = codes ".text" ∷ codes ".data" ∷ codes ".rodata" ∷ codes ".bss" ∷ []

-- The sections with their names, in the order of the arrays.
unfoldable pub named : List (List ℕ) → List OvlSection → List (List ℕ × OvlSection)
named (name ∷ names) (s ∷ ss) = (name, s) ∷ named names ss
named _ _ = []

-- `"%08X: (%08X) %s\n"` and `"%08X: %s\n"`
unfoldable pub code_line : Bool → ℕ → ℕ → List ℕ → List ℕ
unfolding hex
code_line raw addr w text =
    hex false 8 addr
    ++ (codes ": "
        ++ ((if raw then codes "(" ++ (hex false 8 w ++ codes ") ") else []) ++ (text ++ newline)))

-- The inner loop of `disassemble`: the lines, and the address behind the last word.
unfoldable pub code_lines : Conf → Bool → List ℕ → ℕ → ℕ → ℕ → Exec (List ℕ × ℕ)
unfolding code_line
code_lines conf raw contents zero pos addr = ok ([], addr)
code_lines conf raw contents (suc n) pos addr = do
  w ← read_word contents pos
  text ← disassemble conf w addr
  (rest, behind) ← code_lines conf raw contents n (pos + 4) (add32 addr 4)
  ok (code_line raw addr w text ++ rest, behind)

-- `for( n = 0; n < size; n += 4 )`: a size from 2 ^ 31 on is negative.
abbrev pub words_of_size : ℕ → ℕ
words_of_size size = if ltb size (2 ^ 31) then (size + 3) / 4 else 0

abbrev pub code_header : List ℕ → List ℕ → List ℕ
code_header filename section_ =
    codes "Disassembly of \"" ++ (filename ++ (codes "\": section " ++ (section_ ++ newline)))

-- The outer loop; the address runs on from one section to the next.
unfoldable pub code_sections :
    Conf → Bool → List ℕ → List ℕ → List (List ℕ × OvlSection) → ℕ → Exec (List ℕ)
unfolding code_lines
code_sections conf raw filename contents [] addr = ok []
code_sections conf raw filename contents ((name, s) ∷ ss) addr = do
  start ← non_null s.bytes
  (lines, behind) ← code_lines conf raw contents (words_of_size s.size) start addr
  rest ← code_sections conf raw filename contents ss behind
  ok (code_header filename name ++ (lines ++ rest))

-- `disassemble`, from the point where the file is read.
unfoldable pub disassemble_file : Conf → Bool → ℕ → List ℕ → List ℕ → Bool → Exec (List ℕ)
unfolding code_sections named
disassemble_file conf raw base filename contents all = do
  o ← ovl_load contents
  let cnt = if all then 3 else 1
  code_sections conf raw filename o.contents (take cnt (named ovl_section_names o.sections)) base

-- One relocation. The array of sections ends with a null pointer; what lies behind that, and in
-- front of the array, is not defined.
unfoldable pub relocation_line : ℕ → Ovl → ℕ → Exec (List ℕ)
unfolding hex pad_right
relocation_line base o r = do
  s ← non_null (get_elem? o.sections (get_sec r))
  name ← non_null (get_elem? ovl_section_names (get_sec r))
  type ← str_reloc (get_type r)
  let a = add32 s.addr (get_addr r)
  w ← read_word o.contents a
  ok (
      prefixed (hex false 8 (add32 a base))
      ++ (codes "  "
          ++ (pad_right 8 name
              ++ (codes "  "
                  ++ (pad_right 14 (codes type)
                      ++ (codes "  " ++ (prefixed (hex false 8 w) ++ newline)))))))

unfoldable pub relocation_lines : ℕ → Ovl → List ℕ → Exec (List ℕ)
unfolding relocation_line
relocation_lines base o [] = ok []
relocation_lines base o (r ∷ rs) = do
  line ← relocation_line base o r
  rest ← relocation_lines base o rs
  ok (line ++ rest)

-- `list_relocations`
unfoldable pub list_relocations : ℕ → List ℕ → List ℕ → Exec (List ℕ)
unfolding relocation_lines
list_relocations base filename contents = do
  o ← ovl_load contents
  lines ← relocation_lines base o o.relocations
  ok (
      codes "Dump of relocations from \""
      ++ (filename
          ++ (codes "\":"
              ++ (newline
                  ++ (codes "ADDRESS     SECTION   REL TYPE        VALUE"
                      ++ (newline ++ (lines ++ (newline ++ newline))))))))

-- `%i` of a 32-bit pattern.
unfoldable pub int_text : ℕ → List ℕ
unfolding decimal
int_text n = if ltb n (2 ^ 31) then decimal 10 n else codes "-" ++ decimal 10 (2 ^ 32 - n)

unfoldable pub section_lines : Bool → ℕ → List (List ℕ × OvlSection) → List ℕ
unfolding int_text format_value hex pad_right
section_lines human base [] = []
section_lines human base ((name, s) ∷ ss) =
    pad_right 10 name
    ++ (codes " "
        ++ (prefixed (hex false 8 (add32 base s.addr))
            ++ (codes "     "
                ++ ((if human then format_value s.size else int_text s.size)
                    ++ (newline ++ section_lines human base ss)))))

-- `list_sections`
unfoldable pub list_sections : Bool → ℕ → List ℕ → List ℕ → Exec (List ℕ)
unfolding section_lines named
list_sections human base filename contents = do
  o ← ovl_load contents
  ok (
      codes "Dump of sections from \""
      ++ (filename
          ++ (codes "\":"
              ++ (newline
                  ++ (codes "NAME       ADDRESS        SIZE"
                      ++ (newline
                          ++ (section_lines human base (named ovl_section_names o.sections)
                              ++ (newline ++ newline))))))))
