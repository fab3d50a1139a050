-- ===== src/Main/Listing/Relocations.antt =====
-- The lines that `list_relocations` prints.
use Prim.Native.String.{String}
use n_ovl.Base.{
  ℕ, ◌+◌, ◌-◌, ◌^◌, ◌≤◌, ◌<◌, ◌≡◌, refl, arith, List, [], ◌∷◌, ◌++◌, none, some, false,
}
use n_ovl.Base.{All, ap, ◌∙◌, length, get_elem?}
use n_ovl.Main.Listing.Disassembly.{concat}
use n_ovl.Base.Word.{add32}
use n_ovl.Base.Exec.{ok, fault}
use n_ovl.Base.Bytes.{read_word, read_word-ok}
use n_ovl.Section.{codes}
use n_ovl.Reloc.Entry.{reloc_mk, get-reloc_mk, get_sec-reloc_mk-four}
use n_ovl.Overlay.{OvlSection, Ovl, ovl_load}
use n_ovl.Printer.Text.{hex, pad_right}
use n_ovl.Printer.Format.{prefixed}
use n_ovl.Main.RelocNames.{str_reloc}
use n_ovl.Main.Listing.{
  newline, ovl_section_names, relocation_line, relocation_lines, list_relocations,
}

-- The line for a word at an address of the overlay.
abbrev pub shown_relocation : ℕ → ℕ → List ℕ → List ℕ → ℕ → List ℕ
shown_relocation base a name type w =
    prefixed (hex false 8 (add32 a base))
    ++ (codes "  "
        ++ (pad_right 8 name
            ++ (codes "  "
                ++ (pad_right 14 type ++ (codes "  " ++ (prefixed (hex false 8 w) ++ newline))))))

pub relocation_line-reloc_mk :
    (base id offset type : ℕ) (o : Ovl) (s : OvlSection) (name : List ℕ) (type_name : String)
    → length o.sections ≡ 4
    → id < 3
    → offset < 2 ^ 24
    → type < 2 ^ 6
    → get_elem? o.sections id ≡ some s
    → get_elem? ovl_section_names id ≡ some name
    → str_reloc type ≡ ok type_name
    → s.addr + offset + 4 ≤ length o.contents
    → s.addr + offset < 2 ^ 32
    → ((w : ℕ) × (read_word o.contents (s.addr + offset) ≡ ok w)
        × (relocation_line base o (reloc_mk (id + 1) offset type)
            ≡ ok (shown_relocation base (s.addr + offset) name (codes type_name) w)))
      × (relocation_line base o (reloc_mk 4 offset type) ≡ fault)
unfolding relocation_line
relocation_line-reloc_mk base id offset type o s name type_name four hi ho ht is_s is_name is_type
      inside word =
    let (w, read) = read_word-ok o.contents (s.addr + offset) inside in
    let (sec, addr, ty) = get-reloc_mk id offset type hi ho ht in
    (
      (w, read, rw (sec, addr, ty, is_s, is_name, is_type, small, read) refl),
      rw (get_sec-reloc_mk-four offset type, behind o.sections four) refl,
    )
  where
    small : add32 s.addr offset ≡ s.addr + offset
    small = omega (arith, word)

    behind : (ss : List OvlSection) → length ss ≡ 4 → get_elem? ss (2 ^ 32 - 1) ≡ none
    behind [] h = refl
    behind (a ∷ []) h = refl
    behind (a ∷ b ∷ []) h = refl
    behind (a ∷ b ∷ c ∷ []) h = refl
    behind (a ∷ b ∷ c ∷ d ∷ []) h = refl
    behind (a ∷ b ∷ c ∷ d ∷ e ∷ rest) h = absurd (omega arith)

-- An entry that can be listed: its section, offset and type, with the names and the place in the
-- file.
pub record Listed (o : Ovl) (r : ℕ) : Type 0 where
  pub id : ℕ
  pub offset : ℕ
  pub type : ℕ
  pub section_ : OvlSection
  pub name : List ℕ
  pub type_name : String
  pub is_entry : r ≡ reloc_mk (id + 1) offset type
  pub id_small : id < 3
  pub offset_small : offset < 2 ^ 24
  pub type_small : type < 2 ^ 6
  pub is_section : get_elem? o.sections id ≡ some section_
  pub is_name : get_elem? ovl_section_names id ≡ some name
  pub is_type : str_reloc type ≡ ok type_name
  pub inside : section_.addr + offset + 4 ≤ length o.contents
  pub small : section_.addr + offset < 2 ^ 32

-- The line that belongs to an entry, and the lines of a table, one for each entry.
abbrev pub IsLineOf : (base : ℕ) (o : Ovl) (r : ℕ) → Listed o r → List ℕ → Type 0
IsLineOf base o r h line =
    (w : ℕ) × (read_word o.contents (h.section_.addr + h.offset) ≡ ok w)
    × (line ≡ shown_relocation base (h.section_.addr + h.offset) h.name (codes h.type_name) w)

abbrev pub AreLinesOf :
    (base : ℕ) (o : Ovl) (rs : List ℕ) → All (Listed o) rs → List (List ℕ) → Type 0
AreLinesOf base o [] h lines = lines ≡ []
AreLinesOf base o (r ∷ rs) h lines =
    (line : List ℕ) × (rest : List (List ℕ)) × (lines ≡ line ∷ rest)
    × IsLineOf base o r h.0 line
    × AreLinesOf base o rs h.1 rest

module _ (base : ℕ) (o : Ovl) (four : length o.sections ≡ 4) where
  relocation_line-Listed :
      (r : ℕ) (h : Listed o r)
      → (line : List ℕ) × (relocation_line base o r ≡ ok line) × IsLineOf base o r h line
  relocation_line-Listed r h =
      let (w, read, run) =
        (relocation_line-reloc_mk base h.id h.offset h.type o h.section_ h.name h.type_name four
          h.id_small h.offset_small h.type_small h.is_section h.is_name h.is_type h.inside
          h.small).0 in
      (
        shown_relocation base (h.section_.addr + h.offset) h.name (codes h.type_name) w,
        ap (relocation_line base o) h.is_entry ∙ run,
        (w, read, refl),
      )

  relocation_lines-Listed :
      (rs : List ℕ) (h : All (Listed o) rs)
      → (lines : List (List ℕ)) × (relocation_lines base o rs ≡ ok (concat lines))
        × AreLinesOf base o rs h lines
  unfolding relocation_lines concat
  relocation_lines-Listed [] h = ([], refl, refl)
  relocation_lines-Listed (r ∷ rs) h =
      let (line, run, is_line) = relocation_line-Listed r h.0 in
      let (lines, runs, are_lines) = relocation_lines-Listed rs h.1 in
      (line ∷ lines, rw (run, runs) refl, (line, lines, refl, is_line, are_lines))

abbrev pub relocation_list : List ℕ → List ℕ → List ℕ
relocation_list filename lines =
    codes "Dump of relocations from \""
    ++ (filename
        ++ (codes "\":"
            ++ (newline
                ++ (codes "ADDRESS     SECTION   REL TYPE        VALUE"
                    ++ (newline ++ (lines ++ (newline ++ newline)))))))

-- A file that loads with four sections and entries that can be listed: each made for one of the
-- first three sections, with an offset, a type that has a name, and a word inside the file. The list
-- has one line for each entry in the order of the table, with the address in the overlay moved by
-- the base address, the section, the type's name and the word.
pub list_relocations-Listed :
    (base : ℕ) (filename contents : List ℕ) (o : Ovl)
    → ovl_load contents ≡ ok o
    → length o.sections ≡ 4
    → (h : All (Listed o) o.relocations)
    → (lines : List (List ℕ)) × (list_relocations base filename contents
        ≡ ok (relocation_list filename (concat lines)))
      × AreLinesOf base o o.relocations h lines
unfolding list_relocations
list_relocations-Listed base filename contents o loads four h =
    let (lines, runs, are_lines) = relocation_lines-Listed base o four o.relocations h in
    (lines, rw (loads, runs) refl, are_lines)
