-- ===== src/Main/Listing/Table.antt =====
-- The list of the relocations of a file that `novl_conv` has written.
mod Tests
use Prim.Native.String.{String}
use n_ovl.Base.{
  ℕ, ◌+◌, ◌*◌, ◌%◌, ◌^◌, ◌≤◌, ◌<◌, ◌≡◌, ◌⊎◌, refl, sym, ap, ◌∙◌, arith, inl, inr, List, [], ◌∷◌,
  ◌++◌, some,
}
use n_ovl.Base.{All, length, length-append, get_elem?}
use n_ovl.Base.Word.{u32, add32}
use n_ovl.Base.Exec.{Exec, ok, ◌>>=◌}
use n_ovl.Section.{Section, index, s_text, s_data, s_rodata, s_bss}
use n_ovl.Conv.Elf.{Elf}
use n_ovl.Conv.Load.{Loaded, load_sections}
use n_ovl.Conv.Pass.{Prediction, predict, Build, build}
use n_ovl.Conv.Pass.Agreement.{Untouched}
use n_ovl.Conv.Pass.Counts.{file_words}
use n_ovl.Conv.Pass.Placed.{ArePlaced, IsMade, build-IsMade}
use n_ovl.Conv.Output.Contents.{body_size, length-bytes_from, Fits}
use n_ovl.Conv.Whole.{layout_of, state_of, final_layout, novl_conv}
use n_ovl.Conv.Whole.Loadable.{InImage, section_bytes, file_of, novl_conv-ovl_load}
use n_ovl.Overlay.{OvlSection, make_sections, ovl_load}
use n_ovl.Main.Listing.Disassembly.{concat}
use n_ovl.Overlay.RoundTrip.{header_with, loaded}
use n_ovl.Main.RelocNames.{str_reloc}
use n_ovl.Main.Listing.{ovl_section_names, list_relocations}
use n_ovl.Main.Listing.Relocations.{Listed, AreLinesOf, relocation_list, list_relocations-Listed}

-- The name of a type that the relocator handles.
type_name :
    (type : ℕ)
    → (type ≡ 2) ⊎ (type ≡ 4) ⊎ (type ≡ 5) ⊎ (type ≡ 6)
    → (name : String) × (str_reloc type ≡ ok name)
unfolding str_reloc
type_name type (inl e) = ("R_MIPS_32", rw e refl)
type_name type (inr (inl e)) = ("R_MIPS_26", rw e refl)
type_name type (inr (inr (inl e))) = ("R_MIPS_HI16", rw e refl)
type_name type (inr (inr (inr e))) = ("R_MIPS_LO16", rw e refl)

-- Where a section of the loaded overlay is: in the three sections of the file.
section_of :
    (size : Section → ℕ) (count : ℕ) (id : Section)
    → index id < 3
    → body_size size < 2 ^ 31
    → (s : OvlSection) × (name : List ℕ) × (get_elem?
          (make_sections (header_with size count))
          (index id)
        ≡ some s)
      × (get_elem? ovl_section_names (index id) ≡ some name)
      × (s.addr + size id ≤ body_size size)
section_of size count s_text first small = (_, _, refl, refl, omega arith)
section_of size count s_data first small = (_, _, refl, refl, omega (arith, small))
section_of size count s_rodata first small = (_, _, refl, refl, omega (arith, small))
section_of size count s_bss first small = absurd (omega (arith, first))

module _ (base : ℕ) (ld : Loaded) (count : ℕ) (relocs contents : List ℕ)
    (small : body_size ld.size < 2 ^ 31) (whole : body_size ld.size ≤ length contents) where
  made-Listed :
      (r : ℕ) → IsMade (final_layout base ld count) r → Listed (loaded ld.size relocs contents) r
  made-Listed r h =
      let (s, name, is_section, is_name, end) =
        section_of ld.size (length relocs) h.section_ h.section_small small in
      let (type, is_type) = type_name h.type h.handled in
      record {
        id = index h.section_;
        offset = h.offset;
        type = h.type;
        section_ = s;
        name = name;
        type_name = type;
        is_entry = h.is_entry;
        id_small = h.section_small;
        offset_small = h.offset_small;
        type_small = type_bound h.type h.handled;
        is_section = is_section;
        is_name = is_name;
        is_type = is_type;
        inside = omega (arith, end, h.inside, whole);
        small = omega (arith, end, h.inside, small);
      }
    where
      type_bound : (n : ℕ) → (n ≡ 2) ⊎ (n ≡ 4) ⊎ (n ≡ 5) ⊎ (n ≡ 6) → n < 2 ^ 6
      type_bound n h = omega (arith, h)

  All-Listed :
      (rs : List ℕ)
      → All (IsMade (final_layout base ld count)) rs
      → All (Listed (loaded ld.size relocs contents)) rs
  All-Listed [] h = tt
  All-Listed (r ∷ rs) (h, hs) = (made-Listed r h, All-Listed rs hs)

file-length : (ep : ℕ) (ld : Loaded) (b : Build) → body_size ld.size ≤ length (file_of ep ld b)
file-length ep ld b =
    rw
      (
        length-append (section_bytes ep ld b.state.memory s_text) _,
        length-append (section_bytes ep ld b.state.memory s_data) _,
        length-append (section_bytes ep ld b.state.memory s_rodata) _,
        length-bytes_from b.state.memory _ (ld.size s_text),
        length-bytes_from b.state.memory _ (ld.size s_data),
        length-bytes_from b.state.memory _ (ld.size s_rodata),
      )
      (omega arith)

-- The list of the relocations of what a conversion writes, under the conditions under which the
-- conversion ends with a file that loads, and with relocations of words of their own sections, none
-- of .bss, with a type in six bits and sections of at most 2 ^ 24 bytes: every entry of the table
-- can be listed, and the list has one line for each in the order of the table, with its address
-- moved by the base address, its section, its type's name, and the relocated word of the file.
pub list_relocations-novl_conv :
    (base : ℕ) (filename : List ℕ) (elf : Elf) (ld : Loaded) (p : Prediction) (b : Build)
    → Untouched [] (file_words (u32 elf.e_entry) elf.sections)
    → load_sections (u32 elf.e_entry) elf.sections ≡ ok ld
    → predict (layout_of ld) (u32 elf.e_entry) (state_of ld.memory) elf.sections ≡ ok p
    → build (final_layout base ld p.count) (u32 elf.e_entry) p.state elf.sections ≡ ok b
    → InImage (u32 elf.e_entry) ld s_text
    → InImage (u32 elf.e_entry) ld s_data
    → InImage (u32 elf.e_entry) ld s_rodata
    → base % 16 ≡ 0
    → Fits base ld.size (length b.relocs)
    → body_size ld.size + 4 * length b.relocs + 64 ≤ 2 ^ 31
    → All (ArePlaced (final_layout base ld p.count)) elf.sections
    → (lines : List (List ℕ)) × (h : All
        (Listed (loaded ld.size b.relocs (file_of (u32 elf.e_entry) ld b)))
        b.relocs)
      × ((novl_conv base elf >>= list_relocations base filename)
          ≡ ok (relocation_list filename (concat lines)))
      × AreLinesOf base (loaded ld.size b.relocs (file_of (u32 elf.e_entry) ld b)) b.relocs h lines
list_relocations-novl_conv base filename elf ld p b apart is_ld is_p is_b in_t in_d in_r aligned
      fits small placed =
    let file = file_of (u32 elf.e_entry) ld b in
    let (written, loads) =
      novl_conv-ovl_load base elf ld p b apart is_ld is_p is_b in_t in_d in_r aligned fits small in
    let opened = sym (ap (λ (x : Exec (List ℕ)). x >>= ovl_load) written) ∙ loads in
    let made =
      build-IsMade (final_layout base ld p.count) (u32 elf.e_entry) p.state elf.sections b placed
        is_b in
    let h =
      All-Listed base ld p.count b.relocs file (omega (arith, small))
        (file-length (u32 elf.e_entry) ld b) b.relocs made in
    let (lines, run, are_lines) =
      list_relocations-Listed base filename file (loaded ld.size b.relocs file) opened refl h in
    (
      lines,
      h,
      ap (λ (x : Exec (List ℕ)). x >>= list_relocations base filename) written ∙ run,
      are_lines,
    )
