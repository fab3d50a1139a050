-- ===== src/Main/Listing/Converted.antt =====
-- The disassembly of a file that `novl_conv` has written.
use n_ovl.Base.{
  ℕ, ◌+◌, ◌*◌, ◌%◌, ◌^◌, ◌≤◌, ◌≡◌, refl, sym, ap, ◌∙◌, arith, List, [], ◌∷◌, ◌++◌, Bool, true,
}
use n_ovl.Base.{length, length-append}
use n_ovl.Base.Word.{u32, IsU32}
use n_ovl.Base.Exec.{Exec, ok, ◌>>=◌}
use n_ovl.Section.{Section, s_text, s_data, s_rodata, codes}
use n_ovl.Conv.Elf.{Elf}
use n_ovl.Conv.Load.{Loaded, load_sections}
use n_ovl.Conv.Load.Sizes.{load_sections-IsSized}
use n_ovl.Conv.Pass.{Prediction, predict, Build, build}
use n_ovl.Conv.Pass.Agreement.{Untouched}
use n_ovl.Conv.Pass.Counts.{file_words}
use n_ovl.Conv.Output.Contents.{body_size, trailer, Fits, length-bytes_from}
use n_ovl.Conv.Whole.{layout_of, state_of, final_layout, novl_conv}
use n_ovl.Conv.Whole.Loadable.{InImage, section_bytes, file_of, novl_conv-ovl_load}
use n_ovl.Overlay.{ovl_load}
use n_ovl.Overlay.RoundTrip.{loaded, header_with}
use n_ovl.Printer.Conf.{Conf}
use n_ovl.Main.Listing.{disassemble_file}
use n_ovl.Main.Listing.Whole.{AreLines, listed, disassemble_all}

body-file_of :
    (elf_ep : ℕ) (ld : Loaded) (b : Build) → body_size ld.size ≤ length (file_of elf_ep ld b)
body-file_of elf_ep ld b = omega (
  arith,
  length-append (bytes s_text) (bytes s_data ++ (bytes s_rodata ++ trailer ld.size b.relocs)),
  length-append (bytes s_data) (bytes s_rodata ++ trailer ld.size b.relocs),
  length-append (bytes s_rodata) (trailer ld.size b.relocs),
  size s_text,
  size s_data,
  size s_rodata,
)
  where
    bytes : Section → List ℕ
    bytes s = section_bytes elf_ep ld b.state.memory s

    size : (s : Section) → length (bytes s) ≡ ld.size s
    size s = length-bytes_from b.state.memory _ (ld.size s)

-- Disassembling what a conversion writes, under the conditions under which the conversion ends with a
-- file that loads: the listing of all sections is a header and lines for each of .text, .data and
-- .rodata, one line for each four bytes of the section's size, no read is out of the file, and
-- together the lines show the file's words from its start on, at the addresses from the given one on.
pub disassemble_file-novl_conv :
    (conf : Conf) (raw : Bool) (at base : ℕ) (filename : List ℕ) (elf : Elf) (ld : Loaded)
    (p : Prediction) (b : Build)
    → conf.spacing ≤ 100
    → IsU32 at
    → Untouched [] (file_words (u32 elf.e_entry) elf.sections)
    → load_sections (u32 elf.e_entry) elf.sections ≡ ok ld
    → predict (layout_of ld) (u32 elf.e_entry) (state_of ld.memory) elf.sections ≡ ok p
    → build (final_layout base ld p.count) (u32 elf.e_entry) p.state elf.sections ≡ ok b
    → InImage (u32 elf.e_entry) ld s_text
    → InImage (u32 elf.e_entry) ld s_data
    → InImage (u32 elf.e_entry) ld s_rodata
    → base % 16 ≡ 0
    → Fits base ld.size (length b.relocs)
    → body_size ld.size + 4 * length b.relocs + 64 ≤ 2 ^ 31
    → (t d r : List (List ℕ)) × ((novl_conv base elf >>= λ contents.
          disassemble_file conf raw at filename contents true)
        ≡ ok
            (listed filename ((codes ".text", t) ∷ (codes ".data", d) ∷ (codes ".rodata", r) ∷ [])))
      × (4 * length t ≡ ld.size s_text)
      × (4 * length d ≡ ld.size s_data)
      × (4 * length r ≡ ld.size s_rodata)
      × AreLines conf raw (file_of (u32 elf.e_entry) ld b) 0 at (t ++ (d ++ r))
disassemble_file-novl_conv conf raw at base filename elf ld p b room word apart is_ld is_p is_b in_t
      in_d in_r aligned fits small =
    let (written, loads) =
      novl_conv-ovl_load base elf ld p b apart is_ld is_p is_b in_t in_d in_r aligned fits small in
    let sized = load_sections-IsSized (u32 elf.e_entry) elf.sections ld is_ld in
    let file = file_of (u32 elf.e_entry) ld b in
    let opened = sym (ap (λ (x : Exec (List ℕ)). x >>= ovl_load) written) ∙ loads in
    let (t, d, r, shown, len_t, len_d, len_r, each) =
      disassemble_all conf raw at filename file (header_with ld.size (length b.relocs)) room word
        (body-file_of (u32 elf.e_entry) ld b) (omega (arith, small))
        (
          fours (ld.size s_text) (sized.eights s_text),
          fours (ld.size s_data) (sized.eights s_data),
          fours (ld.size s_rodata) (sized.eights s_rodata),
        )
        (loaded ld.size b.relocs file) opened refl refl in
    (
      t,
      d,
      r,
      ap
            (λ (x : Exec (List ℕ)).
              x >>= λ contents. disassemble_file conf raw at filename contents true)
            written
          ∙ shown,
      len_t,
      len_d,
      len_r,
      each,
    )
  where
    fours : (n : ℕ) → n % 8 ≡ 0 → n % 4 ≡ 0
    fours n h = omega arith
