-- ===== src/Main/Listing/Sections.antt =====
-- The list of the sections of a file that `novl_conv` has written.
use n_ovl.Base.{
  ℕ, ◌+◌, ◌*◌, ◌%◌, ◌^◌, ◌≤◌, ◌≡◌, refl, sym, ap, ◌∙◌, arith, List, [], ◌∷◌, ◌++◌, Bool, false,
  if◌then◌else◌,
}
use n_ovl.Base.{length}
use n_ovl.Base.Word.{u32, add32}
use n_ovl.Base.Exec.{Exec, ok, ◌>>=◌}
use n_ovl.Section.{Section, s_text, s_data, s_rodata, s_bss, codes}
use n_ovl.Conv.Elf.{Elf}
use n_ovl.Conv.Load.{Loaded, load_sections}
use n_ovl.Conv.Pass.{Prediction, predict, Build, build}
use n_ovl.Conv.Pass.Agreement.{Untouched}
use n_ovl.Conv.Pass.Counts.{file_words}
use n_ovl.Conv.Output.{ovl_starts}
use n_ovl.Conv.Output.Contents.{body_size, Fits}
use n_ovl.Conv.Whole.{layout_of, state_of, final_layout, novl_conv}
use n_ovl.Conv.Whole.Loadable.{InImage, file_of, novl_conv-ovl_load}
use n_ovl.Overlay.{ovl_load}
use n_ovl.Overlay.RoundTrip.{loaded}
use n_ovl.Printer.Text.{hex, pad_right}
use n_ovl.Printer.Format.{prefixed}
use n_ovl.Main.FormatValue.{format_value}
use n_ovl.Main.Listing.{newline, int_text, list_sections}

-- Names with addresses and sizes, as lines.
abbrev pub shown_sections : Bool → List (List ℕ × ℕ × ℕ) → List ℕ
shown_sections human [] = []
shown_sections human ((name, addr, size) ∷ rest) =
    pad_right 10 name
    ++ (codes " "
        ++ (prefixed (hex false 8 addr)
            ++ (codes "     "
                ++ ((if human then format_value size else int_text size)
                    ++ (newline ++ shown_sections human rest)))))

abbrev pub section_list : List ℕ → List ℕ → List ℕ
section_list filename lines =
    codes "Dump of sections from \""
    ++ (filename
        ++ (codes "\":"
            ++ (newline
                ++ (codes "NAME       ADDRESS        SIZE"
                    ++ (newline ++ (lines ++ (newline ++ newline)))))))

-- The addresses that the list shows, next to those of the conversion.
starts_shown :
    (base : ℕ) (size : Section → ℕ) (count : ℕ)
    → Fits base size count
    → (add32 base 0 ≡ ovl_starts base size count s_text)
      × (add32 base (u32 (size s_text)) ≡ ovl_starts base size count s_data)
      × (add32 base (add32 (u32 (size s_text)) (size s_data)) ≡ ovl_starts base size count s_rodata)
      × (add32 base (add32 (add32 (u32 (size s_text)) (size s_data)) (size s_rodata))
          ≡ base + body_size size)
      × (base + body_size size + 24 + 4 * count ≤ ovl_starts base size count s_bss)
unfolding ovl_starts
starts_shown base size count fits = (
  omega (arith, fits),
  omega (arith, fits),
  omega (arith, fits),
  omega (arith, fits),
  omega (arith, fits),
)

listed_loaded :
    (human : Bool) (base : ℕ) (filename : List ℕ) (size : Section → ℕ) (relocs contents : List ℕ)
    → ovl_load contents ≡ ok (loaded size relocs contents)
    → list_sections human base filename contents
      ≡ ok (
          section_list filename (
            shown_sections human (
              (codes ".text", add32 base 0, size s_text)
              ∷ (codes ".data", add32 base (u32 (size s_text)), size s_data)
              ∷ (
                codes ".rodata",
                add32 base (add32 (u32 (size s_text)) (size s_data)),
                size s_rodata,
              )
              ∷ (
                codes ".bss",
                add32 base (add32 (add32 (u32 (size s_text)) (size s_data)) (size s_rodata)),
                size s_bss,
              )
              ∷ [])))
unfolding list_sections
listed_loaded human base filename size relocs contents e = rw e refl

-- The list of the sections of what a conversion writes, with the base address of the conversion,
-- under the conditions under which the conversion ends with a file that loads: .text, .data and
-- .rodata are shown at the addresses to which the relocations were made, with the sizes of the
-- sections. The address shown for .bss is the end of .rodata; the relocations were made to a .bss
-- that starts behind the header, the table and the footer, at least 24 bytes later and four more for
-- each entry.
pub list_sections-novl_conv :
    (human : Bool) (base : ℕ) (filename : List ℕ) (elf : Elf) (ld : Loaded) (p : Prediction)
    (b : Build)
    → Untouched [] (file_words (u32 elf.e_entry) elf.sections)
    → load_sections (u32 elf.e_entry) elf.sections ≡ ok ld
    → predict (layout_of ld) (u32 elf.e_entry) (state_of ld.memory) elf.sections ≡ ok p
    → build (final_layout base ld p.count) (u32 elf.e_entry) p.state elf.sections ≡ ok b
    → InImage (u32 elf.e_entry) ld s_text
    → InImage (u32 elf.e_entry) ld s_data
    → InImage (u32 elf.e_entry) ld s_rodata
    → base % 16 ≡ 0
    → Fits base ld.size (length b.relocs)
    → body_size ld.size + 4 * length b.relocs + 64 ≤ 2 ^ 31
    → ((novl_conv base elf >>= list_sections human base filename)
        ≡ ok (
            section_list filename (
              shown_sections human (
                (codes ".text", ovl_starts base ld.size (length b.relocs) s_text, ld.size s_text)
                ∷ (codes ".data", ovl_starts base ld.size (length b.relocs) s_data, ld.size s_data)
                ∷ (
                  codes ".rodata",
                  ovl_starts base ld.size (length b.relocs) s_rodata,
                  ld.size s_rodata,
                )
                ∷ (codes ".bss", base + body_size ld.size, ld.size s_bss)
                ∷ []))))
      × (base + body_size ld.size + 24 + 4 * length b.relocs
          ≤ ovl_starts base ld.size (length b.relocs) s_bss)
list_sections-novl_conv human base filename elf ld p b apart is_ld is_p is_b in_t in_d in_r aligned
      fits small =
    let (written, loads) =
      novl_conv-ovl_load base elf ld p b apart is_ld is_p is_b in_t in_d in_r aligned fits small in
    let opened = sym (ap (λ (x : Exec (List ℕ)). x >>= ovl_load) written) ∙ loads in
    let (text, data_, rodata, bss, later) = starts_shown base ld.size (length b.relocs) fits in
    (
      ap (λ (x : Exec (List ℕ)). x >>= list_sections human base filename) written
          ∙ listed_loaded human base filename ld.size b.relocs (file_of (u32 elf.e_entry) ld b)
              opened
          ∙ rw (text, data_, rodata, bss) refl,
      later,
    )
