-- ===== src/Main/Run/Convert.antt =====
-- A conversion and a disassembly by the command line.
use n_ovl.Base.{
  ℕ, ◌+◌, ◌*◌, ◌%◌, ◌^◌, ◌≤◌, ◌≡◌, refl, sym, ap, ◌∙◌, arith, List, [], ◌∷◌, ◌++◌, Option, some,
  Bool, true, false,
}
use n_ovl.Base.{length}
use n_ovl.Base.Word.{u32, IsU32}
use n_ovl.Base.Exec.{Exec, ok, ◌>>=◌}
use mathlib.Core.List.{append-nil}
use n_ovl.Section.{s_text, s_data, s_rodata, codes}
use n_ovl.Conv.Elf.{Elf}
use n_ovl.Conv.Load.{Loaded, load_sections}
use n_ovl.Conv.Pass.{Prediction, predict, Build, build}
use n_ovl.Conv.Pass.Agreement.{Untouched}
use n_ovl.Conv.Pass.Counts.{file_words}
use n_ovl.Conv.Output.Contents.{body_size, Fits}
use n_ovl.Conv.Whole.{layout_of, state_of, final_layout, novl_conv}
use n_ovl.Conv.Whole.Loadable.{InImage, file_of, novl_conv-ovl_load}
use n_ovl.Printer.Text.{hex}
use n_ovl.Printer.Conf.{initial}
use n_ovl.Printer.Format.{prefixed}
use n_ovl.Main.Args.{Given, scan_hex, args_process}
use n_ovl.Main.Args.Address.{scan_hex-hex}
use n_ovl.Main.Listing.{disassemble_file}
use n_ovl.Main.Listing.Whole.{AreLines, listed}
use n_ovl.Main.Listing.Converted.{disassemble_file-novl_conv}
use n_ovl.Main.Run.{main}

-- `-c -A 0x… -o out` and `-D -A 0x…`
abbrev pub convert_options : List ℕ → List ℕ → List Given
convert_options address out =
    record { letter = b'c'; optarg = [] }
    ∷ record { letter = b'A'; optarg = address }
    ∷ record { letter = b'o'; optarg = out }
    ∷ []

abbrev pub disassemble_options : List ℕ → List Given
disassemble_options address =
    record { letter = b'D'; optarg = [] } ∷ record { letter = b'A'; optarg = address } ∷ []

abbrev pub Files : Type 0
Files = List ℕ → Option (List ℕ)

module _ (elf_of : List ℕ → Option Elf) (base : ℕ) (address out : List ℕ)
    (is_base : scan_hex address ≡ some base) where
  pub main-convert :
      (file : Files) (name bytes : List ℕ) (elf : Elf)
      → elf_of name ≡ some elf
      → novl_conv base elf ≡ ok bytes
      → main file elf_of (convert_options address out) (name ∷ [])
        ≡ ok (record { printed = []; written = (out, bytes) ∷ [] })
  unfolding main args_process
  main-convert file name bytes elf is_elf converts = rw (is_base, is_elf, converts) refl

  pub main-disassemble :
      (file : Files) (bytes text : List ℕ)
      → file out ≡ some bytes
      → disassemble_file initial false base out bytes true ≡ ok text
      → main file elf_of (disassemble_options address) (out ∷ [])
        ≡ ok (record { printed = text; written = [] })
  unfolding main args_process
  main-disassemble file bytes text is_file shows =
      rw (is_base, is_file, shows)
        (ap (λ (t : List ℕ). ok (record { printed = t; written = [] })) (append-nil text))

-- A conversion, and then a disassembly of the file that it wrote, each as a run of the program. The
-- conversion has the options `-c`, `-A` with the base address in eight hexadecimal digits of either
-- case behind `0x`, and `-o`; the disassembly has `-D` and the same `-A`. The conditions on the ELF
-- object are those under which a conversion ends with a file that loads, and the second run finds
-- the written bytes in the file `out`. Then the first run writes exactly one file and prints
-- nothing, and the second prints the listing: a header and lines for each of .text, .data and
-- .rodata, one line for each four bytes, which together show the words of the written file from its
-- start on, at the addresses from the base address on.
pub main-convert-disassemble :
    (file later : Files) (elf_of : List ℕ → Option Elf) (lower : Bool) (base : ℕ)
    (out name : List ℕ) (elf : Elf) (ld : Loaded) (p : Prediction) (b : Build)
    → IsU32 base
    → elf_of name ≡ some elf
    → later out ≡ some (file_of (u32 elf.e_entry) ld b)
    → Untouched [] (file_words (u32 elf.e_entry) elf.sections)
    → load_sections (u32 elf.e_entry) elf.sections ≡ ok ld
    → predict (layout_of ld) (u32 elf.e_entry) (state_of ld.memory) elf.sections ≡ ok p
    → build (final_layout base ld p.count) (u32 elf.e_entry) p.state elf.sections ≡ ok b
    → InImage (u32 elf.e_entry) ld s_text
    → InImage (u32 elf.e_entry) ld s_data
    → InImage (u32 elf.e_entry) ld s_rodata
    → base % 16 ≡ 0
    → Fits base ld.size (length b.relocs)
    → body_size ld.size + 4 * length b.relocs + 64 ≤ 2 ^ 31
    → (main file elf_of (convert_options (prefixed (hex lower 8 base)) out) (name ∷ [])
        ≡ ok (record { printed = []; written = (out, file_of (u32 elf.e_entry) ld b) ∷ [] }))
      × (t d r : List (List ℕ)) × (main later elf_of
            (disassemble_options (prefixed (hex lower 8 base)))
            (out ∷ [])
          ≡ ok (record {
            printed =
                listed out ((codes ".text", t) ∷ (codes ".data", d) ∷ (codes ".rodata", r) ∷ []);
            written = [];
          }))
      × (4 * length t ≡ ld.size s_text)
      × (4 * length d ≡ ld.size s_data)
      × (4 * length r ≡ ld.size s_rodata)
      × AreLines initial false (file_of (u32 elf.e_entry) ld b) 0 base (t ++ (d ++ r))
main-convert-disassemble file later elf_of lower base out name elf ld p b word is_elf is_later apart
      is_ld is_p is_b in_t in_d in_r aligned fits small =
    let is_base = scan_hex-hex lower base word in
    let (written, _) =
      novl_conv-ovl_load base elf ld p b apart is_ld is_p is_b in_t in_d in_r aligned fits small in
    let (t, d, r, shown, len_t, len_d, len_r, each) =
      disassemble_file-novl_conv initial false base base out elf ld p b (omega arith) word apart
        is_ld is_p is_b in_t in_d in_r aligned fits small in
    let shows =
      sym (
        ap
          (λ (x : Exec (List ℕ)).
            x >>= λ contents. disassemble_file initial false base out contents true)
          written)
      ∙ shown in
    (
      main-convert elf_of base (prefixed (hex lower 8 base)) out is_base file name
          (file_of (u32 elf.e_entry) ld b) elf is_elf written,
      t,
      d,
      r,
      main-disassemble elf_of base (prefixed (hex lower 8 base)) out is_base later
          (file_of (u32 elf.e_entry) ld b) _ is_later shows,
      len_t,
      len_d,
      len_r,
      each,
    )
