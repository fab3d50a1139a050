-- ===== src/Main/Tests.antt =====
-- Command lines, listings of small files, and the theorems at them.
use n_ovl.Base.{
  ◌≤◌, ◌+◌, ◌<◌, Option, none, ◌⊎◌, ℕ, ◌*◌, ◌/◌, ◌%◌, ◌≡◌, ◌≢◌, refl, arith, List, [], ◌∷◌, ◌++◌,
  some, true, false, not,
}
use n_ovl.Base.{All, length}
use n_ovl.Base.Exec.{ok, exit, ◌>>=◌}
use n_ovl.Section.{s_text, s_data, s_rodata, s_bss, codes}
use n_ovl.Conv.Whole.{novl_conv}
use n_ovl.Conv.Whole.Tests.{
  elf, image, predicted, built, image_runs, predicted_runs, built_runs, image-Untouched,
  table_length, image_sizes, sections_inside,
}
use n_ovl.Conv.Whole.Loadable.{file_of}
use n_ovl.Printer.Conf.{initial}
use n_ovl.Conv.Elf.{Elf}
use n_ovl.Printer.Text.{hex, decimal}
use n_ovl.Printer.Format.{prefixed}
use n_ovl.Main.Run.{main}
use n_ovl.Main.Run.Convert.{convert_options, disassemble_options, Files, main-convert-disassemble}
use n_ovl.Main.FormatValue.{format_value}
use n_ovl.Main.FormatValue.Rounding.{IsNear, format_value_lem}
use n_ovl.Conv.Output.{ovl_starts}
use n_ovl.Conv.Output.Contents.{body_size}
use n_ovl.Main.Listing.Sections.{section_list, shown_sections, list_sections-novl_conv}
use n_ovl.Main.Args.{op_disassemble, Settings, initial_settings, Given, is_none, args_process}
use n_ovl.Main.Args.Modes.{accepts, last_mode, noted, args_process-accepts, args_process-raw}
use n_ovl.Main.Listing.{disassemble_file, list_sections}
use n_ovl.Main.Listing.Whole.{AreLines, listed}
use n_ovl.Main.Listing.Converted.{disassemble_file-novl_conv}

kilobytes : format_value 1536 ≡ codes "1.50k"
unfolding format_value
kilobytes = refl

abbrev plain : ℕ → Given
plain c = record { letter = c; optarg = [] }

abbrev command_line : List Given
command_line = plain b'l' ∷ plain b'd' ∷ record { letter = b'A'; optarg = codes "0x80100000" } ∷ []

args_process-accepts_example :
    ((accepts (not (is_none initial_settings.opmode)) command_line ≡ true)
      → (s' : Settings) × (args_process initial_settings command_line ≡ ok s')
        × (s'.opmode ≡ last_mode initial_settings.opmode command_line)
        × (s'.flag ≡ noted initial_settings.flag command_line))
    × ((accepts (not (is_none initial_settings.opmode)) command_line ≡ false)
        → args_process initial_settings command_line ≡ exit)
args_process-accepts_example = args_process-accepts initial_settings command_line

settings : Settings
settings = record initial_settings {
  opmode = op_disassemble;
  base_addr = 0x8010_0000;
  flag = noted initial_settings.flag command_line;
}

command_line_runs : args_process initial_settings command_line ≡ ok settings
unfolding args_process noted settings
command_line_runs = refl

args_process-raw_example : All (λ g. g.letter ≢ b'V') command_line × (settings.flag b'V' ≡ false)
args_process-raw_example =
    args_process-raw initial_settings settings command_line
      ((omega arith), ((omega arith), ((omega arith), tt))) refl command_line_runs

disassemble_file-novl_conv_example :
    (t d r : List (List ℕ)) × ((novl_conv 0x8010_0000 elf >>= λ contents.
    disassemble_file initial false 0x8010_0000 (codes "a.ovl") contents true)
      ≡ ok (
          listed
            (codes "a.ovl")
            ((codes ".text", t) ∷ (codes ".data", d) ∷ (codes ".rodata", r) ∷ [])))
    × (4 * length t ≡ image.size s_text)
    × (4 * length d ≡ image.size s_data)
    × (4 * length r ≡ image.size s_rodata)
    × AreLines initial false (file_of 0x8080_0000 image built) 0 0x8010_0000 (t ++ (d ++ r))
disassemble_file-novl_conv_example =
    disassemble_file-novl_conv initial false 0x8010_0000 0x8010_0000 (codes "a.ovl") elf image
      predicted built (omega arith) (omega arith) image-Untouched image_runs predicted_runs
      built_runs sections_inside.0 sections_inside.1 sections_inside.2 refl
      (omega (arith, table_length, image_sizes)) (omega (arith, table_length, image_sizes))

-- What `libelf` makes of the only file, and the files behind the conversion.
abbrev elf_of : List ℕ → Option Elf
elf_of name = some elf

abbrev no_files : Files
no_files name = none

abbrev later_files : Files
later_files name = some (file_of 0x8080_0000 image built)

main-convert-disassemble_example :
    (main no_files elf_of
        (convert_options (prefixed (hex true 8 0x8010_0000)) (codes "a.ovl"))
        (codes "a.elf" ∷ [])
      ≡ ok (record {
        printed = [];
        written = (codes "a.ovl", file_of 0x8080_0000 image built) ∷ [];
      }))
    × (t d r : List (List ℕ)) × (main later_files elf_of
          (disassemble_options (prefixed (hex true 8 0x8010_0000)))
          (codes "a.ovl" ∷ [])
        ≡ ok (record {
          printed =
              listed
                (codes "a.ovl")
                ((codes ".text", t) ∷ (codes ".data", d) ∷ (codes ".rodata", r) ∷ []);
          written = [];
        }))
    × (4 * length t ≡ image.size s_text)
    × (4 * length d ≡ image.size s_data)
    × (4 * length r ≡ image.size s_rodata)
    × AreLines initial false (file_of 0x8080_0000 image built) 0 0x8010_0000 (t ++ (d ++ r))
main-convert-disassemble_example =
    main-convert-disassemble no_files later_files elf_of true 0x8010_0000 (codes "a.ovl")
      (codes "a.elf") elf image predicted built (omega arith) refl refl image-Untouched image_runs
      predicted_runs built_runs sections_inside.0 sections_inside.1 sections_inside.2 refl
      (omega (arith, table_length, image_sizes)) (omega (arith, table_length, image_sizes))

list_sections-novl_conv_example :
    ((novl_conv 0x8010_0000 elf >>= list_sections true 0x8010_0000 (codes "a.ovl"))
      ≡ ok (
          section_list (codes "a.ovl") (
            shown_sections true (
              (
                codes ".text",
                ovl_starts 0x8010_0000 image.size (length built.relocs) s_text,
                image.size s_text,
              )
              ∷ (
                codes ".data",
                ovl_starts 0x8010_0000 image.size (length built.relocs) s_data,
                image.size s_data,
              )
              ∷ (
                codes ".rodata",
                ovl_starts 0x8010_0000 image.size (length built.relocs) s_rodata,
                image.size s_rodata,
              )
              ∷ (codes ".bss", 0x8010_0000 + body_size image.size, image.size s_bss)
              ∷ []))))
    × (0x8010_0000 + body_size image.size + 24 + 4 * length built.relocs
        ≤ ovl_starts 0x8010_0000 image.size (length built.relocs) s_bss)
list_sections-novl_conv_example =
    list_sections-novl_conv true 0x8010_0000 (codes "a.ovl") elf image predicted built
      image-Untouched image_runs predicted_runs built_runs sections_inside.0 sections_inside.1
      sections_inside.2 refl (omega (arith, table_length, image_sizes))
      (omega (arith, table_length, image_sizes))

format_value_lem_example :
    (49152 < 1024 × (format_value 49152 ≡ decimal 10 49152 ++ (b'b' ∷ [])))
    ⊎ (1024 ≤ 49152
        × 49152 < 1024 * 1024
        × (h : ℕ) × (format_value 49152
            ≡ (decimal 10 (h / 100) ++ (b'.' ∷ (h / 10 % 10 + b'0') ∷ (h % 10 + b'0') ∷ []))
              ++ (b'k' ∷ []))
        × IsNear h 49152 1024)
    ⊎ (1024 * 1024 ≤ 49152
        × (h : ℕ) × (format_value 49152
            ≡ (decimal 10 (h / 100) ++ (b'.' ∷ (h / 10 % 10 + b'0') ∷ (h % 10 + b'0') ∷ []))
              ++ (b'm' ∷ []))
        × IsNear h 49152 (1024 * 1024))
format_value_lem_example = format_value_lem 49152
