-- ===== src/Conv/Files/Tests.antt =====
-- The small ELF file of the other tests, with the files around it.
use n_ovl.Base.{◌≡◌, ◌⊎◌, refl, [], ◌∷◌, some, true, if◌then◌else◌}
use n_ovl.Base.Exec.{exit, ◌>>=◌}
use n_ovl.Conv.Whole.{novl_conv}
use n_ovl.Conv.Whole.Tests.{elf}
use n_ovl.Conv.Files.{Disk, Answers, k_elf, k_ar, leaves, open_elf, convert_file}
use n_ovl.Conv.Files.Leaves.{Shows, IsCleared, reliable, convert_file-Shows}

-- An object for MIPS, and an old file at the output's path.
abbrev answers : Answers
answers = record {
  opens = true;
  begins = true;
  kind = k_elf;
  header = some (record { e_machine = 8; e_entry = 0x8080_0000 });
  writable = true;
  sections = elf.sections;
}

abbrev old_file : Disk
old_file = some (1 ∷ 2 ∷ 3 ∷ [])

-- An archive is refused before the output is touched.
archive_refused :
    convert_file reliable 0x8010_0000 (record answers { kind = k_ar }) old_file ≡ leaves old_file
unfolding convert_file
archive_refused = refl

convert_file-Shows_example :
    Shows
      (λ bytes. bytes)
      (λ left. (left ≡ old_file) ⊎ IsCleared left)
      (open_elf answers >>= λ elf. if answers.writable then novl_conv 0x8010_0000 elf else exit)
      (convert_file reliable 0x8010_0000 answers old_file)
convert_file-Shows_example =
    convert_file-Shows reliable 0x8010_0000 answers old_file ((λ f new. refl), (λ bytes. refl))
