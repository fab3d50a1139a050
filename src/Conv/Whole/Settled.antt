-- ===== src/Conv/Whole/Settled.antt =====
-- Every conversion of a convertible ELF file ends: with a file that loads, or with the end of the
-- program.
pub mod Tests
use n_ovl.Base.{ℕ, ◌+◌, ◌%◌, ◌^◌, ◌≤◌, ◌≡◌, List, [], ◌∷◌, none, Bool, true, false}
use n_ovl.Base.{All, length, if◌then◌else◌, ◌&&◌}
use n_ovl.Base.Word.{u32}
use n_ovl.Base.Exec.{Exec, ok, exit, ◌>>=◌}
use n_ovl.Section.{Section}
use n_ovl.Reloc.Memory.{zeroed}
use n_ovl.Conv.Elf.{Elf, ElfSection}
use n_ovl.Conv.Load.{Loaded, load_sections}
use n_ovl.Conv.Load.Settled.{IsLoadable, Lies, sections_accept}
use n_ovl.Conv.Pass.{Prediction, predict, Build, build}
use n_ovl.Conv.Pass.Agreement.{Untouched}
use n_ovl.Conv.Pass.Counts.{file_words}
use n_ovl.Conv.Pass.Checked.{InMemory, file_passes}
use n_ovl.Conv.Output.Contents.{Fits}
use n_ovl.Conv.Whole.{layout_of, state_of, final_layout, novl_conv}
use n_ovl.Conv.Whole.Loadable.{file_of}
use n_ovl.Overlay.{ovl_load}
use n_ovl.Overlay.RoundTrip.{loaded}

-- What the caller and the linker answer for: the base address is a multiple of 16 and leaves room
-- for 32 MiB behind it; every section of the four names has 32-bit fields and either has bytes in
-- the file, at a distance from the entry point that is a multiple of 8 and in whole descriptors, or
-- is .bss and has none; and there are at most 2 ^ 20 relocations, each of a word of its own in the
-- image. Sizes are rounded up to multiples of 8 behind the check against the bounds of the image, so
-- that without the distances the end of a section may be read behind the image.
pub record IsConvertible (base : ℕ) (elf : Elf) : Type 0 where
  pub aligned : base % 16 ≡ 0
  pub room : base + 2 ^ 25 ≤ 2 ^ 32
  pub loadable : All (IsLoadable (u32 elf.e_entry)) elf.sections
  pub apart : Untouched [] (file_words (u32 elf.e_entry) elf.sections)
  pub inside : All InMemory (file_words (u32 elf.e_entry) elf.sections)
  pub few : length (file_words (u32 elf.e_entry) elf.sections) ≤ 2 ^ 20

-- No message of an error on the way: the sections are accepted, and each relocation passes on their
-- image `ld`.
abbrev pub converts : Elf → Loaded → Bool
converts elf ld =
    sections_accept (u32 elf.e_entry) (λ s. 0) elf.sections
    && file_passes (layout_of ld) (u32 elf.e_entry) ld.memory elf.sections

abbrev pub nothing_loaded : Loaded
nothing_loaded = record { elf_start = λ s. 0; size = λ s. 0; memory = zeroed; greatest = 0 }

abbrev pub nothing_built : Build
nothing_built = record { state = state_of zeroed; relocs = []; last = none; count = 0 }

-- `p` is what the counting pass over the image `ld` gives if every relocation passes, and if the
-- sections are accepted too, `b` is what the relocating pass gives behind it.
abbrev pub Passed : ℕ → Elf → Loaded → Prediction → Build → Type 0
Passed base elf ld p b =
    (predict (layout_of ld) (u32 elf.e_entry) (state_of ld.memory) elf.sections ≡ (
      if file_passes (layout_of ld) (u32 elf.e_entry) ld.memory elf.sections then ok p else exit))
    × ((if converts elf ld
          then build (final_layout base ld p.count) (u32 elf.e_entry) p.state elf.sections
          else ok b)
        ≡ ok b)

-- The image, the count and the table of a conversion are what loading and the two passes give, and
-- the file is made of the image and the table of the relocating pass.
abbrev pub Settled : ℕ → Elf → Loaded → Prediction → Build → Type 0
Settled base elf ld p b =
    (load_sections (u32 elf.e_entry) elf.sections
      ≡ (if sections_accept (u32 elf.e_entry) (λ s. 0) elf.sections then ok ld else exit))
    × Passed base elf ld p b
    × (novl_conv base elf ≡ (if converts elf ld then ok (file_of (u32 elf.e_entry) ld b) else exit))
    × ((novl_conv base elf >>= ovl_load) ≡ (
        if converts elf ld
        then ok (loaded ld.size b.relocs (file_of (u32 elf.e_entry) ld b))
        else exit))

module _ (base : ℕ) (elf : Elf) (h : IsConvertible base elf) (ld : Loaded)
    (is_ld : load_sections (u32 elf.e_entry) elf.sections ≡ ok ld)
    (accepted : sections_accept (u32 elf.e_entry) (λ s. 0) elf.sections ≡ true)
    (lies : Lies (u32 elf.e_entry) ld) where
  abbrev ep : ℕ
  ep = u32 elf.e_entry
