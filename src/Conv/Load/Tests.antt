-- ===== src/Conv/Load/Tests.antt =====
-- One section, loaded to the image.
use n_ovl.Base.{ℕ, ◌+◌, ◌≤◌, ◌<◌, ◌≡◌, refl, ◌⊎◌, arith, [], ◌∷◌, some, get_elem?}
use n_ovl.Base.Exec.{ok}
use n_ovl.Section.{s_data, codes, valid_sec}
use n_ovl.Reloc.Memory.{zeroed}
use n_ovl.Conv.Elf.{ElfData, ElfSection}
use n_ovl.Conv.Load.{Loaded, load_section}
use n_ovl.Conv.Load.Bytes.{load_section-bytes}

abbrev block : ElfData
block = record { d_size = 5; d_buf = 1 ∷ 2 ∷ 3 ∷ 4 ∷ 5 ∷ []; rels = [] }

abbrev data_section : ElfSection
data_section = record {
  name = codes ".data";
  sh_addr = 0x8080_0010;
  sh_size = 5;
  sh_type = 1;
  blocks = block ∷ [];
}

abbrev nothing : Loaded
nothing = record { elf_start = λ s. 0; size = λ s. 0; memory = zeroed; greatest = 0 }

data_named : valid_sec data_section.name ≡ some s_data
unfolding valid_sec
data_named = refl

load_section-bytes_example :
    (ld' : Loaded) × (load_section 0x8080_0000 nothing data_section ≡ ok ld')
    × ((k : ℕ) → k < 5 → get_elem? block.d_buf k ≡ some (ld'.memory (0x10 + k)))
    × ((a : ℕ) → (a < 0x10) ⊎ (0x15 ≤ a) → ld'.memory a ≡ 0)
    × (ld'.elf_start s_data ≡ 0x8080_0010)
    × (ld'.size s_data ≡ 8)
load_section-bytes_example =
    load_section-bytes 0x8080_0000 nothing data_section block s_data data_named refl refl
      (omega arith) (omega arith) (omega arith) (omega arith) refl refl refl
