-- ===== src/Conv/Tests.antt =====
-- Runs of the two passes on a small ELF file, and the theorems at that file.
use n_ovl.Base.{ℕ, ◌≡◌, refl, arith, List, [], ◌∷◌, none, false, length}
use n_ovl.Base.Word.{u32}
use n_ovl.Base.Exec.{Exec, ok, exit, fault}
use n_ovl.Section.{Section, s_text, s_data, s_rodata, s_bss, codes, is_rel_name, valid_sec}
use n_ovl.Reloc.Memory.{Memory, zeroed, word_at, put_word, load}
use n_ovl.Reloc.Target.{Layout, get_target_section, adjust_address, with_starts}
use n_ovl.Reloc.Handlers.{State, invalid, reloc_do, reloc_init}
use n_ovl.Conv.Elf.{ElfSection}
use n_ovl.Conv.Sort.{sort_rels}
use n_ovl.Conv.Pass.{goes_on, advance, Prediction, predict, Build, build}
use n_ovl.Conv.Pass.Agreement.{Untouched}
use n_ovl.Conv.Pass.Counts.{file_words}
use n_ovl.Conv.Pass.Predicted.{predict-build, predict-memory}

abbrev elf_start : Section → ℕ
elf_start s_text = 0x8080_0000
elf_start s_data = 0x8080_0020
elf_start s_rodata = 0x8080_0030
elf_start s_bss = 0x8080_0030

abbrev ovl_start : Section → ℕ
ovl_start s_text = 0x8010_0000
ovl_start s_data = 0x8010_0020
ovl_start s_rodata = 0x8010_0030
ovl_start s_bss = 0x8010_0060

abbrev size : Section → ℕ
size s_text = 0x20
size s_data = 0x10
size s_rodata = 0
size s_bss = 0x40

abbrev layout : Layout
layout = record { elf_start = elf_start; ovl_start = ovl_start; size = size }

-- lui t0, 0x8080; addiu a0, t0, 0x20; lui t1, 0x1234; addiu a1, t1, 0; jal 0x80800000.
abbrev program : Memory
program =
    put_word
      (put_word (put_word (put_word (put_word zeroed 0 0x3C08_8080) 4 0x2504_0020) 8 0x3C09_1234) 12
        0x2525_0000)
      16 0x0C20_0000

abbrev start : State
start = record { memory = program; pairs = λ r. record { ptr = none; reg = 0; status = invalid } }

-- The relocations, not in order; that at 12 is out of bounds, and takes the one at 8 with it.
abbrev rel_text : ElfSection
rel_text = record {
  name = codes ".rel.text";
  sh_addr = 0;
  sh_size = 40;
  sh_type = 9;
  blocks =
      record {
        d_size = 40;
        d_buf = [];
        rels =
            record { r_offset = 0x8080_0010; r_info = 4 }
            ∷ record { r_offset = 0x8080_0000; r_info = 5 }
            ∷ record { r_offset = 0x8080_0004; r_info = 6 }
            ∷ record { r_offset = 0x8080_000C; r_info = 6 }
            ∷ record { r_offset = 0x8080_0008; r_info = 5 }
            ∷ [];
      }
      ∷ [];
}

abbrev sections : List ElfSection
sections = rel_text ∷ []

nowhere : Section → ℕ
nowhere s = 0

abbrev prediction_of : Exec Prediction → Prediction
prediction_of (ok p) = p
prediction_of exit = record { state = start; count = 0; failed = false }
prediction_of fault = record { state = start; count = 0; failed = false }

predicted : Prediction
unfolding predict sort_rels word_at put_word reloc_do get_target_section adjust_address load
    is_rel_name valid_sec reloc_init
predicted = prediction_of (predict (with_starts layout nowhere) 0x8080_0000 start sections)

predicted_count : predicted.count ≡ 3
unfolding predicted goes_on advance
predicted_count = refl

sample_runs : predict (with_starts layout nowhere) 0x8080_0000 start sections ≡ ok predicted
unfolding predicted goes_on advance
sample_runs = refl

sample-Untouched : Untouched [] (file_words 0x8080_0000 sections)
unfolding file_words sort_rels is_rel_name valid_sec goes_on
sample-Untouched = omega arith

predict-build_example :
    (b : Build) × (build layout 0x8080_0000 predicted.state sections ≡ ok b)
    × (b.count ≡ predicted.count)
    × (b.count ≡ u32 (length b.relocs))
predict-build_example =
    predict-build layout nowhere 0x8080_0000 start sections predicted sample-Untouched sample_runs

predict-memory_example : predicted.state.memory ≡ program
predict-memory_example =
    predict-memory (with_starts layout nowhere) 0x8080_0000 start sections predicted sample_runs
