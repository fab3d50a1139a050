-- ===== src/Conv/Whole/Tests.antt =====
-- A small ELF file, converted and loaded.
use n_ovl.Base.{inl, inr, ap, ◌≡◌, refl, arith, [], ◌∷◌, none, false, length}
use n_ovl.Base.{◌+◌}
use n_ovl.Base.Word.{sub32}
use n_ovl.Base.Bytes.{read_word}
use n_ovl.Conv.Whole.Words.{file_start, novl_conv-word}
use n_ovl.Base.Exec.{Exec, ok, exit, fault, ◌>>=◌}
use n_ovl.Section.{s_text, s_data, s_rodata, s_bss, codes, valid_sec, is_rel_name}
use n_ovl.Reloc.Memory.{zeroed, word_at, put_word, load, store}
use n_ovl.Reloc.Target.{get_target_section, adjust_address}
use n_ovl.Reloc.Handlers.{reloc_do, reloc_init}
use n_ovl.Reloc.Entry.{reloc_mk}
use n_ovl.Conv.Elf.{Elf, ElfSection}
use n_ovl.Conv.Load.{
  Loaded, load_sections, load_section, load_named, load_bytes, load_block, put_bytes,
}
use n_ovl.Conv.Sort.{sort_rels}
use n_ovl.Conv.Pass.{Prediction, predict, Build, build, over_blocks, goes_on, advance}
use n_ovl.Base.{All}
use n_ovl.Conv.Pass.Entries.{IsEntry, build-entries}
use n_ovl.Conv.Load.Sizes.{IsSized, load_sections-IsSized}
use n_ovl.Conv.Pass.Agreement.{Untouched}
use n_ovl.Conv.Pass.Counts.{file_words}
use n_ovl.Conv.Output.{ovl_starts}
use n_ovl.Overlay.{ovl_load}
use n_ovl.Overlay.RoundTrip.{loaded}
use n_ovl.Conv.Whole.{layout_of, state_of, final_layout, novl_conv}
use n_ovl.Conv.Whole.Loadable.{InImage, file_of, novl_conv-ovl_load}

-- lui t0, 0x8080; addiu a0, t0, 0x10; jal 0x80800000.
abbrev text : ElfSection
text = record {
  name = codes ".text";
  sh_addr = 0x8080_0000;
  sh_size = 12;
  sh_type = 1;
  blocks =
      record {
        d_size = 12;
        d_buf = 0x3C ∷ 0x08 ∷ 0x80 ∷ 0x80 ∷ 0x25 ∷ 0x04 ∷ 0 ∷ 4 ∷ 0x0C ∷ 0x20 ∷ 0 ∷ 0 ∷ [];
        rels = [];
      }
      ∷ [];
}

abbrev pub rel_text : ElfSection
rel_text = record {
  name = codes ".rel.text";
  sh_addr = 0;
  sh_size = 24;
  sh_type = 9;
  blocks =
      record {
        d_size = 24;
        d_buf = [];
        rels =
            record { r_offset = 0x8080_0008; r_info = 4 }
            ∷ record { r_offset = 0x8080_0000; r_info = 5 }
            ∷ record { r_offset = 0x8080_0004; r_info = 6 }
            ∷ [];
      }
      ∷ [];
}

abbrev pub elf : Elf
elf = record { e_entry = 0x8080_0000; sections = text ∷ rel_text ∷ [] }

abbrev value_of : {A : Type 0} → A → Exec A → A
value_of a (ok b) = b
value_of a exit = a
value_of a fault = a

abbrev empty : Loaded
empty = record { elf_start = λ s. 0; size = λ s. 0; memory = zeroed; greatest = 0 }

unfoldable pub image : Loaded
unfolding load_sections load_section load_named load_bytes load_block valid_sec over_blocks goes_on
    advance
image = value_of empty (load_sections 0x8080_0000 elf.sections)

pub image_runs : load_sections 0x8080_0000 elf.sections ≡ ok image
unfolding image
image_runs = refl

unfoldable pub predicted : Prediction
unfolding image predict sort_rels word_at put_word put_bytes reloc_do get_target_section
    adjust_address load is_rel_name valid_sec reloc_init
predicted =
    value_of (record { state = state_of zeroed; count = 0; failed = false })
      (predict (layout_of image) 0x8080_0000 (state_of image.memory) elf.sections)

pub predicted_runs :
    predict (layout_of image) 0x8080_0000 (state_of image.memory) elf.sections ≡ ok predicted
unfolding predicted
predicted_runs = refl

pub built : Build
unfolding predicted build ovl_starts reloc_mk store
built =
    value_of (record { state = state_of zeroed; relocs = []; last = none; count = 0 })
      (build (final_layout 0x8010_0000 image predicted.count) 0x8080_0000 predicted.state
        elf.sections)

pub built_runs :
    build (final_layout 0x8010_0000 image predicted.count) 0x8080_0000 predicted.state elf.sections
    ≡ ok built
unfolding built
built_runs = refl

built_relocs : built.relocs ≡ 0x4500_0000 ∷ 0x4600_0004 ∷ 0x4400_0008 ∷ []
unfolding built
built_relocs = refl

pub image-Untouched : Untouched [] (file_words 0x8080_0000 elf.sections)
unfolding file_words sort_rels is_rel_name valid_sec goes_on
image-Untouched = omega arith

pub table_length : length built.relocs ≡ 3
table_length = ap length built_relocs

pub image_sizes :
    (image.size s_text ≡ 16)
    × (image.size s_data ≡ 0)
    × (image.size s_rodata ≡ 0)
    × (image.size s_bss ≡ 0)
unfolding image
image_sizes = (refl, refl, refl, refl)

image_starts :
    (image.elf_start s_text ≡ 0x8080_0000)
    × (image.elf_start s_data ≡ 0)
    × (image.elf_start s_rodata ≡ 0)
unfolding image
image_starts = (refl, refl, refl)

pub sections_inside :
    InImage 0x8080_0000 image s_text
    × InImage 0x8080_0000 image s_data
    × InImage 0x8080_0000 image s_rodata
sections_inside =
    (inr (omega (arith, image_sizes, image_starts)), inl image_sizes.1, inl image_sizes.2)

novl_conv-ovl_load_example :
    (novl_conv 0x8010_0000 elf ≡ ok (file_of 0x8080_0000 image built))
    × ((novl_conv 0x8010_0000 elf >>= ovl_load)
        ≡ ok (loaded image.size built.relocs (file_of 0x8080_0000 image built)))
novl_conv-ovl_load_example =
    novl_conv-ovl_load 0x8010_0000 elf image predicted built image-Untouched image_runs
      predicted_runs built_runs sections_inside.0 sections_inside.1 sections_inside.2 refl
      (omega (arith, table_length, image_sizes)) (omega (arith, table_length, image_sizes))

build-entries_example : All IsEntry built.relocs
build-entries_example =
    build-entries (final_layout 0x8010_0000 image predicted.count) 0x8080_0000 predicted.state
      elf.sections built built_runs

load_sections-IsSized_example : IsSized image
load_sections-IsSized_example = load_sections-IsSized 0x8080_0000 elf.sections image image_runs

novl_conv-word_example :
    (novl_conv 0x8010_0000 elf >>= λ file. read_word file (file_start image.size s_text + 4))
    ≡ ok (word_at built.state.memory (sub32 (image.elf_start s_text) 0x8080_0000 + 4))
novl_conv-word_example =
    novl_conv-word 0x8010_0000 elf image predicted built s_text 4 (λ e. cc e)
      (omega (arith, image_sizes)) image-Untouched image_runs predicted_runs built_runs
      sections_inside.0 sections_inside.1 sections_inside.2 refl
      (omega (arith, table_length, image_sizes)) (omega (arith, table_length, image_sizes))
