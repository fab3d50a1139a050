-- ===== src/Reloc/Tests.antt =====
-- Runs of the relocator on a small program, and the theorems at that program.
use n_ovl.Base.{ℕ, ◌+◌, ◌^◌, ◌<◌, ◌≡◌, ◌↔◌, refl, arith, some, none, false}
use n_ovl.Base.Word.{high_bits}
use n_ovl.Base.Exec.{ok, ◌>>=◌}
use n_ovl.Section.{Section, s_text, s_data, s_rodata, s_bss}
use n_ovl.Reloc.Memory.{Memory, zeroed, word_at, put_word, IsBytes, Disjoint, put_word-IsBytes}
use n_ovl.Reloc.Target.{Layout, success, outside, first_holding, get_target_section, moved}
use n_ovl.Reloc.Target.Bounds.{Holds, IsSeparate, get_target_section_iff}
use n_ovl.Reloc.Handlers.{State, invalid, jump_address, reloc_do, high_half}
use n_ovl.Reloc.Entry.{reloc_mk, get_sec, get_addr, get_type, get-reloc_mk}
use n_ovl.Reloc.Pair.{pair_address, IsRelocatedPair, hi16-lo16}
use n_ovl.Reloc.Pair.Shared.{hi16-lo16-lo16}
use n_ovl.Reloc.Word.{IsEdited, reloc_32, reloc_26}

-- Text at 0x80800000 and data behind it, moved to 0x80100000.
abbrev elf_start : Section → ℕ
elf_start s_text = 0x8080_0000
elf_start s_data = 0x8080_0020
elf_start s_rodata = 0x8080_0030
elf_start s_bss = 0x8080_0030

abbrev ovl_start : Section → ℕ
ovl_start s_text = 0x8010_0000
ovl_start s_data = 0x8010_0020
ovl_start s_rodata = 0x8010_0030
ovl_start s_bss = 0x8010_0060

abbrev size : Section → ℕ
size s_text = 0x20
size s_data = 0x10
size s_rodata = 0
size s_bss = 0x40

abbrev layout : Layout
layout = record { elf_start = elf_start; ovl_start = ovl_start; size = size }

-- lui t0, 0x8080; addiu a0, t0, 0x20; addiu a1, t0, 0x24; jal 0x80800000; and a pointer.
abbrev program : Memory
program =
    put_word
      (put_word (put_word (put_word (put_word zeroed 0 0x3C08_8080) 4 0x2504_0020) 8 0x2505_0024) 12
        0x0C20_0000)
      16 0x8080_0024

program-IsBytes : IsBytes program
program-IsBytes = put_word-IsBytes _ 16 _ (
    put_word-IsBytes _ 12 _
      (put_word-IsBytes _ 8 _ (put_word-IsBytes _ 4 _ (put_word-IsBytes _ 0 _ (λ a. omega arith)))))

abbrev start : State
start = record { memory = program; pairs = λ r. record { ptr = none; reg = 0; status = invalid } }

layout-IsSeparate : IsSeparate layout
layout-IsSeparate = record { no_wrap = no_wrap; apart = apart }
  where
    no_wrap : (s : Section) → elf_start s + size s < 2 ^ 32
    no_wrap s_text = omega arith
    no_wrap _ = omega arith

    apart : (s t : Section) (a : ℕ) → Holds layout a s → Holds layout a t → s ≡ t
    apart s_text s_text a h k = refl
    apart s_data s_data a h k = refl
    apart s_rodata s_rodata a h k = refl
    apart s_bss s_bss a h k = refl
    apart _ _ a h k = absurd (omega arith)

get_target_section_iff_example :
    (get_target_section layout 0x8080_0024 ≡ some s_data) ↔ Holds layout 0x8080_0024 s_data
get_target_section_iff_example = get_target_section_iff layout 0x8080_0024 s_data layout-IsSeparate

get-reloc_mk_example :
    (get_sec (reloc_mk (0 + 1) 0x24 6) ≡ 0)
    × (get_addr (reloc_mk (0 + 1) 0x24 6) ≡ 0x24)
    × (get_type (reloc_mk (0 + 1) 0x24 6) ≡ 6)
get-reloc_mk_example = get-reloc_mk 0 0x24 6 (omega arith) (omega arith) (omega arith)

reloc_32_example :
    (st' : State) × (reloc_do 2 layout 16 false start ≡ ok (success, st'))
    × IsEdited start st' 16 (moved layout s_data (word_at program 16))
unfolding word_at put_word get_target_section first_holding outside
reloc_32_example = reloc_32 layout start 16 s_data (omega arith) refl

reloc_26_example :
    (st' : State) × (reloc_do 4 layout 12 false start ≡ ok (success, st'))
    × (jump_address (word_at st'.memory 12)
        ≡ moved layout s_text (jump_address (word_at program 12)))
    × (high_bits (word_at st'.memory 12) 26 ≡ high_bits (word_at program 12) 26)
    × ((q : ℕ) → Disjoint 12 q → word_at st'.memory q ≡ word_at program q)
unfolding word_at put_word get_target_section first_holding outside
reloc_26_example =
    reloc_26 layout start 12 program-IsBytes (omega arith) refl (omega arith) (omega arith) refl

hi16-lo16_example :
    (st' : State) × ((reloc_do 5 layout 0 false start >>= λ r. reloc_do 6 layout 4 false r.1)
      ≡ ok (success, st'))
    × IsRelocatedPair program st'.memory 0 4 (moved layout s_data (pair_address program 0 4))
unfolding word_at put_word get_target_section first_holding outside pair_address
hi16-lo16_example =
    hi16-lo16 layout start 0 4 s_data program-IsBytes (omega arith) (omega arith) (omega arith) refl
      refl (omega arith)

hi16-lo16-lo16_example :
    (st' : State) × ((do
      r ← reloc_do 5 layout 0 false start
      r' ← reloc_do 6 layout 4 false r.1
      reloc_do 6 layout 8 false r'.1)
      ≡ ok (success, st'))
    × (pair_address st'.memory 0 8 ≡ moved layout s_data (pair_address program 0 8))
    × ((pair_address st'.memory 0 4 ≡ moved layout s_data (pair_address program 0 4)) ↔ (
        high_half (moved layout s_data (pair_address program 0 4))
        ≡ high_half (moved layout s_data (pair_address program 0 8))))
unfolding word_at put_word get_target_section first_holding outside pair_address
hi16-lo16-lo16_example =
    hi16-lo16-lo16 layout start 0 4 8 s_data s_data program-IsBytes (omega arith) (omega arith)
      (omega arith) (omega arith) (omega arith) (omega arith) refl refl refl refl (omega arith)
      (omega arith)
