-- ===== src/Decoder/Tests.antt =====
-- Instructions, and the theorems at some of them.
use n_ovl.Base.{ℕ, ◌≤◌, ◌≡◌, refl, arith, List, inr, none, false}
use n_ovl.Base.{length}
use n_ovl.Base.Exec.{ok}
use n_ovl.Section.{s_text, codes}
use n_ovl.Reloc.Memory.{Memory, zeroed, word_at, put_word, IsBytes, put_word-IsBytes}
use n_ovl.Reloc.Target.{Layout, success, first_holding, outside, get_target_section, moved}
use n_ovl.Reloc.Handlers.{State, invalid, jump_address, reloc_do}
use n_ovl.Printer.Conf.{initial}
use n_ovl.Decoder.Special.{special}
use n_ovl.Decoder.Single.{single}
use n_ovl.Decoder.Cop1.{cop1}
use n_ovl.Decoder.Disassemble.{disassemble}
use n_ovl.Decoder.Safety.{disassemble-Prints}
use n_ovl.Decoder.Split.{decode_op}
use n_ovl.Decoder.Split.Text.{Splits, decode_op-Splits}
use n_ovl.Decoder.Jumps.{jump_text, jump_name, reloc_26-disassemble}

return_text : disassemble initial 0x03E0_0008 0x8010_0000 ≡ ok (codes "jr              ra")
unfolding disassemble special
return_text = refl

add_text : disassemble initial 0x4602_0040 0x8010_0000 ≡ ok (codes "add.s           f1, f0, f2")
unfolding disassemble cop1 single
add_text = refl

branch_text :
    disassemble initial 0x1000_FFFF 0x8010_0000 ≡ ok (codes "beq             r0, r0, 0x80100000")
unfolding disassemble
branch_text = refl

invalid_instruction :
    disassemble initial 0x4C00_0001 0x8010_0000 ≡ ok (codes "INVLD(13)       0x4C000001")
unfolding disassemble
invalid_instruction = refl

disassemble-Prints_example :
    (s : List ℕ) × (disassemble initial 0x27BD_FFE8 0x8010_0000 ≡ ok s) × (length s ≤ 250)
disassemble-Prints_example = disassemble-Prints initial 0x27BD_FFE8 0x8010_0000 (omega arith)

-- jal 0x80800000, in a .text that moves to 0x80100000.
abbrev program : Memory
program = put_word zeroed 0 0x0C20_0000

abbrev layout : Layout
layout = record { elf_start = λ s. 0x8080_0000; ovl_start = λ s. 0x8010_0000; size = λ s. 0x20 }

abbrev start : State
start = record { memory = program; pairs = λ r. record { ptr = none; reg = 0; status = invalid } }

program-IsBytes : IsBytes program
program-IsBytes = put_word-IsBytes _ 0 _ (λ a. omega arith)

reloc_26-disassemble_example :
    (st' : State) × (reloc_do 4 layout 0 false start ≡ ok (success, st'))
    × (disassemble initial (word_at st'.memory 0) 0x8010_0004
        ≡ ok (
            jump_text initial
              (jump_name (word_at program 0))
              (moved layout s_text (jump_address (word_at program 0)))))
unfolding word_at put_word get_target_section first_holding outside
reloc_26-disassemble_example =
    reloc_26-disassemble initial layout start 0 0x8010_0004 program-IsBytes (omega arith) (inr refl)
      refl (omega arith) (omega arith) refl refl

split_text : decode_op initial 0x27BD_FFE8 0 ≡ ok (codes "addiu", codes "sp, sp, 0xffe8")
unfolding decode_op disassemble
split_text = refl

decode_op-Splits_example :
    (opcode arguments : List ℕ) × Splits initial 0x27BD_FFE8 0x8010_0000 opcode arguments
decode_op-Splits_example = decode_op-Splits initial 0x27BD_FFE8 0x8010_0000 refl
