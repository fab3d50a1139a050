-- ===== src/Decoder/Jumps.antt =====
-- The text of a jump, before and after its relocation.
use Prim.Native.String.{String}
use n_ovl.Base.{ℕ, ◌+◌, ◌%◌, ◌≤◌, ◌<◌, ◌≡◌, refl, ap, ◌∙◌, arith, List, ◌++◌, some, false}
use n_ovl.Base.{bit_or, ◌⊎◌, inl, inr, ◌==◌, if◌then◌else◌}
use n_ovl.Base.Word.{u32, shr, shl32, low_bits, high_bits}
use n_ovl.Base.Exec.{ok}
use n_ovl.Section.{s_text, codes}
use n_ovl.Reloc.Memory.{memory_size, word_at, IsBytes}
use n_ovl.Reloc.Target.{Layout, success, get_target_section, moved}
use n_ovl.Reloc.Handlers.{State, jump_address, reloc_do}
use n_ovl.Reloc.Word.{reloc_26}
use n_ovl.Printer.Text.{hex, pad_right}
use n_ovl.Printer.Conf.{Conf, hlower}
use n_ovl.Printer.Format.{name_cased, jump_target, prefixed}
use n_ovl.Decoder.Op.{text}
use n_ovl.Decoder.Immediate.{j, jal}
use n_ovl.Decoder.Disassemble.{decode, print_op, disassemble}

-- The name, padded, and the address.
abbrev pub jump_text : Conf → String → ℕ → List ℕ
jump_text conf name addr =
    pad_right conf.spacing (name_cased conf (codes name))
    ++ prefixed (hex (conf.flag hlower) 8 addr)

decode-j : (w : ℕ) → low_bits (shr w 26) 6 ≡ 2 → decode w ≡ j
unfolding decode
decode-j w e = rw e refl

decode-jal : (w : ℕ) → low_bits (shr w 26) 6 ≡ 3 → decode w ≡ jal
unfolding decode
decode-jal w e = rw e refl

print-jump :
    (conf : Conf) (name : String) (w pc : ℕ)
    → print_op conf w pc (text name "%ns%jm") ≡ ok (jump_text conf name (jump_target w pc))
unfolding print_op
print-jump conf name w pc = refl

jump_target-jump_address : (w pc : ℕ) → shr (u32 pc) 28 ≡ 8 → jump_target w pc ≡ jump_address w
jump_target-jump_address w pc e =
    ap (λ (high : ℕ). bit_or (shl32 (low_bits w 26) 2) high) (omega (arith, e))

-- The upper six bits of an instruction, and the name of a jump that has them.
abbrev pub opcode : ℕ → ℕ
opcode w = low_bits (shr w 26) 6

abbrev pub IsJump : ℕ → Type 0
IsJump w = (opcode w ≡ 2) ⊎ (opcode w ≡ 3)

abbrev pub jump_name : ℕ → String
jump_name w = if opcode w == 2 then "J" else "JAL"

pub disassemble-jump :
    (conf : Conf) (w pc : ℕ)
    → IsJump w
    → shr (u32 pc) 28 ≡ 8
    → disassemble conf w pc ≡ ok (jump_text conf (jump_name w) (jump_address w))
unfolding disassemble
disassemble-jump conf w pc (inl e) here =
    rw (decode-j w e, e)
      (print-jump conf "J" w pc
        ∙ ap (λ (a : ℕ). ok (jump_text conf "J" a)) (jump_target-jump_address w pc here))
disassemble-jump conf w pc (inr e) here =
    rw (decode-jal w e, e)
      (print-jump conf "JAL" w pc
        ∙ ap (λ (a : ℕ). ok (jump_text conf "JAL" a)) (jump_target-jump_address w pc here))

-- A jump into .text, in a word of the memory image, whose target is moved to an aligned address from
-- 0x80000000 to below 0x90000000: the relocation succeeds, and the relocated instruction, where
-- it is disassembled at an address of that range too (the upper four bits of its 32 are 8), is disassembled with the name it had and the moved address.
pub reloc_26-disassemble :
    (conf : Conf) (l : Layout) (st : State) (i pc : ℕ)
    → IsBytes st.memory
    → i + 4 ≤ memory_size
    → IsJump (word_at st.memory i)
    → get_target_section l (jump_address (word_at st.memory i)) ≡ some s_text
    → 0x8000_0000 ≤ moved l s_text (jump_address (word_at st.memory i))
    → moved l s_text (jump_address (word_at st.memory i)) < 0x9000_0000
    → moved l s_text (jump_address (word_at st.memory i)) % 4 ≡ 0
    → shr (u32 pc) 28 ≡ 8
    → (st' : State) × (reloc_do 4 l i false st ≡ ok (success, st'))
      × (disassemble conf (word_at st'.memory i) pc
          ≡ ok (
              jump_text conf
                (jump_name (word_at st.memory i))
                (moved l s_text (jump_address (word_at st.memory i)))))
reloc_26-disassemble conf l st i pc bytes inside is_jump found lo up aligned here =
    let (st', run, target, upper, _) = reloc_26 l st i bytes inside found lo up aligned in
    let same = opcode_kept (word_at st.memory i) (word_at st'.memory i) upper in
    (
      st',
      run,
      disassemble-jump conf (word_at st'.memory i) pc (rw same is_jump) here
          ∙ rw (target, same) refl,
    )
  where
    opcode_kept : (w w' : ℕ) → high_bits w' 26 ≡ high_bits w 26 → opcode w' ≡ opcode w
    opcode_kept w w' e = omega (arith, e)
