-- ===== src/Conv/Pass/Jumps.antt =====
-- Where the jumps of the image go behind the second pass.
use n_ovl.Base.{ℕ, ◌/◌, ◌%◌, ◌^◌, ◌≤◌, ◌<◌, ◌≡◌, ap, ◌∙◌, arith, List, [], ◌∷◌, ◌++◌, some}
use n_ovl.Base.{All-split}
use n_ovl.Base.Bits.{bit_or_apart}
use n_ovl.Base.Word.{u32, shr, low_bits, IsU32}
use n_ovl.Base.Exec.{ok}
use n_ovl.Section.{s_text}
use n_ovl.Reloc.Memory.{word_at}
use n_ovl.Reloc.Target.{Layout, get_target_section, moved}
use n_ovl.Reloc.Handlers.{State, jump_address}
use n_ovl.Reloc.Word.{jump_to, jump_address-jump_to}
use n_ovl.Reloc.Fixed.{jump_word}
use n_ovl.Conv.Elf.{ElfSection}
use n_ovl.Conv.Pass.{Build, build}
use n_ovl.Conv.Pass.Agreement.{Untouched}
use n_ovl.Conv.Pass.Counts.{file_words}
use n_ovl.Conv.Pass.Relocated.{file_fixed, build-relocated}

jump_word-jump_to :
    (l : Layout) (w : ℕ)
    → IsU32 w
    → get_target_section l (jump_address w) ≡ some s_text
    → jump_word l w ≡ jump_to w (moved l s_text (jump_address w))
unfolding jump_word
jump_word-jump_to l w small found =
    rw
      (
        jump_word,
        found,
        bit_or_apart 26 (w / 2 ^ 26) (low_bits (shr (moved l s_text (jump_address w)) 2) 26)
            (omega arith),
      )
      (whole w (moved l s_text (jump_address w)) small)
  where
    whole : (w addr : ℕ) → IsU32 w → u32 (jump_to w addr) ≡ jump_to w addr
    whole w addr small = omega (arith, small)

-- If no two relocations of the file edit a common byte and the second pass returns, then a jump into
-- .text that a relocation names, which is that `file_fixed` lists it, goes to the moved address in
-- the image that the pass leaves, if that address is aligned and from 0x80000000 to below 0x90000000.
pub build-jump :
    (l : Layout) (ep : ℕ) (st : State) (secs : List ElfSection) (b : Build) (i : ℕ)
    (before behind : List (ℕ × ℕ))
    → Untouched [] (file_words ep secs)
    → build l ep st secs ≡ ok b
    → file_fixed l ep st.memory secs []
      ≡ before ++ ((i, jump_word l (word_at st.memory i)) ∷ behind)
    → IsU32 (word_at st.memory i)
    → get_target_section l (jump_address (word_at st.memory i)) ≡ some s_text
    → 0x8000_0000 ≤ moved l s_text (jump_address (word_at st.memory i))
    → moved l s_text (jump_address (word_at st.memory i)) < 0x9000_0000
    → moved l s_text (jump_address (word_at st.memory i)) % 4 ≡ 0
    → jump_address (word_at b.state.memory i) ≡ moved l s_text (jump_address (word_at st.memory i))
build-jump l ep st secs b i before behind apart run named small found lo up aligned =
    let held = (build-relocated l ep st secs b apart run).0 in
    let is_word = (All-split _ before _ (rw named at held)).1.0 in
    ap jump_address (is_word ∙ jump_word-jump_to l (word_at st.memory i) small found)
    ∙ jump_address-jump_to (word_at st.memory i) _ lo up aligned
