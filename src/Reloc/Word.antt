-- ===== src/Reloc/Word.antt =====
-- The relocations of a single word: a pointer (R_MIPS_32) and a jump (R_MIPS_26).
use n_ovl.Base.{ℕ, ◌+◌, ◌*◌, ◌/◌, ◌%◌, ◌^◌, ◌≤◌, ◌<◌, ◌≡◌, refl, ◌∙◌, arith}
use n_ovl.Base.{some, false}
use n_ovl.Base.Bits.{bit_or_apart, bit_or_comm}
use n_ovl.Base.Word.{shr, shl32, low_bits, high_bits, IsU32}
use n_ovl.Base.Exec.{ok}
use n_ovl.Section.{Section, s_text}
use n_ovl.Reloc.Memory.{
  memory_size, word_at, put_word, IsBytes, Disjoint, load-ok, store-ok, word_at-IsU32,
  word_at-put_word_self, word_at-put_word_ne,
}
use n_ovl.Reloc.Target.{Layout, success, get_target_section, adjust_address, moved}
use n_ovl.Reloc.Target.Bounds.{adjust_address-moved}
use n_ovl.Reloc.Handlers.{State, jump_address, reloc_do}

-- A jump's address as a sum.
pub jump_address-sum : (w : ℕ) → jump_address w ≡ 0x8000_0000 + w % 2 ^ 26 * 4
jump_address-sum w =
    bit_or_comm (shl32 (low_bits w 26) 2) 0x8000_0000
    ∙ bit_or_apart 31 1 (shl32 (low_bits w 26) 2) (omega arith)
    ∙ omega arith

-- A jump moved to another address of its segment, its upper six bits as before.
abbrev pub jump_to : ℕ → ℕ → ℕ
jump_to w addr = high_bits w 26 + addr / 4 % 2 ^ 26

pub jump_address-jump_to :
    (w addr : ℕ)
    → 0x8000_0000 ≤ addr
    → addr < 0x9000_0000
    → addr % 4 ≡ 0
    → jump_address (jump_to w addr) ≡ addr
jump_address-jump_to w addr lo hi e = jump_address-sum (jump_to w addr) ∙ omega arith

adjust_address-jump :
    (l : Layout) (a : ℕ)
    → get_target_section l a ≡ some s_text
    → adjust_address l a 4 false ≡ (success, moved l s_text a)
unfolding adjust_address
adjust_address-jump l a e = rw (e, adjust_address)

-- What one relocation does to the word at `i`: the new word, the others as before, and the
-- registers' pairs untouched.
pub record IsEdited (st st' : State) (i w : ℕ) : Type 0 where
  pub word : word_at st'.memory i ≡ w
  pub others : (q : ℕ) → Disjoint i q → word_at st'.memory q ≡ word_at st.memory q
  pub pairs : st'.pairs ≡ st.pairs

put-IsEdited :
    (st : State) (i w : ℕ)
    → IsU32 w
    → IsEdited st (record st { memory = put_word st.memory i w }) i w
put-IsEdited st i w h = record {
  word = word_at-put_word_self st.memory i w h;
  others = λ q d. word_at-put_word_ne st.memory i q w d;
  pairs = refl;
}

-- The relocation of a 32-bit pointer into section `s`, in a word of the memory image, succeeds: the
-- word becomes the moved pointer, and no other word and no register's pair changes.
pub reloc_32 :
    (l : Layout) (st : State) (i : ℕ) (s : Section)
    → i + 4 ≤ memory_size
    → get_target_section l (word_at st.memory i) ≡ some s
    → (st' : State) × (reloc_do 2 l i false st ≡ ok (success, st'))
      × IsEdited st st' i (moved l s (word_at st.memory i))
unfolding reloc_do
reloc_32 l st i s hi found = (
  record st { memory = put_word st.memory i (moved l s (word_at st.memory i)) },
  rw (
    load-ok st.memory i hi,
    adjust_address-moved l (word_at st.memory i) 2 s found (omega arith),
    store-ok st.memory i (moved l s (word_at st.memory i)) hi,
  ),
  put-IsEdited st i _ (omega arith),
)

-- The relocation of a jump into .text, in a word of the memory image, whose target is moved to an
-- aligned address from 0x80000000 to below 0x90000000, succeeds: the jump goes to the moved address,
-- with its upper six bits and all other words as before.
pub reloc_26 :
    (l : Layout) (st : State) (i : ℕ)
    → IsBytes st.memory
    → i + 4 ≤ memory_size
    → get_target_section l (jump_address (word_at st.memory i)) ≡ some s_text
    → 0x8000_0000 ≤ moved l s_text (jump_address (word_at st.memory i))
    → moved l s_text (jump_address (word_at st.memory i)) < 0x9000_0000
    → moved l s_text (jump_address (word_at st.memory i)) % 4 ≡ 0
    → (st' : State) × (reloc_do 4 l i false st ≡ ok (success, st'))
      × (jump_address (word_at st'.memory i) ≡ moved l s_text (jump_address (word_at st.memory i)))
      × (high_bits (word_at st'.memory i) 26 ≡ high_bits (word_at st.memory i) 26)
      × ((q : ℕ) → Disjoint i q → word_at st'.memory q ≡ word_at st.memory q)
unfolding reloc_do
reloc_26 l st i bytes hi found lo up aligned = (
  record st { memory = put_word st.memory i (jump_to (word_at st.memory i) addr) },
  rw (
    load-ok st.memory i hi,
    adjust_address-jump l (jump_address (word_at st.memory i)) found,
    bit_or_apart 26 (word_at st.memory i / 2 ^ 26) (low_bits (shr addr 2) 26) (omega arith),
    store-ok st.memory i (jump_to (word_at st.memory i) addr) hi,
  ),
  rw edited.word (jump_address-jump_to (word_at st.memory i) addr lo up aligned),
  rw edited.word (omega arith),
  edited.others,
)
  where
    addr : ℕ
    addr = moved l s_text (jump_address (word_at st.memory i))

    edited :
        IsEdited st
          (record st { memory = put_word st.memory i (jump_to (word_at st.memory i) addr) })
          i
          (jump_to (word_at st.memory i) addr)
    edited = put-IsEdited st i _ (omega (arith, word_at-IsU32 st.memory i bytes))
