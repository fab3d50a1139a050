-- ===== src/Conv/Whole/Words.antt =====
-- The words of the file that `novl_conv` writes, next to those of the relocated image.
use n_ovl.Base.{
  ℕ, zero, suc, ◌+◌, ◌*◌, ◌%◌, ◌^◌, ◌≤◌, ◌≡◌, ◌≢◌, refl, ap, ◌∙◌, arith, List, [], ◌∷◌, ◌++◌,
}
use n_ovl.Base.{length}
use n_ovl.Base.Word.{u32, sub32}
use n_ovl.Base.Exec.{Exec, ok, ◌>>=◌}
use n_ovl.Base.Bytes.{read_word}
use n_ovl.Section.{Section, s_text, s_data, s_rodata, s_bss}
use n_ovl.Reloc.Memory.{Memory, word_at}
use n_ovl.Conv.Elf.{Elf}
use n_ovl.Conv.Load.{Loaded, load_sections}
use n_ovl.Conv.Pass.{Prediction, predict, Build, build}
use n_ovl.Conv.Pass.Agreement.{Untouched}
use n_ovl.Conv.Pass.Counts.{file_words}
use n_ovl.Conv.Output.{bytes_from}
use n_ovl.Conv.Output.Contents.{body_size, Fits, length-bytes_from}
use n_ovl.Conv.Whole.{layout_of, state_of, final_layout, novl_conv}
use n_ovl.Conv.Whole.Loadable.{InImage, file_of, novl_conv-ovl_load}

-- Where a section starts in the file.
abbrev pub file_start : (Section → ℕ) → Section → ℕ
file_start size s_text = 0
file_start size s_data = size s_text
file_start size s_rodata = size s_text + size s_data
file_start size s_bss = body_size size

read_word-behind : (xs ys : List ℕ) (p : ℕ) → read_word (xs ++ ys) (length xs + p) ≡ read_word ys p
unfolding read_word
read_word-behind [] ys p = ap (read_word ys) (omega arith)
read_word-behind (x ∷ xs) ys p = ap (read_word (x ∷ (xs ++ ys))) suc_left ∙ read_word-behind xs ys p
  where
    suc_left : suc (length xs) + p ≡ suc (length xs + p)
    suc_left = omega arith

bytes-word_at :
    (m : Memory) (a b c d p : ℕ)
    → a ≡ p
    → b ≡ p + 1
    → c ≡ p + 2
    → d ≡ p + 3
    → m a * 2 ^ 24 + m b * 2 ^ 16 + m c * 2 ^ 8 + m d ≡ word_at m p
unfolding word_at
bytes-word_at m a b c d p ea eb ec ed = rw (ea, eb, ec, ed) refl

read_word-bytes_from :
    (m : Memory) (offset n p : ℕ) (rest : List ℕ)
    → p + 4 ≤ n
    → read_word (bytes_from m offset n ++ rest) p ≡ ok (word_at m (offset + p))
unfolding read_word
read_word-bytes_from m offset zero p rest h = absurd (omega arith)
read_word-bytes_from m offset (suc n) (suc p) rest h =
    read_word-bytes_from m (offset + 1) n p rest (omega arith)
    ∙ ap (λ (k : ℕ). ok (word_at m k)) (omega arith)
read_word-bytes_from m offset (suc zero) zero rest h = absurd (omega arith)
read_word-bytes_from m offset (suc (suc zero)) zero rest h = absurd (omega arith)
read_word-bytes_from m offset (suc (suc (suc zero))) zero rest h = absurd (omega arith)
read_word-bytes_from m offset (suc (suc (suc (suc n)))) zero rest h =
    ap (λ (w : ℕ). ok w)
      (bytes-word_at m offset (offset + 1) (offset + 1 + 1) (offset + 1 + 1 + 1) (offset + 0)
        (omega arith) (omega arith) (omega arith) (omega arith))

-- Past the front, which a section's bytes are.
past_section :
    (m : Memory) (offset n p q : ℕ) (ys : List ℕ)
    → q ≡ n + p
    → read_word (bytes_from m offset n ++ ys) q ≡ read_word ys p
past_section m offset n p q ys e =
    ap (read_word (bytes_from m offset n ++ ys))
      (behind (length (bytes_from m offset n)) (length-bytes_from m offset n))
    ∙ read_word-behind (bytes_from m offset n) ys p
  where
    behind : (k : ℕ) → k ≡ n → q ≡ k + p
    behind k h = omega arith

file_of-word :
    (elf_ep : ℕ) (ld : Loaded) (b : Build) (s : Section) (p : ℕ)
    → s ≢ s_bss
    → p + 4 ≤ ld.size s
    → read_word (file_of elf_ep ld b) (file_start ld.size s + p)
      ≡ ok (word_at b.state.memory (sub32 (ld.elf_start s) elf_ep + p))
file_of-word elf_ep ld b s_text p ne h =
    past_section b.state.memory 0 0 p (0 + p) (file_of elf_ep ld b) refl
    ∙ read_word-bytes_from b.state.memory _ (ld.size s_text) p _ h
file_of-word elf_ep ld b s_data p ne h =
    past_section b.state.memory _ (ld.size s_text) p (ld.size s_text + p) _ refl
    ∙ read_word-bytes_from b.state.memory _ (ld.size s_data) p _ h
file_of-word elf_ep ld b s_rodata p ne h =
    past_section b.state.memory _ (ld.size s_text) (ld.size s_data + p)
      (ld.size s_text + ld.size s_data + p) _ (omega arith)
    ∙ past_section b.state.memory _ (ld.size s_data) p (ld.size s_data + p) _ refl
    ∙ read_word-bytes_from b.state.memory _ (ld.size s_rodata) p _ h
file_of-word elf_ep ld b s_bss p ne h = absurd (ne refl)

-- A word of .text, .data or .rodata in what a conversion writes is the word that the relocated image
-- has at its distance from the section's start there. The conditions are those under which the
-- conversion ends with a file that loads, and that the word lies in the section.
pub novl_conv-word :
    (base : ℕ) (elf : Elf) (ld : Loaded) (p : Prediction) (b : Build) (s : Section) (pos : ℕ)
    → s ≢ s_bss
    → pos + 4 ≤ ld.size s
    → Untouched [] (file_words (u32 elf.e_entry) elf.sections)
    → load_sections (u32 elf.e_entry) elf.sections ≡ ok ld
    → predict (layout_of ld) (u32 elf.e_entry) (state_of ld.memory) elf.sections ≡ ok p
    → build (final_layout base ld p.count) (u32 elf.e_entry) p.state elf.sections ≡ ok b
    → InImage (u32 elf.e_entry) ld s_text
    → InImage (u32 elf.e_entry) ld s_data
    → InImage (u32 elf.e_entry) ld s_rodata
    → base % 16 ≡ 0
    → Fits base ld.size (length b.relocs)
    → body_size ld.size + 4 * length b.relocs + 64 ≤ 2 ^ 31
    → (novl_conv base elf >>= λ file. read_word file (file_start ld.size s + pos))
      ≡ ok (word_at b.state.memory (sub32 (ld.elf_start s) (u32 elf.e_entry) + pos))
novl_conv-word base elf ld p b s pos ne inside apart is_ld is_p is_b in_t in_d in_r aligned fits
      small =
    let (written, _) =
      novl_conv-ovl_load base elf ld p b apart is_ld is_p is_b in_t in_d in_r aligned fits small in
    ap (λ (x : Exec (List ℕ)). x >>= λ file. read_word file (file_start ld.size s + pos)) written
    ∙ file_of-word (u32 elf.e_entry) ld b s pos ne inside
