-- ===== src/Decoder/Split.antt =====
-- `r4300_decode_op` of src/decoder.c, which splits the text of an instruction.
pub mod Words
pub mod Opening
pub mod Shape
pub mod Text
use n_ovl.Base.{
  ℕ, ◌+◌, ◌-◌, ◌^◌, ◌≤◌, ◌<◌, ◌≡◌, refl, arith, List, [], ◌∷◌, ◌++◌, Option, none, some, Bool, true,
  false,
}
use n_ovl.Base.{length, drop, leb, ◌==◌, if◌then◌else◌, ◌&&◌, ◌||◌}
use n_ovl.Base.Exec.{Exec, ok, fault, ◌>>=◌}
use n_ovl.Printer.Text.{space}
use n_ovl.Printer.Conf.{Conf}
use n_ovl.Decoder.Disassemble.{disassemble}

-- `isspace` of the C locale.
abbrev pub is_blank : ℕ → Bool
is_blank c = c == space || (leb 9 c && leb c 13)

unfoldable pub skip_blanks : List ℕ → List ℕ
skip_blanks [] = []
skip_blanks (c ∷ cs) = elim (is_blank c) [ true ↦ skip_blanks cs | false ↦ c ∷ cs ]

-- The characters up to the next blank, and what follows.
unfoldable pub take_word : List ℕ → List ℕ × List ℕ
take_word [] = ([], [])
take_word (c ∷ cs) =
    let rest = take_word cs in
    elim (is_blank c) [ true ↦ ([], c ∷ cs) | false ↦ (c ∷ rest.0, rest.1) ]

-- `%s` of `sscanf`: the word behind the blanks, and what follows.
abbrev pub next_word : List ℕ → List ℕ × List ℕ
next_word s = take_word (skip_blanks s)

-- `sscanf( buffer, "%s %s", … )`: its result, -1 being 2 ^ 32 - 1, with the first word. The second
-- word is overwritten in any case.
abbrev pub count_of : List ℕ → List ℕ → ℕ
count_of [] second = 2 ^ 32 - 1
count_of (c ∷ cs) [] = 1
count_of (c ∷ cs) (d ∷ ds) = 2

unfoldable pub scan_words : List ℕ → ℕ × List ℕ
unfolding skip_blanks take_word
scan_words buffer =
    let first = next_word buffer in
    let second = next_word first.1 in (count_of first.0 second.0, first.0)

-- The strings `opcode` and `arguments`, from what `sscanf` gives and the buffer. Without a word in
-- the buffer, `opcode` is left as it was, which is an empty list here; a buffer that ends in front
-- of its sixteenth character has nothing defined behind that.
unfoldable pub split_by : ℕ × List ℕ → List ℕ → Exec (List ℕ × List ℕ)
split_by scanned buffer =
    if scanned.0 == 1
    then ok (scanned.1, space ∷ [])
    else (if leb 16 (length buffer) then ok (scanned.1, drop 16 buffer) else fault)

unfoldable pub decode_op : Conf → ℕ → ℕ → Exec (List ℕ × List ℕ)
unfolding scan_words split_by
decode_op conf instr counter = do
  buffer ← disassemble conf instr counter
  split_by (scan_words buffer) buffer
