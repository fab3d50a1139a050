-- ===== src/Conv/Output.antt =====
-- The end of `novl_conv`: where the parts of the overlay go, and the file that is written.
mod Tests
pub mod Writes
pub mod Contents
pub mod Written
pub mod Unaligned
use n_ovl.Base.{
  ℕ, zero, suc, ◌+◌, ◌-◌, ◌*◌, ◌/◌, ◌%◌, ◌^◌, ◌≤◌, ◌<◌, List, [], ◌∷◌, ◌++◌, Option, none, some,
  Bool, true, false,
}
use n_ovl.Base.{length, take, drop, replicate, ltb, leb, ◌==◌, if◌then◌else◌, ◌&&◌}
use n_ovl.Base.Word.{u32, add32, sub32}
use n_ovl.Base.Exec.{Exec, ok, exit, fault, ◌>>=◌, fold_exec}
use n_ovl.Base.Bytes.{be_bytes, words_bytes}
use n_ovl.Section.{Section, s_text, s_data, s_rodata, s_bss}
use n_ovl.Reloc.Memory.{Memory, memory_size}
use n_ovl.Reloc.Target.{Layout}

-- `(x + 15) & ~15`
abbrev pub align16 : ℕ → ℕ
align16 x = u32 (x + 15) / 16 * 16

-- The running `ovl_end_addr` behind .rodata.
abbrev pub sections_end : ℕ → (Section → ℕ) → ℕ
sections_end base size = add32 (add32 (add32 base (size s_text)) (size s_data)) (size s_rodata)

-- `ovl_starts`; .bss comes behind the header, the relocations and the footer. `count` is the
-- predicted number of relocations.
unfoldable pub ovl_starts : ℕ → (Section → ℕ) → ℕ → Section → ℕ
ovl_starts base size count s_text = base
ovl_starts base size count s_data = add32 base (size s_text)
ovl_starts base size count s_rodata = add32 (add32 base (size s_text)) (size s_data)
ovl_starts base size count s_bss =
    let with_header = add32 (sections_end base size) (5 * 4) in
    let with_relocs = add32 with_header (count * 4) in align16 (add32 with_relocs 4)

-- `ovl_file_header_addr`
abbrev pub header_addr : ℕ → (Section → ℕ) → ℕ
header_addr base size = sub32 (sections_end base size) base

-- The output file: its bytes, and the position of the next write.
pub record OutFile : Type 0 where
  pub bytes : List ℕ
  pub pos : ℕ

-- `fseek( f, n, SEEK_SET )`
abbrev pub seek_to : OutFile → ℕ → OutFile
seek_to f n = record f { pos = n }

-- An `fwrite` that is complete; a write behind the end of the file fills the gap with zeros. The
-- results of `fwrite` are not looked at: what a write that is not complete does is a parameter of
-- the loops below, as `fwrite`.
unfoldable pub write : OutFile → List ℕ → OutFile
write f new =
    let padded = f.bytes ++ replicate (f.pos - length f.bytes) 0 in
    record {
      bytes = take f.pos padded ++ (new ++ drop (f.pos + length new) padded);
      pos = f.pos + length new;
    }

-- The loop over the table entries ends at the first entry that is zero.
unfoldable pub relocs_by : (OutFile → List ℕ → OutFile) → OutFile → List ℕ → OutFile
relocs_by fwrite f [] = f
relocs_by fwrite f (nr ∷ nrs) = if nr == 0 then f else relocs_by fwrite (fwrite f (be_bytes nr)) nrs

abbrev pub write_relocs : OutFile → List ℕ → OutFile
write_relocs = relocs_by write

-- `memory + offset`, `n` bytes; outside the array they are not defined.
abbrev pub bytes_from : Memory → ℕ → ℕ → List ℕ
bytes_from m offset zero = []
bytes_from m offset (suc n) = m offset ∷ bytes_from m (offset + 1) n

unfoldable pub read_image : Memory → ℕ → ℕ → Exec (List ℕ)
read_image m offset zero = ok []
read_image m offset (suc n) =
    if leb (offset + suc n) memory_size then ok (bytes_from m offset (suc n)) else fault

-- `new - i`, or 0 where `i + 4` is a multiple of 16. `i` is the word of an `int`: from 2 ^ 31 on it
-- is negative, and so is the remainder as long as `i + 4` is.
abbrev pub footer_gap : ℕ → ℕ
footer_gap i =
    if (i + 4) % 16 == 0
    then 0
    else if leb (2 ^ 31) i && ltb (i + 4) (2 ^ 32)
    then 32 - (i + 4) % 16
    else 16 - (i + 4) % 16

-- Where the file is behind `fseek( ovl_out, new, SEEK_SET )`, from `pos`: a negative `new` fails and
-- leaves it there.
abbrev pub footer_seek : ℕ → ℕ → ℕ → ℕ
footer_seek pos i gap =
    if gap == 0
    then pos
    else if ltb i (2 ^ 31)
    then i + gap
    else if ltb (i + gap) (2 ^ 32)
    then pos
    else i + gap - 2 ^ 32

-- The padding in front of the footer, and the way back from the footer's end to the header; the sum
-- `i + 4` may overflow an `int`, which is undefined.
unfoldable pub footer_by : (OutFile → List ℕ → OutFile) → OutFile → ℕ → Exec OutFile
footer_by fwrite f header =
    let i = u32 f.pos in
    let gap = footer_gap i in
    let backwards = u32 (f.pos + 2 ^ 32 - header + 4 + gap) in
    if ltb i (2 ^ 31) && leb (2 ^ 31) (i + 4)
    then fault
    else ok (fwrite (seek_to f (footer_seek f.pos i gap)) (be_bytes backwards))

abbrev pub write_footer : OutFile → ℕ → Exec OutFile
write_footer = footer_by write

-- One round of the loop over .text, .data and .rodata.
unfoldable pub write_section : Layout → ℕ → ℕ → Memory → OutFile → Section → Exec OutFile
write_section l base elf_ep m f s =
    if l.ovl_start s == f.pos + base
    then (do new ← read_image m (sub32 (l.elf_start s) elf_ep) (l.size s); ok (write f new))
    else exit

-- From the header to the end: `relocs` are the table entries, `count` is `ninty_count_real`.
unfoldable pub write_overlay : Layout → ℕ → ℕ → Memory → List ℕ → ℕ → Exec (List ℕ)
write_overlay l base elf_ep m relocs count =
    let header = header_addr base l.size in
    let words = l.size s_text ∷ l.size s_data ∷ l.size s_rodata ∷ l.size s_bss ∷ count ∷ [] in
    let f = write (record { bytes = []; pos = header }) (words_bytes words) in
    write_footer (write_relocs f relocs) header >>= λ f'.
    if l.ovl_start s_bss == f'.pos + base
    then (do
      r ← fold_exec (write_section l base elf_ep m) (seek_to f' 0) (s_text ∷ s_data ∷ s_rodata ∷ [])
      if header == r.pos then ok r.bytes else exit)
    else exit
