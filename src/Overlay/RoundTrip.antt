-- ===== src/Overlay/RoundTrip.antt =====
-- Reading back a file that has the layout `novl_conv` gives it.
use n_ovl.Base.{
  ℕ, ◌+◌, ◌-◌, ◌*◌, ◌%◌, ◌^◌, ◌≤◌, ◌<◌, ◌≡◌, ◌≢◌, refl, sym, ◌∙◌, arith, List, [], ◌++◌, some, true,
}
use n_ovl.Base.{length, leb, All, replicate, length-append}
use n_ovl.Base.Word.{sub32, IsU32}
use n_ovl.Base.Exec.{ok, ◌>>=◌}
use n_ovl.Base.Bytes.{
  be_bytes, words_bytes, read_word, read_words, read_word-append, read_words-append,
  length-be_bytes, length-words_bytes,
}
use mathlib.Core.List.{append-nil, append_assoc}
use n_ovl.Section.{Section, s_text, s_data, s_rodata, s_bss}
use n_ovl.Reloc.Memory.{Memory}
use n_ovl.Reloc.Target.{Layout, with_starts}
use n_ovl.Conv.Output.{ovl_starts, read_image, write_overlay}
use n_ovl.Conv.Output.Contents.{
  header_words, body_size, padding, padding-lt, trailer, Fits, read_image-length,
}
use n_ovl.Conv.Output.Written.{length-trailer, write_overlay-contents}
use n_ovl.Overlay.{OvlHeader, Ovl, header_position, get_header, rounds, make_sections, ovl_load}

-- The header that `header_words` spells.
abbrev pub header_with : (Section → ℕ) → ℕ → OvlHeader
header_with size count = record {
  size_text = size s_text;
  size_data = size s_data;
  size_rodata = size s_rodata;
  size_bss = size s_bss;
  relocation_count = count;
}

-- What `ovl_load` makes of a file with these sizes and relocations.
abbrev pub loaded : (Section → ℕ) → List ℕ → List ℕ → Ovl
loaded size relocs contents = record {
  sections = make_sections (header_with size (length relocs));
  relocation_count = length relocs;
  contents = contents;
  relocations = relocs;
}

-- An offset back from the end that is a multiple of 4 and no longer than the file is taken.
header_position-some :
    (filesize offset : ℕ)
    → offset < 2 ^ 31
    → offset ≤ filesize
    → offset % 4 ≡ 0
    → header_position filesize offset ≡ some (ok (filesize - offset))
unfolding header_position
header_position-some filesize offset small inside aligned = ground arith

module _ (size : Section → ℕ) (relocs pre : List ℕ) (pre_size : length pre ≡ body_size size)
    (aligned : body_size size % 4 ≡ 0) (small : body_size size + 4 * length relocs + 64 ≤ 2 ^ 31)
    (words : All IsU32 relocs) (bss : IsU32 (size s_bss)) where
  abbrev offset : ℕ
  offset = 24 + 4 * length relocs + padding size (length relocs)

  abbrev file : List ℕ
  file = pre ++ trailer size relocs

  abbrev behind_header : List ℕ
  behind_header =
      words_bytes relocs ++ (replicate (padding size (length relocs)) 0 ++ be_bytes offset)

  length-file : length file ≡ body_size size + offset
  length-file =
      length-append pre (trailer size relocs) ∙ omega (arith, pre_size, length-trailer size relocs)

  padding-mod : padding size (length relocs) % 4 ≡ 0
  padding-mod = ground (arith, aligned)

  offset_read : read_word file (length file - 4) ≡ ok offset
  offset_read = rw footer_last (
      read_word-append front [] offset (length (front ++ (be_bytes offset ++ [])) - 4)
        (omega (arith, small, padding-lt size (length relocs)))
        (omega (
          arith,
          length-append front (be_bytes offset ++ []),
          length-append (be_bytes offset) [],
          length-be_bytes offset,
        )))
    where
      header_bytes : List ℕ
      header_bytes = words_bytes (header_words size (length relocs))

      zeros : List ℕ
      zeros = replicate (padding size (length relocs)) 0

      front : List ℕ
      front = ((pre ++ header_bytes) ++ words_bytes relocs) ++ zeros

      footer_last : file ≡ front ++ (be_bytes offset ++ [])
      footer_last =
          rw
            (
              append-nil (be_bytes offset),
              append_assoc ((pre ++ header_bytes) ++ words_bytes relocs) zeros (be_bytes offset),
              append_assoc (pre ++ header_bytes) (words_bytes relocs) (zeros ++ be_bytes offset),
              append_assoc pre header_bytes (words_bytes relocs ++ (zeros ++ be_bytes offset)),
            )
            refl

  header_read : read_words file (body_size size) 5 ≡ ok (header_words size (length relocs))
  header_read =
      read_words-append (header_words size (length relocs)) pre behind_header (body_size size)
        (
          omega (arith, small),
          (omega (arith, small), (omega (arith, small), (bss, (omega (arith, small), tt)))),
        )
        (sym pre_size)

  table_read : read_words file (body_size size + 5 * 4) (length relocs) ≡ ok relocs
  table_read =
      rw (← append_assoc pre (words_bytes (header_words size (length relocs))) behind_header) (
        read_words-append relocs (pre ++ words_bytes (header_words size (length relocs)))
          (replicate (padding size (length relocs)) 0 ++ be_bytes offset) (body_size size + 5 * 4)
          words
          (omega (
            arith,
            pre_size,
            length-append pre (words_bytes (header_words size (length relocs))),
            length-words_bytes (header_words size (length relocs)),
          )))

  pub ovl_load-file : ovl_load file ≡ ok (loaded size relocs file)
  unfolding ovl_load get_header
  ovl_load-file =
      rw
        (
          long_enough,
          offset_read,
          header_position-some (length file) offset
              (omega (arith, small, padding-lt size (length relocs))) (omega (arith, length-file))
              (omega (arith, padding-mod)),
          start,
          header_read,
          all_rounds,
          table_read,
        )
        refl
    where
      long_enough : leb 4 (length file) ≡ true
      long_enough = ground (arith, length-file)

      start : length file - offset ≡ body_size size
      start = omega (arith, length-file)

      all_rounds : rounds (length relocs) ≡ length relocs
      all_rounds = ground (arith, small)

-- Writing an overlay and loading the file gives the relocation table and the sizes back. The
-- conditions: the base address is a multiple of 16 and no address of the overlay reaches 2 ^ 32;
-- the sizes of the sections in the file add up to a multiple of 4 and the file stays below 2 ^ 31
-- bytes; the size of .bss and the table entries are 32-bit words, no entry zero; and the three
-- sections lie in the memory image. Then the write succeeds, the load of its bytes succeeds, and
-- the sections it finds start one behind the other.
pub ovl_load-write_overlay :
    (l : Layout) (base elf_ep : ℕ) (m : Memory) (relocs t d r : List ℕ)
    → Fits base l.size (length relocs)
    → base % 16 ≡ 0
    → body_size l.size % 4 ≡ 0
    → body_size l.size + 4 * length relocs + 64 ≤ 2 ^ 31
    → IsU32 (l.size s_bss)
    → All IsU32 relocs
    → All (λ w. w ≢ 0) relocs
    → read_image m (sub32 (l.elf_start s_text) elf_ep) (l.size s_text) ≡ ok t
    → read_image m (sub32 (l.elf_start s_data) elf_ep) (l.size s_data) ≡ ok d
    → read_image m (sub32 (l.elf_start s_rodata) elf_ep) (l.size s_rodata) ≡ ok r
    → (write_overlay
          (with_starts l (ovl_starts base l.size (length relocs)))
          base
          elf_ep
          m
          relocs
          (length relocs)
        >>= ovl_load)
      ≡ ok (loaded l.size relocs (t ++ (d ++ (r ++ trailer l.size relocs))))
ovl_load-write_overlay l base elf_ep m relocs t d r fits aligned fours small bss words nonzero is_t
      is_d is_r =
    rw
      (
        write_overlay-contents l base elf_ep m relocs t d r fits small aligned nonzero is_t is_d
            is_r,
        ← append_assoc d r (trailer l.size relocs),
        ← append_assoc t (d ++ r) (trailer l.size relocs),
      )
      (ovl_load-file l.size relocs (t ++ (d ++ r)) pre_size fours small words bss)
  where
    pre_size : length (t ++ (d ++ r)) ≡ body_size l.size
    pre_size = omega (
      arith,
      length-append t (d ++ r),
      length-append d r,
      read_image-length m (sub32 (l.elf_start s_text) elf_ep) (l.size s_text) t is_t,
      read_image-length m (sub32 (l.elf_start s_data) elf_ep) (l.size s_data) d is_d,
      read_image-length m (sub32 (l.elf_start s_rodata) elf_ep) (l.size s_rodata) r is_r,
    )
