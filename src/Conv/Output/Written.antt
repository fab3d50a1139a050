-- ===== src/Conv/Output/Written.antt =====
-- The whole file that `novl_conv` writes.
use n_ovl.Base.{
  ℕ, zero, suc, ◌+◌, ◌*◌, ◌%◌, ◌^◌, ◌≤◌, ◌≡◌, ◌≢◌, refl, sym, ap, ◌∙◌, arith, List, [], ◌∷◌, ◌++◌,
  true,
}
use n_ovl.Base.{length, replicate, All, length-append, length-replicate, ◌==◌}
use n_ovl.Base.Word.{sub32}
use n_ovl.Base.Exec.{ok, fold_exec}
use n_ovl.Base.Bytes.{be_bytes, words_bytes, length-be_bytes, length-words_bytes}
use mathlib.Core.List.{append_assoc}
use n_ovl.Section.{Section, s_text, s_data, s_rodata, s_bss}
use n_ovl.Reloc.Memory.{Memory}
use n_ovl.Reloc.Target.{Layout, with_starts}
use n_ovl.Conv.Output.{
  ovl_starts, header_addr, write, write_relocs, read_image, write_footer, write_section,
  write_overlay,
}
use n_ovl.Conv.Output.Writes.{write-inside, write_relocs-eq}
use n_ovl.Conv.Output.Contents.{
  header_words, body_size, unpadded, padding, trailer, Fits, read_image-length, bss_start,
  header_addr-sum, front, header_written, footer_written,
}

replicate-add : (n k : ℕ) → replicate (n + k) zero ≡ replicate n zero ++ replicate k zero
replicate-add zero k = ap (λ (i : ℕ). replicate i zero) (omega arith)
replicate-add (suc n) k =
    ap (λ (i : ℕ). replicate i zero) (suc_first n k)
    ∙ ap (λ (l : List ℕ). zero ∷ l) (replicate-add n k)
  where
    suc_first : (n k : ℕ) → suc n + k ≡ suc (n + k)
    suc_first n k = omega arith

==_refl : (n k : ℕ) → n ≡ k → (n == k) ≡ true
==_refl n k e = ground arith

-- A section takes the place of as many zeros.
write_section-eq :
    (l : Layout) (base elf_ep : ℕ) (m : Memory) (s : Section) (pre new post : List ℕ)
    → l.ovl_start s ≡ length pre + base
    → read_image m (sub32 (l.elf_start s) elf_ep) (l.size s) ≡ ok new
    → write_section l base elf_ep m
        (record { bytes = pre ++ (replicate (l.size s) 0 ++ post); pos = length pre })
        s
      ≡ ok (record { bytes = (pre ++ new) ++ post; pos = length (pre ++ new) })
unfolding write_section
write_section-eq l base elf_ep m s pre new post e e' =
    rw
      (
        ==_refl (l.ovl_start s) (length pre + base) e,
        e',
        write-inside pre (replicate (l.size s) 0) new post same,
        ← append_assoc pre new post,
        ← length-append pre new,
      )
      refl
  where
    same : length (replicate (l.size s) zero) ≡ length new
    same =
        length-replicate (l.size s) zero
        ∙ sym (read_image-length m (sub32 (l.elf_start s) elf_ep) (l.size s) new e')

-- The three sections, one behind the other, in place of the zeros in front of the header.
sections_written :
    (l : Layout) (base elf_ep : ℕ) (m : Memory) (t d r rest : List ℕ)
    → (l.ovl_start s_text ≡ base)
    → (l.ovl_start s_data ≡ base + l.size s_text)
    → (l.ovl_start s_rodata ≡ base + l.size s_text + l.size s_data)
    → read_image m (sub32 (l.elf_start s_text) elf_ep) (l.size s_text) ≡ ok t
    → read_image m (sub32 (l.elf_start s_data) elf_ep) (l.size s_data) ≡ ok d
    → read_image m (sub32 (l.elf_start s_rodata) elf_ep) (l.size s_rodata) ≡ ok r
    → fold_exec
        (write_section l base elf_ep m)
        (record { bytes = replicate (body_size l.size) 0 ++ rest; pos = 0 })
        (s_text ∷ s_data ∷ s_rodata ∷ [])
      ≡ ok (record { bytes = t ++ (d ++ (r ++ rest)); pos = body_size l.size })
sections_written l base elf_ep m t d r rest at_t at_d at_r is_t is_d is_r =
    rw
      (
        zeros,
        write_section-eq l base elf_ep m s_text [] t behind_t (omega (arith, at_t)) is_t,
        write_section-eq l base elf_ep m s_data t d behind_d (omega (arith, at_d, length_t)) is_d,
        write_section-eq l base elf_ep m s_rodata (t ++ d) r rest
            (omega (arith, at_r, length_t, length_d, length-append t d)) is_r,
        append_assoc (t ++ d) r rest,
        append_assoc t d (r ++ rest),
      )
      (ap (λ (p : ℕ). ok (record { bytes = t ++ (d ++ (r ++ rest)); pos = p })) ends)
  where
    behind_d : List ℕ
    behind_d = replicate (l.size s_rodata) 0 ++ rest

    behind_t : List ℕ
    behind_t = replicate (l.size s_data) 0 ++ behind_d

    zeros : replicate (body_size l.size) zero ++ rest ≡ replicate (l.size s_text) zero ++ behind_t
    zeros =
        rw
          (
            replicate-add (l.size s_text + l.size s_data) (l.size s_rodata),
            replicate-add (l.size s_text) (l.size s_data),
            append_assoc (replicate (l.size s_text) zero ++ replicate (l.size s_data) zero)
                (replicate (l.size s_rodata) zero) rest,
            append_assoc (replicate (l.size s_text) zero) (replicate (l.size s_data) zero) behind_d,
          )
          refl

    length_t : length t ≡ l.size s_text
    length_t = read_image-length m (sub32 (l.elf_start s_text) elf_ep) (l.size s_text) t is_t

    length_d : length d ≡ l.size s_data
    length_d = read_image-length m (sub32 (l.elf_start s_data) elf_ep) (l.size s_data) d is_d

    length_r : length r ≡ l.size s_rodata
    length_r = read_image-length m (sub32 (l.elf_start s_rodata) elf_ep) (l.size s_rodata) r is_r

    ends : length ((t ++ d) ++ r) ≡ body_size l.size
    ends = omega (arith, length-append (t ++ d) r, length-append t d, length_t, length_d, length_r)

-- Header, table and footer, with zeros in front.
pub front_written :
    (base : ℕ) (size : Section → ℕ) (relocs : List ℕ)
    → Fits base size (length relocs)
    → body_size size + 4 * length relocs + 64 ≤ 2 ^ 31
    → All (λ w. w ≢ 0) relocs
    → write_footer
        (write_relocs
          (write
            (record { bytes = []; pos = header_addr base size })
            (words_bytes (header_words size (length relocs))))
          relocs)
        (header_addr base size)
      ≡ ok (record {
        bytes = replicate (body_size size) 0 ++ trailer size relocs;
        pos = unpadded size (length relocs) + padding size (length relocs) + 4;
      })
front_written base size relocs fits small nonzero =
    rw
      (
        header_addr-sum base size (length relocs) fits,
        header_written size relocs,
        write_relocs-eq relocs (front size relocs) nonzero,
      )
      (footer_written size relocs small)

-- The parts of the file fill it up to the start of .bss.
pub length-trailer :
    (size : Section → ℕ) (relocs : List ℕ)
    → length (trailer size relocs) ≡ 24 + 4 * length relocs + padding size (length relocs)
length-trailer size relocs = omega (
  arith,
  length-append (words_bytes (header_words size (length relocs))) behind_header,
  length-append (words_bytes relocs) behind_table,
  length-append (replicate (padding size (length relocs)) zero) footer,
  length-words_bytes (header_words size (length relocs)),
  length-words_bytes relocs,
  length-replicate (padding size (length relocs)) zero,
  length-be_bytes (24 + 4 * length relocs + padding size (length relocs)),
)
  where
    footer : List ℕ
    footer = be_bytes (24 + 4 * length relocs + padding size (length relocs))

    behind_table : List ℕ
    behind_table = replicate (padding size (length relocs)) 0 ++ footer

    behind_header : List ℕ
    behind_header = words_bytes relocs ++ behind_table

starts_data :
    (base : ℕ) (size : Section → ℕ) (count : ℕ)
    → Fits base size count
    → ovl_starts base size count s_data ≡ base + size s_text
unfolding ovl_starts
starts_data base size count fits = omega (arith, fits)

starts_rodata :
    (base : ℕ) (size : Section → ℕ) (count : ℕ)
    → Fits base size count
    → ovl_starts base size count s_rodata ≡ base + size s_text + size s_data
unfolding ovl_starts
starts_rodata base size count fits = omega (arith, fits)

-- For a base address that is a multiple of 16, no address of the overlay reaching 2 ^ 32 and the
-- file staying below 2 ^ 31 bytes, beyond which an `int` for its position is negative, .text,
-- .data and .rodata in the memory image, and table entries none of which is zero, `write_overlay`
-- succeeds: the file is the bytes of the three sections, the header of the four sizes and the count,
-- the table without a gap, the padding in zeros, and the distance from the end of the file to the
-- header.
pub write_overlay-contents :
    (l : Layout) (base elf_ep : ℕ) (m : Memory) (relocs t d r : List ℕ)
    → Fits base l.size (length relocs)
    → body_size l.size + 4 * length relocs + 64 ≤ 2 ^ 31
    → base % 16 ≡ 0
    → All (λ w. w ≢ 0) relocs
    → read_image m (sub32 (l.elf_start s_text) elf_ep) (l.size s_text) ≡ ok t
    → read_image m (sub32 (l.elf_start s_data) elf_ep) (l.size s_data) ≡ ok d
    → read_image m (sub32 (l.elf_start s_rodata) elf_ep) (l.size s_rodata) ≡ ok r
    → write_overlay
        (with_starts l (ovl_starts base l.size (length relocs)))
        base
        elf_ep
        m
        relocs
        (length relocs)
      ≡ ok (t ++ (d ++ (r ++ trailer l.size relocs)))
unfolding write_overlay ovl_starts
write_overlay-contents l base elf_ep m relocs t d r fits small aligned nonzero is_t is_d is_r =
    rw
      (
        front_written base l.size relocs fits small nonzero,
        ==_refl (ovl_starts base l.size (length relocs) s_bss) _
            (bss_start base l.size (length relocs) fits aligned),
        sections_written (with_starts l (ovl_starts base l.size (length relocs))) base elf_ep m t d
            r (trailer l.size relocs) refl (starts_data base l.size (length relocs) fits)
            (starts_rodata base l.size (length relocs) fits) is_t is_d is_r,
        ==_refl (header_addr base l.size) (body_size l.size)
            (header_addr-sum base l.size (length relocs) fits),
      )
      refl
