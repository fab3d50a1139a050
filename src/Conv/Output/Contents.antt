-- ===== src/Conv/Output/Contents.antt =====
-- What the written file holds, part by part.
use n_ovl.Base.{
  ℕ, zero, suc, ◌+◌, ◌-◌, ◌*◌, ◌%◌, ◌^◌, ◌≤◌, ◌<◌, ◌≡◌, refl, sym, ap, ◌∙◌, arith, false, List, [],
  ◌∷◌, ◌++◌,
}
use n_ovl.Base.{
  length, replicate, length-append, length-replicate, leb, inl, inr, Bool-cases, ltb, ◌==◌, ◌&&◌,
  if◌then◌else◌,
}
use n_ovl.Base.Word.{u32}
use n_ovl.Base.Exec.{ok, ok-injective}
use n_ovl.Base.Bytes.{be_bytes, words_bytes, length-be_bytes, length-words_bytes}
use native.Mathlib.Nat.{zero-add}
use mathlib.Core.List.{append_assoc}
use n_ovl.Section.{Section, s_text, s_data, s_rodata, s_bss}
use n_ovl.Reloc.Memory.{Memory, memory_size}
use n_ovl.Conv.Output.{
  ovl_starts, header_addr, write, bytes_from, read_image, seek_to, footer_gap, footer_seek,
  footer_by, write_footer, OutFile,
}
use n_ovl.Conv.Output.Writes.{write-behind}

-- The five words of the header.
abbrev pub header_words : (Section → ℕ) → ℕ → List ℕ
header_words size count = size s_text ∷ size s_data ∷ size s_rodata ∷ size s_bss ∷ count ∷ []

-- The sizes of the three sections in the file, and the number of bytes in front of the padding.
abbrev pub body_size : (Section → ℕ) → ℕ
body_size size = size s_text + size s_data + size s_rodata

abbrev pub unpadded : (Section → ℕ) → ℕ → ℕ
unpadded size count = body_size size + 20 + 4 * count

-- Where the footer goes in a file below 2 ^ 31 bytes.
abbrev pub footer_position : ℕ → ℕ
footer_position i = if (i + 4) % 16 == 0 then i else i + 16 - (i + 4) % 16

abbrev pub padding : (Section → ℕ) → ℕ → ℕ
padding size count = footer_position (unpadded size count) - unpadded size count

-- From the header to the end of the file: the header, the table, zeros, and the footer, which
-- counts the bytes from its own end back to the header.
abbrev pub trailer : (Section → ℕ) → List ℕ → List ℕ
trailer size relocs =
    words_bytes (header_words size (length relocs))
    ++ (words_bytes relocs
        ++ (replicate (padding size (length relocs)) 0
            ++ be_bytes (24 + 4 * length relocs + padding size (length relocs))))

pub padding-lt : (size : Section → ℕ) (count : ℕ) → padding size count < 16
padding-lt size count = ground arith

pub length-bytes_from : (m : Memory) (offset n : ℕ) → length (bytes_from m offset n) ≡ n
length-bytes_from m offset zero = refl
length-bytes_from m offset (suc n) = ap suc (length-bytes_from m (offset + 1) n)

pub read_image-length :
    (m : Memory) (offset n : ℕ) (bs : List ℕ) → read_image m offset n ≡ ok bs → length bs ≡ n
unfolding read_image
read_image-length m offset zero bs e = rw (← ok-injective [] bs e) refl
read_image-length m offset (suc n) bs e = elim (Bool-cases (leb (offset + suc n) memory_size)) [
  | inl h ↦ rw (← ok-injective _ bs (rw h at e)) (length-bytes_from m offset (suc n))
  | inr h ↦ absurd (cc (rw h at e))
]

-- No address of the overlay reaches 2 ^ 32.
abbrev pub Fits : ℕ → (Section → ℕ) → ℕ → Type 0
Fits base size count = base + body_size size + 4 * count + 64 ≤ 2 ^ 32

-- Where .bss starts, as a sum: behind the padded file, if the base address is a multiple of 16.
pub bss_start :
    (base : ℕ) (size : Section → ℕ) (count : ℕ)
    → Fits base size count
    → base % 16 ≡ 0
    → ovl_starts base size count s_bss ≡ unpadded size count + padding size count + 4 + base
unfolding ovl_starts
bss_start base size count fits aligned = ground arith

pub header_addr-sum :
    (base : ℕ) (size : Section → ℕ) (count : ℕ)
    → Fits base size count
    → header_addr base size ≡ body_size size
header_addr-sum base size count fits = omega arith

footer_position-le : (n : ℕ) → n ≤ footer_position n
footer_position-le n = ground arith

-- Below 2 ^ 31 bytes no `int` of the footer's position wraps.
write_footer-small :
    (f : OutFile) (header : ℕ)
    → f.pos + 4 < 2 ^ 31
    → write_footer f header
      ≡ ok (
          write
            (seek_to f (footer_position f.pos))
            (be_bytes (u32 (f.pos + 2 ^ 32 - header + 4 + (footer_position f.pos - f.pos)))))
unfolding footer_by
write_footer-small f header small =
    rw (whole f.pos small, no_overflow f.pos small, seek f.pos small, gap f.pos small) refl
  where
    whole : (n : ℕ) → n + 4 < 2 ^ 31 → u32 n ≡ n
    whole n small = omega arith

    no_overflow : (n : ℕ) → n + 4 < 2 ^ 31 → (ltb n (2 ^ 31) && leb (2 ^ 31) (n + 4)) ≡ false
    no_overflow n small = ground arith

    seek : (n : ℕ) → n + 4 < 2 ^ 31 → footer_seek n n (footer_gap n) ≡ footer_position n
    seek n small = ground arith

    gap : (n : ℕ) → n + 4 < 2 ^ 31 → footer_gap n ≡ footer_position n - n
    gap n small = ground arith

-- A footer behind `n` bytes.
write_footer-eq :
    (pre : List ℕ) (header n : ℕ)
    → length pre ≡ n
    → n + 4 < 2 ^ 31
    → write_footer (record { bytes = pre; pos = length pre }) header
      ≡ ok (record {
        bytes =
            pre
            ++ (replicate (footer_position n - n) 0
                ++ be_bytes (u32 (n + 2 ^ 32 - header + 4 + (footer_position n - n))));
        pos = footer_position n + 4;
      })
write_footer-eq pre header n e small =
    rw (e, write_footer-small (record { bytes = pre; pos = n }) header small)
      (ap ok (
        ap (λ (p : ℕ). write (record { bytes = pre; pos = p }) word) behind
        ∙ write-behind pre word (footer_position n - n)
        ∙ ap
            (λ (p : ℕ). record {
              bytes = pre ++ (replicate (footer_position n - n) 0 ++ word);
              pos = p;
            })
            ends))
  where
    word : List ℕ
    word = be_bytes (u32 (n + 2 ^ 32 - header + 4 + (footer_position n - n)))

    behind : footer_position n ≡ length pre + (footer_position n - n)
    behind = omega (arith, e, footer_position-le n)

    ends : length pre + (footer_position n - n) + length word ≡ footer_position n + 4
    ends = omega (
      arith,
      e,
      footer_position-le n,
      length-be_bytes (u32 (n + 2 ^ 32 - header + 4 + (footer_position n - n))),
    )

-- The file behind the header, the table and the footer, with zeros in front of them.
module _ (size : Section → ℕ) (relocs : List ℕ) where
  abbrev pub front : List ℕ
  front = replicate (body_size size) 0 ++ words_bytes (header_words size (length relocs))

  pub length-front : length front ≡ body_size size + 20
  length-front =
      length-append (replicate (body_size size) 0) (words_bytes (header_words size (length relocs)))
      ∙ omega (
        arith,
        length-replicate (body_size size) zero,
        length-words_bytes (header_words size (length relocs)),
      )

  length-table : length (front ++ words_bytes relocs) ≡ unpadded size (length relocs)
  length-table =
      length-append front (words_bytes relocs)
      ∙ omega (arith, length-front, length-words_bytes relocs)

  pub header_written :
      write
        (record { bytes = []; pos = body_size size })
        (words_bytes (header_words size (length relocs)))
      ≡ record { bytes = front; pos = length front }
  header_written =
      ap
        (λ (p : ℕ).
          write (record { bytes = []; pos = p }) (words_bytes (header_words size (length relocs))))
        (sym (zero-add (body_size size)))
      ∙ write-behind [] (words_bytes (header_words size (length relocs))) (body_size size)
      ∙ ap (λ (p : ℕ). record { bytes = front; pos = p })
          (omega (arith, length-front, length-words_bytes (header_words size (length relocs))))

  -- The footer goes behind the padding.
  pub footer_written :
      body_size size + 4 * length relocs + 64 ≤ 2 ^ 31
      → write_footer
          (record {
            bytes = front ++ words_bytes relocs;
            pos = length (front ++ words_bytes relocs);
          })
          (body_size size)
        ≡ ok (record {
          bytes = replicate (body_size size) 0 ++ trailer size relocs;
          pos = unpadded size (length relocs) + padding size (length relocs) + 4;
        })
  footer_written fits =
      write_footer-eq (front ++ words_bytes relocs) (body_size size) (unpadded size (length relocs))
        length-table (omega (arith, fits))
      ∙ rw
          (
            back,
            append_assoc front (words_bytes relocs) rest,
            append_assoc (replicate (body_size size) zero)
                (words_bytes (header_words size (length relocs))) (words_bytes relocs ++ rest),
          )
          (ap
            (λ (p : ℕ).
              ok (record { bytes = replicate (body_size size) 0 ++ trailer size relocs; pos = p }))
            ends)
    where
      rest : List ℕ
      rest =
          replicate (padding size (length relocs)) 0
          ++ be_bytes (24 + 4 * length relocs + padding size (length relocs))

      back :
          u32 (
            unpadded size (length relocs)
            + 2 ^ 32
            - body_size size
            + 4
            + padding size (length relocs))
          ≡ 24 + 4 * length relocs + padding size (length relocs)
      back = omega (arith, padding-lt size (length relocs))

      ends :
          footer_position (unpadded size (length relocs)) + 4
          ≡ unpadded size (length relocs) + padding size (length relocs) + 4
      ends = omega (arith, footer_position-le (unpadded size (length relocs)))
