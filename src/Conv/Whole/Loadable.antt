-- ===== src/Conv/Whole/Loadable.antt =====
-- An overlay that `novl_conv` writes is one that `ovl_load` reads.
use n_ovl.Base.{
  ◌⊎◌, ℕ, zero, suc, ◌+◌, ◌*◌, ◌%◌, ◌^◌, ◌≤◌, ◌≡◌, ◌≢◌, refl, sym, ap, ◌∙◌, arith, List, [], ◌∷◌,
  ◌++◌, true,
}
use n_ovl.Base.{length, All, leb, ◌==◌}
use n_ovl.Base.Word.{u32, sub32, IsU32}
use n_ovl.Base.Exec.{Exec, ok, ◌>>=◌, ok-injective}
use n_ovl.Section.{Section, s_text, s_data, s_rodata, s_bss}
use n_ovl.Reloc.Memory.{Memory, memory_size}
use n_ovl.Conv.Elf.{Elf, ElfSection}
use n_ovl.Conv.Load.{Loaded, load_sections}
use n_ovl.Conv.Load.Sizes.{load_sections-IsSized}
use n_ovl.Conv.Pass.{Prediction, predict, Build, build}
use n_ovl.Conv.Pass.Agreement.{Untouched}
use n_ovl.Conv.Pass.Counts.{file_words}
use n_ovl.Conv.Pass.Entries.{IsEntry, build-entries}
use n_ovl.Conv.Pass.Predicted.{predict-build}
use n_ovl.Conv.Output.{bytes_from, read_image, write_overlay}
use n_ovl.Conv.Output.Contents.{body_size, trailer, Fits}
use n_ovl.Conv.Output.Written.{write_overlay-contents}
use n_ovl.Conv.Whole.{layout_of, state_of, final_layout, novl_conv}
use n_ovl.Overlay.{ovl_load}
use n_ovl.Overlay.RoundTrip.{loaded, ovl_load-write_overlay}

-- A section is empty, or lies in the memory image.
abbrev pub InImage : ℕ → Loaded → Section → Type 0
InImage elf_ep ld s = (ld.size s ≡ 0) ⊎ (sub32 (ld.elf_start s) elf_ep + ld.size s ≤ memory_size)

-- The bytes of a section in the image.
abbrev pub section_bytes : ℕ → Loaded → Memory → Section → List ℕ
section_bytes elf_ep ld m s = bytes_from m (sub32 (ld.elf_start s) elf_ep) (ld.size s)

read_image-ok :
    (m : Memory) (offset n : ℕ)
    → (n ≡ 0) ⊎ (offset + n ≤ memory_size)
    → read_image m offset n ≡ ok (bytes_from m offset n)
unfolding read_image
read_image-ok m offset zero h = refl
read_image-ok m offset (suc n) h = rw (inside (offset + suc n) n h) refl
  where
    inside : (k n : ℕ) → (suc n ≡ 0) ⊎ (k ≤ memory_size) → leb k memory_size ≡ true
    inside k n h = ground arith

-- The file behind the second pass.
abbrev pub file_of : ℕ → Loaded → Build → List ℕ
file_of elf_ep ld b =
    section_bytes elf_ep ld b.state.memory s_text
    ++ (section_bytes elf_ep ld b.state.memory s_data
        ++ (section_bytes elf_ep ld b.state.memory s_rodata ++ trailer ld.size b.relocs))

words_of : (rs : List ℕ) → All IsEntry rs → All IsU32 rs
words_of [] h = tt
words_of (r ∷ rs) h = (h.0.1, words_of rs h.1)

nonzero_of : (rs : List ℕ) → All IsEntry rs → All (λ w. w ≢ 0) rs
nonzero_of [] h = tt
nonzero_of (r ∷ rs) h = (h.0.0, nonzero_of rs h.1)

-- The counts of the two passes.
same_count :
    (base elf_ep : ℕ) (ld : Loaded) (secs : List ElfSection) (p : Prediction) (b : Build)
    → Untouched [] (file_words elf_ep secs)
    → predict (layout_of ld) elf_ep (state_of ld.memory) secs ≡ ok p
    → build (final_layout base ld p.count) elf_ep p.state secs ≡ ok b
    → (b.count ≡ p.count) × (b.count ≡ u32 (length b.relocs))
same_count base elf_ep ld secs p b apart is_p is_b =
    let (b', is_b', counts, len) =
      predict-build (final_layout base ld p.count) (λ s. 0) elf_ep (state_of ld.memory) secs p apart
        is_p in
    let same = ok-injective b' b (sym is_b' ∙ is_b) in (rw (← same) counts, rw (← same) len)

-- A conversion whose passes return, from the point behind them.
conv_ends :
    (base : ℕ) (elf : Elf) (ld : Loaded) (p : Prediction) (b : Build)
    → load_sections (u32 elf.e_entry) elf.sections ≡ ok ld
    → predict (layout_of ld) (u32 elf.e_entry) (state_of ld.memory) elf.sections ≡ ok p
    → build (final_layout base ld p.count) (u32 elf.e_entry) p.state elf.sections ≡ ok b
    → p.count ≡ length b.relocs
    → b.count ≡ length b.relocs
    → novl_conv base elf
      ≡ write_overlay
          (final_layout base ld (length b.relocs))
          base
          (u32 elf.e_entry)
          b.state.memory
          b.relocs
          (length b.relocs)
unfolding novl_conv
conv_ends base elf ld p b is_ld is_p is_b pn bn =
    rw (is_ld, is_p, is_b, same p.count b.count (pn ∙ sym bn), pn, bn) refl
  where
    same : (n k : ℕ) → n ≡ k → (n == k) ≡ true
    same n k e = ground arith

-- The whole conversion, from the loaded ELF file to a file that loads. The conditions: no two
-- relocations edit a common byte; the loop over the sections and the two passes return, the first
-- with the prediction `p`, the second, which is given the addresses that follow from it, with the
-- table of `b`; .text, .data and .rodata are empty or lie in the memory image; the base address is a
-- multiple of 16, no address of the overlay reaches 2 ^ 32, and the file stays below 2 ^ 31 bytes.
-- Then no check of the conversion fails: it writes a file, and `ovl_load` reads from it the sizes of
-- the sections and all of the table.
pub novl_conv-ovl_load :
    (base : ℕ) (elf : Elf) (ld : Loaded) (p : Prediction) (b : Build)
    → Untouched [] (file_words (u32 elf.e_entry) elf.sections)
    → load_sections (u32 elf.e_entry) elf.sections ≡ ok ld
    → predict (layout_of ld) (u32 elf.e_entry) (state_of ld.memory) elf.sections ≡ ok p
    → build (final_layout base ld p.count) (u32 elf.e_entry) p.state elf.sections ≡ ok b
    → InImage (u32 elf.e_entry) ld s_text
    → InImage (u32 elf.e_entry) ld s_data
    → InImage (u32 elf.e_entry) ld s_rodata
    → base % 16 ≡ 0
    → Fits base ld.size (length b.relocs)
    → body_size ld.size + 4 * length b.relocs + 64 ≤ 2 ^ 31
    → (novl_conv base elf ≡ ok (file_of (u32 elf.e_entry) ld b))
      × ((novl_conv base elf >>= ovl_load)
          ≡ ok (loaded ld.size b.relocs (file_of (u32 elf.e_entry) ld b)))
novl_conv-ovl_load base elf ld p b apart is_ld is_p is_b in_t in_d in_r aligned fits small =
    let counts = same_count base (u32 elf.e_entry) ld elf.sections p b apart is_p is_b in
    let sized = load_sections-IsSized (u32 elf.e_entry) elf.sections ld is_ld in
    let entries =
      build-entries (final_layout base ld p.count) (u32 elf.e_entry) p.state elf.sections b is_b in
    let ends =
      conv_ends base elf ld p b is_ld is_p is_b (omega (arith, counts, small))
        (omega (arith, counts, small)) in
    (
      ends
          ∙ write_overlay-contents (layout_of ld) base (u32 elf.e_entry) b.state.memory b.relocs
              (section_bytes (u32 elf.e_entry) ld b.state.memory s_text)
              (section_bytes (u32 elf.e_entry) ld b.state.memory s_data)
              (section_bytes (u32 elf.e_entry) ld b.state.memory s_rodata) fits small aligned
              (nonzero_of b.relocs entries) (read_image-ok b.state.memory _ _ in_t)
              (read_image-ok b.state.memory _ _ in_d) (read_image-ok b.state.memory _ _ in_r),
      ap (λ (x : Exec (List ℕ)). x >>= ovl_load) ends
          ∙ ovl_load-write_overlay (layout_of ld) base (u32 elf.e_entry) b.state.memory b.relocs
              (section_bytes (u32 elf.e_entry) ld b.state.memory s_text)
              (section_bytes (u32 elf.e_entry) ld b.state.memory s_data)
              (section_bytes (u32 elf.e_entry) ld b.state.memory s_rodata) fits aligned
              (fours (ld.size s_text) (ld.size s_data) (ld.size s_rodata) (sized.eights s_text)
                (sized.eights s_data) (sized.eights s_rodata))
              small (sized.size_word s_bss) (words_of b.relocs entries)
              (nonzero_of b.relocs entries) (read_image-ok b.state.memory _ _ in_t)
              (read_image-ok b.state.memory _ _ in_d) (read_image-ok b.state.memory _ _ in_r),
    )
  where
    fours : (x y z : ℕ) → x % 8 ≡ 0 → y % 8 ≡ 0 → z % 8 ≡ 0 → (x + y + z) % 4 ≡ 0
    fours x y z hx hy hz = omega (arith, hx, hy, hz)
