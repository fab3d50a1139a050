-- ===== src/Conv/Load/Bytes.antt =====
-- The bytes that the loop over the sections copies.
use n_ovl.Base.{
  ℕ, zero, suc, ◌+◌, ◌-◌, ◌%◌, ◌*◌, ◌/◌, ◌^◌, ◌≤◌, ◌<◌, ◌≡◌, refl, sym, ap, ◌∙◌, ◌⊎◌, inl, inr,
  arith, List, [], ◌∷◌, some, true, false,
}
use n_ovl.Base.{length, take, get_elem?, ltb, leb, ◌==◌, if◌then◌else◌, ◌&&◌, ◌||◌}
use n_ovl.Base.Word.{u32}
use n_ovl.Base.Exec.{ok}
use n_ovl.Section.{Section, valid_sec}
use n_ovl.Reloc.Memory.{Memory, memory_size}
use n_ovl.Conv.Elf.{ElfData, ElfSection}
use n_ovl.Conv.Pass.{goes_on, over_blocks}
use n_ovl.Conv.Load.{
  Loaded, set_entry, align8, end_of, sht_progbits, put_bytes, load_block, load_bytes, load_named,
  load_section,
}

put_bytes-outside :
    (m : Memory) (p : ℕ) (bs : List ℕ) (a : ℕ)
    → (a < p) ⊎ (p + length bs ≤ a)
    → put_bytes m p bs a ≡ m a
unfolding put_bytes
put_bytes-outside m p [] a h = refl
put_bytes-outside m p (b ∷ bs) a h =
    rw (put_bytes, elsewhere a p (length bs) h)
      (put_bytes-outside m (p + 1) bs a (further a p (length bs) h))
  where
    elsewhere : (a p n : ℕ) → (a < p) ⊎ (p + suc n ≤ a) → (a == p) ≡ false
    elsewhere a p n h = ground arith

    further : (a p n : ℕ) → (a < p) ⊎ (p + suc n ≤ a) → (a < p + 1) ⊎ (p + 1 + n ≤ a)
    further a p n (inl h) = inl (omega arith)
    further a p n (inr h) = inr (omega arith)

put_bytes-inside :
    (m : Memory) (p : ℕ) (bs : List ℕ) (k : ℕ)
    → k < length bs
    → get_elem? bs k ≡ some (put_bytes m p bs (p + k))
unfolding put_bytes
put_bytes-inside m p [] k h = absurd (omega arith)
put_bytes-inside m p (b ∷ bs) zero h = rw here refl
  where
    here : (p + 0 == p) ≡ true
    here = ground arith
put_bytes-inside m p (b ∷ bs) (suc k) h =
    rw (put_bytes, behind p k, next p k) (put_bytes-inside m (p + 1) bs k (omega arith))
  where
    behind : (p k : ℕ) → (p + suc k == p) ≡ false
    behind p k = ground arith

    next : (p k : ℕ) → p + suc k ≡ p + 1 + k
    next p k = omega arith

take-all : (n : ℕ) (bs : List ℕ) → n ≡ length bs → take n bs ≡ bs
take-all zero [] e = refl
take-all zero (b ∷ bs) e = absurd (omega arith)
take-all (suc n) [] e = absurd (omega arith)
take-all (suc n) (b ∷ bs) e = ap (λ (l : List ℕ). b ∷ l) (take-all n bs (omega arith))

-- The record that the section of one block leaves.
abbrev pub with_section : ℕ → Loaded → ElfSection → ElfData → Section → Loaded
with_section elf_ep ld sec b id = record {
  elf_start = set_entry ld.elf_start id (u32 sec.sh_addr);
  size = set_entry ld.size id (align8 sec.sh_size);
  memory = put_bytes ld.memory (sec.sh_addr - elf_ep) b.d_buf;
  greatest = if ltb ld.greatest (end_of sec) then u32 (end_of sec) else ld.greatest;
}

one_block :
    (offset : ℕ) (m : Memory) (sec : ElfSection) (b : ElfData)
    → sec.blocks ≡ b ∷ []
    → 0 < sec.sh_size
    → b.d_size ≡ length b.d_buf
    → offset + b.d_size ≤ memory_size
    → over_blocks (load_block offset) sec.sh_size 0 m sec.blocks ≡ ok (put_bytes m offset b.d_buf)
unfolding over_blocks goes_on load_block put_bytes
one_block offset m sec b e some_ whole inside =
    rw
      (
        e,
        first sec.sh_size some_,
        fits offset b.d_size (length b.d_buf) inside whole,
        take-all b.d_size b.d_buf whole,
      )
      refl
  where
    first : (n : ℕ) → 0 < n → ltb 0 n ≡ true
    first n h = ground arith

    fits : (o n k : ℕ) → o + n ≤ memory_size → n ≡ k → (leb (o + n) memory_size && leb n k) ≡ true
    fits o n k h e = ground arith

-- A section of one of the four names with bytes in the file, the first of its name, that begins at
-- the entry point or behind it, ends within the memory image, is not empty, and has its bytes in one
-- block: the loop's round for it returns, the image then holds its bytes at its distance from the
-- entry point and is unchanged elsewhere, and its address and its rounded size are noted.
pub load_section-bytes :
    (elf_ep : ℕ) (ld : Loaded) (sec : ElfSection) (b : ElfData) (id : Section)
    → valid_sec sec.name ≡ some id
    → ld.elf_start id ≡ 0
    → sec.sh_type ≡ sht_progbits
    → elf_ep ≤ sec.sh_addr
    → sec.sh_addr - elf_ep + sec.sh_size ≤ memory_size
    → sec.sh_addr + sec.sh_size < 2 ^ 64
    → 0 < sec.sh_size
    → sec.blocks ≡ b ∷ []
    → b.d_size ≡ sec.sh_size
    → length b.d_buf ≡ sec.sh_size
    → (ld' : Loaded) × (load_section elf_ep ld sec ≡ ok ld')
      × ((k : ℕ)
          → k < sec.sh_size
          → get_elem? b.d_buf k ≡ some (ld'.memory (sec.sh_addr - elf_ep + k)))
      × ((a : ℕ)
          → (a < sec.sh_addr - elf_ep) ⊎ (sec.sh_addr - elf_ep + sec.sh_size ≤ a)
          → ld'.memory a ≡ ld.memory a)
      × (ld'.elf_start id ≡ u32 sec.sh_addr)
      × (ld'.size id ≡ u32 ((sec.sh_size + 7) % 2 ^ 64 / 8 * 8))
unfolding load_section load_named load_bytes
load_section-bytes elf_ep ld sec b id named fresh progbits before within narrow some_ e size whole =
    (
      with_section elf_ep ld sec b id,
      rw
          (
            named,
            fresh,
            progbits,
            allowed elf_ep sec.sh_addr sec.sh_size before within narrow,
            one_block (sec.sh_addr - elf_ep) ld.memory sec b e some_ (size ∙ sym whole)
                (omega (arith, size, within)),
          )
          refl,
      λ k h. put_bytes-inside ld.memory (sec.sh_addr - elf_ep) b.d_buf k (omega (arith, whole, h)),
      λ a h. put_bytes-outside ld.memory (sec.sh_addr - elf_ep) b.d_buf a (rw whole h),
      ground arith,
      ground arith,
    )
  where
    allowed :
        (ep addr n : ℕ)
        → ep ≤ addr
        → addr - ep + n ≤ memory_size
        → addr + n < 2 ^ 64
        → (ltb addr ep || ltb memory_size (((addr + n) % 2 ^ 64 + 2 ^ 64 - ep) % 2 ^ 64)) ≡ false
    allowed ep addr n h h' h'' = ground arith
