-- ===== src/Conv/Load/Settled.antt =====
-- When the loop over the sections returns: the test of the sections of a file, and where the
-- sections then lie in the image.
use n_ovl.Conv.Pass.{goes_on, advance}
use n_ovl.Base.{
  ℕ, ◌+◌, ◌-◌, ◌%◌, ◌^◌, ◌≤◌, ◌<◌, ◌≡◌, ◌≢◌, refl, ap, ◌∙◌, ◌⊎◌, inl, inr, arith, List, [], ◌∷◌,
  Option, none, some, Bool, true, false, not,
}
use n_ovl.Base.{
  All, length, take, ltb, leb, ◌==◌, ==_iff, if◌then◌else◌, ◌&&◌, ◌||◌, Bool-cases, Option-cases,
}
use n_ovl.Base.Word.{u32, sub32}
use n_ovl.Base.Exec.{ok, fold_exec, Settles, Settles-ok, Settles-exit, Settles-bind}
use n_ovl.Section.{Section, index, s_text, s_data, s_rodata, s_bss, valid_sec}
use n_ovl.Reloc.Memory.{Memory, memory_size}
use n_ovl.Conv.Elf.{ElfData, ElfSection}
use n_ovl.Conv.Pass.{over_blocks}
use n_ovl.Conv.Load.{
  Loaded, set_entry, align8, sht_progbits, put_bytes, load_block, load_bytes, load_named,
  load_section, load_sections,
}

-- The whole of a data descriptor is in the file, and is no longer than its section.
abbrev pub IsWhole : ℕ → ElfData → Type 0
IsWhole sh_size d = (d.d_size ≤ length d.d_buf) × (d.d_size ≤ sh_size)

-- A section of a 32-bit ELF file that either has bytes in the file and is at a distance from the
-- entry point that is a multiple of 8, or is .bss and has none.
abbrev pub IsElf32 : ℕ → ElfSection → Type 0
IsElf32 ep sec =
    (sec.sh_addr < 2 ^ 32)
    × (sec.sh_size < 2 ^ 32)
    × ((sec.sh_type ≡ sht_progbits
          × (sec.sh_addr % 8 ≡ ep % 8)
          × All (IsWhole sec.sh_size) sec.blocks)
        ⊎ (sec.sh_type ≢ sht_progbits × valid_sec sec.name ≡ some s_bss))

-- Of the sections that the overlay takes.
abbrev pub IsLoadable : ℕ → ElfSection → Type 0
IsLoadable ep sec = (valid_sec sec.name ≡ none) ⊎ IsElf32 ep sec

-- A section with bytes begins at the entry point or behind it, and ends within the image.
pub in_bounds : ℕ → ElfSection → Bool
in_bounds ep sec =
    if sec.sh_type == sht_progbits
    then leb ep sec.sh_addr && leb (sec.sh_addr + sec.sh_size) (ep + memory_size)
    else true

abbrev pub starts_after : (Section → ℕ) → Option Section → ElfSection → Section → ℕ
starts_after starts none sec = starts
starts_after starts (some id) sec = set_entry starts id (u32 sec.sh_addr)

pub accepts : ℕ → (Section → ℕ) → Option Section → ElfSection → Bool
unfolding in_bounds
accepts ep starts none sec = true
accepts ep starts (some id) sec = starts id == 0 && in_bounds ep sec

-- No section comes behind another of its name that is not at address 0, and all are in bounds.
unfoldable pub sections_accept : ℕ → (Section → ℕ) → List ElfSection → Bool
unfolding accepts
sections_accept ep starts [] = true
sections_accept ep starts (sec ∷ secs) =
    accepts ep starts (valid_sec sec.name) sec
    && sections_accept ep (starts_after starts (valid_sec sec.name) sec) secs

-- Every section but .bss is empty, or lies in the image.
abbrev pub Lies : ℕ → Loaded → Type 0
Lies ep ld =
    (s : Section)
    → (s ≡ s_bss) ⊎ ((ld.size s ≡ 0) ⊎ (sub32 (ld.elf_start s) ep + ld.size s ≤ memory_size))

-- The addresses are `starts`, and the sections lie in the image.
abbrev pub Stands : ℕ → (Section → ℕ) → Loaded → Type 0
Stands ep starts ld = (ld.elf_start ≡ starts) × Lies ep ld

blocks-load :
    (offset sh_size n : ℕ) (m : Memory) (ds : List ElfData)
    → offset + sh_size ≤ memory_size
    → All (IsWhole sh_size) ds
    → (m' : Memory) × (over_blocks (load_block offset) sh_size n m ds ≡ ok m')
unfolding over_blocks load_block
blocks-load offset sh_size n m [] h w = (m, refl)
blocks-load offset sh_size n m (d ∷ ds) h (w, ws) = elim (Bool-cases (goes_on n sh_size)) [
  | inl e ↦
      let (m', run) =
        blocks-load offset sh_size (advance n d.d_size) (put_bytes m offset (take d.d_size d.d_buf))
          ds h ws in
      (m', rw (e, fits offset d.d_size (length d.d_buf) sh_size h w.0 w.1) run)
  | inr e ↦ (m, rw e refl)
]
  where
    fits :
        (o k len n : ℕ)
        → o + n ≤ memory_size
        → k ≤ len
        → k ≤ n
        → (leb (o + k) memory_size && leb k len) ≡ true
    fits o k len n h h' h'' = ground arith

module _ (ep : ℕ) (ep_word : ep < 2 ^ 32) where
  bounds_test :
      (addr n : ℕ)
      → addr < 2 ^ 32
      → n < 2 ^ 32
      → (ltb addr ep || ltb memory_size (((addr + n) % 2 ^ 64 + 2 ^ 64 - ep) % 2 ^ 64))
        ≡ not (leb ep addr && leb (addr + n) (ep + memory_size))
  bounds_test addr n h h' = ground arith

  inside_of :
      (addr n : ℕ)
      → (leb ep addr && leb (addr + n) (ep + memory_size)) ≡ true
      → addr - ep + n ≤ memory_size
  inside_of addr n h = ground arith

  load_bytes-Settles :
      (ld : Loaded) (sec : ElfSection)
      → IsElf32 ep sec
      → Settles
          (λ ld'. (ld'.elf_start ≡ ld.elf_start) × (ld'.size ≡ ld.size))
          (in_bounds ep sec)
          (load_bytes ep ld sec)
  unfolding load_bytes in_bounds
  load_bytes-Settles ld sec (addr_word, size_word, inr (other, _)) =
      rw no_bytes (Settles-ok _ ld (refl, refl))
    where
      no_bytes : (sec.sh_type == sht_progbits) ≡ false
      no_bytes = ground (arith, other)
  load_bytes-Settles ld sec (addr_word, size_word, inl (bytes, _, whole)) =
      rw (bytes, bounds_test sec.sh_addr sec.sh_size addr_word size_word)
        (elim (Bool-cases
          (leb ep sec.sh_addr && leb (sec.sh_addr + sec.sh_size) (ep + memory_size))) [
            | inr e ↦ rw e (Settles-exit _)
            | inl e ↦
                let (m', run) =
                  blocks-load (sec.sh_addr - ep) sec.sh_size 0 ld.memory sec.blocks
                    (inside_of sec.sh_addr sec.sh_size e) whole in
                rw (e, run) (Settles-ok _ _ (refl, refl))
          ])

  aligned_end :
      (addr n : ℕ)
      → addr < 2 ^ 32
      → addr % 8 ≡ ep % 8
      → (leb ep addr && leb (addr + n) (ep + memory_size)) ≡ true
      → sub32 (u32 addr) ep + align8 n ≤ memory_size
  aligned_end addr n h al e = omega (arith, distance, size, inside_of addr n e)
    where
      in_order : ep ≤ addr
      in_order = ground (arith, e)

      distance : sub32 (u32 addr) ep ≡ addr - ep
      distance = omega (arith, in_order, ep_word)

      size : align8 n ≤ memory_size - (addr - ep)
      size = omega (arith, inside_of addr n e, in_order, al)

  index-bss : (s : Section) → index s ≡ 3 → s ≡ s_bss
  index-bss s_text e = absurd (omega arith)
  index-bss s_data e = absurd (omega arith)
  index-bss s_rodata e = absurd (omega arith)
  index-bss s_bss e = refl

  noted : Loaded → ElfSection → Section → Loaded
  noted ld sec id = record ld {
    elf_start = set_entry ld.elf_start id (u32 sec.sh_addr);
    size = set_entry ld.size id (align8 sec.sh_size);
  }

  noted-Lies :
      (ld : Loaded) (sec : ElfSection) (id : Section)
      → IsElf32 ep sec
      → valid_sec sec.name ≡ some id
      → in_bounds ep sec ≡ true
      → Lies ep ld
      → Lies ep (noted ld sec id)
  unfolding noted in_bounds
  noted-Lies ld sec id (addr_word, size_word, kind) named fits h s =
      elim (Bool-cases (index s == index id)) [
        | inr e ↦ rw e (h s)
        | inl e ↦ elim kind [
          | inl (bytes, al, whole) ↦
              rw e (inr (inr (aligned_end sec.sh_addr sec.sh_size addr_word al (rw bytes at fits))))
          | inr (other, bss) ↦
              inl (index-bss s ((==_iff (index s) (index id)).0 e ∙ ap index (same bss)))
        ]
      ]
    where
      same : valid_sec sec.name ≡ some s_bss → id ≡ s_bss
      same bss = cc (named, bss)

  section-Settles :
      (ld : Loaded) (sec : ElfSection)
      → IsLoadable ep sec
      → Lies ep ld
      → Settles
          (Stands ep (starts_after ld.elf_start (valid_sec sec.name) sec))
          (accepts ep ld.elf_start (valid_sec sec.name) sec)
          (load_section ep ld sec)
  unfolding load_section load_named accepts noted
  section-Settles ld sec h lies = elim (Option-cases (valid_sec sec.name)) [
    | inl e ↦ rw e (Settles-ok _ ld (refl, lies))
    | inr (id, e) ↦ elim h [
      | inl e' ↦ absurd (cc (e, e'))
      | inr good ↦ elim (Bool-cases (ld.elf_start id == 0)) [
        | inr u ↦ rw (e, u) (Settles-exit _)
        | inl u ↦
            let (accepted, refused) = load_bytes-Settles (noted ld sec id) sec good in
            rw (e, u)
              (
                λ fits.
                    let (ld', run, (starts, sizes)) = accepted fits in
                    (
                      ld',
                      run,
                      (starts, λ s. rw (starts, sizes) (noted-Lies ld sec id good e fits lies s)),
                    ),
                refused,
              )
      ]
    ]
  ]

  loop-Settles :
      (secs : List ElfSection) (ld : Loaded)
      → All (IsLoadable ep) secs
      → Lies ep ld
      → Settles
          (Lies ep)
          (sections_accept ep ld.elf_start secs)
          (fold_exec (load_section ep) ld secs)
  unfolding sections_accept
  loop-Settles [] ld h lies = Settles-ok _ ld lies
  loop-Settles (sec ∷ secs) ld (h, hs) lies =
      Settles-bind _ (Lies ep) _ _ _ _ (section-Settles ld sec h lies)
        (λ ld' (starts, lies'). rw (← starts) (loop-Settles secs ld' hs lies'))

-- The loop over the sections of a 32-bit ELF file either returns or leaves the program, and makes no
-- undefined access: it returns exactly if no section comes behind another of its name that is not at
-- address 0, and every section with bytes begins at the entry point or behind it and ends in the
-- image. Then every section but .bss, with its rounded size, is empty or lies in the image.
pub load_sections-Settles :
    (ep : ℕ) (secs : List ElfSection)
    → ep < 2 ^ 32
    → All (IsLoadable ep) secs
    → Settles (Lies ep) (sections_accept ep (λ s. 0) secs) (load_sections ep secs)
unfolding load_sections
load_sections-Settles ep secs ep_word h = loop-Settles ep ep_word secs _ h (λ s. inr (inl refl))
