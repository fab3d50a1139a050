-- ===== src/Conv/Load/Sizes.antt =====
-- What holds of the sizes and addresses that the loop over the sections leaves.
use n_ovl.Base.{ℕ, ◌-◌, ◌%◌, ◌≡◌, refl, arith, List, Option, none, some, inl, inr}
use n_ovl.Base.{Bool-cases, ltb, ◌==◌, ◌||◌}
use n_ovl.Base.Word.{u32, IsU32}
use n_ovl.Base.Exec.{ok, OnOk, OnOk-bind, OnOk-fold_exec, OnOk-elim, OnOk-any}
use n_ovl.Section.{Section, valid_sec}
use n_ovl.Reloc.Memory.{memory_size}
use n_ovl.Conv.Elf.{ElfSection}
use n_ovl.Conv.Pass.{over_blocks}
use n_ovl.Conv.Load.{
  Loaded, set_entry, align8, reach, sht_progbits, load_block, load_bytes, load_named, load_section,
  load_sections,
}

-- Sizes are multiples of 8, and sizes and addresses are 32-bit words.
pub record IsSized (ld : Loaded) : Type 0 where
  pub eights : (s : Section) → ld.size s % 8 ≡ 0
  pub size_word : (s : Section) → IsU32 (ld.size s)
  pub start_word : (s : Section) → IsU32 (ld.elf_start s)

set_entry-IsSized :
    (ld : Loaded) (id : Section) (addr n : ℕ)
    → IsSized ld
    → IsSized (record ld {
      elf_start = set_entry ld.elf_start id (u32 addr);
      size = set_entry ld.size id (align8 n);
    })
set_entry-IsSized ld id addr n h = record {
  eights = λ s. ground (arith, h.eights s);
  size_word = λ s. ground (arith, h.size_word s);
  start_word = λ s. ground (arith, h.start_word s);
}

load_bytes-IsSized :
    (elf_ep : ℕ) (ld : Loaded) (sec : ElfSection)
    → IsSized ld
    → OnOk IsSized (load_bytes elf_ep ld sec)
unfolding load_bytes
load_bytes-IsSized elf_ep ld sec h = elim (Bool-cases (sec.sh_type == sht_progbits)) [
  | inr e ↦ rw e h
  | inl e ↦ rw e (elim (Bool-cases (ltb sec.sh_addr elf_ep || ltb memory_size (reach elf_ep sec))) [
    | inl e' ↦ rw e' tt
    | inr e' ↦ rw e' (
        OnOk-bind (λ _. Unit {0}) IsSized
          (over_blocks (load_block (sec.sh_addr - elf_ep)) sec.sh_size 0 ld.memory sec.blocks) _
          (OnOk-any _)
          (λ m _. record { eights = h.eights; size_word = h.size_word; start_word = h.start_word }))
  ])
]

load_named-IsSized :
    (elf_ep : ℕ) (ld : Loaded) (sec : ElfSection) (found : Option Section)
    → IsSized ld
    → OnOk IsSized (load_named elf_ep ld sec found)
unfolding load_named
load_named-IsSized elf_ep ld sec none h = h
load_named-IsSized elf_ep ld sec (some id) h = elim (Bool-cases (ld.elf_start id == 0)) [
  | inl e ↦
      rw e (load_bytes-IsSized elf_ep _ sec (set_entry-IsSized ld id sec.sh_addr sec.sh_size h))
  | inr e ↦ rw e tt
]

-- If the loop over the sections returns, every section's size is a multiple of 8, and sizes and
-- addresses are 32-bit words, whatever the fields of the ELF file are.
pub load_sections-IsSized :
    (elf_ep : ℕ) (sections : List ElfSection) (ld : Loaded)
    → load_sections elf_ep sections ≡ ok ld
    → IsSized ld
unfolding load_sections load_section
load_sections-IsSized elf_ep sections ld e = OnOk-elim IsSized _ e (
    OnOk-fold_exec IsSized (load_section elf_ep)
      (λ l sec h. load_named-IsSized elf_ep l sec (valid_sec sec.name) h) sections _
      (record { eights = λ s. refl; size_word = λ s. omega arith; start_word = λ s. omega arith }))
