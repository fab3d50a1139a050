-- ===== src/Conv/Load.antt =====
-- The first loop of `novl_conv`: the sections of the ELF file that the overlay takes, and the copy of
-- their bytes to the memory image.
mod Tests
pub mod Bytes
pub mod Sizes
pub mod Settled
use n_ovl.Base.{
  ℕ, zero, suc, ◌+◌, ◌-◌, ◌*◌, ◌/◌, ◌%◌, ◌^◌, List, [], ◌∷◌, Option, none, some, Bool, true, false,
}
use n_ovl.Base.{length, take, ltb, leb, not, ◌==◌, if◌then◌else◌, ◌&&◌, ◌||◌}
use n_ovl.Base.Word.{u32, sub32}
use n_ovl.Base.Exec.{Exec, ok, exit, fault, ◌>>=◌, fold_exec}
use n_ovl.Section.{Section, index, valid_sec}
use n_ovl.Reloc.Memory.{Memory, memory_size, zeroed}
use n_ovl.Reloc.Target.{Layout}
use n_ovl.Conv.Elf.{ElfData, ElfSection}
use n_ovl.Conv.Pass.{over_blocks}

-- `elf_starts`, `sizes`, `memory` and `greatest`.
pub record Loaded : Type 0 where
  pub elf_start : Section → ℕ
  pub size : Section → ℕ
  pub memory : Memory
  pub greatest : ℕ

-- An array with one entry set.
abbrev pub set_entry : (Section → ℕ) → Section → ℕ → Section → ℕ
set_entry f id v s = if index s == index id then v else f s

-- `(sh_size + 7) & ~7`, stored in a `uint32_t`.
abbrev pub align8 : ℕ → ℕ
align8 n = u32 ((n + 7) % 2 ^ 64 / 8 * 8)

-- The sums and differences of the 64-bit fields.
abbrev pub end_of : ElfSection → ℕ
end_of sec = (sec.sh_addr + sec.sh_size) % 2 ^ 64

abbrev pub reach : ℕ → ElfSection → ℕ
reach elf_ep sec = (end_of sec + 2 ^ 64 - elf_ep) % 2 ^ 64

-- The bytes of the list from a position on.
unfoldable pub put_bytes : Memory → ℕ → List ℕ → Memory
put_bytes m p [] a = m a
put_bytes m p (b ∷ bs) a = if a == p then b else put_bytes m (p + 1) bs a

-- `memcpy( memory + (sh_addr - elf_ep), data->d_buf, data->d_size )`: each block of a section goes
-- to the section's start.
unfoldable pub load_block : ℕ → Memory → ElfData → Exec Memory
load_block offset m b =
    if leb (offset + b.d_size) memory_size && leb b.d_size (length b.d_buf)
    then ok (put_bytes m offset (take b.d_size b.d_buf))
    else fault

-- `SHT_PROGBITS`
abbrev pub sht_progbits : ℕ
sht_progbits = 1

-- The bytes of a section, `greatest` and the check of the bounds included.
unfoldable pub load_bytes : ℕ → Loaded → ElfSection → Exec Loaded
load_bytes elf_ep ld sec =
    if sec.sh_type == sht_progbits
    then (if ltb sec.sh_addr elf_ep || ltb memory_size (reach elf_ep sec) then exit else (do
      m ← over_blocks (load_block (sec.sh_addr - elf_ep)) sec.sh_size 0 ld.memory sec.blocks
      ok (record ld {
        memory = m;
        greatest = if ltb ld.greatest (end_of sec) then u32 (end_of sec) else ld.greatest;
      })))
    else ok ld

-- A section of one of the four names; a second one of a name is an error, if the first one's
-- address is not zero.
unfoldable pub load_named : ℕ → Loaded → ElfSection → Option Section → Exec Loaded
load_named elf_ep ld sec none = ok ld
load_named elf_ep ld sec (some id) =
    if ld.elf_start id == 0
    then load_bytes elf_ep
        (record ld {
          elf_start = set_entry ld.elf_start id (u32 sec.sh_addr);
          size = set_entry ld.size id (align8 sec.sh_size);
        })
        sec
    else exit

unfoldable pub load_section : ℕ → Loaded → ElfSection → Exec Loaded
load_section elf_ep ld sec = load_named elf_ep ld sec (valid_sec sec.name)

-- The loop over the sections, from the arrays set to zero.
unfoldable pub load_sections : ℕ → List ElfSection → Exec Loaded
load_sections elf_ep sections =
    fold_exec (load_section elf_ep)
      (record { elf_start = λ s. 0; size = λ s. 0; memory = zeroed; greatest = 0 }) sections
