-- ===== src/Conv/Files.antt =====
-- `novl_conv` from its first line, with the output file on the disk: what the program has written
-- there when it returns, and what it leaves there when it ends by an error.
mod Tests
pub mod Leaves
pub mod Ends
use n_ovl.Base.{ℕ, zero, suc, ◌+◌, ◌≡◌, List, [], ◌∷◌, Option, none, some, Bool, true, false}
use n_ovl.Base.{◌==◌, if◌then◌else◌}
use n_ovl.Base.Word.{u32, sub32}
use n_ovl.Base.Exec.{Exec, ok, exit, fault}
use n_ovl.Base.Bytes.{words_bytes}
use n_ovl.Section.{Section, s_text, s_data, s_rodata, s_bss}
use n_ovl.Reloc.Memory.{Memory}
use n_ovl.Reloc.Target.{Layout}
use n_ovl.Conv.Elf.{Elf, ElfSection}
use n_ovl.Conv.Load.{Loaded, load_sections}
use n_ovl.Conv.Pass.{Prediction, predict, Build, build}
use n_ovl.Conv.Output.{OutFile, seek_to, write, relocs_by, footer_by, read_image, header_addr}
use n_ovl.Conv.Whole.{layout_of, state_of, final_layout}

-- What is at the path of the output: nothing, or a file of these bytes.
abbrev pub Disk : Type 0
Disk = Option (List ℕ)

-- A call returns with a value, it leaves the program by `exit( EXIT_FAILURE )`, or it makes an
-- access that C leaves undefined; the first two with the disk as it then is.
pub data Ending {ℓ} (A : Type ℓ) : Type ℓ where
  returns : A → Disk → Ending A
  leaves : Disk → Ending A
  undefined : Ending A

-- Behind a piece that does not touch the disk.
abbrev pub behind {ℓ κ} : {A : Type ℓ} {B : Type κ} → Disk → Exec A → (A → Ending B) → Ending B
behind disk (ok a) next = next a
behind disk exit next = leaves disk
behind disk fault next = undefined

-- `Elf_Kind`: an archive, an ELF file, or any other kind.
pub data ElfKind : Type 0 where
  k_ar : ElfKind
  k_elf : ElfKind
  k_other : ElfKind

-- The fields of `GElf_Ehdr` that are read.
pub record ElfHeader : Type 0 where
  pub e_machine : ℕ
  pub e_entry : ℕ

-- The answers of the system and of libelf: whether `open` gives a descriptor and `elf_begin` a
-- context, `elf_kind`, `gelf_getehdr`, whether `fopen` gives a file, and the sections as
-- `elf_nextscn` goes through them.
pub record Answers : Type 0 where
  pub opens : Bool
  pub begins : Bool
  pub kind : ElfKind
  pub header : Option ElfHeader
  pub writable : Bool
  pub sections : List ElfSection

-- The C library's part of the output: `fwrite`, as it changes the file's bytes and its position, and
-- what of the bytes is at the path behind `fclose`. The program looks at the result of neither, so
-- that both may leave out bytes.
pub record Device : Type 0 where
  pub fwrite : OutFile → List ℕ → OutFile
  pub closed : List ℕ → List ℕ

-- A device with room: every `fwrite` is complete, and so is what closing the file brings to the disk.
abbrev pub IsComplete : Device → Type 0
IsComplete dev =
    ((f : OutFile) (new : List ℕ) → dev.fwrite f new ≡ write f new)
    × ((bytes : List ℕ) → dev.closed bytes ≡ bytes)

-- `EM_MIPS`
abbrev pub em_mips : ℕ
em_mips = 8

-- The header of a file for another machine is refused.
abbrev pub for_mips : Option ElfHeader → Exec ElfHeader
for_mips none = exit
for_mips (some h) = if h.e_machine == em_mips then ok h else exit

-- An archive is refused, and so is what is neither.
abbrev pub of_kind : ElfKind → Option ElfHeader → Exec ElfHeader
of_kind k_ar h = exit
of_kind k_elf h = for_mips h
of_kind k_other h = exit

-- The checks up to the machine.
unfoldable pub open_elf : Answers → Exec Elf
open_elf a =
    if a.opens
    then (if a.begins
        then (elim (of_kind a.kind a.header) [
          | ok h ↦ ok (record { e_entry = h.e_entry; sections = a.sections })
          | exit ↦ exit
          | fault ↦ fault
        ])
        else exit)
    else exit

-- `remove( out )`
abbrev pub remove : Disk → Disk
remove disk = none

-- The loop over .text, .data and .rodata; a section that is not at its address ends it without the
-- file.
unfoldable pub put_sections :
    Device → Layout → ℕ → ℕ → Memory → OutFile → List Section → Ending OutFile
put_sections dev l base elf_ep m f [] = returns f (some f.bytes)
put_sections dev l base elf_ep m f (s ∷ ss) =
    if l.ovl_start s == f.pos + base
    then behind (some f.bytes) (read_image m (sub32 (l.elf_start s) elf_ep) (l.size s))
        (λ new. put_sections dev l base elf_ep m (dev.fwrite f new) ss)
    else leaves (remove (some f.bytes))

-- The last check, and `fclose`.
abbrev pub close_file : Device → ℕ → Ending OutFile → Ending (List ℕ)
close_file dev header (returns f disk) =
    if header == f.pos then returns f.bytes (some (dev.closed f.bytes)) else leaves (remove disk)
close_file dev header (leaves disk) = leaves disk
close_file dev header undefined = undefined

-- From the header to the end.
unfoldable pub put_overlay : Device → Layout → ℕ → ℕ → Memory → List ℕ → ℕ → Ending (List ℕ)
put_overlay dev l base elf_ep m relocs count =
    let header = header_addr base l.size in
    let words = l.size s_text ∷ l.size s_data ∷ l.size s_rodata ∷ l.size s_bss ∷ count ∷ [] in
    let f = dev.fwrite (record { bytes = []; pos = header }) (words_bytes words) in
    let table = relocs_by dev.fwrite f relocs in
    behind (some table.bytes) (footer_by dev.fwrite table header) (λ f'.
      if l.ovl_start s_bss == f'.pos + base
      then close_file dev header
          (put_sections dev l base elf_ep m (seek_to f' 0) (s_text ∷ s_data ∷ s_rodata ∷ []))
      else leaves (remove (some f'.bytes)))

-- Behind `fopen( out, "wb" )`, which makes the file empty: an error in the loading or in a pass
-- leaves it so.
unfoldable pub convert_opened : Device → ℕ → Elf → Ending (List ℕ)
convert_opened dev base elf =
    let elf_ep = u32 elf.e_entry in
    let empty = some [] in
    behind empty (load_sections elf_ep elf.sections) (λ ld.
      behind empty (predict (layout_of ld) elf_ep (state_of ld.memory) elf.sections) (λ p.
        behind empty (build (final_layout base ld p.count) elf_ep p.state elf.sections) (λ b.
          if p.count == b.count
          then put_overlay dev (final_layout base ld p.count) base elf_ep b.state.memory b.relocs
              b.count
          else leaves (remove empty))))

-- The whole of `novl_conv`; `disk` is what is at the output's path before.
unfoldable pub convert_file : Device → ℕ → Answers → Disk → Ending (List ℕ)
unfolding open_elf convert_opened
convert_file dev base a disk =
    behind disk (open_elf a)
      (λ elf. if a.writable then convert_opened dev base elf else leaves disk)
