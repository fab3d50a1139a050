-- ===== src/Conv/Elf.antt =====
-- What libelf hands to `novl_conv`: the sections of the file in their order, each with its header
-- and its data descriptors. The library itself is not modelled; an `Elf` is what its calls return.
use n_ovl.Base.{ℕ, List}

-- `GElf_Rel`
pub record Rel : Type 0 where
  pub r_offset : ℕ
  pub r_info : ℕ

-- One `Elf_Data` of a section, and what `gelf_getrel` reads from it until it fails.
pub record ElfData : Type 0 where
  pub d_size : ℕ
  pub d_buf : List ℕ
  pub rels : List Rel

-- A section: the name that `elf_strptr` finds, the fields of `GElf_Shdr` that are read, and the
-- results of `elf_getdata` until it fails.
pub record ElfSection : Type 0 where
  pub name : List ℕ
  pub sh_addr : ℕ
  pub sh_size : ℕ
  pub sh_type : ℕ
  pub blocks : List ElfData

-- `e_entry`, and the sections in the order of `elf_nextscn`.
pub record Elf : Type 0 where
  pub e_entry : ℕ
  pub sections : List ElfSection
