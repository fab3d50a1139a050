-- ===== src/Conv/Files/Ends.antt =====
-- On a complete device, every conversion of a convertible file ends with the whole overlay on the
-- disk, or with an empty file.
use n_ovl.Base.{ℕ, ◌≡◌, [], some}
use n_ovl.Base.{if◌then◌else◌}
use n_ovl.Base.Word.{u32}
use n_ovl.Base.Exec.{Exec}
use n_ovl.Conv.Elf.{Elf}
use n_ovl.Conv.Load.{Loaded}
use n_ovl.Conv.Pass.{Build}
use n_ovl.Conv.Whole.Loadable.{file_of}
use n_ovl.Conv.Whole.Settled.{IsConvertible, Settled, converts}
use n_ovl.Conv.Files.{returns, leaves, convert_opened}
use n_ovl.Conv.Files.Leaves.{reliable}

-- What the two tests of the file say of the disk.
module _ (base : ℕ) (elf : Elf) (h : IsConvertible base elf) (ld : Loaded) (b : Build) where
  Ends : Type 0
  Ends = convert_opened reliable base elf ≡ (
      if converts elf ld
      then returns (file_of (u32 elf.e_entry) ld b) (some (file_of (u32 elf.e_entry) ld b))
      else leaves (some []))
