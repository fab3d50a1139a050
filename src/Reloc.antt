-- ===== src/Reloc.antt =====
-- The relocator, src/novl-reloc.c: what it keeps between two relocations, and the memory image it
-- edits (`memory` of src/novl-conv.c).
pub mod Memory
pub mod Target
pub mod Handlers
pub mod Entry
pub mod Pair
pub mod Word
pub mod DryRun
pub mod Live
pub mod Fixed
mod Tests
use n_ovl.Base.{ℕ, Option}
use n_ovl.Section.{Section}
