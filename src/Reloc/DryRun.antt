-- ===== src/Reloc/DryRun.antt =====
-- A dry run against the real run of the same relocations: both answer the same, as long as every
-- relocation is of a word that no earlier one has touched.
pub mod States
pub mod Handlers
pub mod Step
pub mod Checked
pub mod Kept
