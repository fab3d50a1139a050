-- ===== src/Conv.antt =====
-- The conversion of an ELF file to an overlay, `novl_conv` of src/novl-conv.c.
mod Tests
pub mod Elf
pub mod Load
pub mod Sort
pub mod Pass
pub mod Output
pub mod Whole
pub mod Files
