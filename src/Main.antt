-- ===== src/Main.antt =====
-- The program itself: src/main.c, with the names of relocation types (src/novl.c) and the sizes for
-- people (src/func.c).
pub mod RelocNames
pub mod FormatValue
pub mod Args
pub mod Listing
pub mod Run
mod Tests
