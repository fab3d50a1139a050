-- ===== src/Printer.antt =====
-- The printing of one instruction, src/opprintf.c.
pub mod Text
pub mod Names
pub mod Conf
pub mod Format
pub mod Lengths
pub mod Safety
pub mod Hex
mod Tests
