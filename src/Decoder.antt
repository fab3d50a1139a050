-- ===== src/Decoder.antt =====
-- The disassembler, src/decoder.c: a switch over the opcode and, for some opcodes, a second and a
-- third one. Each of its functions prints by one call of `mr4kd_sprintf`, and is an `Op` here.
pub mod Op
pub mod Special
pub mod Regimm
pub mod Immediate
pub mod Cop0
pub mod Single
pub mod Double
pub mod Cop1
pub mod Storage
pub mod Disassemble
pub mod Fitting
pub mod Safety
pub mod Jumps
pub mod Split
mod Tests
