-- ===== src/Printer/Conf.antt =====
-- The configuration word `mr4kd_conf` of src/opprintf.c: its flags, and the bits from 24 on.
pub mod Flags
use n_ovl.Base.{ℕ, bit_or, Bool, true, false}

-- The flags of src/opprintf.h, in the order of their bits, each a bit of its own.
pub data Flag : Type 0 where
  rtype0 rtype1 rprefix rlower olower hlower color : Flag

-- What is read of the word: the flags, and the spacing, `mr4kd_conf >> 24 & 0xFF`.
pub record Conf : Type 0 where
  pub flag : Flag → Bool
  pub spacing : ℕ

-- `mr4kd_conf` at the start of the program.
abbrev pub initial_flag : Flag → Bool
initial_flag rlower = true
initial_flag olower = true
initial_flag hlower = true
initial_flag _ = false

abbrev pub initial : Conf
initial = record { flag = initial_flag; spacing = 16 }

-- `mr4kd_conf |= space << 24`: the old spacing is not cleared first. From 128 on the shift overflows
-- an `int`.
unfoldable pub set_spacing : ℕ → Conf → Conf
set_spacing space conf = record conf { spacing = bit_or conf.spacing space }
