-- ===== src/Decoder/Op.antt =====
-- What a function of src/decoder.c prints.
use Prim.Native.String.{String}

-- A call of `mr4kd_sprintf` with the instruction's name and the format, or `RESERV`.
pub data Op : Type 0 where
  text : String → String → Op
  reserv : Op
