-- ===== src/Base/Word.antt =====
-- 32-bit words, and their fields as arithmetic.
use Prim.Native.Nat.{ℕ, ◌+◌, ◌-◌, ◌*◌, ◌/◌, ◌%◌, ◌^◌, ◌<◌}

-- A conversion to `uint32_t`, or to the bit pattern of an `int`.
abbrev pub u32 : ℕ → ℕ
u32 x = x % 2 ^ 32

abbrev pub add32 : ℕ → ℕ → ℕ
add32 a b = u32 (a + b)

-- `-` on ℕ stops at 0, so the modulus is added first; for `b` below the modulus.
abbrev pub sub32 : ℕ → ℕ → ℕ
sub32 a b = u32 (a + 2 ^ 32 - b)

-- `x >> k`, `x & (2 ^ k - 1)` and `x & ~(2 ^ k - 1)`.
abbrev pub shr : ℕ → ℕ → ℕ
shr x k = x / 2 ^ k

abbrev pub low_bits : ℕ → ℕ → ℕ
low_bits x k = x % 2 ^ k

abbrev pub high_bits : ℕ → ℕ → ℕ
high_bits x k = x / 2 ^ k * 2 ^ k

-- `(uint32_t)(x << k)`
abbrev pub shl32 : ℕ → ℕ → ℕ
shl32 x k = u32 (x * 2 ^ k)

abbrev pub IsU32 : ℕ → Type 0
IsU32 x = x < 2 ^ 32
