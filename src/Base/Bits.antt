-- ===== src/Base/Bits.antt =====
-- `|` of two values that share no bit is their sum, at every width.
use Prim.Native.Nat.{
  ℕ, zero, suc, ◌+◌, ◌*◌, ◌/◌, ◌%◌, ◌^◌, ◌≤◌, ◌<◌, max, bit_or, digits, bit_or-bitwise,
}
use mathlib.Core.Path.{◌≡◌, refl, ap}
use native.Mathlib.Omega.{arith}
use native.Mathlib.Nat.{pow-suc}

abbrev or_digits : ℕ → ℕ → ℕ → ℕ
or_digits n a b = digits (λ y. y) max n a b

-- Fuel beyond the number of digits changes nothing.
or_digits_enough : (n m a b : ℕ) → a ≤ n → a ≤ m → or_digits n a b ≡ or_digits m a b
or_digits_enough zero zero a b p q = refl
or_digits_enough zero (suc m) zero b p q = refl
or_digits_enough zero (suc m) (suc a) b p q = absurd (omega arith)
or_digits_enough (suc n) zero zero b p q = refl
or_digits_enough (suc n) zero (suc a) b p q = absurd (omega arith)
or_digits_enough (suc n) (suc m) zero b p q = refl
or_digits_enough (suc n) (suc m) (suc a) b p q =
    omega (arith, or_digits_enough n m (suc a / 2) (b / 2) (omega arith) (omega arith))

zero-bit_or : (b : ℕ) → bit_or 0 b ≡ b
zero-bit_or b = bit_or-bitwise 0 b

-- The lowest digit of `a | b`, and the digits above it.
bit_or_lowest : (a b : ℕ) → bit_or a b ≡ bit_or (a / 2) (b / 2) * 2 + max (a % 2) (b % 2)
bit_or_lowest zero b = omega (arith, zero-bit_or b, zero-bit_or (b / 2))
bit_or_lowest (suc a) b = omega (
  arith,
  bit_or-bitwise (suc a) b,
  bit_or-bitwise (suc a / 2) (b / 2),
  or_digits_enough a (suc a / 2) (suc a / 2) (b / 2) (omega arith) (omega arith),
)

bit_or-zero_enough : (n a : ℕ) → a ≤ n → bit_or a 0 ≡ a
bit_or-zero_enough n zero h = refl
bit_or-zero_enough zero (suc a) h = absurd (omega arith)
bit_or-zero_enough (suc n) (suc a) h =
    omega (arith, bit_or_lowest (suc a) 0, bit_or-zero_enough n (suc a / 2) (omega arith))

-- A multiple of `2 ^ k` and a value below `2 ^ k`.
pub bit_or_apart : (k q r : ℕ) → r < 2 ^ k → bit_or (q * 2 ^ k) r ≡ q * 2 ^ k + r
bit_or_apart zero q zero h = ground (arith, bit_or-zero_enough q q)
bit_or_apart zero q (suc r) h = absurd (omega arith)
bit_or_apart (suc k) q r h = ground (
  arith,
  bit_or_lowest (q * 2 ^ suc k) r,
  doubled,
  pow-suc 2 k,
  bit_or_apart k q (r / 2) (omega (arith, pow-suc 2 k)),
)
  where
    doubled : q * 2 ^ suc k ≡ 2 * (q * 2 ^ k)
    doubled = omega (arith, ap (λ (t : ℕ). q * t) (pow-suc 2 k))

bit_or_comm_enough : (n a b : ℕ) → a ≤ n → bit_or a b ≡ bit_or b a
bit_or_comm_enough n zero b h = omega (arith, zero-bit_or b, bit_or-zero_enough b b)
bit_or_comm_enough zero (suc a) b h = absurd (omega arith)
bit_or_comm_enough (suc n) (suc a) b h = omega (
  arith,
  bit_or_lowest (suc a) b,
  bit_or_lowest b (suc a),
  bit_or_comm_enough n (suc a / 2) (b / 2) (omega arith),
)

pub bit_or_comm : (a b : ℕ) → bit_or a b ≡ bit_or b a
bit_or_comm a b = bit_or_comm_enough a a b (omega arith)

-- A field that is put in above `k` bits leaves those as they are.
pub bit_or_above :
    (k q s r : ℕ) → r < 2 ^ k → bit_or (q * 2 ^ k + r) (s * 2 ^ k) ≡ bit_or q s * 2 ^ k + r
bit_or_above zero q s zero h = ground arith
bit_or_above zero q s (suc r) h = absurd (omega arith)
bit_or_above (suc k) q s r h = ground (
  arith,
  bit_or_lowest (q * 2 ^ suc k + r) (s * 2 ^ suc k),
  doubled q,
  doubled s,
  doubled (bit_or q s),
  pow-suc 2 k,
  bit_or_above k q s (r / 2) (omega (arith, pow-suc 2 k)),
)
  where
    doubled : (x : ℕ) → x * 2 ^ suc k ≡ 2 * (x * 2 ^ k)
    doubled x = omega (arith, ap (λ (t : ℕ). x * t) (pow-suc 2 k))
