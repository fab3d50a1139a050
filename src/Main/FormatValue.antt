-- ===== src/Main/FormatValue.antt =====
-- `format_value` of src/func.c. The divisors are powers of two, so that the quotient is exact in a
-- `double`, and `%.*f` rounds it to the nearest value, from the middle to the even one.
pub mod Rounding
use n_ovl.Base.{ℕ, ◌+◌, ◌*◌, ◌/◌, ◌%◌, List, [], ◌∷◌, ◌++◌}
use n_ovl.Base.{ltb, ◌==◌, if◌then◌else◌, ◌||◌, ◌&&◌}
use n_ovl.Printer.Text.{decimal}

-- `n / d`, rounded.
unfoldable pub rounded : ℕ → ℕ → ℕ
rounded n d = if ltb d (n % d * 2) || (n % d * 2 == d && n / d % 2 == 1) then n / d + 1 else n / d

-- `%.2f` of hundredths.
unfoldable pub two_places : ℕ → List ℕ
unfolding decimal
two_places hundredths =
    decimal 10 (hundredths / 100)
    ++ (b'.' ∷ (hundredths / 10 % 10 + b'0') ∷ (hundredths % 10 + b'0') ∷ [])

-- The three rows of `spec`.
unfoldable pub format_value : ℕ → List ℕ
unfolding rounded two_places
format_value val =
    if ltb val 1024
    then decimal 10 val ++ (b'b' ∷ [])
    else if ltb val (1024 * 1024)
    then two_places (rounded (val * 100) 1024) ++ (b'k' ∷ [])
    else two_places (rounded (val * 100) (1024 * 1024)) ++ (b'm' ∷ [])
