-- ===== src/Printer/Text.antt =====
-- Numbers and padding as `sprintf` prints them. A text is the list of its characters' codes.
use n_ovl.Base.{ℕ, zero, suc, ◌+◌, ◌-◌, ◌/◌, ◌%◌, ◌^◌, List, [], ◌∷◌, ◌++◌, Bool}
use n_ovl.Base.{length, replicate, ltb, leb, if◌then◌else◌, ◌&&◌}

abbrev pub space : ℕ
space = b' '

-- `tolower` and `toupper` of the C locale.
unfoldable pub to_lower : ℕ → ℕ
to_lower c = if leb b'A' c && leb c b'Z' then c + 32 else c

unfoldable pub to_upper : ℕ → ℕ
to_upper c = if leb b'a' c && leb c b'z' then c - 32 else c

-- The digit of a value below 16; `lower` is `%x`, otherwise it is `%X`.
unfoldable pub hex_digit : Bool → ℕ → ℕ
hex_digit lower n = if ltb n 10 then n + b'0' else (if lower then n - 10 + b'a' else n - 10 + b'A')

-- `%04x` and its like, for a value that has no more than `width` digits.
unfoldable pub hex : Bool → ℕ → ℕ → List ℕ
unfolding hex_digit
hex lower zero n = []
hex lower (suc width) n = hex lower width (n / 16) ++ (hex_digit lower (n % 16) ∷ [])

-- `%u`, for a value that has no more than `width` digits.
unfoldable pub decimal : ℕ → ℕ → List ℕ
decimal zero n = []
decimal (suc width) n =
    let digits = decimal width (n / 10) in
    (if ltb n 10 then [] else digits) ++ ((n % 10 + b'0') ∷ [])

-- `%i`, for a 16-bit pattern.
unfoldable pub signed : ℕ → List ℕ
unfolding decimal
signed n = if ltb n (2 ^ 15) then decimal 5 n else b'-' ∷ decimal 5 (2 ^ 16 - n)

-- `%-*s`
unfoldable pub pad_right : ℕ → List ℕ → List ℕ
pad_right width s = s ++ replicate (width - length s) space
