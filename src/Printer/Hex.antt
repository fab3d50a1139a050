-- ===== src/Printer/Hex.antt =====
-- A number that is printed in hexadecimal reads back.
use n_ovl.Base.{
  ℕ, zero, suc, ◌+◌, ◌-◌, ◌*◌, ◌/◌, ◌%◌, ◌^◌, ◌<◌, ◌≡◌, refl, ◌∙◌, arith, List, [], ◌∷◌, ◌++◌, Bool,
  true, false,
}
use n_ovl.Base.{leb, if◌then◌else◌}
use native.Mathlib.Nat.{pow-suc}
use n_ovl.Printer.Text.{hex_digit, hex}

-- The value of a digit, in either case.
unfoldable pub digit_value : ℕ → ℕ
digit_value c =
    if leb c b'9' then c - b'0' else (if leb c b'F' then c - b'A' + 10 else c - b'a' + 10)

unfoldable pub hex_value_from : ℕ → List ℕ → ℕ
unfolding digit_value
hex_value_from n [] = n
hex_value_from n (c ∷ cs) = hex_value_from (n * 16 + digit_value c) cs

hex_value-append :
    (n c : ℕ) (cs : List ℕ)
    → hex_value_from n (cs ++ (c ∷ [])) ≡ hex_value_from n cs * 16 + digit_value c
unfolding hex_value_from
hex_value-append n c [] = refl
hex_value-append n c (d ∷ cs) = hex_value-append (n * 16 + digit_value d) c cs

digit_value-hex_digit : (lower : Bool) (n : ℕ) → n < 16 → digit_value (hex_digit lower n) ≡ n
unfolding digit_value hex_digit
digit_value-hex_digit true n h = ground arith
digit_value-hex_digit false n h = ground arith

-- The digits of a number that has no more than `width` of them, in lower or upper case, have the
-- number as their value.
pub hex_value-hex :
    (lower : Bool) (width n : ℕ) → n < 16 ^ width → hex_value_from 0 (hex lower width n) ≡ n
unfolding hex hex_value_from
hex_value-hex lower zero n h = omega (arith, h)
hex_value-hex lower (suc width) n h =
    hex_value-append 0 (hex_digit lower (n % 16)) (hex lower width (n / 16))
    ∙ omega (
      arith,
      hex_value-hex lower width (n / 16) (omega (arith, h, pow-suc 16 width)),
      digit_value-hex_digit lower (n % 16) (omega arith),
    )
