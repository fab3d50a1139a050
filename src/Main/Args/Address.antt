-- ===== src/Main/Args/Address.antt =====
-- The address that is given with `-A`.
use n_ovl.Base.{
  ℕ, zero, suc, ◌+◌, ◌*◌, ◌/◌, ◌%◌, ◌^◌, ◌<◌, ◌≡◌, refl, sym, ap, ◌∙◌, arith, List, [], ◌∷◌, ◌++◌,
  Option, none, some, Bool, true, false,
}
use n_ovl.Base.Word.{IsU32}
use mathlib.Core.List.{append-nil, append_assoc}
use native.Mathlib.Nat.{pow-suc}
use n_ovl.Printer.Text.{hex_digit, hex}
use n_ovl.Printer.Format.{prefixed}
use n_ovl.Main.Args.{hex_digit_of, scan_digits, scan_number, stored, scan_hex}

hex_digit_of-hex_digit : (lower : Bool) (n : ℕ) → n < 16 → hex_digit_of (hex_digit lower n) ≡ some n
unfolding hex_digit_of hex_digit
hex_digit_of-hex_digit true n h = ground arith
hex_digit_of-hex_digit false n h = ground arith

scan_digits-cons :
    (c d n : ℕ) (rest : List ℕ)
    → hex_digit_of c ≡ some d
    → scan_digits n (c ∷ rest) ≡ scan_digits (n * 16 + d) rest
unfolding scan_digits
scan_digits-cons c d n rest e = rw (scan_digits, e) refl

scan_digits-hex :
    (lower : Bool) (width n v : ℕ) (rest : List ℕ)
    → v < 16 ^ width
    → scan_digits n (hex lower width v ++ rest) ≡ scan_digits (n * 16 ^ width + v) rest
unfolding hex
scan_digits-hex lower zero n v rest h = ap (λ (k : ℕ). scan_digits k rest) (omega (arith, h))
scan_digits-hex lower (suc width) n v rest h =
    rw (append_assoc (hex lower width (v / 16)) (hex_digit lower (v % 16) ∷ []) rest) (
      scan_digits-hex lower width n (v / 16) (hex_digit lower (v % 16) ∷ rest)
        (omega (arith, h, pow-suc 16 width))
      ∙ scan_digits-cons (hex_digit lower (v % 16)) (v % 16) _ rest
          (hex_digit_of-hex_digit lower (v % 16) (omega arith))
      ∙ ap (λ (k : ℕ). scan_digits k rest)
          (shifted n v (16 ^ width) (16 ^ suc width) (pow-suc 16 width)))
  where
    shifted : (n v p q : ℕ) → q ≡ p * 16 → (n * p + v / 16) * 16 + v % 16 ≡ n * q + v
    shifted n v p q e = rw e (grind arith)

first_digit : List ℕ → Option ℕ
first_digit [] = none
first_digit (c ∷ cs) = hex_digit_of c

-- Text that begins with a digit is scanned digit by digit.
scan_number-digits :
    (s : List ℕ) (d : ℕ) → first_digit s ≡ some d → scan_number s ≡ some (scan_digits 0 s)
unfolding scan_number first_digit
scan_number-digits [] d e = absurd (cc e)
scan_number-digits (c ∷ cs) d e =
    rw (scan_number, scan_digits, e) (ap (λ (k : ℕ). some (scan_digits k cs)) (omega arith))

scan_digits-eight : (lower : Bool) (v : ℕ) → IsU32 v → scan_digits 0 (hex lower 8 v) ≡ v
unfolding scan_digits
scan_digits-eight lower v h =
    ap (scan_digits 0) (sym (append-nil (hex lower 8 v)))
    ∙ scan_digits-hex lower 8 0 v [] (omega (arith, h))
    ∙ omega arith

-- An address, in eight digits of either case behind `0x`, is scanned as itself.
pub scan_hex-hex : (lower : Bool) (v : ℕ) → IsU32 v → scan_hex (prefixed (hex lower 8 v)) ≡ some v
unfolding scan_hex hex first_digit stored
scan_hex-hex lower v h =
    ap stored (
      scan_number-digits (hex lower 8 v) _
        (hex_digit_of-hex_digit lower (v / 16 / 16 / 16 / 16 / 16 / 16 / 16 % 16) (omega arith)))
    ∙ ap (λ (k : ℕ). stored (some k)) (scan_digits-eight lower v h)
    ∙ ap (λ (k : ℕ). some k) (ground (arith, h))
