-- ===== src/Main/FormatValue/Rounding.antt =====
-- How far the printed size is from the size.
use n_ovl.Base.{ℕ, ◌+◌, ◌*◌, ◌/◌, ◌%◌, ◌≤◌, ◌<◌, ◌≡◌, ◌⊎◌, refl, arith, [], ◌∷◌, ◌++◌}
use n_ovl.Base.{inl, inr, Bool-cases, ltb}
use n_ovl.Printer.Text.{decimal}
use n_ovl.Main.FormatValue.{rounded, two_places, format_value}

-- `h / 100` is as near to `n / d` as a hundredth allows.
abbrev pub IsNear : ℕ → ℕ → ℕ → Type 0
IsNear h n d = (h * d * 2 ≤ n * 200 + d) × (n * 200 ≤ h * d * 2 + d)

rounded-kilo : (n : ℕ) → IsNear (rounded (n * 100) 1024) n 1024
unfolding rounded
rounded-kilo n = ground arith

rounded-mega : (n : ℕ) → IsNear (rounded (n * 100) (1024 * 1024)) n (1024 * 1024)
unfolding rounded
rounded-mega n = ground arith

-- A size below 1024 is printed as it is, with a "b". A size from 1024 on and below 1024 * 1024 is
-- printed as a number of 1024 bytes with two decimal places and a "k", any other as one of
-- 1024 * 1024 bytes with two decimal places and an "m", and half a hundredth is the most by which the
-- printed number differs from the size.
pub format_value_lem :
    (val : ℕ)
    → (val < 1024 × (format_value val ≡ decimal 10 val ++ (b'b' ∷ [])))
      ⊎ (1024 ≤ val
          × val < 1024 * 1024
          × (h : ℕ) × (format_value val
              ≡ (decimal 10 (h / 100) ++ (b'.' ∷ (h / 10 % 10 + b'0') ∷ (h % 10 + b'0') ∷ []))
                ++ (b'k' ∷ []))
          × IsNear h val 1024)
      ⊎ (1024 * 1024 ≤ val
          × (h : ℕ) × (format_value val
              ≡ (decimal 10 (h / 100) ++ (b'.' ∷ (h / 10 % 10 + b'0') ∷ (h % 10 + b'0') ∷ []))
                ++ (b'm' ∷ []))
          × IsNear h val (1024 * 1024))
unfolding format_value two_places
format_value_lem val = elim (Bool-cases (ltb val 1024)) [
  | inl e ↦ inl (ground (arith, e), rw e refl)
  | inr e ↦ elim (Bool-cases (ltb val (1024 * 1024))) [
    | inl e' ↦ inr (
        inl (
          ground (arith, e),
          ground (arith, e'),
          rounded (val * 100) 1024,
          rw (e, e') refl,
          rounded-kilo val,
        ))
    | inr e' ↦ inr (
        inr (
          ground (arith, e'),
          rounded (val * 100) (1024 * 1024),
          rw (e, e') refl,
          rounded-mega val,
        ))
  ]
]
