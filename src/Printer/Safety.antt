-- ===== src/Printer/Safety.antt =====
-- Formats that print: no specifier reads outside a table, and the text keeps to a length.
use n_ovl.Base.{
  ℕ, ◌+◌, ◌≤◌, ◌≡◌, refl, inl, inr, arith, List, [], ◌∷◌, ◌++◌, Option, none, some, Bool, true,
  false,
}
use n_ovl.Base.{length, length-append, ◌==◌, if◌then◌else◌, Bool-cases}
use n_ovl.Base.Word.{low_bits}
use n_ovl.Base.Exec.{Exec, ok}
use n_ovl.Printer.Text.{hex, decimal, signed, pad_right}
use n_ovl.Printer.Names.{fp_compare_types, registers_a_cop}
use n_ovl.Printer.Conf.{hlower, Conf}
use n_ovl.Printer.Format
use n_ovl.Printer.Lengths.{
  Prints, length-name_cased, length-hex, length-decimal, length-signed, length-pad_right, printed,
  rcpy_gpr-Prints, rcpy_fpr-Prints, table-Prints,
}

-- How long the text of a specifier is at most, for a name and a spacing that come to less than
-- `base` together; none for a specifier that may read outside a table, or pads what is there.
abbrev pub token_width : ℕ → Option Format.Token → Option ℕ
token_width base none = some 0
token_width base (some Format.fp_mode) = none
token_width base (some Format.name_fp) = none
token_width base (some Format.remainder) = none
token_width base (some Format.name_bare) = some base
token_width base (some Format.name_padded) = some base
token_width base (some Format.name_cop) = some base
token_width base (some _) = some 15

abbrev add_widths : Option ℕ → Option ℕ → Option ℕ
add_widths (some n) (some k) = some (n + k)
add_widths _ _ = none

-- The same for a format.
unfoldable pub width : ℕ → List ℕ → Option ℕ
width base [] = some 0
width base (c ∷ []) = if c == b'%' then none else some 1
width base (c ∷ x ∷ []) = elim (c == b'%') [
  | true ↦ none
  | false ↦ add_widths (some 1) (width base (x ∷ []))
]
width base (c ∷ x ∷ y ∷ rest) = elim (c == b'%') [
  | true ↦ add_widths (token_width base (Format.read_token x y)) (width base rest)
  | false ↦ add_widths (some 1) (width base (x ∷ y ∷ rest))
]

some-injective : (n k : ℕ) → ◌≡◌ {A = Option ℕ} (some n) (some k) → n ≡ k
some-injective n k e = cc

at_width :
    (k n : ℕ) (x : Exec (List ℕ)) → ◌≡◌ {A = Option ℕ} (some k) (some n) → Prints k x → Prints n x
at_width k n x e p = rw (← some-injective k n e) p

length-prefixed-hex :
    (lower : Bool) (digits n : ℕ) → length (Format.prefixed (hex lower digits n)) ≡ digits + 2
length-prefixed-hex lower digits n = omega (arith, length-hex lower digits n)

module _ (conf : Conf) (name : List ℕ) (w pc base : ℕ)
    (room : conf.spacing + length name + 1 ≤ base) where
  padded-Prints :
      (s : List ℕ) → length s ≤ length name + 1 → Prints base (ok (pad_right conf.spacing s))
  padded-Prints s h =
      printed base (pad_right conf.spacing s)
        (omega (arith, room, h, length-pad_right conf.spacing s))

  expand-Prints :
      (d : ℕ) (t : Option Format.Token) (n : ℕ)
      → token_width base t ≡ some n
      → Prints n (Format.expand_token conf name w pc d t)
  unfolding Format.expand_token
  expand-Prints d none n e = printed n [] (omega arith)
  expand-Prints d (some Format.rs) n e =
      at_width 15 n _ e (rcpy_gpr-Prints conf (Format.field_rs w) (omega arith))
  expand-Prints d (some Format.rt) n e =
      at_width 15 n _ e (rcpy_gpr-Prints conf (Format.field_rt w) (omega arith))
  expand-Prints d (some Format.rd) n e =
      at_width 15 n _ e (rcpy_gpr-Prints conf (Format.field_rd w) (omega arith))
  expand-Prints d (some Format.fs) n e =
      at_width 15 n _ e (rcpy_fpr-Prints conf (Format.field_rd w) (omega arith))
  expand-Prints d (some Format.ft) n e =
      at_width 15 n _ e (rcpy_fpr-Prints conf (Format.field_rt w) (omega arith))
  expand-Prints d (some Format.fd) n e =
      at_width 15 n _ e (rcpy_fpr-Prints conf (Format.field_fd w) (omega arith))
  expand-Prints d (some Format.cop_register) n e =
      at_width 15 n _ e
        (table-Prints registers_a_cop (Format.field_rd w) (omega arith) (omega arith))
  expand-Prints d (some Format.immediate_hex) n e = at_width 15 n _ e (
      printed 15 (Format.prefixed (hex (conf.flag hlower) 4 (low_bits w 16)))
        (omega (arith, length-prefixed-hex (conf.flag hlower) 4 (low_bits w 16))))
  expand-Prints d (some Format.immediate_dec) n e =
      at_width 15 n _ e
        (printed 15 (signed (low_bits w 16)) (omega (arith, length-signed (low_bits w 16))))
  expand-Prints d (some Format.branch) n e = at_width 15 n _ e (
      printed 15 (Format.prefixed (hex (conf.flag hlower) 8 (Format.branch_target w pc)))
        (omega (arith, length-prefixed-hex (conf.flag hlower) 8 (Format.branch_target w pc))))
  expand-Prints d (some Format.jump) n e = at_width 15 n _ e (
      printed 15 (Format.prefixed (hex (conf.flag hlower) 8 (Format.jump_target w pc)))
        (omega (arith, length-prefixed-hex (conf.flag hlower) 8 (Format.jump_target w pc))))
  expand-Prints d (some Format.cop_number) n e = at_width 15 n _ e (
      printed 15 (decimal 1 (Format.field_cop w))
        (omega (arith, length-decimal 1 (Format.field_cop w))))
  expand-Prints d (some Format.shift_amount) n e = at_width 15 n _ e (
      printed 15 (decimal 2 (Format.field_fd w))
        (omega (arith, length-decimal 2 (Format.field_fd w))))
  expand-Prints d (some Format.compare_mode) n e =
      at_width 15 n _ e (table-Prints fp_compare_types (low_bits w 4) (omega arith) (omega arith))
  expand-Prints d (some Format.fp_mode) n e = absurd (cc e)
  expand-Prints d (some Format.remainder) n e = absurd (cc e)
  expand-Prints d (some Format.name_fp) n e = absurd (cc e)
  expand-Prints d (some Format.name_bare) n e = at_width base n _ e (
      printed base (Format.name_cased conf name) (omega (arith, room, length-name_cased conf name)))
  expand-Prints d (some Format.name_padded) n e =
      at_width base n _ e
        (padded-Prints (Format.name_cased conf name) (omega (arith, length-name_cased conf name)))
  expand-Prints d (some Format.name_cop) n e = at_width base n _ e (
      padded-Prints (Format.name_cased conf name ++ decimal 1 (Format.field_cop w)) (
        omega (
          arith,
          length-name_cased conf name,
          length-append (Format.name_cased conf name) (decimal 1 (Format.field_cop w)),
          length-decimal 1 (Format.field_cop w),
        )))

  add_widths-some :
      (a b : Option ℕ) (n : ℕ)
      → add_widths a b ≡ some n
      → (k : ℕ) × (m : ℕ) × (a ≡ some k) × (b ≡ some m) × (n ≡ k + m)
  add_widths-some none b n e = absurd (cc e)
  add_widths-some (some k) none n e = absurd (cc e)
  add_widths-some (some k) (some m) n e = (k, m, refl, refl, cc e)

  -- One character more in front.
  format_from-char :
      (out : List ℕ) (c : ℕ) (fmt : List ℕ) (n : ℕ)
      → ((out' : List ℕ) (m : ℕ)
          → width base fmt ≡ some m
          → Prints (length out' + m) (Format.format_from conf name w pc out' fmt))
      → add_widths (some 1) (width base fmt) ≡ some n
      → Prints (length out + n) (Format.format_from conf name w pc (out ++ (c ∷ [])) fmt)
  format_from-char out c fmt n rec e =
      let (k, m, e₁, e₂, sum) = add_widths-some (some 1) (width base fmt) n e in
      let (s, run, short) = rec (out ++ (c ∷ [])) m e₂ in
      (s, run, omega (arith, short, sum, some-injective 1 k e₁, length-append out (c ∷ [])))

  format_from-Prints :
      (fmt out : List ℕ) (n : ℕ)
      → width base fmt ≡ some n
      → Prints (length out + n) (Format.format_from conf name w pc out fmt)
  unfolding width Format.format_from
  format_from-Prints [] out n e = (out, refl, omega arith)
  format_from-Prints (c ∷ []) out n e = elim (Bool-cases (c == b'%')) [
    | inl k ↦ absurd (cc (rw (width, k) at e))
    | inr k ↦ rw k (
        printed (length out + n) (out ++ (c ∷ []))
          (omega (arith, length-append out (c ∷ []), some-injective 1 n (rw (width, k) at e))))
  ]
  format_from-Prints (c ∷ x ∷ []) out n e = elim (Bool-cases (c == b'%')) [
    | inl k ↦ absurd (cc (rw (width, k) at e))
    | inr k ↦
        rw (Format.format_from, k)
          (format_from-char out c (x ∷ []) n (λ out' m. format_from-Prints (x ∷ []) out' m)
            (rw (width, k) at e))
  ]
  format_from-Prints (c ∷ x ∷ y ∷ rest) out n e = elim (Bool-cases (c == b'%')) [
    | inl k ↦
        let (a, b, e₁, e₂, sum) =
          add_widths-some (token_width base (Format.read_token x y)) (width base rest) n
            (rw (width, k) at e) in
        let (new, run, short) = expand-Prints (length out) (Format.read_token x y) a e₁ in
        let (s, run', short') = format_from-Prints rest (out ++ new) b e₂ in
        rw (Format.format_from, k, run)
          (s, run', omega (arith, short, short', sum, length-append out new))
    | inr k ↦
        rw (Format.format_from, k)
          (format_from-char out c (x ∷ y ∷ rest) n
            (λ out' m. format_from-Prints (x ∷ y ∷ rest) out' m) (rw (width, k) at e))
  ]

  pub sprintf-Prints :
      (fmt : List ℕ) (n : ℕ)
      → width base fmt ≡ some n
      → Prints n (Format.sprintf conf name w pc fmt)
  unfolding Format.sprintf
  sprintf-Prints fmt n e =
      let (s, run, short) = format_from-Prints fmt [] n e in (s, run, omega (arith, short))
