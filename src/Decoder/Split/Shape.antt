-- ===== src/Decoder/Split/Shape.antt =====
-- Formats that print the name alone, or the name padded and an operand behind it.
use n_ovl.Base.{
  ℕ, ◌≡◌, ◌⊎◌, sym, ◌∙◌, inl, inr, List, [], ◌∷◌, ◌++◌, Option, none, some, Bool, true, false,
}
use n_ovl.Base.{both, length, ◌==◌, ◌&&◌, Bool-cases}
use n_ovl.Base.Exec.{ok, ◌>>=◌, ok-injective, >>=-eq-ok}
use mathlib.Core.List.{append-nil, append_assoc}
use n_ovl.Printer.Text.{pad_right}
use n_ovl.Printer.Conf.{Conf}
use n_ovl.Printer.Format
use n_ovl.Decoder.Split.Words.{Begins}
use n_ovl.Decoder.Split.Opening.{append-Begins, opening, opening-Opens}

-- What stands behind the first specifier.
abbrev pub rest_shaped : Option Format.Token → List ℕ → Bool
rest_shaped (some Format.name_bare) [] = true
rest_shaped (some Format.name_padded) (p ∷ x ∷ y ∷ more) =
    (p == b'%') && opening (Format.read_token x y)
rest_shaped _ _ = false

unfoldable pub shaped : List ℕ → Bool
unfolding Format.read_token
shaped (p ∷ x ∷ y ∷ rest) = (p == b'%') && rest_shaped (Format.read_token x y) rest
shaped _ = false

module _ (conf : Conf) (name : List ℕ) (w pc : ℕ) where
  -- The name, or the padded name and text that begins with no blank.
  abbrev pub HasShape : List ℕ → Type 0
  HasShape s =
      (s ≡ Format.name_cased conf name)
      ⊎ (tail : List ℕ) × (s ≡ pad_right conf.spacing (Format.name_cased conf name) ++ tail)
        × Begins tail

  Extends : List ℕ → List ℕ → Type 0
  Extends out s = (more : List ℕ) × (s ≡ out ++ more)

  Extends-append : (out new s : List ℕ) → Extends (out ++ new) s → Extends out s
  unfolding Extends
  Extends-append out new s (more, e) = (new ++ more, e ∙ append_assoc out new more)

  -- What has been printed stays.
  format_from-Extends :
      (fmt out s : List ℕ) → Format.format_from conf name w pc out fmt ≡ ok s → Extends out s
  unfolding Format.format_from Extends
  format_from-Extends [] out s run = ([], sym (ok-injective out s run) ∙ sym (append-nil out))
  format_from-Extends (c ∷ []) out s run = elim (Bool-cases (c == b'%')) [
    | inl k ↦ absurd (cc (rw k at run))
    | inr k ↦ (c ∷ [], sym (ok-injective (out ++ (c ∷ [])) s (rw k at run)))
  ]
  format_from-Extends (c ∷ x ∷ []) out s run = elim (Bool-cases (c == b'%')) [
    | inl k ↦ absurd (cc (rw (Format.format_from, k) at run))
    | inr k ↦
        Extends-append out (c ∷ []) s
          (format_from-Extends (x ∷ []) (out ++ (c ∷ [])) s (rw (Format.format_from, k) at run))
  ]
  format_from-Extends (c ∷ x ∷ y ∷ rest) out s run = elim (Bool-cases (c == b'%')) [
    | inl k ↦
        let (new, printed, run') =
          >>=-eq-ok (Format.expand_token conf name w pc (length out) (Format.read_token x y))
            (λ new. Format.format_from conf name w pc (out ++ new) rest)
            (rw (Format.format_from, k) at run) in
        Extends-append out new s (format_from-Extends rest (out ++ new) s run')
    | inr k ↦
        Extends-append out (c ∷ []) s (
          format_from-Extends (x ∷ y ∷ rest) (out ++ (c ∷ [])) s
            (rw (Format.format_from, k) at run))
  ]

  -- An operand behind the padded name.
  padded-HasShape :
      (x y : ℕ) (more s : List ℕ)
      → opening (Format.read_token x y) ≡ true
      → (Format.expand_token conf name w pc
            (length (pad_right conf.spacing (Format.name_cased conf name)))
            (Format.read_token x y)
          >>= λ new.
              Format.format_from conf name w pc
                (pad_right conf.spacing (Format.name_cased conf name) ++ new)
                more)
        ≡ ok s
      → HasShape s
  unfolding Extends
  padded-HasShape x y more s op run =
      let front = pad_right conf.spacing (Format.name_cased conf name) in
      let (new, printed, begins) =
        opening-Opens conf name w pc (length front) (Format.read_token x y) op in
      let (rest, e) = format_from-Extends more (front ++ new) s (rw printed at run) in
      inr (new ++ rest, e ∙ append_assoc front new rest, append-Begins new rest begins)

  token-HasShape :
      (t : Option Format.Token) (rest s : List ℕ)
      → rest_shaped t rest ≡ true
      → (Format.expand_token conf name w pc 0 t >>= λ new.
          Format.format_from conf name w pc new rest)
        ≡ ok s
      → HasShape s
  unfolding Format.expand_token Format.format_from
  token-HasShape none rest s h run = absurd (cc h)
  token-HasShape (some Format.name_bare) [] s h run =
      inl (sym (ok-injective (Format.name_cased conf name) s run))
  token-HasShape (some Format.name_bare) (p ∷ rest) s h run = absurd (cc h)
  token-HasShape (some Format.name_padded) [] s h run = absurd (cc h)
  token-HasShape (some Format.name_padded) (p ∷ []) s h run = absurd (cc h)
  token-HasShape (some Format.name_padded) (p ∷ x ∷ []) s h run = absurd (cc h)
  token-HasShape (some Format.name_padded) (p ∷ x ∷ y ∷ more) s h run =
      let (percent, op) = both (p == b'%') (opening (Format.read_token x y)) h in
      padded-HasShape x y more s op (rw (Format.format_from, percent) at run)
  token-HasShape (some Format.rs) rest s h run = absurd (cc h)
  token-HasShape (some Format.rt) rest s h run = absurd (cc h)
  token-HasShape (some Format.rd) rest s h run = absurd (cc h)
  token-HasShape (some Format.fs) rest s h run = absurd (cc h)
  token-HasShape (some Format.ft) rest s h run = absurd (cc h)
  token-HasShape (some Format.fd) rest s h run = absurd (cc h)
  token-HasShape (some Format.cop_register) rest s h run = absurd (cc h)
  token-HasShape (some Format.immediate_hex) rest s h run = absurd (cc h)
  token-HasShape (some Format.immediate_dec) rest s h run = absurd (cc h)
  token-HasShape (some Format.branch) rest s h run = absurd (cc h)
  token-HasShape (some Format.jump) rest s h run = absurd (cc h)
  token-HasShape (some Format.cop_number) rest s h run = absurd (cc h)
  token-HasShape (some Format.shift_amount) rest s h run = absurd (cc h)
  token-HasShape (some Format.compare_mode) rest s h run = absurd (cc h)
  token-HasShape (some Format.fp_mode) rest s h run = absurd (cc h)
  token-HasShape (some Format.remainder) rest s h run = absurd (cc h)
  token-HasShape (some Format.name_cop) rest s h run = absurd (cc h)
  token-HasShape (some Format.name_fp) rest s h run = absurd (cc h)

  pub sprintf-HasShape :
      (fmt s : List ℕ) → shaped fmt ≡ true → Format.sprintf conf name w pc fmt ≡ ok s → HasShape s
  unfolding shaped Format.sprintf
  sprintf-HasShape [] s h run = absurd (cc h)
  sprintf-HasShape (p ∷ []) s h run = absurd (cc h)
  sprintf-HasShape (p ∷ x ∷ []) s h run = absurd (cc h)
  sprintf-HasShape (p ∷ x ∷ y ∷ rest) s h run =
      let (percent, t) = both (p == b'%') (rest_shaped (Format.read_token x y) rest) h in
      token-HasShape (Format.read_token x y) rest s t (rw (Format.format_from, percent) at run)
