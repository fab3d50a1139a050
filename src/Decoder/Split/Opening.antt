-- ===== src/Decoder/Split/Opening.antt =====
-- The text of an instruction begins with its name, and what stands behind the padding is no blank.
use n_ovl.Base.{
  not, ℕ, ◌<◌, ◌≡◌, refl, ap, arith, List, [], ◌∷◌, ◌++◌, map, Option, none, some, Bool, true,
  false,
}
use n_ovl.Base.{all-All, if◌then◌else◌}
use n_ovl.Base.Exec.{Exec, ok}
use n_ovl.Section.{codes}
use n_ovl.Printer.Text.{to_lower, to_upper, hex}
use n_ovl.Printer.Names.{registers_a_gpr, registers_a_fpr, set_fg_blue}
use n_ovl.Printer.Conf.{rprefix, rlower, hlower, color, Conf}
use n_ovl.Printer.Format
use n_ovl.Printer.Lengths.{entry-ok}
use n_ovl.Decoder.Split.{is_blank}
use n_ovl.Decoder.Split.Words.{Begins}

-- A text that begins with no blank.
abbrev pub Opens : Exec (List ℕ) → Type 0
Opens e = (s : List ℕ) × (e ≡ ok s) × Begins s

pub to_lower-solid : (c : ℕ) → is_blank c ≡ false → is_blank (to_lower c) ≡ false
unfolding to_lower
to_lower-solid c h = ground (arith, h)

pub to_upper-solid : (c : ℕ) → is_blank c ≡ false → is_blank (to_upper c) ≡ false
unfolding to_upper
to_upper-solid c h = ground (arith, h)

cased-Begins : (lower : Bool) (s : List ℕ) → Begins s → Begins (Format.cased lower s)
cased-Begins true s (c, cs, e, h) =
    (to_lower c, map to_lower cs, ap (map to_lower) e, to_lower-solid c h)
cased-Begins false s h = h

pub append-Begins : (s rest : List ℕ) → Begins s → Begins (s ++ rest)
append-Begins s rest (c, cs, e, h) = (c, cs ++ rest, ap (λ (l : List ℕ). l ++ rest) e, h)

optional-Begins :
    (b : Bool) (s rest : List ℕ) → Begins s → Begins rest → Begins ((if b then s else []) ++ rest)
optional-Begins true s rest hs hr = append-Begins s rest hs
optional-Begins false s rest hs hr = hr

begins : List ℕ → Bool
begins [] = false
begins (c ∷ cs) = not (is_blank c)

begins-Begins : (s : List ℕ) → begins s ≡ true → Begins s
unfolding begins
begins-Begins [] h = absurd (cc h)
begins-Begins (c ∷ cs) h = (c, cs, refl, ground (arith, h))

rcpy_gpr-Opens : (conf : Conf) (reg : ℕ) → reg < 32 → Opens (Format.rcpy_gpr conf reg)
unfolding Format.rcpy_gpr begins
rcpy_gpr-Opens conf reg lt =
    let (name, e, h) =
      entry-ok (λ s. begins (codes s) ≡ true) registers_a_gpr reg
        (all-All (λ s. begins (codes s)) registers_a_gpr refl) lt in
    rw e (
      _,
      refl,
      optional-Begins (conf.flag color) set_fg_blue _ (begins-Begins set_fg_blue refl) (
          optional-Begins (conf.flag rprefix) (b'$' ∷ []) _ (begins-Begins (b'$' ∷ []) refl) (
            append-Begins (Format.cased (conf.flag rlower) (codes name)) _
              (cased-Begins (conf.flag rlower) (codes name) (begins-Begins (codes name) h)))),
    )

rcpy_fpr-Opens : (conf : Conf) (reg : ℕ) → reg < 32 → Opens (Format.rcpy_fpr conf reg)
unfolding Format.rcpy_fpr begins
rcpy_fpr-Opens conf reg lt =
    let (name, e, h) =
      entry-ok (λ s. begins (codes s) ≡ true) registers_a_fpr reg
        (all-All (λ s. begins (codes s)) registers_a_fpr refl) lt in
    rw e (
      _,
      refl,
      optional-Begins (conf.flag rprefix) (b'$' ∷ []) _ (begins-Begins (b'$' ∷ []) refl)
          (cased-Begins (conf.flag rlower) (codes name) (begins-Begins (codes name) h)),
    )

prefixed-Opens : (s : List ℕ) → Opens (ok (Format.prefixed s))
prefixed-Opens s = (Format.prefixed s, refl, (b'0', b'x' ∷ s, refl, refl))

-- The specifiers that can stand behind the name.
abbrev pub opening : Option Format.Token → Bool
opening (some Format.rs) = true
opening (some Format.rt) = true
opening (some Format.rd) = true
opening (some Format.fs) = true
opening (some Format.ft) = true
opening (some Format.fd) = true
opening (some Format.branch) = true
opening (some Format.jump) = true
opening _ = false

pub opening-Opens :
    (conf : Conf) (name : List ℕ) (w pc d : ℕ) (t : Option Format.Token)
    → opening t ≡ true
    → Opens (Format.expand_token conf name w pc d t)
unfolding Format.expand_token
opening-Opens conf name w pc d none e = absurd (cc e)
opening-Opens conf name w pc d (some Format.rs) e =
    rcpy_gpr-Opens conf (Format.field_rs w) (omega arith)
opening-Opens conf name w pc d (some Format.rt) e =
    rcpy_gpr-Opens conf (Format.field_rt w) (omega arith)
opening-Opens conf name w pc d (some Format.rd) e =
    rcpy_gpr-Opens conf (Format.field_rd w) (omega arith)
opening-Opens conf name w pc d (some Format.fs) e =
    rcpy_fpr-Opens conf (Format.field_rd w) (omega arith)
opening-Opens conf name w pc d (some Format.ft) e =
    rcpy_fpr-Opens conf (Format.field_rt w) (omega arith)
opening-Opens conf name w pc d (some Format.fd) e =
    rcpy_fpr-Opens conf (Format.field_fd w) (omega arith)
opening-Opens conf name w pc d (some Format.cop_register) e = absurd (cc e)
opening-Opens conf name w pc d (some Format.immediate_hex) e = absurd (cc e)
opening-Opens conf name w pc d (some Format.immediate_dec) e = absurd (cc e)
opening-Opens conf name w pc d (some Format.branch) e =
    prefixed-Opens (hex (conf.flag hlower) 8 (Format.branch_target w pc))
opening-Opens conf name w pc d (some Format.jump) e =
    prefixed-Opens (hex (conf.flag hlower) 8 (Format.jump_target w pc))
opening-Opens conf name w pc d (some Format.cop_number) e = absurd (cc e)
opening-Opens conf name w pc d (some Format.shift_amount) e = absurd (cc e)
opening-Opens conf name w pc d (some Format.compare_mode) e = absurd (cc e)
opening-Opens conf name w pc d (some Format.fp_mode) e = absurd (cc e)
opening-Opens conf name w pc d (some Format.remainder) e = absurd (cc e)
opening-Opens conf name w pc d (some Format.name_bare) e = absurd (cc e)
opening-Opens conf name w pc d (some Format.name_padded) e = absurd (cc e)
opening-Opens conf name w pc d (some Format.name_cop) e = absurd (cc e)
opening-Opens conf name w pc d (some Format.name_fp) e = absurd (cc e)
