-- ===== src/Printer/Lengths.antt =====
-- How long the parts of an instruction's text are.
use Prim.Native.String.{String}
use n_ovl.Base.{
  ℕ, zero, suc, ◌+◌, ◌-◌, ◌/◌, ◌%◌, ◌^◌, ◌≤◌, ◌<◌, ◌≡◌, refl, ap, ◌∙◌, inl, inr, arith, List, [],
  ◌∷◌, ◌++◌, map, Bool, true, false,
}
use n_ovl.Base.{
  All, length, replicate, length-append, length-replicate, ltb, if◌then◌else◌, Bool-cases,
}
use n_ovl.Base.Exec.{Exec, ok, ◌>>=◌}
use n_ovl.Section.{codes}
use n_ovl.Printer.Text.{space, to_lower, to_upper, hex, decimal, signed, pad_right}
use n_ovl.Printer.Names.{registers_a_gpr, registers_a_fpr, set_fg_blue, reset_default}
use n_ovl.Printer.Conf.{rprefix, rlower, olower, color, Conf}
use n_ovl.Printer.Format

abbrev pub Prints : ℕ → Exec (List ℕ) → Type 0
Prints n e = (s : List ℕ) × (e ≡ ok s) × (length s ≤ n)

module _ {ℓ} {A : Type ℓ} where
  pub entry-ok {κ} :
      (P : A → Type κ) (xs : List A) (i : ℕ)
      → All P xs
      → i < length xs
      → (x : A) × (Format.entry xs i ≡ ok x) × P x
  unfolding Format.entry
  entry-ok P [] i h lt = absurd (omega arith)
  entry-ok P (x ∷ xs) zero h lt = (x, refl, h.0)
  entry-ok P (x ∷ xs) (suc i) h lt = entry-ok P xs i h.1 (omega arith)

pub length-map : (f : ℕ → ℕ) (s : List ℕ) → length (map f s) ≡ length s
length-map f [] = refl
length-map f (c ∷ s) = ap suc (length-map f s)

pub length-cased : (lower : Bool) (s : List ℕ) → length (Format.cased lower s) ≡ length s
length-cased true s = length-map to_lower s
length-cased false s = refl

pub length-name_cased : (conf : Conf) (s : List ℕ) → length (Format.name_cased conf s) ≡ length s
unfolding Format.name_cased
length-name_cased conf s = elim (Bool-cases (conf.flag olower)) [
  | inl e ↦ rw e (length-map to_lower s)
  | inr e ↦ rw e (length-map to_upper s)
]

pub length-hex : (lower : Bool) (width n : ℕ) → length (hex lower width n) ≡ width
unfolding hex
length-hex lower zero n = refl
length-hex lower (suc width) n =
    length-append (hex lower width (n / 16)) _ ∙ omega (arith, length-hex lower width (n / 16))

pub length-decimal : (width n : ℕ) → length (decimal width n) ≤ width
unfolding decimal
length-decimal zero n = omega arith
length-decimal (suc width) n = elim (Bool-cases (ltb n 10)) [
  | inl e ↦ rw e (omega arith)
  | inr e ↦ rw e (
      omega (
        arith,
        length-decimal width (n / 10),
        length-append (decimal width (n / 10)) ((n % 10 + b'0') ∷ []),
      ))
]

pub length-signed : (n : ℕ) → length (signed n) ≤ 6
unfolding signed
length-signed n = elim (Bool-cases (ltb n (2 ^ 15))) [
  | inl e ↦ rw e (omega (arith, length-decimal 5 n))
  | inr e ↦ rw e (omega (arith, length-decimal 5 (2 ^ 16 - n)))
]

pub length-pad_right : (width : ℕ) (s : List ℕ) → length (pad_right width s) ≤ width + length s
unfolding pad_right
length-pad_right width s = omega (
  arith,
  length-append s (replicate (width - length s) space),
  length-replicate (width - length s) space,
)

pub length-optional : (b : Bool) (s : List ℕ) → length (if b then s else []) ≤ length s
length-optional true s = omega arith
length-optional false s = omega arith

pub printed : (n : ℕ) (s : List ℕ) → length s ≤ n → Prints n (ok s)
printed n s h = (s, refl, h)

pub rcpy_gpr-Prints : (conf : Conf) (reg : ℕ) → reg < 32 → Prints 15 (Format.rcpy_gpr conf reg)
unfolding Format.rcpy_gpr
rcpy_gpr-Prints conf reg lt =
    let (name, e, short) =
      entry-ok (λ s. length (codes s) ≤ 3) registers_a_gpr reg (omega arith) lt in
    rw e (printed 15 _ (total (codes name) short))
  where
    total :
        (s : List ℕ)
        → length s ≤ 3
        → length (
            (if conf.flag color then set_fg_blue else [])
            ++ ((if conf.flag rprefix then b'$' ∷ [] else [])
                ++ (Format.cased (conf.flag rlower) s
                    ++ (if conf.flag color then reset_default else []))))
          ≤ 15
    total s short = omega (
      arith,
      length-append (if conf.flag color then set_fg_blue else []) (
          (if conf.flag rprefix then b'$' ∷ [] else [])
          ++ (Format.cased (conf.flag rlower) s
              ++ (if conf.flag color then reset_default else []))),
      length-append (if conf.flag rprefix then b'$' ∷ [] else [])
          (Format.cased (conf.flag rlower) s ++ (if conf.flag color then reset_default else [])),
      length-append (Format.cased (conf.flag rlower) s)
          (if conf.flag color then reset_default else []),
      length-optional (conf.flag color) set_fg_blue,
      length-optional (conf.flag rprefix) (b'$' ∷ []),
      length-optional (conf.flag color) reset_default,
      length-cased (conf.flag rlower) s,
      short,
    )

pub rcpy_fpr-Prints : (conf : Conf) (reg : ℕ) → reg < 32 → Prints 15 (Format.rcpy_fpr conf reg)
unfolding Format.rcpy_fpr
rcpy_fpr-Prints conf reg lt =
    let (name, e, short) =
      entry-ok (λ s. length (codes s) ≤ 3) registers_a_fpr reg (omega arith) lt in
    rw e (printed 15 _ (total (codes name) short))
  where
    total :
        (s : List ℕ)
        → length s ≤ 3
        → length
            ((if conf.flag rprefix then b'$' ∷ [] else []) ++ Format.cased (conf.flag rlower) s)
          ≤ 15
    total s short = omega (
      arith,
      length-append (if conf.flag rprefix then b'$' ∷ [] else [])
          (Format.cased (conf.flag rlower) s),
      length-optional (conf.flag rprefix) (b'$' ∷ []),
      length-cased (conf.flag rlower) s,
      short,
    )

pub table-Prints :
    (table : List String) (i : ℕ)
    → All (λ s. length (codes s) ≤ 15) table
    → i < length table
    → Prints 15 (Format.entry table i >>= λ s. ok (codes s))
table-Prints table i h lt =
    let (name, e, short) = entry-ok (λ s. length (codes s) ≤ 15) table i h lt in
    rw e (printed 15 (codes name) short)
