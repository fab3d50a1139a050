-- ===== src/Decoder/Split/Text.antt =====
-- The two strings that `r4300_decode_op` gives, next to the text of the instruction.
use n_ovl.Base.{
  ℕ, ◌/◌, ◌%◌, ◌≤◌, ◌<◌, ◌≡◌, ◌⊎◌, refl, ap, ◌∙◌, inl, inr, arith, List, [], ◌∷◌, ◌++◌, map, true,
  false, not,
}
use n_ovl.Base.{both, all, all-All, All, length, leb, leb→le, Bool-cases}
use n_ovl.Base.Word.{low_bits, shr}
use n_ovl.Base.Exec.{ok}
use n_ovl.Section.{codes}
use n_ovl.Printer.Text.{space, to_lower, to_upper, hex_digit, hex, pad_right}
use n_ovl.Printer.Conf.{olower, Conf}
use n_ovl.Printer.Format.{name_cased, prefixed}
use n_ovl.Printer.Lengths.{length-name_cased}
use n_ovl.Decoder.Op.{Op, text, reserv}
use n_ovl.Decoder.Disassemble.{decode, invalid_text, print_op, disassemble}
use n_ovl.Decoder.Fitting.{is_word, Fitting, fits-parts, decode_fits}
use n_ovl.Decoder.Safety.{disassemble-Prints}
use n_ovl.Decoder.Split.{is_blank, decode_op}
use n_ovl.Decoder.Split.Words.{IsSolid, decode_op-one, decode_op-two}
use n_ovl.Decoder.Split.Opening.{to_lower-solid, to_upper-solid}
use n_ovl.Decoder.Split.Shape.{HasShape, sprintf-HasShape}

map-IsSolid :
    (f : ℕ → ℕ) (s : List ℕ)
    → ((c : ℕ) → is_blank c ≡ false → is_blank (f c) ≡ false)
    → IsSolid s
    → IsSolid (map f s)
map-IsSolid f [] keep h = tt
map-IsSolid f (c ∷ cs) keep h = (keep c h.0, map-IsSolid f cs keep h.1)

name_cased-IsSolid : (conf : Conf) (s : List ℕ) → IsSolid s → IsSolid (name_cased conf s)
unfolding name_cased
name_cased-IsSolid conf s h = elim (Bool-cases (conf.flag olower)) [
  | inl e ↦ rw e (map-IsSolid to_lower s to_lower-solid h)
  | inr e ↦ rw e (map-IsSolid to_upper s to_upper-solid h)
]

is_word-IsSolid : (s : List ℕ) → is_word s ≡ true → (0 < length s) × IsSolid s
is_word-IsSolid s h =
    let (long, solid) = both (leb 1 (length s)) (all (λ c. not (is_blank c)) s) h in
    (leb→le 1 (length s) long, each s (all-All (λ c. not (is_blank c)) s solid))
  where
    each : (s : List ℕ) → All (λ c. not (is_blank c) ≡ true) s → IsSolid s
    each [] h = tt
    each (c ∷ cs) h = (ground (arith, h.0), each cs h.1)

hex_digit-solid : (n : ℕ) → n < 16 → is_blank (hex_digit false n) ≡ false
unfolding hex_digit
hex_digit-solid n h = ground arith

-- The text of a reserved instruction, as a name and an operand.
invalid_name : ℕ → List ℕ
unfolding hex
invalid_name w = codes "INVLD(" ++ (hex false 2 (low_bits (shr w 26) 6) ++ codes ")")

invalid_name-IsSolid : (w : ℕ) → IsSolid (invalid_name w)
unfolding invalid_name
invalid_name-IsSolid w = (
  refl,
  (
    refl,
    (
      refl,
      (
        refl,
        (
          refl,
          (
            refl,
            (
              hex_digit-solid (low_bits (shr w 26) 6 / 16 % 16) (omega arith),
              (hex_digit-solid (low_bits (shr w 26) 6 % 16) (omega arith), (refl, tt)),
            ),
          ),
        ),
      ),
    ),
  ),
)

invalid_text-invalid_name :
    (w : ℕ) → invalid_text w ≡ pad_right 16 (invalid_name w) ++ prefixed (hex false 8 w)
unfolding invalid_name pad_right
invalid_text-invalid_name w = refl

module _ (conf : Conf) (w pc : ℕ) where
  -- The text is the name, with a blank for the arguments, or the padded name and the arguments.
  abbrev pub Splits : List ℕ → List ℕ → Type 0
  Splits opcode arguments =
      (decode_op conf w pc ≡ ok (opcode, arguments))
      × IsSolid opcode
      × (((disassemble conf w pc ≡ ok opcode) × (arguments ≡ space ∷ []))
          ⊎ (disassemble conf w pc ≡ ok (pad_right 16 opcode ++ arguments)))

  module _ (s : List ℕ) (columns : conf.spacing ≡ 16) (run : disassemble conf w pc ≡ ok s) where
    shaped-Splits :
        (name : List ℕ)
        → length name ≤ 15
        → is_word name ≡ true
        → HasShape conf name w pc s
        → (opcode arguments : List ℕ) × Splits opcode arguments
    shaped-Splits name short word shape =
        let (long, solid) = is_word-IsSolid name word in
        let solid' = name_cased-IsSolid conf name solid in
        let len = length-name_cased conf name in
        elim shape [
          | inl alone ↦
              let run' = run ∙ ap (λ (t : List ℕ). ok t) alone in
              (
                name_cased conf name,
                space ∷ [],
                (
                  decode_op-one conf w pc (name_cased conf name) (omega (arith, len, long)) solid'
                      run',
                  solid',
                  inl (run', refl),
                ),
              )
          | inr (tail, e, begins) ↦
              let run' =
                run
                ∙ ap (λ (t : List ℕ). ok t)
                    (e ∙ ap (λ (n : ℕ). pad_right n (name_cased conf name) ++ tail) columns) in
              (
                name_cased conf name,
                tail,
                (
                  decode_op-two conf w pc (name_cased conf name) tail (omega (arith, len, long))
                      (omega (arith, len, short)) solid' begins run',
                  solid',
                  inr run',
                ),
              )
        ]

    op-Splits :
        (op : Op)
        → Fitting op
        → print_op conf w pc op ≡ ok s
        → disassemble conf w pc ≡ print_op conf w pc op
        → (opcode arguments : List ℕ) × Splits opcode arguments
    unfolding print_op invalid_name
    op-Splits reserv fit printed same =
        let run' = same ∙ ap (λ (t : List ℕ). ok t) (invalid_text-invalid_name w) in
        (
          invalid_name w,
          prefixed (hex false 8 w),
          (
            decode_op-two conf w pc (invalid_name w) (prefixed (hex false 8 w)) (omega arith)
                (omega arith) (invalid_name-IsSolid w) (b'0', b'x' ∷ hex false 8 w, refl, refl)
                run',
            invalid_name-IsSolid w,
            inr run',
          ),
        )
    op-Splits (text name fmt) fit printed same =
        let (short, _, word, shape) = fits-parts name fmt fit in
        shaped-Splits (codes name) short word
          (sprintf-HasShape conf (codes name) w pc (codes fmt) s shape printed)

-- With the spacing of 16 columns that the program starts with, and any flags, every instruction word
-- at every address is split into a name without blanks and arguments: either the text of the
-- instruction is the name alone, and the arguments are one blank, or it is the name padded to 16
-- columns with the arguments behind it.
pub decode_op-Splits :
    (conf : Conf) (w pc : ℕ)
    → conf.spacing ≡ 16
    → (opcode arguments : List ℕ) × Splits conf w pc opcode arguments
unfolding disassemble
decode_op-Splits conf w pc columns =
    let (s, run, _) = disassemble-Prints conf w pc (omega (arith, columns)) in
    op-Splits conf w pc s columns run (decode w) (decode_fits w) run refl
