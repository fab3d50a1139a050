-- ===== src/Decoder/Split/Words.antt =====
-- The words that `sscanf` finds in a text of a word, blanks and more.
use n_ovl.Base.{ℕ, zero, suc, ◌-◌, ◌<◌, ◌≡◌, refl, ap, ◌∙◌, arith, List, [], ◌∷◌, ◌++◌, true, false}
use n_ovl.Base.{
  All, length, replicate, drop, length-append, length-replicate, drop-length-append, leb,
}
use n_ovl.Base.Exec.{ok}
use mathlib.Core.List.{append_assoc}
use n_ovl.Printer.Text.{space, pad_right}
use n_ovl.Printer.Conf.{Conf}
use n_ovl.Decoder.Disassemble.{disassemble}
use n_ovl.Decoder.Split.{is_blank, skip_blanks, take_word, scan_words, split_by, decode_op}

-- No blanks; and text that begins with no blank.
abbrev pub IsSolid : List ℕ → Type 0
IsSolid s = All (λ c. is_blank c ≡ false) s

abbrev pub Begins : List ℕ → Type 0
Begins s = (c : ℕ) × (cs : List ℕ) × (s ≡ c ∷ cs) × (is_blank c ≡ false)

skip_blanks-solid : (c : ℕ) (cs : List ℕ) → is_blank c ≡ false → skip_blanks (c ∷ cs) ≡ c ∷ cs
unfolding skip_blanks
skip_blanks-solid c cs e = rw (skip_blanks, e) refl

skip_blanks-replicate : (n : ℕ) (s : List ℕ) → skip_blanks (replicate n space ++ s) ≡ skip_blanks s
unfolding skip_blanks
skip_blanks-replicate zero s = refl
skip_blanks-replicate (suc n) s = skip_blanks-replicate n s

take_word-cons :
    (c : ℕ) (cs : List ℕ)
    → is_blank c ≡ false
    → take_word (c ∷ cs) ≡ (c ∷ (take_word cs).0, (take_word cs).1)
unfolding take_word
take_word-cons c cs e = rw (take_word, e) refl

take_word-solid : (s : List ℕ) → IsSolid s → take_word s ≡ (s, [])
unfolding take_word
take_word-solid [] h = refl
take_word-solid (c ∷ cs) h = rw (take_word-cons c cs h.0, take_word-solid cs h.1) refl

take_word-space :
    (s rest : List ℕ) → IsSolid s → take_word (s ++ (space ∷ rest)) ≡ (s, space ∷ rest)
unfolding take_word
take_word-space [] rest h = refl
take_word-space (c ∷ cs) rest h =
    rw (take_word-cons c (cs ++ (space ∷ rest)) h.0, take_word-space cs rest h.1) refl

scan_words-one : (c : ℕ) (cs : List ℕ) → IsSolid (c ∷ cs) → scan_words (c ∷ cs) ≡ (1, c ∷ cs)
unfolding scan_words
scan_words-one c cs h = rw (skip_blanks-solid c cs h.0, take_word-solid (c ∷ cs) h) refl

scan_words-two :
    (c : ℕ) (cs tail : List ℕ) (k n : ℕ)
    → k ≡ suc n
    → IsSolid (c ∷ cs)
    → Begins tail
    → scan_words ((c ∷ cs) ++ (replicate k space ++ tail)) ≡ (2, c ∷ cs)
unfolding scan_words
scan_words-two c cs tail k n is_k h (t, ts, e, solid) =
    rw
      (
        is_k,
        skip_blanks-solid c (cs ++ (replicate (suc n) space ++ tail)) h.0,
        take_word-space (c ∷ cs) (replicate n space ++ tail) h,
        skip_blanks-replicate (suc n) tail,
        e,
        skip_blanks-solid t ts solid,
        take_word-cons t ts solid,
      )
      refl

drop-behind : (n : ℕ) (xs ys : List ℕ) → length xs ≡ n → drop n (xs ++ ys) ≡ ys
drop-behind n xs ys e = rw (← e) (drop-length-append xs ys)

split_by-two :
    (first front tail : List ℕ)
    → length front ≡ 16
    → split_by (2, first) (front ++ tail) ≡ ok (first, tail)
unfolding split_by
split_by-two first front tail e = rw (enough, drop-behind 16 front tail e) refl
  where
    enough : leb 16 (length (front ++ tail)) ≡ true
    enough = ground (arith, length-append front tail, e)

module _ (conf : Conf) (w pc : ℕ) where
  decode_op-scanned :
      (s : List ℕ) (scanned : ℕ × List ℕ)
      → disassemble conf w pc ≡ ok s
      → scan_words s ≡ scanned
      → decode_op conf w pc ≡ split_by scanned s
  unfolding decode_op
  decode_op-scanned s scanned run e = rw (run, ← e) refl

  -- A text of one word.
  pub decode_op-one :
      (s : List ℕ)
      → 0 < length s
      → IsSolid s
      → disassemble conf w pc ≡ ok s
      → decode_op conf w pc ≡ ok (s, space ∷ [])
  unfolding split_by
  decode_op-one [] long h run = absurd (omega arith)
  decode_op-one (c ∷ cs) long h run =
      decode_op-scanned (c ∷ cs) (1, c ∷ cs) run (scan_words-one c cs h)

  -- A word that is padded to 16 columns, and text behind it.
  pub decode_op-two :
      (s tail : List ℕ)
      → 0 < length s
      → length s < 16
      → IsSolid s
      → Begins tail
      → disassemble conf w pc ≡ ok (pad_right 16 s ++ tail)
      → decode_op conf w pc ≡ ok (s, tail)
  unfolding pad_right
  decode_op-two [] tail long short h begins run = absurd (omega arith)
  decode_op-two (c ∷ cs) tail long short h begins run =
      decode_op-scanned (((c ∷ cs) ++ blanks) ++ tail) (2, c ∷ cs) run scanned
      ∙ split_by-two (c ∷ cs) ((c ∷ cs) ++ blanks) tail padded
    where
      blanks : List ℕ
      blanks = replicate (16 - length (c ∷ cs)) space

      scanned : scan_words (((c ∷ cs) ++ blanks) ++ tail) ≡ (2, c ∷ cs)
      scanned =
          ap scan_words (append_assoc (c ∷ cs) blanks tail)
          ∙ scan_words-two c cs tail (16 - length (c ∷ cs)) (15 - length (c ∷ cs))
              (omega (arith, short)) h begins

      padded : length ((c ∷ cs) ++ blanks) ≡ 16
      padded = omega (
        arith,
        length-append (c ∷ cs) blanks,
        length-replicate (16 - length (c ∷ cs)) space,
        short,
      )
