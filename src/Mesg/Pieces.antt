-- ===== src/Mesg/Pieces.antt =====
-- A message as characters to show and control sequences, and what is left of it.
use n_ovl.Base.{
  ◌∙◌, ℕ, suc, ◌+◌, ◌≤◌, ◌≡◌, ◌≢◌, refl, arith, List, [], ◌∷◌, ◌++◌, Bool, true, false,
}
use n_ovl.Base.{All, length, length-append, leb, ◌==◌, if◌then◌else◌}
use n_ovl.Base.Exec.{ok, fault}
use n_ovl.Mesg.{escape_code, end_code, strip_from, strip_control_characters}

-- `sequence cs` is the escape character, `cs`, and the character that ends a sequence.
pub data Piece : Type 0 where
  shown : ℕ → Piece
  sequence : List ℕ → Piece

abbrev pub IsPiece : Piece → Type 0
IsPiece (shown c) = c ≢ escape_code
IsPiece (sequence cs) = All (λ c. c ≢ end_code) cs

abbrev pub render : List Piece → List ℕ
render [] = []
render (shown c ∷ ps) = c ∷ render ps
render (sequence cs ∷ ps) = escape_code ∷ (cs ++ (end_code ∷ render ps))

abbrev pub visible : List Piece → List ℕ
visible [] = []
visible (shown c ∷ ps) = c ∷ visible ps
visible (sequence cs ∷ ps) = visible ps

abbrev pub has_sequence : List Piece → Bool
has_sequence [] = false
has_sequence (shown c ∷ ps) = has_sequence ps
has_sequence (sequence cs ∷ ps) = true

not_equal : (n k : ℕ) → n ≢ k → (n == k) ≡ false
not_equal n k ne = ground arith

strip_from-sequence :
    (cs rest : List ℕ)
    → All (λ c. c ≢ end_code) cs
    → strip_from true (cs ++ (end_code ∷ rest)) ≡ strip_from false rest
unfolding strip_from
strip_from-sequence [] rest h = refl
strip_from-sequence (c ∷ cs) rest h =
    rw (strip_from, not_equal c end_code h.0) (strip_from-sequence cs rest h.1)

strip_from-render :
    (ps : List Piece) → All IsPiece ps → strip_from false (render ps) ≡ ok (visible ps)
unfolding strip_from
strip_from-render [] h = refl
strip_from-render (shown c ∷ ps) h =
    rw (strip_from, not_equal c escape_code h.0, strip_from-render ps h.1) refl
strip_from-render (sequence cs ∷ ps) h =
    strip_from-sequence cs (render ps) h.0 ∙ strip_from-render ps h.1

visible-le : (ps : List Piece) → length (visible ps) ≤ length (render ps)
visible-le [] = omega arith
visible-le (shown c ∷ ps) = omega (arith, visible-le ps)
visible-le (sequence cs ∷ ps) =
    omega (arith, visible-le ps, length-append cs (end_code ∷ render ps))

fits_iff : (ps : List Piece) → leb (length (visible ps) + 1) (length (render ps)) ≡ has_sequence ps
fits_iff [] = refl
fits_iff (shown c ∷ ps) = shift (length (visible ps)) (length (render ps)) ∙ fits_iff ps
  where
    shift : (n k : ℕ) → leb (suc n + 1) (suc k) ≡ leb (n + 1) k
    shift n k = ground arith
fits_iff (sequence cs ∷ ps) = ground (arith, visible-le ps, length-append cs (end_code ∷ render ps))

-- For a message made of characters other than the escape character and of sequences that end: if
-- there is a sequence, the result is the characters without the sequences. If there is none, the
-- terminating zero is written behind the end of the block for the result.
pub strip-render :
    (ps : List Piece)
    → All IsPiece ps
    → strip_control_characters (render ps) ≡ (if has_sequence ps then ok (visible ps) else fault)
unfolding strip_control_characters
strip-render ps h = rw (strip_from-render ps h, fits_iff ps) refl
