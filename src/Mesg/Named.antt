-- ===== src/Mesg/Named.antt =====
-- The functions of src/mesg.c that give a message its level and symbol. What `vprintf` makes of the
-- format and its arguments is the text `body`.
use n_ovl.Base.{ℕ, ◌≡◌, ◌≢◌, refl, sym, ap, ◌∙◌, List, [], ◌∷◌, ◌++◌, Bool, true, false}
use n_ovl.Base.{All, All-append, length, ltb, if◌then◌else◌, arith, Bool-cases, inl, inr}
use n_ovl.Base.Exec.{Exec, ok}
use mathlib.Core.List.{append_assoc}
use n_ovl.Section.{codes}
use n_ovl.Printer.Names.{reset_default}
use n_ovl.Mesg.{escape_code, end_code, mk_mesg_f, strip_control_characters}
use n_ovl.Mesg.Pieces.{Piece, shown, sequence, IsPiece, render, visible, strip-render}

-- The functions, in the order of the file.
pub data Kind : Type 0 where
  notice mesg error debug debug_r : Kind

-- NOVL_VERBOSE_NOTICE to NOVL_VERBOSE_DEBUG2, one more than in the program.
abbrev pub level : Kind → ℕ
level notice = 1
level mesg = 2
level error = 1
level debug = 3
level debug_r = 4

-- `ANSI_START "0" ";" color "m"`
abbrev pub set_fg : List ℕ → List ℕ
set_fg color = escape_code ∷ (codes "[0;" ++ (color ++ codes "m"))

abbrev pub color : Kind → List ℕ
color error = codes "31"
color debug = codes "32"
color debug_r = codes "36"
color _ = codes "34"

abbrev pub mark : Kind → ℕ
mark error = b'!'
mark debug = b'@'
mark debug_r = b'*'
mark _ = b'-'

abbrev pub symbol : Kind → List ℕ
symbol k = b'[' ∷ (set_fg (color k) ++ (mark k ∷ (reset_default ++ (b']' ∷ []))))

-- `"%s %s\n"` with the symbol, filled in.
abbrev pub final : List ℕ → List ℕ → List ℕ
final symbol_ body = symbol_ ++ (b' ' ∷ (body ++ (10 ∷ [])))

-- `mk_mesg`
unfoldable pub mk_mesg : ℕ → Bool → ℕ → List ℕ → List ℕ → Exec (List ℕ × ℕ)
unfolding mk_mesg_f
mk_mesg verbosity no_colors v symbol_ body =
    if ltb verbosity v then ok ([], 0) else mk_mesg_f verbosity no_colors v (final symbol_ body)

-- `NOTICE`, `MESG`, `ERROR`, `DEBUG` and `DEBUG_R`
unfoldable pub named_mesg : ℕ → Bool → Kind → List ℕ → Exec (List ℕ × ℕ)
unfolding mk_mesg_f
named_mesg verbosity no_colors k body =
    mk_mesg_f verbosity no_colors (level k) (final (symbol k) body)

-- The pieces of a named message.
symbol_pieces : Kind → List Piece → List Piece
symbol_pieces k rest =
    shown b'['
    ∷ sequence (codes "[0;" ++ color k)
    ∷ shown (mark k)
    ∷ sequence (codes "[0")
    ∷ shown b']'
    ∷ shown b' '
    ∷ rest

render-append : (ps qs : List Piece) → render (ps ++ qs) ≡ render ps ++ render qs
render-append [] qs = refl
render-append (shown c ∷ ps) qs = ap (λ (l : List ℕ). c ∷ l) (render-append ps qs)
render-append (sequence cs ∷ ps) qs = rw (render-append ps qs) (
    ap (λ (l : List ℕ). escape_code ∷ l) (sym (append_assoc cs (end_code ∷ render ps) (render qs))))

visible-append : (ps qs : List Piece) → visible (ps ++ qs) ≡ visible ps ++ visible qs
visible-append [] qs = refl
visible-append (shown c ∷ ps) qs = ap (λ (l : List ℕ). c ∷ l) (visible-append ps qs)
visible-append (sequence cs ∷ ps) qs = visible-append ps qs

render-symbol_pieces :
    (k : Kind) (ps : List Piece)
    → render (symbol_pieces k (ps ++ (shown 10 ∷ []))) ≡ final (symbol k) (render ps)
unfolding symbol_pieces
render-symbol_pieces notice ps = rw (render-append ps (shown 10 ∷ [])) refl
render-symbol_pieces mesg ps = rw (render-append ps (shown 10 ∷ [])) refl
render-symbol_pieces error ps = rw (render-append ps (shown 10 ∷ [])) refl
render-symbol_pieces debug ps = rw (render-append ps (shown 10 ∷ [])) refl
render-symbol_pieces debug_r ps = rw (render-append ps (shown 10 ∷ [])) refl

-- The message without colours.
abbrev pub plain : Kind → List ℕ → List ℕ
plain k body = b'[' ∷ mark k ∷ b']' ∷ b' ' ∷ (body ++ (10 ∷ []))

visible-symbol_pieces :
    (k : Kind) (ps : List Piece)
    → visible (symbol_pieces k (ps ++ (shown 10 ∷ []))) ≡ plain k (visible ps)
unfolding symbol_pieces
visible-symbol_pieces k ps = rw (visible-append ps (shown 10 ∷ [])) refl

mark-IsPiece : (k : Kind) → mark k ≢ escape_code
mark-IsPiece notice = omega arith
mark-IsPiece mesg = omega arith
mark-IsPiece error = omega arith
mark-IsPiece debug = omega arith
mark-IsPiece debug_r = omega arith

color-IsPiece : (k : Kind) → IsPiece (sequence (codes "[0;" ++ color k))
color-IsPiece notice = omega arith
color-IsPiece mesg = omega arith
color-IsPiece error = omega arith
color-IsPiece debug = omega arith
color-IsPiece debug_r = omega arith

strip-final :
    (k : Kind) (ps : List Piece)
    → All IsPiece ps
    → strip_control_characters (final (symbol k) (render ps)) ≡ ok (plain k (visible ps))
unfolding symbol_pieces
strip-final k ps h =
    ap strip_control_characters (sym (render-symbol_pieces k ps))
    ∙ strip-render (symbol_pieces k (ps ++ (shown 10 ∷ []))) (
      omega arith,
      (
        color-IsPiece k,
        (
          mark-IsPiece k,
          (
            omega arith,
            (omega arith, (omega arith, All-append IsPiece ps (shown 10 ∷ []) h (omega arith))),
          ),
        ),
      ),
    )
    ∙ ap (λ (l : List ℕ). ok l) (visible-symbol_pieces k ps)

-- A message of one of the five functions, whose text is made of characters other than the escape
-- character and of control sequences that end: it is left out, with the result 0, when the verbosity
-- is below the function's level. Otherwise it is printed with the function's symbol in front and a
-- newline behind, without any control sequence if colours are off, and the result is the length with
-- them. So the stripping of colours, which needs a control sequence in its string, always finds one
-- here.
pub named_mesg_lem :
    (verbosity : ℕ) (no_colors : Bool) (k : Kind) (ps : List Piece)
    → All IsPiece ps
    → named_mesg verbosity no_colors k (render ps)
      ≡ ok (
          if ltb verbosity (level k) then ([], 0) else (
            (if no_colors then plain k (visible ps) else final (symbol k) (render ps)),
            length (final (symbol k) (render ps)),
          ))
unfolding named_mesg
named_mesg_lem verbosity true k ps h = elim (Bool-cases (ltb verbosity (level k))) [
  | inl e ↦ rw e refl
  | inr e ↦ rw (e, strip-final k ps h) refl
]
named_mesg_lem verbosity false k ps h = elim (Bool-cases (ltb verbosity (level k))) [
  | inl e ↦ rw e refl
  | inr e ↦ rw e refl
]
