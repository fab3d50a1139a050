-- ===== src/Mesg/Tests.antt =====
-- A message with one coloured word.
use n_ovl.Base.{◌≡◌, arith, List, [], ◌∷◌, if◌then◌else◌}
use n_ovl.Base.Exec.{ok, fault}
use n_ovl.Mesg.{strip_control_characters}
use n_ovl.Base.{true, ltb, length}
use n_ovl.Mesg.Named.{error, level, symbol, final, plain, named_mesg, named_mesg_lem}
use n_ovl.Mesg.Pieces.{Piece, shown, sequence, render, visible, has_sequence, strip-render}

-- "A", the sequence for red, "b".
abbrev pieces : List Piece
pieces = shown 0x41 ∷ sequence (0x5B ∷ 0x33 ∷ 0x31 ∷ []) ∷ shown 0x62 ∷ []

strip-render_example :
    strip_control_characters (render pieces)
    ≡ (if has_sequence pieces then ok (visible pieces) else fault)
strip-render_example =
    strip-render pieces
      (omega arith, ((omega arith, (omega arith, (omega arith, tt))), (omega arith, tt)))

named_mesg_lem_example :
    named_mesg 1 true error (render pieces)
    ≡ ok (
        if ltb 1 (level error) then ([], 0) else (
          (if true then plain error (visible pieces) else final (symbol error) (render pieces)),
          length (final (symbol error) (render pieces)),
        ))
named_mesg_lem_example =
    named_mesg_lem 1 true error pieces
      (omega arith, ((omega arith, (omega arith, (omega arith, tt))), (omega arith, tt)))
