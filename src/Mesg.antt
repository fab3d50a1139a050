-- ===== src/Mesg.antt =====
-- The text of messages, src/mesg.c: `mesg_strip_control_characters` and `mk_mesg_f`. A string is the
-- list of its characters' codes, without the terminating zero.
mod Tests
pub mod Pieces
pub mod Named
use n_ovl.Base.{ℕ, ◌+◌, List, [], ◌∷◌, Bool, true, false, length, leb, ltb, ◌==◌, if◌then◌else◌}
use n_ovl.Base.Exec.{Exec, ok, fault, ◌>>=◌}

-- `ANSI_START[0]`, and the character that ends a sequence.
abbrev pub escape_code : ℕ
escape_code = 0x1B

abbrev pub end_code : ℕ
end_code = 0x6D

-- The loop over the string, outside (`false`) and inside (`true`) a sequence. A sequence that does
-- not end runs past the end of the string.
unfoldable pub strip_from : Bool → List ℕ → Exec (List ℕ)
strip_from false [] = ok []
strip_from true [] = fault
strip_from false (c ∷ cs) = elim (c == escape_code) [
  | true ↦ strip_from true cs
  | false ↦ strip_from false cs >>= λ new. ok (c ∷ new)
]
strip_from true (c ∷ cs) = elim (c == end_code) [
  | true ↦ strip_from false cs
  | false ↦ strip_from true cs
]

-- The block for the result has as many bytes as the string has characters, and the result has a
-- terminating zero.
unfoldable pub strip_control_characters : List ℕ → Exec (List ℕ)
strip_control_characters str = do
  new ← strip_from false str
  if leb (length new + 1) (length str) then ok new else fault

-- What is printed, and the result. Verbosities are shifted by one, so that 0 is the silent mode;
-- `final` is the formatted message.
unfoldable pub mk_mesg_f : (verbosity : ℕ) (no_colors : Bool) (v : ℕ) → List ℕ → Exec (List ℕ × ℕ)
mk_mesg_f verbosity no_colors v final =
    if ltb verbosity v
    then ok ([], 0)
    else if no_colors
    then (strip_control_characters final >>= λ stripped. ok (stripped, length final))
    else ok (final, length final)
