-- ===== src/Decoder/Safety.antt =====
-- No instruction word makes the disassembler read outside a table, and no text is long.
use n_ovl.Base.{ℕ, ◌≤◌, ◌≡◌, refl, arith, List, ◌++◌, Option, none, some, true, false}
use n_ovl.Base.{length, length-append, leb→le}
use n_ovl.Base.Word.{low_bits, shr}
use n_ovl.Base.Exec.{ok}
use n_ovl.Section.{codes}
use n_ovl.Printer.Text.{hex}
use n_ovl.Printer.Conf.{Conf}
use n_ovl.Printer.Format.{prefixed}
use n_ovl.Printer.Lengths.{Prints, length-hex}
use n_ovl.Printer.Safety.{width, sprintf-Prints}
use n_ovl.Decoder.Op.{Op, text, reserv}
use n_ovl.Decoder.Disassemble.{decode, invalid_text, print_op, disassemble}
use n_ovl.Decoder.Fitting.{is_some_below, Fitting, fits-parts, decode_fits}

within :
    (limit : ℕ) (o : Option ℕ) → is_some_below limit o ≡ true → (n : ℕ) × (o ≡ some n) × (n ≤ limit)
within limit none h = absurd (cc h)
within limit (some n) h = (n, refl, leb→le n limit h)

length-invalid_text : (w : ℕ) → length (invalid_text w) ≡ 26
length-invalid_text w = omega (
  arith,
  length-append (hex false 2 (low_bits (shr w 26) 6))
      (codes ")       " ++ prefixed (hex false 8 w)),
  length-hex false 2 (low_bits (shr w 26) 6),
  length-hex false 8 w,
)

-- With any flags and a spacing of at most 100 columns, every word at every address is disassembled
-- to a text of at most 250 characters, which with its terminating zero fits the buffers of 256 and
-- 512 characters that the callers have: no table is read outside its bounds, and no format past its
-- end.
pub disassemble-Prints :
    (conf : Conf) (w pc : ℕ)
    → conf.spacing ≤ 100
    → (s : List ℕ) × (disassemble conf w pc ≡ ok s) × (length s ≤ 250)
unfolding disassemble
disassemble-Prints conf w pc room = op_prints (decode w) (decode_fits w)
  where
    op_prints : (op : Op) → Fitting op → Prints 250 (print_op conf w pc op)
    op_prints reserv h = (invalid_text w, refl, omega (arith, length-invalid_text w))
    op_prints (text name fmt) h =
        let (short, narrow, _, _) = fits-parts name fmt h in
        let (n, e, small) = within 250 (width 116 (codes fmt)) narrow in
        let (s, run, len) =
          sprintf-Prints conf (codes name) w pc 116 (omega (arith, room, short)) (codes fmt) n e in
        (s, run, omega (arith, len, small))
