-- ===== src/Printer/Tests.antt =====
-- Printed numbers and instructions.
use n_ovl.Base.{◌≡◌, refl, arith, true}
use n_ovl.Base.Exec.{ok}
use n_ovl.Section.{codes}
use n_ovl.Printer.Text.{hex, signed}
use n_ovl.Base.{◌+◌}
use n_ovl.Printer.Conf.{initial, set_spacing}
use n_ovl.Printer.Conf.Flags.{set_spacing-sum}
use n_ovl.Printer.Format.{sprintf}
use n_ovl.Printer.Hex.{hex_value_from, hex_value-hex}

hex_lower : hex true 8 0x8010_BEEF ≡ codes "8010beef"
unfolding hex
hex_lower = refl

signed_minus : signed 0xFFE8 ≡ codes "-24"
unfolding signed
signed_minus = refl

store_word :
    sprintf initial (codes "SW") 0xAFBF_0014 0 (codes "%ns%rt, %ih(%rs)")
    ≡ ok (codes "sw              ra, 0x0014(sp)")
unfolding sprintf
store_word = refl

hex_read_back : hex_value_from 0 (hex true 8 0x8010_BEEF) ≡ 0x8010_BEEF
hex_read_back = hex_value-hex true 8 0x8010_BEEF (omega arith)

-- A spacing of 8, set over the initial 16.
set_spacing-sum_example : (set_spacing 8 initial).spacing ≡ initial.spacing + 8
set_spacing-sum_example = set_spacing-sum 8 4 1 initial (omega arith) (omega arith) refl
