-- ===== src/Printer/Conf/Flags.antt =====
-- The setting of the spacing.
use n_ovl.Base.{ℕ, ◌+◌, ◌*◌, ◌^◌, ◌<◌, ◌≡◌, ap, ◌∙◌, arith, bit_or}
use n_ovl.Base.Bits.{bit_or_apart}
use n_ovl.Printer.Conf.{Conf, set_spacing}

-- A spacing below 128 that is set over one whose bits all lie above it is added to the old one, and
-- does not replace it.
pub set_spacing-sum :
    (n k high : ℕ) (conf : Conf)
    → n < 128
    → n < 2 ^ k
    → conf.spacing ≡ high * 2 ^ k
    → (set_spacing n conf).spacing ≡ conf.spacing + n
unfolding set_spacing
set_spacing-sum n k high conf below h e =
    ap (λ (s : ℕ). bit_or s n) e ∙ bit_or_apart k high n h ∙ omega (arith, e)
