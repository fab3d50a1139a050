-- ===== src/Decoder/Fitting.antt =====
-- What all names and formats of the instructions have in common.
use Prim.Native.String.{String}
use n_ovl.Base.{ℕ, ◌≤◌, ◌≡◌, refl, inl, inr, List, Option, none, some, Bool, true, false}
use n_ovl.Base.{both, all, all-All, All, length, switch-All, leb, leb→le, ◌==◌, ◌&&◌, Bool-cases}
use n_ovl.Base.Word.{low_bits, shr}
use n_ovl.Section.{codes}
use n_ovl.Printer.Format.{read_token}
use n_ovl.Printer.Safety.{width}
use n_ovl.Decoder.Op.{Op, text, reserv}
use n_ovl.Decoder.Special.{special_cases, special}
use n_ovl.Decoder.Regimm.{regimm_cases, regimm}
use n_ovl.Decoder.Cop0.{tlb_cases, tlb, cop0_cases, cop0}
use n_ovl.Decoder.Single.{single_cases, single}
use n_ovl.Decoder.Double.{double_cases, double}
use n_ovl.Decoder.Cop1.{bc_cases, bc, word_cases, word, long_cases, long, cop1_cases, cop1}
use n_ovl.Decoder.Disassemble.{opcode_cases, decode}
use n_ovl.Base.{not}
use n_ovl.Decoder.Split.{is_blank}
use n_ovl.Decoder.Split.Shape.{shaped}

-- A name is at most 15 characters, and none of them is a blank; a format prints at most 250
-- characters for a spacing of at most 100 columns, and has the name in front.
abbrev pub is_some_below : ℕ → Option ℕ → Bool
is_some_below limit none = false
is_some_below limit (some n) = leb n limit

abbrev pub is_word : List ℕ → Bool
is_word s = leb 1 (length s) && all (λ c. not (is_blank c)) s

pub fits : Op → Bool
unfolding width read_token shaped
fits reserv = true
fits (text name fmt) =
    leb (length (codes name)) 15
    && (is_some_below 250 (width 116 (codes fmt)) && (is_word (codes name) && shaped (codes fmt)))

abbrev pub Fitting : Op → Type 0
Fitting op = fits op ≡ true

pub fits-parts :
    (name fmt : String)
    → Fitting (text name fmt)
    → (length (codes name) ≤ 15)
      × (is_some_below 250 (width 116 (codes fmt)) ≡ true)
      × (is_word (codes name) ≡ true)
      × (shaped (codes fmt) ≡ true)
unfolding fits
fits-parts name fmt h =
    let (short, rest) =
      both (leb (length (codes name)) 15)
        (is_some_below 250 (width 116 (codes fmt)) && (is_word (codes name) && shaped (codes fmt)))
        h in
    let (narrow, rest') =
      both (is_some_below 250 (width 116 (codes fmt))) (is_word (codes name) && shaped (codes fmt))
        rest in
    let (word, shape) = both (is_word (codes name)) (shaped (codes fmt)) rest' in
    (leb→le (length (codes name)) 15 short, narrow, word, shape)

-- Every case of a table.
all_fit : List (ℕ × Op) → Bool
unfolding fits
all_fit cases = all (λ (e : ℕ × Op). fits e.1) cases

all_fit-All :
    (cases : List (ℕ × Op)) → all_fit cases ≡ true → All (λ (e : ℕ × Op). Fitting e.1) cases
unfolding all_fit
all_fit-All cases h = all-All (λ (e : ℕ × Op). fits e.1) cases h

special_fits : (w : ℕ) → Fitting (special w)
unfolding special all_fit
special_fits w =
    switch-All Fitting (special_cases w) reserv (low_bits w 6)
      (all_fit-All (special_cases w) (table w)) refl
  where
    table : (w : ℕ) → all_fit (special_cases w) ≡ true
    table w = elim (Bool-cases (w == 0)) [ inl e ↦ rw e refl | inr e ↦ rw e refl ]

regimm_fits : (w : ℕ) → Fitting (regimm w)
unfolding regimm all_fit
regimm_fits w =
    switch-All Fitting regimm_cases reserv (low_bits (shr w 16) 5) (all_fit-All regimm_cases refl)
      refl

tlb_fits : (w : ℕ) → Fitting (tlb w)
unfolding tlb all_fit
tlb_fits w = switch-All Fitting tlb_cases reserv (low_bits w 6) (all_fit-All tlb_cases refl) refl

cop0_fits : (w : ℕ) → Fitting (cop0 w)
unfolding cop0 all_fit
cop0_fits w =
    switch-All Fitting (cop0_cases w) reserv (low_bits (shr w 21) 5)
      (all_fit-All (cop0_cases w) (rw (tlb_fits w) refl)) refl

single_fits : (w : ℕ) → Fitting (single w)
unfolding single all_fit
single_fits w =
    switch-All Fitting single_cases reserv (low_bits w 6) (all_fit-All single_cases refl) refl

double_fits : (w : ℕ) → Fitting (double w)
unfolding double all_fit
double_fits w =
    switch-All Fitting double_cases reserv (low_bits w 6) (all_fit-All double_cases refl) refl

bc_fits : (w : ℕ) → Fitting (bc w)
unfolding bc all_fit
bc_fits w =
    switch-All Fitting bc_cases reserv (low_bits (shr w 16) 2) (all_fit-All bc_cases refl) refl

word_fits : (w : ℕ) → Fitting (word w)
unfolding word all_fit
word_fits w = switch-All Fitting word_cases reserv (low_bits w 6) (all_fit-All word_cases refl) refl

long_fits : (w : ℕ) → Fitting (long w)
unfolding long all_fit
long_fits w = switch-All Fitting long_cases reserv (low_bits w 6) (all_fit-All long_cases refl) refl

cop1_fits : (w : ℕ) → Fitting (cop1 w)
unfolding cop1 all_fit
cop1_fits w =
    switch-All Fitting (cop1_cases w) reserv (low_bits (shr w 21) 5)
      (all_fit-All (cop1_cases w)
        (rw (bc_fits w, single_fits w, double_fits w, word_fits w, long_fits w) refl))
      refl

pub decode_fits : (w : ℕ) → Fitting (decode w)
unfolding decode all_fit
decode_fits w =
    switch-All Fitting (opcode_cases w) reserv (low_bits (shr w 26) 6)
      (all_fit-All (opcode_cases w)
        (rw (special_fits w, regimm_fits w, cop0_fits w, cop1_fits w) refl))
      refl
