-- ===== src/Main/Args/Modes.antt =====
-- Which command lines are accepted, and what they choose.
use n_ovl.Base.{
  ℕ, ◌+◌, ◌%◌, ◌^◌, ◌<◌, ◌≡◌, ◌≢◌, refl, sym, ap, ◌∙◌, inl, inr, arith, List, [], ◌∷◌, some, Bool,
  true, false, not,
}
use n_ovl.Base.{All, ◌==◌, if◌then◌else◌, ◌&&◌, ◌||◌, Bool-cases}
use n_ovl.Base.Exec.{Exec, ok, exit, ◌>>=◌, fold_exec, ok-injective}
use mathlib.Core.Path.{subst}
use n_ovl.Main.Args.{
  OpMode, op_list_sections, op_list_relocations, op_convert, op_disassemble, op_disassemble_all,
  Settings, Given, set_flag, scan_hex, scanned, is_none, set_checked, Case, choose, override,
  address, output, human, colors, louder, silent, usage, letter_case, handle, step, args_process,
}

-- What the cases of the switch say of it.
accepts_case : Case → Bool → (Bool → Bool) → Bool
accepts_case (choose m) seen rest = not seen && rest (not (is_none m))
accepts_case (override m) seen rest = rest (not (is_none m))
accepts_case usage seen rest = false
accepts_case _ seen rest = rest seen

-- The letters of the options: those whose mode must be the first one, those that set a mode, and the
-- others.
abbrev pub is_first : ℕ → Bool
is_first c = c == b'l' || (c == b'r' || c == b'c')

abbrev pub sets_mode : ℕ → Bool
sets_mode c = is_first c || (c == b'd' || c == b'D')

abbrev pub is_option : ℕ → Bool
is_option c =
    sets_mode c
    || (c == b'A' || (c == b'o' || (c == b'h' || (c == b'g' || (c == b'v' || c == b's')))))

accepts_letter : ℕ → Bool → (Bool → Bool) → Bool
accepts_letter c seen rest = is_option c && (not (is_first c && seen) && rest (sets_mode c || seen))

pub accepts : Bool → List Given → Bool
unfolding accepts_letter
accepts seen [] = true
accepts seen (g ∷ gs) = accepts_letter g.letter seen (λ b. accepts b gs)

mode_after : Case → OpMode → OpMode
mode_after (choose m) old = m
mode_after (override m) old = m
mode_after _ old = old

-- The mode that a letter sets.
pub letter_mode : ℕ → OpMode → OpMode
letter_mode c old =
    if c == b'l'
    then op_list_sections
    else if c == b'r'
    then op_list_relocations
    else if c == b'c'
    then op_convert
    else if c == b'd'
    then op_disassemble
    else if c == b'D'
    then op_disassemble_all
    else old

-- The mode of the last option that sets one.
pub last_mode : OpMode → List Given → OpMode
unfolding letter_mode
last_mode m [] = m
last_mode m (g ∷ gs) = last_mode (letter_mode g.letter m) gs

-- A property of each letter of a list, and of all that differ from them.
one_of {ℓ} :
    (P : ℕ → Type ℓ) (ks : List ℕ) (c : ℕ) → All P ks → (All (λ k. (c == k) ≡ false) ks → P c) → P c
one_of P [] c h none_is = none_is tt
one_of P (k ∷ ks) c (h, hs) none_is = elim (Bool-cases (c == k)) [
  | inl e ↦ subst P (same c k e) h
  | inr e ↦ one_of P ks c hs (λ differ. none_is (e, differ))
]
  where
    same : (c k : ℕ) → (c == k) ≡ true → k ≡ c
    same c k e = ground (arith, e)

abbrev letters : List ℕ
letters = b'l' ∷ b'r' ∷ b'c' ∷ b'd' ∷ b'D' ∷ b'A' ∷ b'o' ∷ b'h' ∷ b'g' ∷ b'v' ∷ b's' ∷ []

letter_case-accepts :
    (c : ℕ) (seen : Bool) (rest : Bool → Bool)
    → accepts_case (letter_case c) seen rest ≡ accepts_letter c seen rest
unfolding accepts_case accepts_letter letter_case
letter_case-accepts c seen rest =
    one_of (λ c. accepts_case (letter_case c) seen rest ≡ accepts_letter c seen rest) letters c
      (refl, (refl, (refl, (refl, (refl, (refl, (refl, (refl, (refl, (refl, (refl, tt)))))))))))
      (λ (e_l, (e_r, (e_c, (e_d, (e_all, (e_a, (e_o, (e_h, (e_g, (e_v, (e_s, _))))))))))).
        rw (e_l, e_r, e_c, e_d, e_all, e_a, e_o, e_h, e_g, e_v, e_s) refl)

letter_case-mode : (c : ℕ) (old : OpMode) → mode_after (letter_case c) old ≡ letter_mode c old
unfolding mode_after letter_mode letter_case
letter_case-mode c old =
    one_of (λ c. mode_after (letter_case c) old ≡ letter_mode c old) letters c
      (refl, (refl, (refl, (refl, (refl, (refl, (refl, (refl, (refl, (refl, (refl, tt)))))))))))
      (λ (e_l, (e_r, (e_c, (e_d, (e_all, (e_a, (e_o, (e_h, (e_g, (e_v, (e_s, _))))))))))).
        rw (e_l, e_r, e_c, e_d, e_all, e_a, e_o, e_h, e_g, e_v, e_s) refl)

-- The letters that are given, and those that were noted before.
unfoldable pub noted : (ℕ → Bool) → List Given → ℕ → Bool
noted flag [] c = flag c
noted flag (g ∷ gs) c = noted (λ f. if f == g.letter % 2 ^ 8 then true else flag f) gs c

-- The outcome of the loop: it returns with the mode and the letters, or it exits.
Outcome : Bool → OpMode → (ℕ → Bool) → Exec Settings → Type 0
Outcome true m f r = (s' : Settings) × (r ≡ ok s') × (s'.opmode ≡ m) × (s'.flag ≡ f)
Outcome false m f r = r ≡ exit

module _ (gs : List Given)
    (rec : (s : Settings)
      → Outcome
          (accepts (not (is_none s.opmode)) gs)
          (last_mode s.opmode gs)
          (noted s.flag gs)
          (fold_exec step s gs)) where
  case-Outcome :
      (k : Case) (optarg : List ℕ) (s : Settings)
      → Outcome
          (accepts_case k (not (is_none s.opmode)) (λ b. accepts b gs))
          (last_mode (mode_after k s.opmode) gs)
          (noted s.flag gs)
          (handle k optarg s >>= λ s'. fold_exec step s' gs)
  unfolding accepts_case mode_after handle set_checked
  case-Outcome (choose m) optarg s = elim (Bool-cases (is_none s.opmode)) [
    | inl e ↦ rw e (rec (record s { opmode = m }))
    | inr e ↦ rw e (unfold Outcome in refl)
  ]
  case-Outcome (override m) optarg s = rec (record s { opmode = m })
  case-Outcome address optarg s =
      rec (record s { base_addr = scanned (scan_hex optarg) s.base_addr })
  case-Outcome output optarg s = rec (record s { oval = some optarg })
  case-Outcome human optarg s = rec (record s { human_readable = true })
  case-Outcome colors optarg s = rec (record s { no_colors = not s.no_colors })
  case-Outcome louder optarg s = rec (record s { verbosity = s.verbosity + 1 })
  case-Outcome silent optarg s = rec (record s { verbosity = 0 })
  case-Outcome usage optarg s = unfold Outcome in refl

fold-Outcome :
    (gs : List Given) (s : Settings)
    → Outcome
        (accepts (not (is_none s.opmode)) gs)
        (last_mode s.opmode gs)
        (noted s.flag gs)
        (fold_exec step s gs)
unfolding accepts last_mode noted
fold-Outcome [] s = unfold Outcome in (s, refl, refl, refl)
fold-Outcome (g ∷ gs) s =
    rw
      (
        ← letter_case-accepts g.letter (not (is_none s.opmode)) (λ b. accepts b gs),
        ← letter_case-mode g.letter s.opmode,
      )
      (case-Outcome gs (fold-Outcome gs) (letter_case g.letter) g.optarg (set_flag g.letter s))

-- The options are accepted exactly when each is one of -l, -r, -c, -d, -D, -A, -o, -h, -g, -v and
-- -s, and none of -l, -r and -c comes behind one of -l, -r, -c, -d and -D, or finds a mode that was
-- set before. Accepted options choose the mode of the last of those five, and note exactly their
-- letters; others end the program.
pub args_process-accepts :
    (s : Settings) (gs : List Given)
    → ((accepts (not (is_none s.opmode)) gs ≡ true)
        → (s' : Settings) × (args_process s gs ≡ ok s')
          × (s'.opmode ≡ last_mode s.opmode gs)
          × (s'.flag ≡ noted s.flag gs))
      × ((accepts (not (is_none s.opmode)) gs ≡ false) → args_process s gs ≡ exit)
unfolding args_process Outcome
args_process-accepts s gs = (λ e. rw e at (fold-Outcome gs s), λ e. rw e at (fold-Outcome gs s))

accepts_case-rest :
    (k : Case) (seen : Bool) (rest : Bool → Bool)
    → accepts_case k seen rest ≡ true
    → (k ≢ usage) × (b : Bool) × (rest b ≡ true)
unfolding accepts_case
accepts_case-rest (choose m) seen rest e =
    (λ k. cc k, not (is_none m), later (not seen) (rest (not (is_none m))) e)
  where
    later : (a b : Bool) → (a && b) ≡ true → b ≡ true
    later a b h = ground arith
accepts_case-rest (override m) seen rest e = (λ k. cc k, not (is_none m), e)
accepts_case-rest address seen rest e = (λ k. cc k, seen, e)
accepts_case-rest output seen rest e = (λ k. cc k, seen, e)
accepts_case-rest human seen rest e = (λ k. cc k, seen, e)
accepts_case-rest colors seen rest e = (λ k. cc k, seen, e)
accepts_case-rest louder seen rest e = (λ k. cc k, seen, e)
accepts_case-rest silent seen rest e = (λ k. cc k, seen, e)
accepts_case-rest usage seen rest e = absurd (cc e)

accepts-letter :
    (c : ℕ) (gs : List Given) (seen : Bool)
    → letter_case c ≡ usage
    → accepts seen gs ≡ true
    → All (λ g. g.letter ≢ c) gs
unfolding accepts
accepts-letter c [] seen h e = tt
accepts-letter c (g ∷ gs) seen h e =
    let (has_case, b, e') =
      accepts_case-rest (letter_case g.letter) seen (λ b. accepts b gs)
        (letter_case-accepts g.letter seen (λ b. accepts b gs) ∙ e) in
    (λ same. has_case (rw same h), accepts-letter c gs b h e')

noted-absent :
    (c : ℕ) (gs : List Given) (flag : ℕ → Bool)
    → All (λ g. g.letter < 2 ^ 8) gs
    → All (λ g. g.letter ≢ c) gs
    → noted flag gs c ≡ flag c
unfolding noted
noted-absent c [] flag small h = refl
noted-absent c (g ∷ gs) flag small h =
    noted-absent c gs _ small.1 h.1 ∙ rw (differ c g.letter small.0 h.0) refl
  where
    differ : (c l : ℕ) → l < 2 ^ 8 → l ≢ c → (c == l % 2 ^ 8) ≡ false
    differ c l h ne = ground arith

-- `-V`, the option for raw words in the disassembly, ends the program: it has no case. So after any
-- command line that is accepted, of letters that are bytes, its flag is not set, if it was not
-- before.
pub args_process-raw :
    (s s' : Settings) (gs : List Given)
    → All (λ g. g.letter < 2 ^ 8) gs
    → s.flag b'V' ≡ false
    → args_process s gs ≡ ok s'
    → All (λ g. g.letter ≢ b'V') gs × (s'.flag b'V' ≡ false)
args_process-raw s s' gs small unset run = elim (Bool-cases (accepts (not (is_none s.opmode)) gs)) [
  | inr e ↦ absurd (cc (run, (args_process-accepts s gs).1 e))
  | inl e ↦
      let (s'', run', _, flags) = (args_process-accepts s gs).0 e in
      let absent = accepts-letter b'V' gs (not (is_none s.opmode)) no_case e in
      let same = ok-injective s'' s' (sym run' ∙ run) in
      (
        absent,
        rw (← same) (
            ap (λ (f : ℕ → Bool). f b'V') flags ∙ noted-absent b'V' gs s.flag small absent ∙ unset),
      )
]
  where
    no_case : letter_case b'V' ≡ usage
    no_case = unfold letter_case in refl
