-- ===== src/Main/Args.antt =====
-- The command line: `args_process` and `check_opmode` of src/main.c, and the settings of src/novl.h.
pub mod Modes
pub mod Address
use n_ovl.Base.{
  ℕ, zero, suc, ◌+◌, ◌-◌, ◌*◌, ◌%◌, ◌^◌, List, [], ◌∷◌, Option, none, some, Bool, true, false, not,
}
use n_ovl.Base.{switch, ltb, leb, ◌==◌, if◌then◌else◌, ◌&&◌, ◌||◌}
use n_ovl.Base.Word.{u32}
use n_ovl.Base.Exec.{Exec, ok, exit, ◌>>=◌, fold_exec}

-- `enum nOVLopmode`
pub data OpMode : Type 0 where
  op_none op_list_sections op_list_relocations op_convert op_disassemble op_disassemble_all : OpMode

-- `struct novl_settings_t` with the variable `oval`. The verbosity is one more than in the program,
-- so that 0 is the silent mode.
pub record Settings : Type 0 where
  pub opmode : OpMode
  pub verbosity : ℕ
  pub no_colors : Bool
  pub human_readable : Bool
  pub base_addr : ℕ
  pub flag : ℕ → Bool
  pub oval : Option (List ℕ)

abbrev pub initial_settings : Settings
initial_settings = record {
  opmode = op_none;
  verbosity = 1;
  no_colors = false;
  human_readable = false;
  base_addr = 0;
  flag = λ c. false;
  oval = none;
}

-- One result of `getopt`, with `optarg`.
pub record Given : Type 0 where
  pub letter : ℕ
  pub optarg : List ℕ

-- `SET_FLAG` and `GET_FLAG`
abbrev pub set_flag : ℕ → Settings → Settings
set_flag c s = record s { flag = λ f. if f == c % 2 ^ 8 then true else s.flag f }

abbrev pub get_flag : ℕ → Settings → Bool
get_flag c s = s.flag (c % 2 ^ 8)

-- The value of a hexadecimal digit.
unfoldable pub hex_digit_of : ℕ → Option ℕ
hex_digit_of c =
    if leb b'0' c && leb c b'9'
    then some (c - b'0')
    else if leb b'A' c && leb c b'F'
    then some (c - b'A' + 10)
    else if leb b'a' c && leb c b'f'
    then some (c - b'a' + 10)
    else none

-- The digits up to the first other character.
unfoldable pub scan_digits : ℕ → List ℕ → ℕ
unfolding hex_digit_of
scan_digits n [] = n
scan_digits n (c ∷ cs) = elim (hex_digit_of c) [ none ↦ n | some d ↦ scan_digits (n * 16 + d) cs ]

-- `sscanf( s, "%X", … )`: blanks and a prefix `0x` are passed over; `none` if no digit follows. Here
-- the digits of the number, of any length.
unfoldable pub scan_number : List ℕ → Option ℕ
unfolding hex_digit_of scan_digits
scan_number [] = none
scan_number (c ∷ cs) = elim (hex_digit_of c) [ none ↦ none | some d ↦ some (scan_digits d cs) ]

unfoldable pub scan_prefixed : List ℕ → Option ℕ
unfolding scan_number
scan_prefixed (c ∷ x ∷ cs) =
    if c == b'0' && (x == b'x' || x == b'X') then scan_number cs else scan_number (c ∷ x ∷ cs)
scan_prefixed s = scan_number s

-- The number is taken as an `unsigned long` of 64 bits, from 2 ^ 64 on as the greatest one whatever the
-- sign, behind a minus sign else as its negative, and is stored modulo 2 ^ 32.
unfoldable pub stored : Option ℕ → Option ℕ
stored none = none
stored (some n) = some (if ltb n (2 ^ 64) then u32 n else 2 ^ 32 - 1)

unfoldable pub negated : Option ℕ → Option ℕ
negated none = none
negated (some n) = some (if ltb n (2 ^ 64) then u32 (2 ^ 64 - n) else 2 ^ 32 - 1)

unfoldable pub scan_signed : List ℕ → Option ℕ
unfolding scan_prefixed stored negated
scan_signed [] = none
scan_signed (c ∷ cs) =
    if c == b'-'
    then negated (scan_prefixed cs)
    else if c == b'+'
    then stored (scan_prefixed cs)
    else stored (scan_prefixed (c ∷ cs))

unfoldable pub scan_hex : List ℕ → Option ℕ
unfolding scan_signed
scan_hex [] = none
scan_hex (c ∷ cs) = elim (c == b' ' || (leb 9 c && leb c 13)) [
  | true ↦ scan_hex cs
  | false ↦ scan_signed (c ∷ cs)
]

abbrev pub is_none : OpMode → Bool
is_none op_none = true
is_none _ = false

-- `check_opmode`, and then the assignment.
unfoldable pub set_checked : OpMode → Settings → Exec Settings
set_checked m s = if is_none s.opmode then ok (record s { opmode = m }) else exit

-- `sscanf( optarg, "%X", &settings.base_addr )`, which leaves the variable where nothing is read.
unfoldable pub scanned : Option ℕ → ℕ → ℕ
scanned none old = old
scanned (some n) old = n

-- The cases of the switch: those that call `check_opmode` and set a mode, those that only set one,
-- the others, and the default, which shows the usage.
pub data Case : Type 0 where
  choose override : OpMode → Case
  address output human colors louder silent usage : Case

-- `-V` has no case, so that it falls into the default.
unfoldable pub letter_case : ℕ → Case
unfolding switch
letter_case =
    switch
      ((b'l', choose op_list_sections)
        ∷ (b'r', choose op_list_relocations)
        ∷ (b'c', choose op_convert)
        ∷ (b'd', override op_disassemble)
        ∷ (b'D', override op_disassemble_all)
        ∷ (b'A', address)
        ∷ (b'o', output)
        ∷ (b'h', human)
        ∷ (b'g', colors)
        ∷ (b'v', louder)
        ∷ (b's', silent)
        ∷ [])
      usage

unfoldable pub handle : Case → List ℕ → Settings → Exec Settings
unfolding set_checked scanned scan_hex
handle (choose m) optarg s = set_checked m s
handle (override m) optarg s = ok (record s { opmode = m })
handle address optarg s = ok (record s { base_addr = scanned (scan_hex optarg) s.base_addr })
handle output optarg s = ok (record s { oval = some optarg })
handle human optarg s = ok (record s { human_readable = true })
handle colors optarg s = ok (record s { no_colors = not s.no_colors })
handle louder optarg s = ok (record s { verbosity = s.verbosity + 1 })
handle silent optarg s = ok (record s { verbosity = 0 })
handle usage optarg s = exit

abbrev pub step : Settings → Given → Exec Settings
step s g = handle (letter_case g.letter) g.optarg (set_flag g.letter s)

-- The loop over the options.
unfoldable pub args_process : Settings → List Given → Exec Settings
unfolding handle letter_case
args_process s gs = fold_exec step s gs
