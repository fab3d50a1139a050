-- ===== src/Printer/Format.antt =====
-- `mr4kd_sprintf` of src/opprintf.c: a format string with two-letter specifiers.
use n_ovl.Base.{
  ℕ, ◌+◌, ◌-◌, ◌*◌, ◌%◌, ◌^◌, bit_or, List, [], ◌∷◌, ◌++◌, map, Option, none, some, Bool, true,
  false,
}
use n_ovl.Base.{length, replicate, get_elem?, switch, ltb, leb, ◌==◌, if◌then◌else◌}
use n_ovl.Base.Word.{u32, shr, low_bits, high_bits, shl32}
use n_ovl.Base.Exec.{Exec, ok, fault, ◌>>=◌}
use n_ovl.Section.{codes}
use n_ovl.Reloc.Handlers.{sign_extend}
use n_ovl.Printer.Text.{space, to_lower, to_upper, hex, decimal, signed, pad_right}
use n_ovl.Printer.Names.{
  fpu_fmt_names, fp_compare_types, registers_a_gpr, registers_a_fpr, registers_a_cop, set_fg_blue,
  reset_default,
}
use n_ovl.Printer.Conf.{rprefix, rlower, olower, hlower, color, Conf}

-- `_RS` to `_FMT`; `_BASE` and `_FMT` are `_RS`, `_FS` is `_RD`, `_FT` is `_RT`, `_SHAM` is `_FD`.
abbrev pub field_rs : ℕ → ℕ
field_rs w = low_bits (shr w 21) 5

abbrev pub field_rt : ℕ → ℕ
field_rt w = low_bits (shr w 16) 5

abbrev pub field_rd : ℕ → ℕ
field_rd w = low_bits (shr w 11) 5

abbrev pub field_fd : ℕ → ℕ
field_fd w = low_bits (shr w 6) 5

abbrev pub field_cop : ℕ → ℕ
field_cop w = low_bits (shr w 26) 2

-- The specifiers, in the order of the switch.
pub data Token : Type 0 where
  rs rt rd fs ft fd cop_register immediate_hex immediate_dec branch jump cop_number shift_amount :
      Token
  compare_mode fp_mode remainder name_bare name_padded name_cop name_fp : Token

-- `TOKEN(x, y)`
abbrev pub token : ℕ → ℕ → ℕ
token x y = (x * 2 ^ 8 + y) % 2 ^ 16

abbrev pub token_table : List (ℕ × Option Token)
token_table =
    (token b'r' b's', some rs)
    ∷ (token b'r' b't', some rt)
    ∷ (token b'r' b'd', some rd)
    ∷ (token b'f' b's', some fs)
    ∷ (token b'f' b't', some ft)
    ∷ (token b'f' b'd', some fd)
    ∷ (token b'c' b'p', some cop_register)
    ∷ (token b'i' b'h', some immediate_hex)
    ∷ (token b'i' b'd', some immediate_dec)
    ∷ (token b'b' b'r', some branch)
    ∷ (token b'j' b'm', some jump)
    ∷ (token b'c' b'o', some cop_number)
    ∷ (token b's' b'a', some shift_amount)
    ∷ (token b'f' b'c', some compare_mode)
    ∷ (token b'f' b'f', some fp_mode)
    ∷ (token b'S' b'P', some remainder)
    ∷ (token b'n' b'0', some name_bare)
    ∷ (token b'n' b's', some name_padded)
    ∷ (token b'n' b'c', some name_cop)
    ∷ (token b'n' b'f', some name_fp)
    ∷ []

-- `switch( token )`
unfoldable pub read_token : ℕ → ℕ → Option Token
unfolding switch
read_token x y = switch token_table none (token x y)

-- An entry of a table; behind its end the array's bytes are not defined.
unfoldable pub entry {ℓ} : {A : Type ℓ} → List A → ℕ → Exec A
entry xs i = elim (get_elem? xs i) [ none ↦ fault | some x ↦ ok x ]

abbrev pub cased : Bool → List ℕ → List ℕ
cased lower s = if lower then map to_lower s else s

-- `mr4kd_rcpy_gpr`
unfoldable pub rcpy_gpr : Conf → ℕ → Exec (List ℕ)
unfolding entry to_lower
rcpy_gpr conf reg = do
  name ← entry registers_a_gpr reg
  ok (
      (if conf.flag color then set_fg_blue else [])
      ++ ((if conf.flag rprefix then b'$' ∷ [] else [])
          ++ (cased (conf.flag rlower) (codes name)
              ++ (if conf.flag color then reset_default else []))))

-- `mr4kd_rcpy_fpr`
unfoldable pub rcpy_fpr : Conf → ℕ → Exec (List ℕ)
unfolding entry to_lower
rcpy_fpr conf reg = do
  name ← entry registers_a_fpr reg
  ok ((if conf.flag rprefix then b'$' ∷ [] else []) ++ cased (conf.flag rlower) (codes name))

-- The instruction's name in its case, `nb`.
unfoldable pub name_cased : Conf → List ℕ → List ℕ
unfolding to_lower to_upper
name_cased conf name = if conf.flag olower then map to_lower name else map to_upper name

-- `pc + 4 + (short)(instruction & 0xFFFF) * 4`
abbrev pub branch_target : ℕ → ℕ → ℕ
branch_target w pc = u32 (pc + 4 + sign_extend (low_bits w 16) * 4)

-- `_TARGET(instruction) | (pc & 0xF0000000)`
abbrev pub jump_target : ℕ → ℕ → ℕ
jump_target w pc = bit_or (shl32 (low_bits w 26) 2) (high_bits (u32 pc) 28)

abbrev pub prefixed : List ℕ → List ℕ
prefixed s = b'0' ∷ b'x' ∷ s

-- What a specifier prints. `d` is the number of characters so far. The name is copied to a block of
-- 32 bytes first, which the names of the instructions do not fill.
unfoldable pub expand : Conf → List ℕ → ℕ → ℕ → ℕ → Token → Exec (List ℕ)
unfolding rcpy_gpr rcpy_fpr name_cased hex decimal signed pad_right
expand conf name w pc d rs = rcpy_gpr conf (field_rs w)
expand conf name w pc d rt = rcpy_gpr conf (field_rt w)
expand conf name w pc d rd = rcpy_gpr conf (field_rd w)
expand conf name w pc d fs = rcpy_fpr conf (field_rd w)
expand conf name w pc d ft = rcpy_fpr conf (field_rt w)
expand conf name w pc d fd = rcpy_fpr conf (field_fd w)
expand conf name w pc d cop_register = entry registers_a_cop (field_rd w) >>= λ s. ok (codes s)
expand conf name w pc d immediate_hex = ok (prefixed (hex (conf.flag hlower) 4 (low_bits w 16)))
expand conf name w pc d immediate_dec = ok (signed (low_bits w 16))
expand conf name w pc d branch = ok (prefixed (hex (conf.flag hlower) 8 (branch_target w pc)))
expand conf name w pc d jump = ok (prefixed (hex (conf.flag hlower) 8 (jump_target w pc)))
expand conf name w pc d cop_number = ok (decimal 1 (field_cop w))
expand conf name w pc d shift_amount = ok (decimal 2 (field_fd w))
expand conf name w pc d compare_mode = entry fp_compare_types (low_bits w 4) >>= λ s. ok (codes s)
expand conf name w pc d fp_mode =
    if ltb (field_rs w) 16
    then fault
    else (entry fpu_fmt_names (field_rs w - 16) >>= λ c. ok (c ∷ []))
expand conf name w pc d remainder =
    let left = if leb d conf.spacing then conf.spacing - d else d - conf.spacing in
    ok (if left == 0 then space ∷ [] else replicate left space)
expand conf name w pc d name_bare = ok (name_cased conf name)
expand conf name w pc d name_padded = ok (pad_right conf.spacing (name_cased conf name))
expand conf name w pc d name_cop =
    ok (pad_right conf.spacing (name_cased conf name ++ decimal 1 (field_cop w)))
expand conf name w pc d name_fp = if ltb (field_rs w) 16 then fault else (do
  c ← entry fpu_fmt_names (field_rs w - 16)
  let mode = if conf.flag olower then to_lower c else to_upper c
  ok (pad_right conf.spacing (name_cased conf name ++ (b'.' ∷ mode ∷ []))))

-- An unknown specifier prints nothing.
unfoldable pub expand_token : Conf → List ℕ → ℕ → ℕ → ℕ → Option Token → Exec (List ℕ)
unfolding expand
expand_token conf name w pc d none = ok []
expand_token conf name w pc d (some t) = expand conf name w pc d t

-- The loop over the format, with what has been printed. A `%` without two letters behind it is read
-- past the end of the format.
unfoldable pub format_from : Conf → List ℕ → ℕ → ℕ → List ℕ → List ℕ → Exec (List ℕ)
unfolding expand_token read_token
format_from conf name w pc out [] = ok out
format_from conf name w pc out (c ∷ []) = if c == b'%' then fault else ok (out ++ (c ∷ []))
format_from conf name w pc out (c ∷ x ∷ []) = elim (c == b'%') [
  | true ↦ fault
  | false ↦ format_from conf name w pc (out ++ (c ∷ [])) (x ∷ [])
]
format_from conf name w pc out (c ∷ x ∷ y ∷ rest) = elim (c == b'%') [
  | true ↦
      (expand_token conf name w pc (length out) (read_token x y) >>= λ new.
      format_from conf name w pc (out ++ new) rest)
  | false ↦ format_from conf name w pc (out ++ (c ∷ [])) (x ∷ y ∷ rest)
]

-- `mr4kd_sprintf`, from an empty `dest`.
unfoldable pub sprintf : Conf → List ℕ → ℕ → ℕ → List ℕ → Exec (List ℕ)
unfolding format_from
sprintf conf name w pc fmt = format_from conf name w pc [] fmt
