-- ===== src/Reloc/Handlers.antt =====
-- The relocation handlers of src/novl-reloc.c, the jump table over them, and the reset between
-- two lists of relocations.
use n_ovl.Base.{ℕ, ◌+◌, ◌-◌, ◌^◌, Option, none, some, Bool, true, false, bit_or}
use n_ovl.Base.{ltb, ◌==◌, if◌then◌else◌}
use n_ovl.Base.Word.{add32, shr, low_bits, high_bits, shl32}
use n_ovl.Base.Exec.{Exec, ok, ◌>>=◌, non_null}
use n_ovl.Reloc.Memory.{Memory, load, store}
use n_ovl.Reloc.Target.{Layout, Outcome, error, fail, success, fail_dont_delete_hi, adjust_address}

-- HILO_STATUS_INVALID, HILO_STATUS_VALID and HILO_STATUS_USED.
pub data Status : Type 0 where
  invalid valid used : Status

-- `hilopair_ptrs[r]`, `hilopair_regs[r]` and `hilopair_status[r]` of one register. A pointer is
-- the offset into the memory image, `none` the null pointer.
pub record HiloPair : Type 0 where
  pub ptr : Option ℕ
  pub reg : ℕ
  pub status : Status

pub record State : Type 0 where
  pub memory : Memory
  pub pairs : ℕ → HiloPair

abbrev pub set_pair : (ℕ → HiloPair) → ℕ → HiloPair → ℕ → HiloPair
set_pair pairs r pair j = if j == r then pair else pairs j

-- A handler gets the pointer to the instruction and the flag for a dry run.
abbrev pub Handler : Type 0
Handler = Layout → ℕ → Bool → State → Exec (Outcome × State)

-- `if(!dryrun) *i = g_htonl( w );`
abbrev pub store_unless : Bool → Memory → ℕ → ℕ → Exec Memory
store_unless true m i w = ok m
store_unless false m i w = store m i w

-- The end of a handler that writes one word, `edited`, if the address was moved.
unfoldable pub finish_word : Outcome → ℕ → ℕ → Bool → State → Exec (Outcome × State)
finish_word success edited i dryrun st = do
  m ← store_unless dryrun st.memory i edited
  ok (success, record st { memory = m })
finish_word ret edited i dryrun st = ok (ret, st)

unfoldable pub mips_32 : Handler
unfolding finish_word
mips_32 l i dryrun st = do
  w ← load st.memory i
  let (ret, w') = adjust_address l w 2 dryrun
  finish_word ret w' i dryrun st

-- The address that a jump goes to: 26 bits of the word, in the segment at 0x80000000.
abbrev pub jump_address : ℕ → ℕ
jump_address w = bit_or (shl32 (low_bits w 26) 2) 0x8000_0000

unfoldable pub mips_26 : Handler
unfolding finish_word
mips_26 l i dryrun st = do
  w ← load st.memory i
  let (ret, addr) = adjust_address l (jump_address w) 4 dryrun
  finish_word ret (bit_or (high_bits w 26) (low_bits (shr addr 2) 26)) i dryrun st

-- The register whose upper half the instruction sets, `rt`.
abbrev pub hi_register : ℕ → ℕ
hi_register w = low_bits (shr w 16) 5

unfoldable pub mips_hi16 : Handler
mips_hi16 l i dryrun st = do
  w ← load st.memory i
  let pair : HiloPair = record { ptr = some i; reg = shl32 (low_bits w 16) 16; status = valid }
  ok (success, record st { pairs = set_pair st.pairs (hi_register w) pair })

-- The register that the instruction reads, `rs`.
abbrev pub lo_register : ℕ → ℕ
lo_register w = low_bits (shr w 21) 5

-- `(int16_t)x` for a 16-bit `x`, as it enters a sum of `uint32_t`.
abbrev pub sign_extend : ℕ → ℕ
sign_extend x = if ltb x (2 ^ 15) then x else x + (2 ^ 32 - 2 ^ 16)

-- The carry that a negative lower half takes from the upper one.
abbrev pub high_half : ℕ → ℕ
high_half addr = shr addr 16 + (if ltb (low_bits addr 16) (2 ^ 15) then 0 else 1)

-- `*i = …; *hilopair_ptrs[reg] = …;` for the address that was cut up.
unfoldable pub write_pair : Memory → ℕ → ℕ → Option ℕ → ℕ → Exec Memory
write_pair m i w ptr addr = do
  p ← non_null ptr
  old_w ← load m p
  m' ← store m i (bit_or (high_bits w 16) (low_bits addr 16))
  store m' p (bit_or (high_bits old_w 16) (high_half addr))

-- A low half that is out of bounds does not take the upper half of an earlier pair with it.
abbrev pub keep_used : Outcome → Status → Outcome
keep_used fail used = fail_dont_delete_hi
keep_used r s = r

abbrev pub set_used : State → ℕ → Memory → State
set_used st r m = record {
  memory = m;
  pairs =
      set_pair st.pairs r
        (record { ptr = (st.pairs r).ptr; reg = (st.pairs r).reg; status = used });
}

-- The handler from the status check on, given what `adjust_address` made of the address. A register
-- with no high half is an error.
unfoldable pub finish_lo16 :
    Outcome × ℕ → Status → ℕ → ℕ → ℕ → Bool → State → Exec (Outcome × State)
unfolding write_pair
finish_lo16 adjusted invalid i w r dryrun st = ok (error, st)
finish_lo16 (success, addr) status i w r true st = ok (success, set_used st r st.memory)
finish_lo16 (success, addr) status i w r false st = do
  m ← write_pair st.memory i w (st.pairs r).ptr addr
  ok (success, set_used st r m)
finish_lo16 (ret, addr) status i w r dryrun st = ok (keep_used ret status, set_used st r st.memory)

unfoldable pub mips_lo16 : Handler
unfolding finish_lo16
mips_lo16 l i dryrun st = do
  w ← load st.memory i
  let r = lo_register w
  let addr = add32 (st.pairs r).reg (sign_extend (low_bits w 16))
  finish_lo16 (adjust_address l addr 6 dryrun) (st.pairs r).status i w r dryrun st

-- `novl_reloc_jt`: a type with no handler gives FALSE.
unfoldable pub reloc_do : ℕ → Handler
unfolding mips_32 mips_26 mips_hi16 mips_lo16
reloc_do type l i dryrun st =
    let t = low_bits type 7 in
    if t == 2
    then mips_32 l i dryrun st
    else if t == 4
    then mips_26 l i dryrun st
    else if t == 5
    then mips_hi16 l i dryrun st
    else if t == 6
    then mips_lo16 l i dryrun st
    else ok (error, st)

-- `novl_reloc_init`
unfoldable pub reloc_init : State → State
reloc_init st = record st { pairs = λ r. record { ptr = none; reg = 0; status = invalid } }
