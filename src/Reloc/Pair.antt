-- ===== src/Reloc/Pair.antt =====
-- A HI16 and a LO16 relocation on one register: the two instructions load an address together, as
-- `lui rt, hi` and `addiu rt, rt, lo` do, or `lui` and a load or store with the offset `lo`.
pub mod Shared
use n_ovl.Base.{
  ℕ, ◌+◌, ◌-◌, ◌*◌, ◌/◌, ◌%◌, ◌^◌, ◌≤◌, ◌<◌, ◌≡◌, ◌≢◌, refl, ap, ◌∙◌, arith, some, Bool, true,
  false, bit_or,
}
use n_ovl.Base.{ltb, leb, if◌then◌else◌, ◌==◌}
use n_ovl.Base.Bits.{bit_or_apart}
use n_ovl.Base.Word.{u32, add32, shr, shl32, low_bits, high_bits, IsU32}
use n_ovl.Base.Exec.{Exec, ok, ◌>>=◌}
use n_ovl.Reloc.Memory.{
  Memory, memory_size, word_at, put_word, load, store, IsBytes, Disjoint, word_at-IsU32,
  put_word-IsBytes, word_at-put_word_self, word_at-put_word_ne, load-ok, store-ok,
}
use n_ovl.Reloc.Target.{Layout, Outcome, success, get_target_section, adjust_address, moved}
use n_ovl.Reloc.Target.Bounds.{adjust_address-moved}
use n_ovl.Reloc.Handlers.{
  State, HiloPair, hi_register, lo_register, sign_extend, high_half, write_pair, mips_hi16,
  mips_lo16, reloc_do, set_used, set_pair, Status, valid, used, invalid, finish_lo16,
}
use n_ovl.Section.{Section}

-- The address that the processor forms from the immediates of the two instructions.
unfoldable pub pair_address : Memory → ℕ → ℕ → ℕ
pair_address m p i =
    add32 (shl32 (low_bits (word_at m p) 16) 16) (sign_extend (low_bits (word_at m i) 16))

-- Cutting an address up and putting it together again.
halves-address :
    (hi lo addr : ℕ)
    → addr < 2 ^ 32
    → add32
        (shl32 (low_bits (hi * 2 ^ 16 + high_half addr) 16) 16)
        (sign_extend (low_bits (lo * 2 ^ 16 + low_bits addr 16) 16))
      ≡ addr
halves-address hi lo addr h = ground arith

-- Both instructions hold `target`, and nothing else in memory is changed.
pub record IsRelocatedPair (m m' : Memory) (p i target : ℕ) : Type 0 where
  pub address : pair_address m' p i ≡ target
  pub upper_hi : high_bits (word_at m' p) 16 ≡ high_bits (word_at m p) 16
  pub upper_lo : high_bits (word_at m' i) 16 ≡ high_bits (word_at m i) 16
  pub others : (q : ℕ) → Disjoint q p → Disjoint q i → word_at m' q ≡ word_at m q
  pub bytes : IsBytes m'

abbrev pub after_pair : Memory → ℕ → ℕ → ℕ → Memory
after_pair m p i addr =
    put_word (put_word m i (high_bits (word_at m i) 16 + low_bits addr 16)) p
      (high_bits (word_at m p) 16 + high_half addr)

swap : {p q : ℕ} → Disjoint q p → Disjoint p q
swap h = omega arith

module _ (m : Memory) (p i addr : ℕ) (bytes : IsBytes m) (apart : Disjoint p i)
    (small : addr < 0xFFFF_8000) where
  word_hi : word_at (after_pair m p i addr) p ≡ high_bits (word_at m p) 16 + high_half addr
  word_hi = word_at-put_word_self _ p _ (ground (arith, word_at-IsU32 m p bytes))

  word_lo : word_at (after_pair m p i addr) i ≡ high_bits (word_at m i) 16 + low_bits addr 16
  word_lo =
      rw
        (word_at-put_word_ne (put_word m i (high_bits (word_at m i) 16 + low_bits addr 16)) p i
          (high_bits (word_at m p) 16 + high_half addr) apart)
        (word_at-put_word_self m i _ (omega (arith, word_at-IsU32 m i bytes)))

  pub after_pair-IsRelocatedPair : IsRelocatedPair m (after_pair m p i addr) p i addr
  unfolding pair_address
  after_pair-IsRelocatedPair = record {
    address = rw (word_hi, word_lo) (halves-address _ _ addr (omega arith));
    upper_hi = rw word_hi (ground arith);
    upper_lo = rw word_lo (omega arith);
    others =
        λ q hp hi. word_at-put_word_ne _ p q _ (swap hp) ∙ word_at-put_word_ne m i q _ (swap hi);
    bytes = put_word-IsBytes _ p _ (put_word-IsBytes m i _ bytes);
  }

  pub write_pair_lem :
      p + 4 ≤ memory_size
      → i + 4 ≤ memory_size
      → write_pair m i (word_at m i) (some p) addr ≡ ok (after_pair m p i addr)
  unfolding write_pair
  write_pair_lem hp hi =
      let carry : high_half addr < 2 ^ 16 = ground arith in
      rw
        (
          load-ok m p hp,
          bit_or_apart 16 (word_at m i / 2 ^ 16) (addr % 2 ^ 16) (omega arith),
          bit_or_apart 16 (word_at m p / 2 ^ 16) (high_half addr) carry,
          store-ok m i (high_bits (word_at m i) 16 + low_bits addr 16) hi,
        )
        (store-ok _ p _ hp)

-- What the hi16 handler leaves behind.
abbrev pub after_hi16 : State → ℕ → State
after_hi16 st p = record st {
  pairs =
      set_pair st.pairs (hi_register (word_at st.memory p)) (record {
        ptr = some p;
        reg = shl32 (low_bits (word_at st.memory p) 16) 16;
        status = valid;
      });
}

pub reloc_do-hi16 :
    (l : Layout) (st : State) (p : ℕ) (dryrun : Bool)
    → p + 4 ≤ memory_size
    → reloc_do 5 l p dryrun st ≡ ok (success, after_hi16 st p)
unfolding reloc_do
reloc_do-hi16 l st p dryrun h = rw (load-ok st.memory p h)

-- The register that the instruction at `i` reads has its upper half in the instruction at `p`.
abbrev pub HasPair : State → ℕ → ℕ → ℕ → Status → Type 0
HasPair st p i reg status =
    ◌≡◌ {A = HiloPair} (st.pairs (lo_register (word_at st.memory i)))
      (record { ptr = some p; reg = reg; status = status })

-- The lo16 handler where the register's pair is known and the address is in a section.
module _ (l : Layout) (st : State) (p i reg : ℕ) (status : Status) (s : Section) where
  abbrev pub lo16_address : ℕ
  lo16_address = add32 reg (sign_extend (low_bits (word_at st.memory i) 16))

  finish_lo16-success :
      (status' : Status) (addr r : ℕ)
      → status' ≢ invalid
      → write_pair st.memory i (word_at st.memory i) (st.pairs r).ptr addr
        ≡ ok (after_pair st.memory p i addr)
      → finish_lo16 (success, addr) status' i (word_at st.memory i) r false st
        ≡ ok (success, set_used st r (after_pair st.memory p i addr))
  unfolding finish_lo16
  finish_lo16-success invalid addr r live written = absurd (live refl)
  finish_lo16-success valid addr r live written = rw written
  finish_lo16-success used addr r live written = rw written

  -- The handler as a function of what the register's pair holds.
  abbrev lo16_of : HiloPair → Exec (Outcome × State)
  lo16_of h =
      finish_lo16
        (adjust_address l (add32 h.reg (sign_extend (low_bits (word_at st.memory i) 16))) 6 false)
        h.status i (word_at st.memory i) (lo_register (word_at st.memory i)) false st

  reloc_do-eq-lo16_of :
      i + 4 ≤ memory_size
      → reloc_do 6 l i false st ≡ lo16_of (st.pairs (lo_register (word_at st.memory i)))
  unfolding mips_lo16 reloc_do
  reloc_do-eq-lo16_of hi = rw (load-ok st.memory i hi)

  pub reloc_do-lo16 :
      IsBytes st.memory
      → Disjoint p i
      → p + 4 ≤ memory_size
      → i + 4 ≤ memory_size
      → HasPair st p i reg status
      → status ≢ invalid
      → get_target_section l lo16_address ≡ some s
      → moved l s lo16_address < 0xFFFF_8000
      → reloc_do 6 l i false st
        ≡ ok (
          success,
          set_used st
              (lo_register (word_at st.memory i))
              (after_pair st.memory p i (moved l s lo16_address)),
        )
  reloc_do-lo16 bytes apart hp hi pair live found small =
      reloc_do-eq-lo16_of hi
      ∙ ap lo16_of pair
      ∙ rw (adjust_address-moved l lo16_address 6 s found (omega arith)) (
          finish_lo16-success status _ _ live (
            rw (ap (λ (h : HiloPair). h.ptr) pair)
              (write_pair_lem st.memory p i _ bytes apart small hp hi)))

pair_set :
    (st : State) (p i : ℕ)
    → hi_register (word_at st.memory p) ≡ lo_register (word_at st.memory i)
    → HasPair (after_hi16 st p) p i (shl32 (low_bits (word_at st.memory p) 16) 16) valid
pair_set st p i same = rw same (ground arith)

-- A HI16 and then a LO16 relocation on the same register, in separate words of the memory image,
-- where the address that the two instructions form lies in section `s` and is moved to one below
-- 0xFFFF8000: both return success, the instructions then form the moved address, their upper
-- halves are as before, and so is every word that has no byte in common with the two.
pub hi16-lo16 :
    (l : Layout) (st : State) (p i : ℕ) (s : Section)
    → IsBytes st.memory
    → Disjoint p i
    → p + 4 ≤ memory_size
    → i + 4 ≤ memory_size
    → hi_register (word_at st.memory p) ≡ lo_register (word_at st.memory i)
    → get_target_section l (pair_address st.memory p i) ≡ some s
    → moved l s (pair_address st.memory p i) < 0xFFFF_8000
    → (st' : State) × ((reloc_do 5 l p false st >>= λ r. reloc_do 6 l i false r.1)
        ≡ ok (success, st'))
      × IsRelocatedPair st.memory st'.memory p i (moved l s (pair_address st.memory p i))
unfolding pair_address
hi16-lo16 l st p i s bytes apart hp hi same found small = (
  set_used (after_hi16 st p) (lo_register (word_at st.memory i))
      (after_pair st.memory p i (moved l s (pair_address st.memory p i))),
  rw (reloc_do-hi16 l st p false hp) (
      reloc_do-lo16 l (after_hi16 st p) p i (shl32 (low_bits (word_at st.memory p) 16) 16) valid s
        bytes apart hp hi (pair_set st p i same) (λ e. cc) found small),
  after_pair-IsRelocatedPair st.memory p i _ bytes apart small,
)
