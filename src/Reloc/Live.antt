-- ===== src/Reloc/Live.antt =====
-- How many registers hold an upper half that no LO16 relocation has used yet (the status
-- HILO_STATUS_VALID), and what one dry run of a relocation does to that number and to the memory.
use n_ovl.Base.{ℕ, zero, suc, ◌+◌, ◌≤◌, ◌<◌, ◌≡◌, ◌≢◌, refl, ap, inl, inr, ◌∙◌, arith}
use n_ovl.Base.{some, true, ◌==◌, leb, Bool-cases, ==_iff}
use n_ovl.Base.Word.{shl32, low_bits}
use n_ovl.Base.Exec.{Exec, ok, exit, fault, ◌>>=◌}
use n_ovl.Reloc.Memory.{Memory, memory_size, word_at, load}
use n_ovl.Reloc.Target.{Layout, Outcome, success, fail, error, fail_dont_delete_hi}
use n_ovl.Reloc.Handlers.{
  State, HiloPair, Status, invalid, valid, used, set_pair, set_used, hi_register, lo_register,
  finish_word, finish_lo16, mips_hi16, reloc_do, reloc_init,
}

abbrev valid_bit : Status → ℕ
valid_bit valid = 1
valid_bit invalid = 0
valid_bit used = 0

live_below : ℕ → (ℕ → HiloPair) → ℕ
live_below zero pairs = 0
live_below (suc n) pairs = live_below n pairs + valid_bit (pairs n).status

-- Over the 32 registers.
pub live : (ℕ → HiloPair) → ℕ
unfolding live_below
live pairs = live_below 32 pairs

live_below-set_pair_out :
    (n : ℕ) (pairs : ℕ → HiloPair) (r : ℕ) (pair : HiloPair)
    → n ≤ r
    → live_below n (set_pair pairs r pair) ≡ live_below n pairs
unfolding live_below
live_below-set_pair_out zero pairs r pair h = refl
live_below-set_pair_out (suc n) pairs r pair h =
    ground (arith, live_below-set_pair_out n pairs r pair (omega arith))

live_below-set_pair :
    (n : ℕ) (pairs : ℕ → HiloPair) (r : ℕ) (pair : HiloPair)
    → r < n
    → live_below n (set_pair pairs r pair) + valid_bit (pairs r).status
      ≡ live_below n pairs + valid_bit pair.status
unfolding live_below
live_below-set_pair zero pairs r pair h = absurd (omega arith)
live_below-set_pair (suc n) pairs r pair h = elim (Bool-cases (n == r)) [
  | inl e ↦ rw e (
      omega (
        arith,
        live_below-set_pair_out n pairs r pair (omega (arith, (==_iff n r).0 e)),
        ap (λ (k : ℕ). valid_bit (pairs k).status) ((==_iff n r).0 e),
      ))
  | inr e ↦ ground (arith, e, live_below-set_pair n pairs r pair)
]

live-set_pair :
    (pairs : ℕ → HiloPair) (r : ℕ) (pair : HiloPair)
    → r < 32
    → live (set_pair pairs r pair) + valid_bit (pairs r).status ≡ live pairs + valid_bit pair.status
unfolding live
live-set_pair pairs r pair h = live_below-set_pair 32 pairs r pair h

pub live-reloc_init : (st : State) → live (reloc_init st).pairs ≡ 0
unfolding live reloc_init
live-reloc_init st = refl

-- How the number may change with the answer, where it was `v` before.
abbrev pub LiveStep : ℕ → ℕ → Exec (Outcome × State) → Type 0
LiveStep type v (ok (success, st)) = live st.pairs ≤ v + 1
LiveStep type v (ok (fail, st)) = (live st.pairs ≤ v) × (type ≡ 6 → live st.pairs + 1 ≤ v)
LiveStep type v (ok (fail_dont_delete_hi, st)) = live st.pairs ≤ v
LiveStep type v (ok (error, st)) = Unit
LiveStep type v exit = Unit
LiveStep type v fault = Unit

module _ (i type : ℕ) (dry : State) where
  finish_word-LiveStep :
      (o : Outcome) (edited : ℕ)
      → type ≢ 6
      → LiveStep type (live dry.pairs) (finish_word o edited i true dry)
  unfolding finish_word
  finish_word-LiveStep success edited ne = omega arith
  finish_word-LiveStep fail edited ne = (omega arith, λ e. absurd (ne e))
  finish_word-LiveStep fail_dont_delete_hi edited ne = omega arith
  finish_word-LiveStep error edited ne = tt

  module _ (r : ℕ) (h : r < 32) where
    live-set_used :
        live (set_used dry r dry.memory).pairs + valid_bit (dry.pairs r).status ≡ live dry.pairs
    live-set_used =
        live-set_pair dry.pairs r
          (record { ptr = (dry.pairs r).ptr; reg = (dry.pairs r).reg; status = used }) h
        ∙ omega arith

    finish_lo16-LiveStep :
        (o : Outcome) (addr w : ℕ) (status : Status)
        → (dry.pairs r).status ≡ status
        → LiveStep type (live dry.pairs) (finish_lo16 (o, addr) status i w r true dry)
    unfolding finish_lo16
    finish_lo16-LiveStep o addr w invalid e = tt
    finish_lo16-LiveStep success addr w valid e = omega (arith, live-set_used)
    finish_lo16-LiveStep success addr w used e = omega (arith, live-set_used)
    finish_lo16-LiveStep error addr w valid e = tt
    finish_lo16-LiveStep error addr w used e = tt
    finish_lo16-LiveStep fail addr w valid e =
        let one = ap valid_bit e in
        (omega (arith, live-set_used), λ _. omega (arith, live-set_used, one))
    finish_lo16-LiveStep fail addr w used e = omega (arith, live-set_used)
    finish_lo16-LiveStep fail_dont_delete_hi addr w valid e = omega (arith, live-set_used)
    finish_lo16-LiveStep fail_dont_delete_hi addr w used e = omega (arith, live-set_used)

-- A chain that begins with a load.
load-LiveStep :
    (type v : ℕ) (m : Memory) (i : ℕ) (k : ℕ → Exec (Outcome × State))
    → ((w : ℕ) → LiveStep type v (k w))
    → LiveStep type v (load m i >>= k)
unfolding load
load-LiveStep type v m i k h = elim (Bool-cases (leb (i + 4) memory_size)) [
  | inl e ↦ rw e (h (word_at m i))
  | inr e ↦ rw e tt
]

hi16-LiveStep :
    (l : Layout) (type i : ℕ) (dry : State)
    → LiveStep type (live dry.pairs) (mips_hi16 l i true dry)
unfolding mips_hi16
hi16-LiveStep l type i dry = load-LiveStep type (live dry.pairs) dry.memory i _ λ w. omega (
  arith,
  live-set_pair dry.pairs (hi_register w)
      (record { ptr = some i; reg = shl32 (low_bits w 16) 16; status = valid }) (omega arith),
)

-- Every answer of a dry run keeps to `LiveStep`: a success adds one at most, a LO16 relocation
-- whose upper half is to be deleted takes one away, and nothing else adds any.
pub reloc_do-LiveStep :
    (l : Layout) (type i : ℕ) (dry : State)
    → LiveStep type (live dry.pairs) (reloc_do type l i true dry)
unfolding reloc_do
reloc_do-LiveStep l type i dry = elim (Bool-cases (low_bits type 7 == 2)) [
  | inl e ↦ rw e (
      load-LiveStep type (live dry.pairs) dry.memory i _
        λ w. finish_word-LiveStep i type dry _ _ (ground (arith, e)))
  | inr e₂ ↦ elim (Bool-cases (low_bits type 7 == 4)) [
    | inl e ↦
        rw (e₂, e)
          (load-LiveStep type (live dry.pairs) dry.memory i _
            λ w. finish_word-LiveStep i type dry _ _ (ground (arith, e)))
    | inr e₄ ↦ elim (Bool-cases (low_bits type 7 == 5)) [
      | inl e ↦ rw (e₂, e₄, e) (hi16-LiveStep l type i dry)
      | inr e₅ ↦ elim (Bool-cases (low_bits type 7 == 6)) [
        | inl e ↦
            rw (e₂, e₄, e₅, e)
              (load-LiveStep type (live dry.pairs) dry.memory i _
                λ w. finish_lo16-LiveStep i type dry (lo_register w) (omega arith) _ _ _ _ refl)
        | inr e₆ ↦ rw (e₂, e₄, e₅, e₆) tt
      ]
    ]
  ]
]
