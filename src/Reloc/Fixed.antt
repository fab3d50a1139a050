-- ===== src/Reloc/Fixed.antt =====
-- What the real runs of the relocations leave in the words of pointers and jumps, and in all words
-- that none of them names.
pub mod Step
use n_ovl.Base.{
  ℕ, ◌+◌, ◌*◌, ◌/◌, ◌%◌, ◌^◌, ◌≤◌, ◌<◌, ◌≡◌, ◌≢◌, refl, sym, ap, ◌∙◌, arith, inl, inr, bit_or, List,
  [], ◌∷◌, ◌++◌, Option, none, some, Bool, true, false,
}
use n_ovl.Base.{All, leb, ◌==◌, if◌then◌else◌, Bool-cases, Option-cases}
use n_ovl.Base.Word.{u32, shr, low_bits, high_bits}
use n_ovl.Base.Exec.{Exec, ok, exit, fault, ◌>>=◌, OnOk, OnOk-bind}
use n_ovl.Section.{Section}
use n_ovl.Reloc.Memory.{
  Memory, memory_size, word_at, put_word, load, store, Disjoint, word_at-put_word_ne,
}
use n_ovl.Reloc.Target.{
  Layout, Outcome, error, fail, success, fail_dont_delete_hi, get_target_section, adjust_address,
  moved, is_text,
}
use n_ovl.Reloc.Handlers.{
  State, HiloPair, Status, invalid, valid, used, set_pair, set_used, jump_address, hi_register,
  lo_register, sign_extend, high_half, write_pair, finish_word, finish_lo16, mips_32, mips_26,
  mips_hi16, mips_lo16, reloc_do, reloc_init,
}
use n_ovl.Reloc.DryRun.States.{IsFresh}

-- A pointer is moved with the section that it points into; one that points into none stays.
pub pointer_word : Layout → ℕ → ℕ
pointer_word l w = elim (get_target_section l w) [ none ↦ w | some s ↦ u32 (moved l s w) ]

-- A jump into .text gets, below its upper six bits, the lower 26 bits of a quarter of the moved
-- address; any other stays.
unfoldable pub jump_word : Layout → ℕ → ℕ
jump_word l w = elim (get_target_section l (jump_address w)) [
  | none ↦ w
  | some s ↦
      if is_text s
      then u32 (bit_or (high_bits w 26) (low_bits (shr (moved l s (jump_address w)) 2) 26))
      else w
]

-- The word at `i` and what it is to hold, for a pointer or a jump.
abbrev pub expected : Layout → Memory → ℕ → ℕ → List (ℕ × ℕ)
expected l m type i =
    if low_bits type 7 == 2
    then (i, pointer_word l (word_at m i)) ∷ []
    else if low_bits type 7 == 4
    then (i, jump_word l (word_at m i)) ∷ []
    else []

abbrev pub AreHeld : Memory → List (ℕ × ℕ) → Type 0
AreHeld m fixed = All (λ (e : ℕ × ℕ). word_at m e.0 ≡ e.1) fixed

abbrev pub IsApart : List (ℕ × ℕ) → ℕ → Type 0
IsApart fixed q = All (λ (e : ℕ × ℕ). Disjoint q e.0) fixed

-- After the relocations of the words `done` of an image that was `m`: the other words are as they
-- were, the words of `fixed`, which are among them, hold what they are to hold, and the upper halves
-- that a LO16 may still edit stand apart from those.
pub record Fixed (m : Memory) (done : List ℕ) (fixed : List (ℕ × ℕ)) (st : State) : Type 0 where
  pub words : (q : ℕ) → IsFresh q done → word_at st.memory q ≡ word_at m q
  pub held : AreHeld st.memory fixed
  pub apart : (q : ℕ) → IsFresh q done → IsApart fixed q
  pub covered :
      (r : ℕ)
      → (st.pairs r).status ≢ invalid
      → (p : ℕ) × ((st.pairs r).ptr ≡ some p)
        × ((q : ℕ) → IsFresh q done → Disjoint p q)
        × IsApart fixed p

pub Disjoint-sym : (p q : ℕ) → Disjoint p q → Disjoint q p
Disjoint-sym p q (inl h) = inr h
Disjoint-sym p q (inr h) = inl h

pub word_at-put_word : (m : Memory) (p w : ℕ) → word_at (put_word m p w) p ≡ u32 w
unfolding word_at put_word
word_at-put_word m p w = ground arith

pub put_word-AreHeld :
    (m : Memory) (p w : ℕ) (fixed : List (ℕ × ℕ))
    → IsApart fixed p
    → AreHeld m fixed
    → AreHeld (put_word m p w) fixed
put_word-AreHeld m p w [] a h = tt
put_word-AreHeld m p w (e ∷ es) (a, as') (h, hs) =
    (word_at-put_word_ne m p e.0 w a ∙ h, put_word-AreHeld m p w es as' hs)
