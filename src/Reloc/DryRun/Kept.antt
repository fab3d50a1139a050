-- ===== src/Reloc/DryRun/Kept.antt =====
-- A dry run leaves the memory image as it is.
use n_ovl.Base.{ℕ, ◌+◌, ◌≡◌, refl, inl, inr}
use n_ovl.Base.{true, ◌==◌, leb, Bool-cases}
use n_ovl.Base.Word.{low_bits}
use n_ovl.Base.Exec.{Exec, ok, exit, fault, ◌>>=◌}
use n_ovl.Reloc.Memory.{Memory, memory_size, word_at, load}
use n_ovl.Reloc.Target.{Layout, Outcome, success}
use n_ovl.Reloc.Handlers.{State, Status, invalid, valid, used, finish_word, finish_lo16, reloc_do}

-- If the relocation returns, then with this memory.
abbrev pub Keeps : Memory → Exec (Outcome × State) → Type 0
Keeps m (ok (o, st)) = st.memory ≡ m
Keeps m exit = Unit
Keeps m fault = Unit

finish_word-Keeps :
    (o : Outcome) (w i : ℕ) (st : State) → Keeps st.memory (finish_word o w i true st)
unfolding finish_word
finish_word-Keeps success w i st = refl
finish_word-Keeps _ w i st = refl

finish_lo16-Keeps :
    (o : Outcome) (a w i r : ℕ) (status : Status) (st : State)
    → Keeps st.memory (finish_lo16 (o, a) status i w r true st)
unfolding finish_lo16
finish_lo16-Keeps o a w i r invalid st = refl
finish_lo16-Keeps success a w i r valid st = refl
finish_lo16-Keeps success a w i r used st = refl
finish_lo16-Keeps _ a w i r valid st = refl
finish_lo16-Keeps _ a w i r used st = refl

load-Keeps :
    (m : Memory) (i : ℕ) (k : ℕ → Exec (Outcome × State))
    → ((w : ℕ) → Keeps m (k w))
    → Keeps m (load m i >>= k)
unfolding load
load-Keeps m i k h = elim (Bool-cases (leb (i + 4) memory_size)) [
  | inl e ↦ rw e (h (word_at m i))
  | inr e ↦ rw e tt
]

-- A dry run of any relocation, if it returns, leaves the memory image as it was.
pub reloc_do-Keeps :
    (l : Layout) (type i : ℕ) (st : State) → Keeps st.memory (reloc_do type l i true st)
unfolding reloc_do
reloc_do-Keeps l type i st = elim (Bool-cases (low_bits type 7 == 2)) [
  | inl e ↦ rw e (load-Keeps st.memory i _ λ w. finish_word-Keeps _ _ i st)
  | inr e₂ ↦ elim (Bool-cases (low_bits type 7 == 4)) [
    | inl e ↦ rw (e₂, e) (load-Keeps st.memory i _ λ w. finish_word-Keeps _ _ i st)
    | inr e₄ ↦ elim (Bool-cases (low_bits type 7 == 5)) [
      | inl e ↦ rw (e₂, e₄, e) (load-Keeps st.memory i _ λ w. refl)
      | inr e₅ ↦ elim (Bool-cases (low_bits type 7 == 6)) [
        | inl e ↦
            rw (e₂, e₄, e₅, e) (load-Keeps st.memory i _ λ w. finish_lo16-Keeps _ _ _ i _ _ st)
        | inr e₆ ↦ rw (e₂, e₄, e₅, e₆) refl
      ]
    ]
  ]
]
