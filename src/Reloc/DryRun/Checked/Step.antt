-- ===== src/Reloc/DryRun/Checked/Step.antt =====
-- The dry run of one relocation in the image, of any type, answers as the test of it does.
use n_ovl.Base.{ℕ, ◌+◌, ◌≤◌, ◌≡◌, refl, sym, ap, ◌∙◌, inl, inr, arith, some, Bool, true, false, not}
use n_ovl.Base.{◌==◌, if◌then◌else◌, ==_iff, Bool-cases, Option-cases}
use n_ovl.Base.Word.{low_bits, shl32}
use n_ovl.Base.Exec.{Exec}
use n_ovl.Reloc.Memory.{Memory, memory_size, word_at, load-ok}
use n_ovl.Reloc.Target.{
  Layout, Outcome, success, fail, error, fail_dont_delete_hi, is_text, get_target_section,
  adjust_address,
}
use n_ovl.Reloc.Handlers.{
  State, Status, invalid, valid, used, set_pair, set_used, jump_address, hi_register, lo_register,
  finish_word, finish_lo16, mips_32, mips_26, mips_hi16, mips_lo16, reloc_do,
}
use n_ovl.Reloc.DryRun.Checked.{
  is_jump_target, passes, seen_after, is_set, Matches, is_error, Answers,
}

Answers-as :
    (m : Memory) (seen : ℕ → Bool) (a b : Bool) (x : Exec (Outcome × State))
    → a ≡ b
    → Answers m seen a x
    → Answers m seen b x
Answers-as m seen a b x e (o, st, run, err, mem, mt) = (o, st, run, err ∙ ap not e, mem, mt)

module _ (i : ℕ) (st : State) (seen : ℕ → Bool) (m : Matches seen st) where
  finish_word-Answers :
      (o : Outcome) (edited : ℕ)
      → Answers st.memory seen (not (is_error o)) (finish_word o edited i true st)
  unfolding finish_word
  finish_word-Answers success edited = (success, st, refl, refl, refl, m)
  finish_word-Answers error edited = (error, st, refl, refl, refl, m)
  finish_word-Answers fail edited = (fail, st, refl, refl, refl, m)
  finish_word-Answers fail_dont_delete_hi edited = (fail_dont_delete_hi, st, refl, refl, refl, m)

  set_used-Matches :
      (r : ℕ) → is_set (st.pairs r).status ≡ true → Matches seen (set_used st r st.memory)
  set_used-Matches r h j = elim (Bool-cases (j == r)) [
    | inl e ↦ rw e (sym h ∙ m r ∙ ap seen (sym ((==_iff j r).0 e)))
    | inr e ↦ rw e (m j)
  ]

  finish_lo16-Answers :
      (o : Outcome) (addr w r : ℕ) (status : Status)
      → (st.pairs r).status ≡ status
      → is_error o ≡ false
      → Answers st.memory seen (is_set status) (finish_lo16 (o, addr) status i w r true st)
  unfolding finish_lo16
  finish_lo16-Answers o addr w r invalid e n = (error, st, refl, refl, refl, m)
  finish_lo16-Answers success addr w r valid e n =
      (success, set_used st r st.memory, refl, refl, refl, set_used-Matches r (ap is_set e))
  finish_lo16-Answers success addr w r used e n =
      (success, set_used st r st.memory, refl, refl, refl, set_used-Matches r (ap is_set e))
  finish_lo16-Answers fail addr w r valid e n =
      (fail, set_used st r st.memory, refl, refl, refl, set_used-Matches r (ap is_set e))
  finish_lo16-Answers fail addr w r used e n = (
    fail_dont_delete_hi,
    set_used st r st.memory,
    refl,
    refl,
    refl,
    set_used-Matches r (ap is_set e),
  )
  finish_lo16-Answers fail_dont_delete_hi addr w r valid e n = (
    fail_dont_delete_hi,
    set_used st r st.memory,
    refl,
    refl,
    refl,
    set_used-Matches r (ap is_set e),
  )
  finish_lo16-Answers fail_dont_delete_hi addr w r used e n = (
    fail_dont_delete_hi,
    set_used st r st.memory,
    refl,
    refl,
    refl,
    set_used-Matches r (ap is_set e),
  )
  finish_lo16-Answers error addr w r valid e n = absurd (cc n)
  finish_lo16-Answers error addr w r used e n = absurd (cc n)

adjust_address-no_error :
    (l : Layout) (addr type : ℕ)
    → (type == 4) ≡ false
    → is_error (adjust_address l addr type true).0 ≡ false
unfolding adjust_address
adjust_address-no_error l addr type e = elim (Option-cases (get_target_section l addr)) [
  | inl n ↦ rw (adjust_address, n) refl
  | inr (s, n) ↦ rw (adjust_address, n, e) refl
]

adjust_address-jump :
    (l : Layout) (addr : ℕ)
    → not (is_error (adjust_address l addr 4 true).0) ≡ is_jump_target (get_target_section l addr)
unfolding adjust_address
adjust_address-jump l addr = elim (Option-cases (get_target_section l addr)) [
  | inl n ↦ rw (adjust_address, n) refl
  | inr (s, n) ↦ elim (Bool-cases (is_text s)) [
    | inl e ↦ rw (adjust_address, n, e) refl
    | inr e ↦ rw (adjust_address, n, e) refl
  ]
]

module _ (l : Layout) (i : ℕ) (st : State) (seen : ℕ → Bool) (m : Matches seen st)
    (inside : i + 4 ≤ memory_size) where
  abbrev word : ℕ
  word = word_at st.memory i

  mips_32-Answers : Answers st.memory seen true (mips_32 l i true st)
  unfolding mips_32
  mips_32-Answers = rw (load-ok st.memory i inside) (
      Answers-as st.memory seen _ true _ (ap not (adjust_address-no_error l word 2 refl))
        (finish_word-Answers i st seen m (adjust_address l word 2 true).0 _))

  mips_26-Answers :
      Answers st.memory seen
        (is_jump_target (get_target_section l (jump_address word)))
        (mips_26 l i true st)
  unfolding mips_26
  mips_26-Answers = rw (load-ok st.memory i inside) (
      Answers-as st.memory seen _ _ _ (adjust_address-jump l (jump_address word))
        (finish_word-Answers i st seen m (adjust_address l (jump_address word) 4 true).0 _))

  abbrev hi_seen : ℕ → Bool
  hi_seen r = if r == hi_register word then true else seen r

  mips_hi16-Answers : Answers st.memory hi_seen true (mips_hi16 l i true st)
  unfolding mips_hi16
  mips_hi16-Answers = rw (load-ok st.memory i inside) (success, _, refl, refl, refl, matches)
    where
      matches : Matches hi_seen (record st {
        pairs =
            set_pair st.pairs
              (hi_register word)
              (record { ptr = some i; reg = shl32 (low_bits word 16) 16; status = valid });
      })
      matches r = elim (Bool-cases (r == hi_register word)) [
        | inl e ↦ rw e refl
        | inr e ↦ rw e (m r)
      ]

  mips_lo16-Answers : Answers st.memory seen (seen (lo_register word)) (mips_lo16 l i true st)
  unfolding mips_lo16
  mips_lo16-Answers = rw (load-ok st.memory i inside) (
      Answers-as st.memory seen _ _ _ (m (lo_register word)) (
        finish_lo16-Answers i st seen m _ _ word (lo_register word)
          (st.pairs (lo_register word)).status refl (adjust_address-no_error l _ 6 refl)))

Answers-seen :
    (m : Memory) (s s' : ℕ → Bool) (b : Bool) (x : Exec (Outcome × State))
    → ((r : ℕ) → s r ≡ s' r)
    → Answers m s b x
    → Answers m s' b x
Answers-seen m s s' b x e (o, st, run, err, mem, mt) = (o, st, run, err, mem, λ r. mt r ∙ e r)

seen_after-other :
    (seen : ℕ → Bool) (type w r : ℕ)
    → (low_bits type 7 == 5) ≡ false
    → seen r ≡ seen_after seen type w r
unfolding seen_after
seen_after-other seen type w r e = rw e refl

seen_after-hi16 :
    (seen : ℕ → Bool) (type w r : ℕ)
    → (low_bits type 7 == 5) ≡ true
    → (if r == hi_register w then true else seen r) ≡ seen_after seen type w r
unfolding seen_after
seen_after-hi16 seen type w r e = rw e refl

Answers-other :
    (m : Memory) (seen : ℕ → Bool) (type w : ℕ) (b : Bool) (x : Exec (Outcome × State))
    → (low_bits type 7 == 5) ≡ false
    → Answers m seen b x
    → Answers m (seen_after seen type w) b x
Answers-other m seen type w b x e a =
    Answers-seen m seen (seen_after seen type w) b x (λ r. seen_after-other seen type w r e) a

-- A dry run of a relocation in the image returns. Its answer is no error exactly if the relocation
-- passes; it leaves the memory, and notes the register of a HI16.
pub reloc_do-Answers :
    (l : Layout) (type i : ℕ) (st : State) (seen : ℕ → Bool)
    → Matches seen st
    → i + 4 ≤ memory_size
    → Answers st.memory
        (seen_after seen type (word_at st.memory i))
        (passes l seen type (word_at st.memory i))
        (reloc_do type l i true st)
unfolding reloc_do passes
reloc_do-Answers l type i st seen m inside = elim (Bool-cases (low_bits type 7 == 2)) [
  | inl e ↦ rw e (
      Answers-other st.memory seen type (word_at st.memory i) true _ (ground (arith, e))
        (mips_32-Answers l i st seen m inside))
  | inr e₂ ↦ elim (Bool-cases (low_bits type 7 == 4)) [
    | inl e ↦
        rw (e₂, e)
          (Answers-other st.memory seen type (word_at st.memory i) _ _ (ground (arith, e))
            (mips_26-Answers l i st seen m inside))
    | inr e₄ ↦ elim (Bool-cases (low_bits type 7 == 5)) [
      | inl e ↦
          rw (e₂, e₄, e)
            (Answers-seen st.memory _ _ true _
              (λ r. seen_after-hi16 seen type (word_at st.memory i) r e)
              (mips_hi16-Answers l i st seen m inside))
      | inr e₅ ↦ elim (Bool-cases (low_bits type 7 == 6)) [
        | inl e ↦
            rw (e₂, e₄, e₅, e)
              (Answers-other st.memory seen type (word_at st.memory i) _ _ e₅
                (mips_lo16-Answers l i st seen m inside))
        | inr e₆ ↦
            rw (e₂, e₄, e₅, e₆)
              (Answers-other st.memory seen type (word_at st.memory i) false _ e₅
                (error, st, refl, refl, refl, m))
      ]
    ]
  ]
]
