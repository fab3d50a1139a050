-- ===== src/Reloc/Fixed/Step.antt =====
-- One relocation, of any type: what the real run leaves of the words that are done.
use n_ovl.Base.{
  ℕ, ◌+◌, ◌≡◌, ◌≢◌, refl, sym, ◌∙◌, inl, inr, bit_or, List, ◌∷◌, ◌++◌, Option, some, false,
}
use n_ovl.Base.{leb, ◌==◌, Bool-cases, Option-cases}
use n_ovl.Base.Word.{u32, shr, low_bits, high_bits}
use n_ovl.Base.Exec.{Exec, ok, ◌>>=◌, OnOk, OnOk-bind}
use n_ovl.Section.{Section}
use n_ovl.Reloc.Memory.{
  Memory, memory_size, word_at, put_word, load, store, Disjoint, word_at-put_word_ne,
}
use n_ovl.Reloc.Target.{
  Layout, Outcome, error, fail, success, fail_dont_delete_hi, get_target_section, adjust_address,
  moved, is_text,
}
use n_ovl.Reloc.Handlers.{
  State, HiloPair, Status, invalid, valid, used, set_pair, set_used, jump_address, hi_register,
  high_half, write_pair, finish_lo16, mips_32, mips_26, mips_hi16, mips_lo16, reloc_do,
}
use n_ovl.Reloc.DryRun.States.{IsFresh}
use n_ovl.Reloc.Fixed.{
  pointer_word, jump_word, expected, AreHeld, IsApart, Fixed, Disjoint-sym, word_at-put_word,
  put_word-AreHeld,
}

OnOk-store :
    (P : Memory → Type 0) (m : Memory) (p w : ℕ) → P (put_word m p w) → OnOk P (store m p w)
unfolding store
OnOk-store P m p w h = elim (Bool-cases (leb (p + 4) memory_size)) [
  | inl e ↦ rw e h
  | inr e ↦ rw e tt
]

OnOk-load :
    {A : Type 0} (P : A → Type 0) (m : Memory) (p : ℕ) (k : ℕ → Exec A)
    → OnOk P (k (word_at m p))
    → OnOk P (load m p >>= k)
unfolding load
OnOk-load P m p k h = elim (Bool-cases (leb (p + 4) memory_size)) [
  | inl e ↦ rw e h
  | inr e ↦ rw e tt
]

write_pair-OnOk :
    (P : Memory → Type 0) (m : Memory) (i w : ℕ) (ptr : Option ℕ) (p addr : ℕ)
    → ptr ≡ some p
    → P (
        put_word
          (put_word m i (bit_or (high_bits w 16) (low_bits addr 16)))
          p
          (bit_or (high_bits (word_at m p) 16) (high_half addr)))
    → OnOk P (write_pair m i w ptr addr)
unfolding write_pair
write_pair-OnOk P m i w ptr p addr e h =
    let lo = bit_or (high_bits w 16) (low_bits addr 16) in
    rw e (
      OnOk-load P m p _ (
        OnOk-bind (λ m₁. m₁ ≡ put_word m i lo) P (store m i lo) _ (OnOk-store _ m i lo refl)
          (λ m₁ e₁. rw e₁ (OnOk-store P (put_word m i lo) p _ h))))

module _ (m : Memory) (i : ℕ) (done : List ℕ) (fixed : List (ℕ × ℕ)) (st : State)
    (h : Fixed m done fixed st) (fresh : IsFresh i done) where
  -- The word at `i` gets a value.
  Fixed-edit :
      (w : ℕ)
      → Fixed m (i ∷ done) ((i, u32 w) ∷ fixed) (record st { memory = put_word st.memory i w })
  Fixed-edit w = record {
    words = λ q f. word_at-put_word_ne st.memory i q w f.0 ∙ h.words q f.1;
    held = (
      word_at-put_word st.memory i w,
      put_word-AreHeld st.memory i w fixed (h.apart i fresh) h.held,
    );
    apart = λ q f. (Disjoint-sym i q f.0, h.apart q f.1);
    covered = λ r live.
        let (p, e, far, a) = h.covered r live in (p, e, λ q f. far q f.1, (far i fresh, a));
  }

  Fixed-keep : (w : ℕ) → w ≡ word_at m i → Fixed m (i ∷ done) ((i, w) ∷ fixed) st
  Fixed-keep w same = record {
    words = λ q f. h.words q f.1;
    held = (h.words i fresh ∙ sym same, h.held);
    apart = λ q f. (Disjoint-sym i q f.0, h.apart q f.1);
    covered = λ r live.
        let (p, e, far, a) = h.covered r live in (p, e, λ q f. far q f.1, (far i fresh, a));
  }

  Fixed-skip : Fixed m (i ∷ done) fixed st
  Fixed-skip = record {
    words = λ q f. h.words q f.1;
    held = h.held;
    apart = λ q f. h.apart q f.1;
    covered = λ r live. let (p, e, far, a) = h.covered r live in (p, e, λ q f. far q f.1, a);
  }

  abbrev Leaves : List (ℕ × ℕ) → Outcome × State → Type 0
  Leaves fixed' r = Fixed m (i ∷ done) fixed' r.1

  mips_32-Fixed :
      (l : Layout)
      → OnOk (Leaves ((i, pointer_word l (word_at m i)) ∷ fixed)) (mips_32 l i false st)
  unfolding mips_32 pointer_word adjust_address
  mips_32-Fixed l = OnOk-load _ st.memory i _ (
      rw (h.words i fresh) (elim (Option-cases (get_target_section l (word_at m i))) [
        | inl e ↦ rw (adjust_address, pointer_word, e) (Fixed-keep (word_at m i) refl)
        | inr (s, e) ↦
            rw (adjust_address, pointer_word, e)
              (OnOk-bind
                (λ m'.
                  Fixed m (i ∷ done) ((i, u32 (moved l s (word_at m i))) ∷ fixed)
                    (record st { memory = m' }))
                _ (store st.memory i (moved l s (word_at m i))) _
                (OnOk-store _ st.memory i _ (Fixed-edit (moved l s (word_at m i)))) (λ m' k. k))
      ]))

  mips_26-Fixed :
      (l : Layout) → OnOk (Leaves ((i, jump_word l (word_at m i)) ∷ fixed)) (mips_26 l i false st)
  unfolding mips_26 jump_word adjust_address
  mips_26-Fixed l = OnOk-load _ st.memory i _ (
      rw (h.words i fresh)
        (elim (Option-cases (get_target_section l (jump_address (word_at m i)))) [
          | inl e ↦ rw (adjust_address, jump_word, e) (Fixed-keep (word_at m i) refl)
          | inr (s, e) ↦ elim (Bool-cases (is_text s)) [
            | inr t ↦ rw (adjust_address, jump_word, e, t) (Fixed-keep (word_at m i) refl)
            | inl t ↦
                rw (adjust_address, jump_word, e, t)
                  (OnOk-bind
                    (λ m'.
                      Fixed m (i ∷ done) ((i, u32 (new_word s)) ∷ fixed)
                        (record st { memory = m' }))
                    _ (store st.memory i (new_word s)) _
                    (OnOk-store _ st.memory i _ (Fixed-edit (new_word s))) (λ m' k. k))
          ]
        ]))
    where
      new_word : Section → ℕ
      new_word s =
          bit_or (high_bits (word_at m i) 26)
            (low_bits (shr (moved l s (jump_address (word_at m i))) 2) 26)

  pair-Fixed :
      (r : ℕ) (pair : HiloPair) (m' : Memory)
      → ((q : ℕ) → IsFresh q (i ∷ done) → word_at m' q ≡ word_at st.memory q)
      → AreHeld m' fixed
      → (p : ℕ) × (pair.ptr ≡ some p)
        × ((q : ℕ) → IsFresh q (i ∷ done) → Disjoint p q)
        × IsApart fixed p
      → Fixed m (i ∷ done) fixed (record { memory = m'; pairs = set_pair st.pairs r pair })
  pair-Fixed r pair m' kept held cover = record {
    words = λ q f. kept q f ∙ h.words q f.1;
    held = held;
    apart = λ q f. h.apart q f.1;
    covered = λ j. elim (Bool-cases (j == r)) [
      | inl e ↦ rw e (λ live. cover)
      | inr e ↦
          rw e (λ live. let (p, e', far, a) = h.covered j live in (p, e', λ q f. far q f.1, a))
    ];
  }

  mips_hi16-Fixed : (l : Layout) → OnOk (Leaves fixed) (mips_hi16 l i false st)
  unfolding mips_hi16
  mips_hi16-Fixed l = OnOk-load _ st.memory i _ (
      pair-Fixed (hi_register (word_at st.memory i)) _ st.memory (λ q f. refl) h.held
        (i, refl, λ q f. f.0, h.apart i fresh))

  set_used-Fixed :
      (r : ℕ) (m' : Memory)
      → (st.pairs r).status ≢ invalid
      → ((q : ℕ) → IsFresh q (i ∷ done) → word_at m' q ≡ word_at st.memory q)
      → AreHeld m' fixed
      → Fixed m (i ∷ done) fixed (set_used st r m')
  set_used-Fixed r m' live kept held =
      let (p, e, far, a) = h.covered r live in
      pair-Fixed r _ m' kept held (p, e, λ q f. far q f.1, a)

  -- The two words of a pair.
  write_pair-Fixed :
      (r w addr : ℕ)
      → (st.pairs r).status ≢ invalid
      → OnOk
          (λ m'. Fixed m (i ∷ done) fixed (set_used st r m'))
          (write_pair st.memory i w (st.pairs r).ptr addr)
  write_pair-Fixed r w addr live =
      let (p, e, far, a) = h.covered r live in
      let lo = bit_or (high_bits w 16) (low_bits addr 16) in
      write_pair-OnOk (λ m'. Fixed m (i ∷ done) fixed (set_used st r m')) st.memory i w
        (st.pairs r).ptr p addr e
        (set_used-Fixed r _ live
          (λ q f.
            word_at-put_word_ne (put_word st.memory i lo) p q _ (far q f.1)
            ∙ word_at-put_word_ne st.memory i q lo f.0)
          (put_word-AreHeld (put_word st.memory i lo) p _ fixed a
            (put_word-AreHeld st.memory i lo fixed (h.apart i fresh) h.held)))

  through :
      (addr w r : ℕ)
      → (st.pairs r).status ≢ invalid
      → OnOk
          (Leaves fixed)
          (do m' ← write_pair st.memory i w (st.pairs r).ptr addr; ok (success, set_used st r m'))
  through addr w r live =
      OnOk-bind (λ m'. Fixed m (i ∷ done) fixed (set_used st r m')) (Leaves fixed)
        (write_pair st.memory i w (st.pairs r).ptr addr) _ (write_pair-Fixed r w addr live)
        (λ m' k. k)

  finish_lo16-Fixed :
      (o : Outcome) (addr w r : ℕ) (status : Status)
      → (st.pairs r).status ≡ status
      → OnOk (Leaves fixed) (finish_lo16 (o, addr) status i w r false st)
  unfolding finish_lo16
  finish_lo16-Fixed o addr w r invalid e = Fixed-skip
  finish_lo16-Fixed success addr w r valid e = through addr w r (rw e (λ x. cc))
  finish_lo16-Fixed success addr w r used e = through addr w r (rw e (λ x. cc))
  finish_lo16-Fixed error addr w r valid e =
      set_used-Fixed r st.memory (rw e (λ x. cc)) (λ q f. refl) h.held
  finish_lo16-Fixed error addr w r used e =
      set_used-Fixed r st.memory (rw e (λ x. cc)) (λ q f. refl) h.held
  finish_lo16-Fixed fail addr w r valid e =
      set_used-Fixed r st.memory (rw e (λ x. cc)) (λ q f. refl) h.held
  finish_lo16-Fixed fail addr w r used e =
      set_used-Fixed r st.memory (rw e (λ x. cc)) (λ q f. refl) h.held
  finish_lo16-Fixed fail_dont_delete_hi addr w r valid e =
      set_used-Fixed r st.memory (rw e (λ x. cc)) (λ q f. refl) h.held
  finish_lo16-Fixed fail_dont_delete_hi addr w r used e =
      set_used-Fixed r st.memory (rw e (λ x. cc)) (λ q f. refl) h.held

  mips_lo16-Fixed : (l : Layout) → OnOk (Leaves fixed) (mips_lo16 l i false st)
  unfolding mips_lo16
  mips_lo16-Fixed l = OnOk-load _ st.memory i _ (finish_lo16-Fixed _ _ _ _ _ refl)

  -- One relocation of any type.
  pub reloc_do-Fixed :
      (l : Layout) (type : ℕ)
      → OnOk (Leaves (expected l m type i ++ fixed)) (reloc_do type l i false st)
  unfolding reloc_do
  reloc_do-Fixed l type = elim (Bool-cases (low_bits type 7 == 2)) [
    | inl e ↦ rw e (mips_32-Fixed l)
    | inr e₂ ↦ elim (Bool-cases (low_bits type 7 == 4)) [
      | inl e ↦ rw (e₂, e) (mips_26-Fixed l)
      | inr e₄ ↦ elim (Bool-cases (low_bits type 7 == 5)) [
        | inl e ↦ rw (e₂, e₄, e) (mips_hi16-Fixed l)
        | inr e₅ ↦ elim (Bool-cases (low_bits type 7 == 6)) [
          | inl e ↦ rw (e₂, e₄, e₅, e) (mips_lo16-Fixed l)
          | inr e₆ ↦ rw (e₂, e₄, e₅, e₆) Fixed-skip
        ]
      ]
    ]
  ]
