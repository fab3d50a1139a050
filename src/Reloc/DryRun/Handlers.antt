-- ===== src/Reloc/DryRun/Handlers.antt =====
-- The handlers of src/novl-reloc.c in lockstep: a dry run and the real run of one relocation.
use n_ovl.Base.{ℕ, ◌+◌, ◌≤◌, ◌≡◌, ◌≢◌, refl, inl, inr, ◌∙◌, arith, bit_or}
use n_ovl.Base.{some, true, false, ◌==◌, List, ◌∷◌, Bool-cases, Option-cases}
use n_ovl.Base.Word.{add32, low_bits, high_bits}
use n_ovl.Base.Exec.{ok, ◌>>=◌}
use n_ovl.Section.{Section}
use n_ovl.Reloc.Memory.{
  Memory, memory_size, word_at, put_word, Disjoint, load-ok, store-ok, word_at-put_word_ne,
}
use n_ovl.Reloc.Target.{
  Layout, Outcome, success, fail, error, fail_dont_delete_hi, with_starts, get_target_section,
  adjust_address,
}
use n_ovl.Reloc.Handlers.{
  State, HiloPair, Status, invalid, valid, used, set_pair, set_used, lo_register, sign_extend,
  high_half, write_pair, finish_word, finish_lo16, mips_32, mips_26, mips_hi16, mips_lo16,
  jump_address,
}
use n_ovl.Reloc.DryRun.States.{IsFresh, IsCovered, Agree, Lockstep}

adjust_address-outcome :
    (l : Layout) (z : Section → ℕ) (a type : ℕ)
    → (adjust_address (with_starts l z) a type true).0 ≡ (adjust_address l a type false).0
unfolding adjust_address get_target_section
adjust_address-outcome l z a type = elim (Option-cases (get_target_section l a)) [
  | inl e ↦ rw (e, adjust_address)
  | inr (s, e) ↦ rw (e, adjust_address) (ground arith)
]

pair_live :
    (done : List ℕ) (p : ℕ) (reg : ℕ) (status : Status)
    → p + 4 ≤ memory_size
    → ((q : ℕ) → IsFresh q done → Disjoint p q)
    → IsCovered done (record { ptr = some p; reg = reg; status = status })
pair_live done p reg status b c live = (p, refl, b, c)

-- The two states have the same pairs; `m` is the memory of the real run.
module _ (i : ℕ) (done : List ℕ) (dry : State) (m : Memory) where
  abbrev pub after : State
  after = record { memory = m; pairs = dry.pairs }

  module _ (h : Agree done dry after) where
    IsCovered-more : (j : ℕ) → IsCovered (i ∷ done) (dry.pairs j)
    IsCovered-more j live = let (p, e, b, c) = h.covered j live in (p, e, b, λ q f. c q f.1)

    -- The real run may change words that were already touched, and the one at `i`; both runs may
    -- set the pair of one register.
    Agree-pair :
        (r : ℕ) (pair : HiloPair) (m' : Memory)
        → ((q : ℕ) → IsFresh q (i ∷ done) → word_at m' q ≡ word_at m q)
        → IsCovered (i ∷ done) pair
        → Agree
            (i ∷ done)
            (record dry { pairs = set_pair dry.pairs r pair })
            (record { memory = m'; pairs = set_pair dry.pairs r pair })
    Agree-pair r pair m' kept c = record {
      pairs = refl;
      words = λ q f. kept q f ∙ h.words q f.1;
      covered =
          λ j. elim (Bool-cases (j == r)) [ inl e ↦ rw e c | inr e ↦ rw e (IsCovered-more j) ];
    }

    Agree-edit :
        (m' : Memory)
        → ((q : ℕ) → IsFresh q (i ∷ done) → word_at m' q ≡ word_at m q)
        → Agree (i ∷ done) dry (record { memory = m'; pairs = dry.pairs })
    Agree-edit m' kept = record {
      pairs = refl;
      words = λ q f. kept q f ∙ h.words q f.1;
      covered = IsCovered-more;
    }

    pub Agree-same : Agree (i ∷ done) dry after
    Agree-same = Agree-edit m (λ q f. refl)

    module _ (bound : i + 4 ≤ memory_size) where
      finish_word-Lockstep :
          (o : Outcome) (a b : ℕ)
          → Lockstep (i ∷ done) (finish_word o a i true dry) (finish_word o b i false after)
      unfolding finish_word
      finish_word-Lockstep success a b =
          rw (store-ok m i b bound)
            (refl, Agree-edit (put_word m i b) (λ q f. word_at-put_word_ne m i q b f.0))
      finish_word-Lockstep error a b = (refl, Agree-same)
      finish_word-Lockstep fail a b = (refl, Agree-same)
      finish_word-Lockstep fail_dont_delete_hi a b = (refl, Agree-same)

      -- What the lo16 handler writes, where the register's upper half is at `p`.
      write_pair_kept :
          (w p addr : ℕ)
          → p + 4 ≤ memory_size
          → ((q : ℕ) → IsFresh q done → Disjoint p q)
          → (m' : Memory) × (write_pair m i w (some p) addr ≡ ok m')
            × ((q : ℕ) → IsFresh q (i ∷ done) → word_at m' q ≡ word_at m q)
      unfolding write_pair
      write_pair_kept w p addr b c =
          let lo = bit_or (high_bits w 16) (low_bits addr 16) in
          let hi = bit_or (high_bits (word_at m p) 16) (high_half addr) in
          (
            put_word (put_word m i lo) p hi,
            rw (load-ok m p b, store-ok m i lo bound) (store-ok (put_word m i lo) p hi b),
            λ q f.
                word_at-put_word_ne (put_word m i lo) p q hi (c q f.1)
                ∙ word_at-put_word_ne m i q lo f.0,
          )

      set_used-Agree :
          (r : ℕ) (m' : Memory)
          → ((q : ℕ) → IsFresh q (i ∷ done) → word_at m' q ≡ word_at m q)
          → (dry.pairs r).status ≢ invalid
          → Agree (i ∷ done) (set_used dry r dry.memory) (set_used after r m')
      set_used-Agree r m' kept live =
          Agree-pair r (record { ptr = (dry.pairs r).ptr; reg = (dry.pairs r).reg; status = used })
            m' kept (λ _. IsCovered-more r live)

      write_pair_live :
          (w r addr : ℕ)
          → (dry.pairs r).status ≢ invalid
          → (m' : Memory) × (write_pair m i w (dry.pairs r).ptr addr ≡ ok m')
            × ((q : ℕ) → IsFresh q (i ∷ done) → word_at m' q ≡ word_at m q)
      write_pair_live w r addr live =
          let (p, e, b, c) = h.covered r live in rw e (write_pair_kept w p addr b c)

      set_used-Lockstep :
          (w r addr : ℕ)
          → (dry.pairs r).status ≢ invalid
          → Lockstep
              (i ∷ done)
              (ok (success, set_used dry r dry.memory))
              (do m' ← write_pair m i w (dry.pairs r).ptr addr; ok (success, set_used after r m'))
      set_used-Lockstep w r addr live =
          let (m', e, kept) = write_pair_live w r addr live in
          rw e (refl, set_used-Agree r m' kept live)

      set_used-same :
          (o : Outcome) (r : ℕ)
          → (dry.pairs r).status ≢ invalid
          → Lockstep (i ∷ done) (ok (o, set_used dry r dry.memory)) (ok (o, set_used after r m))
      set_used-same o r live = (refl, set_used-Agree r m (λ q f. refl) live)

      finish_lo16-Lockstep :
          (o : Outcome) (a b w r : ℕ) (status : Status)
          → (dry.pairs r).status ≡ status
          → Lockstep
              (i ∷ done)
              (finish_lo16 (o, a) status i w r true dry)
              (finish_lo16 (o, b) status i w r false after)
      unfolding finish_lo16
      finish_lo16-Lockstep o a b w r invalid e = (refl, Agree-same)
      finish_lo16-Lockstep success a b w r valid e = set_used-Lockstep w r b (rw e (λ x. cc))
      finish_lo16-Lockstep success a b w r used e = set_used-Lockstep w r b (rw e (λ x. cc))
      finish_lo16-Lockstep error a b w r valid e = set_used-same error r (rw e (λ x. cc))
      finish_lo16-Lockstep error a b w r used e = set_used-same error r (rw e (λ x. cc))
      finish_lo16-Lockstep fail a b w r valid e = set_used-same fail r (rw e (λ x. cc))
      finish_lo16-Lockstep fail a b w r used e =
          set_used-same fail_dont_delete_hi r (rw e (λ x. cc))
      finish_lo16-Lockstep fail_dont_delete_hi a b w r valid e =
          set_used-same fail_dont_delete_hi r (rw e (λ x. cc))
      finish_lo16-Lockstep fail_dont_delete_hi a b w r used e =
          set_used-same fail_dont_delete_hi r (rw e (λ x. cc))

      module _ (l : Layout) (z : Section → ℕ) (same : word_at m i ≡ word_at dry.memory i) where
        pub mips_32-in :
            Lockstep (i ∷ done) (mips_32 (with_starts l z) i true dry) (mips_32 l i false after)
        unfolding mips_32
        mips_32-in =
            rw
              (
                load-ok dry.memory i bound,
                load-ok m i bound,
                same,
                adjust_address-outcome l z (word_at dry.memory i) 2,
              )
              (finish_word-Lockstep _ _ _)

        pub mips_26-in :
            Lockstep (i ∷ done) (mips_26 (with_starts l z) i true dry) (mips_26 l i false after)
        unfolding mips_26
        mips_26-in =
            rw
              (
                load-ok dry.memory i bound,
                load-ok m i bound,
                same,
                adjust_address-outcome l z (jump_address (word_at dry.memory i)) 4,
              )
              (finish_word-Lockstep _ _ _)

        pub mips_hi16-in :
            Lockstep (i ∷ done) (mips_hi16 (with_starts l z) i true dry) (mips_hi16 l i false after)
        unfolding mips_hi16
        mips_hi16-in =
            rw (load-ok dry.memory i bound, load-ok m i bound, same)
              (refl, Agree-pair _ _ m (λ q f. refl) (λ live. (i, refl, bound, λ q f. f.0)))

        pub mips_lo16-in :
            Lockstep (i ∷ done) (mips_lo16 (with_starts l z) i true dry) (mips_lo16 l i false after)
        unfolding mips_lo16
        mips_lo16-in =
            rw (load-ok dry.memory i bound, load-ok m i bound, same)
              (rw
                (adjust_address-outcome l z
                  (add32 (dry.pairs (lo_register (word_at dry.memory i))).reg
                    (sign_extend (low_bits (word_at dry.memory i) 16)))
                  6)
                (finish_lo16-Lockstep _ _ _ _ _ _ refl))
