-- ===== src/Reloc/DryRun/Step.antt =====
-- One relocation of any type, as a dry run and as the real run.
use n_ovl.Base.{ℕ, ◌+◌, ◌≤◌, ◌≡◌, refl, inl, inr}
use n_ovl.Base.{true, false, ◌==◌, leb, List, ◌∷◌, Bool-cases, leb→le}
use mathlib.Core.Path.{subst}
use n_ovl.Base.Word.{low_bits}
use n_ovl.Section.{Section}
use n_ovl.Reloc.Memory.{Memory, memory_size, word_at, load-fault}
use n_ovl.Reloc.Target.{Layout, with_starts}
use n_ovl.Reloc.Handlers.{State, mips_32, mips_26, mips_hi16, mips_lo16, reloc_do, Handler}
use n_ovl.Reloc.DryRun.States.{IsFresh, Agree, Lockstep}
use n_ovl.Reloc.DryRun.Handlers.{Agree-same, mips_32-in, mips_26-in, mips_hi16-in, mips_lo16-in}

-- The pairs of `dry`, and the memory `m` of the real run.
module _ (i : ℕ) (done : List ℕ) (dry : State) (m : Memory)
    (h : Agree done dry (record { memory = m; pairs = dry.pairs })) where
  abbrev after : State
  after = record { memory = m; pairs = dry.pairs }

  -- Outside the memory image both runs fault.
  module _ (l : Layout) (z : Section → ℕ) (out : leb (i + 4) memory_size ≡ false) where
    mips_32-out :
        Lockstep (i ∷ done) (mips_32 (with_starts l z) i true dry) (mips_32 l i false after)
    unfolding mips_32
    mips_32-out = rw (load-fault dry.memory i out, load-fault m i out) tt

    mips_26-out :
        Lockstep (i ∷ done) (mips_26 (with_starts l z) i true dry) (mips_26 l i false after)
    unfolding mips_26
    mips_26-out = rw (load-fault dry.memory i out, load-fault m i out) tt

    mips_hi16-out :
        Lockstep (i ∷ done) (mips_hi16 (with_starts l z) i true dry) (mips_hi16 l i false after)
    unfolding mips_hi16
    mips_hi16-out = rw (load-fault dry.memory i out, load-fault m i out) tt

    mips_lo16-out :
        Lockstep (i ∷ done) (mips_lo16 (with_starts l z) i true dry) (mips_lo16 l i false after)
    unfolding mips_lo16
    mips_lo16-out = rw (load-fault dry.memory i out, load-fault m i out) tt

  -- The handlers one by one, with or without a word at `i`.
  module _ (l : Layout) (z : Section → ℕ) (same : word_at m i ≡ word_at dry.memory i) where
    either :
        (f : Handler)
        → (i + 4 ≤ memory_size
            → Lockstep (i ∷ done) (f (with_starts l z) i true dry) (f l i false after))
        → (leb (i + 4) memory_size ≡ false
            → Lockstep (i ∷ done) (f (with_starts l z) i true dry) (f l i false after))
        → Lockstep (i ∷ done) (f (with_starts l z) i true dry) (f l i false after)
    either f in' out = elim (Bool-cases (leb (i + 4) memory_size)) [
      | inl e ↦ in' (leb→le (i + 4) memory_size e)
      | inr e ↦ out e
    ]

    reloc_do-same :
        (type : ℕ)
        → Lockstep
            (i ∷ done)
            (reloc_do type (with_starts l z) i true dry)
            (reloc_do type l i false after)
    unfolding reloc_do
    reloc_do-same type = elim (Bool-cases (low_bits type 7 == 2)) [
      | inl e ↦ rw e (either mips_32 (λ b. mips_32-in i done dry m h b l z same) (mips_32-out l z))
      | inr e₂ ↦ elim (Bool-cases (low_bits type 7 == 4)) [
        | inl e ↦
            rw (e₂, e)
              (either mips_26 (λ b. mips_26-in i done dry m h b l z same) (mips_26-out l z))
        | inr e₄ ↦ elim (Bool-cases (low_bits type 7 == 5)) [
          | inl e ↦
              rw (e₂, e₄, e)
                (either mips_hi16 (λ b. mips_hi16-in i done dry m h b l z same) (mips_hi16-out l z))
          | inr e₅ ↦ elim (Bool-cases (low_bits type 7 == 6)) [
            | inl e ↦
                rw (e₂, e₄, e₅, e)
                  (either mips_lo16 (λ b. mips_lo16-in i done dry m h b l z same)
                    (mips_lo16-out l z))
            | inr e₆ ↦ rw (e₂, e₄, e₅, e₆) (refl, Agree-same i done dry m h)
          ]
        ]
      ]
    ]

-- One relocation, dry and real, of a word that no earlier relocation touched. The dry run is made
-- before `ovl_starts` is set.
pub reloc_do-Lockstep :
    (l : Layout) (z : Section → ℕ) (type i : ℕ) (done : List ℕ) (dry real : State)
    → Agree done dry real
    → IsFresh i done
    → Lockstep
        (i ∷ done)
        (reloc_do type (with_starts l z) i true dry)
        (reloc_do type l i false real)
reloc_do-Lockstep l z type i done dry real h fresh =
    subst
      (λ ps.
        Lockstep (i ∷ done) (reloc_do type (with_starts l z) i true dry)
          (reloc_do type l i false (record { memory = real.memory; pairs = ps })))
      h.pairs
      (reloc_do-same i done dry real.memory
        (record { pairs = refl; words = h.words; covered = h.covered }) l z (h.words i fresh) type)
