-- ===== src/Reloc/DryRun/States.antt =====
-- When the states of a dry run and of the real run agree.
use n_ovl.Base.{ℕ, ◌+◌, ◌≤◌, ◌≡◌, ◌≢◌, refl}
use n_ovl.Base.{some, List, All}
use n_ovl.Base.Exec.{Exec, ok, fault}
use n_ovl.Reloc.Memory.{memory_size, word_at, Disjoint}
use n_ovl.Reloc.Target.{Outcome}
use n_ovl.Reloc.Handlers.{State, HiloPair, invalid, reloc_init}

-- A word with no byte in common with any of `done`.
abbrev pub IsFresh : ℕ → List ℕ → Type 0
IsFresh q done = All (λ p. Disjoint p q) done

-- A live upper half stands in a word of the memory image that was already relocated.
abbrev pub IsCovered : List ℕ → HiloPair → Type 0
IsCovered done pair =
    pair.status ≢ invalid
    → (p : ℕ) × (pair.ptr ≡ some p)
      × (p + 4 ≤ memory_size)
      × ((q : ℕ) → IsFresh q done → Disjoint p q)

-- The states of the dry and of the real run after the relocations of the words `done`.
pub record Agree (done : List ℕ) (dry real : State) : Type 0 where
  pub pairs : dry.pairs ≡ real.pairs
  pub words : (q : ℕ) → IsFresh q done → word_at real.memory q ≡ word_at dry.memory q
  pub covered : (r : ℕ) → IsCovered done (dry.pairs r)

-- Two runs that both make the same answer, or both fault.
abbrev pub Lockstep : List ℕ → Exec (Outcome × State) → Exec (Outcome × State) → Type 0
Lockstep done (ok (a, dry)) (ok (b, real)) = (a ≡ b) × Agree done dry real
Lockstep done fault fault = Unit
Lockstep done _ _ = ⊥

-- The memory of the real run differs from that of the dry run in words that were touched at most.
abbrev pub SameWords : List ℕ → State → State → Type 0
SameWords done dry real = (q : ℕ) → IsFresh q done → word_at real.memory q ≡ word_at dry.memory q

-- `novl_reloc_init` makes the states agree, since it forgets every register's pair.
pub reloc_init-Agree :
    (done : List ℕ) (dry real : State)
    → SameWords done dry real
    → Agree done (reloc_init dry) (reloc_init real)
unfolding reloc_init
reloc_init-Agree done dry real h = record {
  pairs = refl;
  words = h;
  covered = λ r live. absurd (live refl);
}
