-- ===== src/Conv/Pass/Agreement.antt =====
-- The two passes side by side, relocation by relocation: while the words are untouched the count
-- that the first predicts is the one that the second reaches.
use n_ovl.Base.{ℕ, ◌+◌, ◌≤◌, ◌≡◌, refl, sym, ap, ◌∙◌, arith, inl, inr}
use n_ovl.Base.{List, [], ◌∷◌, true, false, ◌==◌, ==_iff, Bool-cases}
use n_ovl.Base.Word.{add32, sub32}
use n_ovl.Base.Exec.{Exec, ok, exit, fault, ◌>>=◌, OnOk, OnOk-bind, OnOk-any}
use n_ovl.Section.{Section}
use n_ovl.Reloc.Target.{Layout, Outcome, success, fail, error, fail_dont_delete_hi, with_starts}
use n_ovl.Reloc.Handlers.{State, reloc_do}
use n_ovl.Reloc.DryRun.States.{IsFresh, Agree, Lockstep}
use n_ovl.Reloc.DryRun.Step.{reloc_do-Lockstep}
use n_ovl.Reloc.Live.{live, LiveStep, reloc_do-LiveStep}
use n_ovl.Conv.Elf.{Rel}
use n_ovl.Conv.Pass.{
  Prediction, note_outcome, predict_rel, Build, delete_last, append_entry, finish_rel, build_rel,
  offset_of, type_of, entry_of,
}
use n_ovl.Conv.Pass.Deletion.{
  IsTail, append_entry-IsTail, delete_last-IsTail, IsTail-less, IsTail-set_state,
}

-- The words are distinct, and apart from those of `done`.
abbrev pub Untouched : List ℕ → List ℕ → Type 0
Untouched done [] = Unit
Untouched done (i ∷ is) = IsFresh i done × Untouched (i ∷ done) is

abbrev pub touch : List ℕ → List ℕ → List ℕ
touch done [] = done
touch done (i ∷ is) = touch (i ∷ done) is

-- The first pass has seen an error, or does not return.
abbrev pub Doomed : Exec Prediction → Type 0
Doomed = OnOk (λ p. p.failed ≡ true)

-- Both passes return related states, or both fault, or the second has left the program over an
-- error that the first one notes.
abbrev pub Both : (Prediction → Build → Type 0) → Exec Prediction → Exec Build → Type 0
Both R x exit = Doomed x
Both R (ok p) (ok b) = R p b
Both R fault fault = Unit
Both R _ _ = ⊥

pub Both-bind :
    (R Q : Prediction → Build → Type 0) (x : Exec Prediction) (y : Exec Build)
    (f : Prediction → Exec Prediction) (g : Build → Exec Build)
    → Both R x y
    → ((p : Prediction) (b : Build) → R p b → Both Q (f p) (g b))
    → ((p : Prediction) → p.failed ≡ true → Doomed (f p))
    → Both Q (x >>= f) (y >>= g)
Both-bind R Q (ok p) (ok b) f g h k d = k p b h
Both-bind R Q (ok p) exit f g h k d = d p h
Both-bind R Q exit exit f g h k d = tt
Both-bind R Q fault exit f g h k d = tt
Both-bind R Q fault fault f g h k d = tt
Both-bind R Q exit fault f g h k d = absurd h
Both-bind R Q exit (ok b) f g h k d = absurd h
Both-bind R Q fault (ok b) f g h k d = absurd h
Both-bind R Q (ok p) fault f g h k d = absurd h

-- Between two relocations of one data descriptor.
pub record InStep (done : List ℕ) (p : Prediction) (b : Build) : Type 0 where
  pub agree : Agree done p.state b.state
  pub unfailed : p.failed ≡ false
  pub count : p.count ≡ b.count
  pub depth : ℕ
  pub tail : IsTail b depth
  pub enough : live p.state.pairs ≤ depth

note_outcome-failed :
    (o : Outcome) (type : ℕ) (p : Prediction)
    → p.failed ≡ true
    → (note_outcome o type p).failed ≡ true
unfolding note_outcome
note_outcome-failed success type p h = h
note_outcome-failed error type p h = refl
note_outcome-failed fail type p h = ground arith
note_outcome-failed fail_dont_delete_hi type p h = h

pub predict_rel-Doomed :
    (l : Layout) (ep : ℕ) (p : Prediction) (rel : Rel)
    → p.failed ≡ true
    → Doomed (predict_rel l ep p rel)
unfolding predict_rel
predict_rel-Doomed l ep p rel h =
    OnOk-bind (λ _. Unit {0}) (λ (q : Prediction). q.failed ≡ true)
      (reloc_do (type_of rel) l (offset_of ep rel) true p.state) _ (OnOk-any _)
      (λ r _. note_outcome-failed r.0 (type_of rel) (record p { state = r.1 }) h)

-- After the answer `o` to one relocation, the same in both runs.
module _ (l : Layout) (id : Section) (rel : Rel) (done : List ℕ) (p : Prediction) (b : Build)
    (h : InStep done p b) (i : ℕ) (d r : State) (agree : Agree (i ∷ done) d r) where
  unchanged :
      live d.pairs ≤ live p.state.pairs
      → InStep (i ∷ done) (record p { state = d }) (record b { state = r })
  unchanged le = record {
    agree = agree;
    unfailed = h.unfailed;
    count = h.count;
    depth = h.depth;
    tail = IsTail-set_state b h.depth r h.tail;
    enough = omega (arith, h.enough);
  }

  appended :
      live d.pairs ≤ live p.state.pairs + 1
      → InStep
          (i ∷ done)
          (record { state = d; count = add32 p.count 1; failed = p.failed })
          (append_entry (record b { state = r }) (entry_of l id rel))
  unfolding append_entry
  appended le = record {
    agree = agree;
    unfailed = h.unfailed;
    count = ap (λ (c : ℕ). add32 c 1) h.count;
    depth = h.depth + 1;
    tail =
        append_entry-IsTail (record b { state = r }) h.depth (entry_of l id rel)
          (IsTail-set_state b h.depth r h.tail);
    enough = omega (arith, h.enough);
  }

  deleted :
      live d.pairs + 1 ≤ live p.state.pairs
      → Both
          (InStep (i ∷ done))
          (ok (record { state = d; count = sub32 p.count 1; failed = p.failed }))
          (delete_last (record b { state = r }))
  deleted le =
      let (b', e, tail, same, less) =
        delete_last-IsTail (record b { state = r }) (live d.pairs)
          (IsTail-less _ h.depth _ (omega (arith, h.enough))
            (IsTail-set_state b h.depth r h.tail)) in
      rw e (record {
        agree = rw same agree;
        unfailed = h.unfailed;
        count = ap (λ (c : ℕ). sub32 c 1) h.count ∙ sym less;
        depth = live d.pairs;
        tail = tail;
        enough = omega arith;
      })

  answer :
      (o : Outcome)
      → LiveStep (type_of rel) (live p.state.pairs) (ok (o, d))
      → Both
          (InStep (i ∷ done))
          (ok (note_outcome o (type_of rel) (record p { state = d })))
          (finish_rel o l id (record b { state = r }) rel)
  unfolding note_outcome finish_rel
  answer success s = appended s
  answer error s = refl
  answer fail s = elim (Bool-cases (type_of rel == 6)) [
    | inl e ↦ rw e (deleted (s.1 ((==_iff (type_of rel) 6).0 e)))
    | inr e ↦ rw e (unchanged s.0)
  ]
  answer fail_dont_delete_hi s = unchanged s

-- From the two runs of the relocator to the two passes.
answers :
    (l : Layout) (id : Section) (rel : Rel) (done : List ℕ) (p : Prediction) (b : Build) (i : ℕ)
    (x y : Exec (Outcome × State))
    → InStep done p b
    → Lockstep (i ∷ done) x y
    → LiveStep (type_of rel) (live p.state.pairs) x
    → Both
        (InStep (i ∷ done))
        (x >>= λ (v, st). ok (note_outcome v (type_of rel) (record p { state = st })))
        (y >>= λ (v, st). finish_rel v l id (record b { state = st }) rel)
answers l id rel done p b i (ok (o, d)) (ok (o', r)) h s live' =
    rw (← s.0) (answer l id rel done p b h i d r s.1 o live')
answers l id rel done p b i fault fault h s live' = tt
answers l id rel done p b i (ok x) exit h s live' = absurd s
answers l id rel done p b i (ok x) fault h s live' = absurd s
answers l id rel done p b i exit y h s live' = absurd s
answers l id rel done p b i fault (ok y) h s live' = absurd s
answers l id rel done p b i fault exit h s live' = absurd s

-- One relocation of an untouched word, in both passes.
pub rel-Both :
    (l : Layout) (z : Section → ℕ) (ep : ℕ) (id : Section) (rel : Rel) (done : List ℕ)
    (p : Prediction) (b : Build)
    → InStep done p b
    → IsFresh (offset_of ep rel) done
    → Both
        (InStep (offset_of ep rel ∷ done))
        (predict_rel (with_starts l z) ep p rel)
        (build_rel l ep id b rel)
unfolding predict_rel build_rel
rel-Both l z ep id rel done p b h fresh =
    answers l id rel done p b (offset_of ep rel) _ _ h
      (reloc_do-Lockstep l z (type_of rel) (offset_of ep rel) done p.state b.state h.agree fresh)
      (reloc_do-LiveStep (with_starts l z) (type_of rel) (offset_of ep rel) p.state)
