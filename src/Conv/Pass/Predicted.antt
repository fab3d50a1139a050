-- ===== src/Conv/Pass/Predicted.antt =====
-- The prediction of the first pass is what the second one makes.
use n_ovl.Base.{
  ℕ, ◌≡◌, refl, sym, ap, ◌∙◌, arith, inl, inr, none, List, [], true, false, ◌==◌, if◌then◌else◌,
  Bool-cases, length,
}
use mathlib.Core.Path.{subst}
use n_ovl.Base.Word.{u32}
use n_ovl.Base.Exec.{
  Exec, ok, exit, fault, >>=-eq-ok, fold_exec, OnOk, OnOk-bind, OnOk-fold_exec, OnOk-elim,
}
use n_ovl.Section.{Section}
use n_ovl.Reloc.Target.{Layout, Outcome, success, fail, error, fail_dont_delete_hi, with_starts}
use n_ovl.Reloc.Memory.{Memory}
use n_ovl.Reloc.Handlers.{State, reloc_do, reloc_init}
use n_ovl.Reloc.DryRun.Kept.{Keeps, reloc_do-Keeps}
use n_ovl.Conv.Elf.{Rel, ElfData, ElfSection}
use n_ovl.Conv.Sort.{sort_rels}
use n_ovl.Conv.Pass.{
  Prediction, note_outcome, predict_rel, predict_block, predict, Build, build, over_rel_section,
  offset_of, type_of,
}
use n_ovl.Conv.Pass.Agreement.{Untouched, Both}
use n_ovl.Conv.Pass.Counts.{file-Both, file_words}
use n_ovl.Conv.Pass.Loops.{OnOk-over_rel_section}

unwrap : (q p : Prediction) → ◌≡◌ {A = Exec Prediction} (ok q) (ok p) → q ≡ p
unwrap q p e = cc

abbrev KeepsMemory : Memory → Prediction → Type 0
KeepsMemory m p = p.state.memory ≡ m

pub note_outcome-state :
    (o : Outcome) (type : ℕ) (p : Prediction) → (note_outcome o type p).state ≡ p.state
unfolding note_outcome
note_outcome-state success type p = refl
note_outcome-state error type p = refl
note_outcome-state fail type p = elim (Bool-cases (type == 6)) [ inl e ↦ rw e | inr e ↦ rw e ]
note_outcome-state fail_dont_delete_hi type p = refl

Keeps-OnOk : (m : Memory) (x : Exec (Outcome × State)) → Keeps m x → OnOk (λ r. r.1.memory ≡ m) x
Keeps-OnOk m (ok (o, st)) h = h
Keeps-OnOk m exit h = tt
Keeps-OnOk m fault h = tt

module _ (l : Layout) (ep : ℕ) (m : Memory) where
  predict_rel-kept :
      (p : Prediction) (rel : Rel) → KeepsMemory m p → OnOk (KeepsMemory m) (predict_rel l ep p rel)
  unfolding predict_rel
  predict_rel-kept p rel h =
      OnOk-bind (λ r. r.1.memory ≡ m) (KeepsMemory m)
        (reloc_do (type_of rel) l (offset_of ep rel) true p.state) _
        (Keeps-OnOk m _ (
          subst (λ m'. Keeps m' (reloc_do (type_of rel) l (offset_of ep rel) true p.state)) h
            (reloc_do-Keeps l (type_of rel) (offset_of ep rel) p.state)))
        (λ r e. rw note_outcome-state e)

  predict_block-kept :
      (p : Prediction) (d : ElfData)
      → KeepsMemory m p
      → OnOk (KeepsMemory m) (predict_block l ep p d)
  unfolding predict_block reloc_init
  predict_block-kept p d h =
      OnOk-fold_exec (KeepsMemory m) _ predict_rel-kept (sort_rels d.rels) _ h

  file-kept :
      (p : Prediction) (secs : List ElfSection)
      → KeepsMemory m p
      → OnOk
          (KeepsMemory m)
          (fold_exec (over_rel_section (λ id p. p) (λ id. predict_block l ep)) p secs)
  file-kept p secs h =
      OnOk-fold_exec (KeepsMemory m) _
        (λ q sec g.
          OnOk-over_rel_section (KeepsMemory m) _ _ (λ id q' g'. g') (λ id. predict_block-kept) q
            sec g)
        secs p h

abbrev pub loop : Layout → ℕ → State → List ElfSection → Exec Prediction
loop l ep st secs =
    fold_exec (over_rel_section (λ id p. p) (λ id. predict_block l ep))
      (record { state = st; count = 0; failed = false }) secs

passed :
    (q p : Prediction) → (if q.failed then exit else ok q) ≡ ok p → (q ≡ p) × (q.failed ≡ false)
passed q p e = elim (Bool-cases q.failed) [
  | inl f ↦ absurd (cc (rw f at e))
  | inr f ↦ (cc (rw f at e), f)
]

-- What `predict` returns comes from its loop, with no error noted.
predict-eq-ok :
    (l : Layout) (ep : ℕ) (st : State) (secs : List ElfSection) (p : Prediction)
    → predict l ep st secs ≡ ok p
    → (loop l ep st secs ≡ ok p) × (p.failed ≡ false)
unfolding predict
predict-eq-ok l ep st secs p e =
    let (q, run, e') = >>=-eq-ok _ _ e in
    let (same, f) = passed q p e' in (run ∙ ap ok same, rw (← same) f)

-- If the first pass returns, it has changed no byte of the memory image.
pub predict-memory :
    (l : Layout) (ep : ℕ) (st : State) (secs : List ElfSection) (p : Prediction)
    → predict l ep st secs ≡ ok p
    → p.state.memory ≡ st.memory
predict-memory l ep st secs p e =
    OnOk-elim (KeepsMemory st.memory) _ (predict-eq-ok l ep st secs p e).0
      (file-kept l ep st.memory (record { state = st; count = 0; failed = false }) secs refl)

Both-ok :
    (R : Prediction → Build → Type 0) (x : Exec Prediction) (y : Exec Build) (p : Prediction)
    → x ≡ ok p
    → p.failed ≡ false
    → Both R x y
    → (b : Build) × (y ≡ ok b) × R p b
Both-ok R (ok q) (ok b) p e f h = (b, refl, subst (λ q'. R q' b) (unwrap q p e) h)
Both-ok R (ok q) exit p e f h = absurd (cc (unwrap q p e, h, f))
Both-ok R (ok q) fault p e f h = absurd h
Both-ok R exit y p e f h = absurd (cc e)
Both-ok R fault y p e f h = absurd (cc e)

-- If no two relocations of the file edit a common byte and the first pass returns, with the counted
-- entries and no error, then the second pass, which begins in the state that the first one leaves
-- and may have other `ovl_starts`, returns too: it follows no null pointer and meets no error. It
-- reaches the same count, and that is the number of table entries it made (as a 32-bit word).
pub predict-build :
    (l : Layout) (z : Section → ℕ) (ep : ℕ) (st : State) (secs : List ElfSection) (p : Prediction)
    → Untouched [] (file_words ep secs)
    → predict (with_starts l z) ep st secs ≡ ok p
    → (b : Build) × (build l ep p.state secs ≡ ok b)
      × (b.count ≡ p.count)
      × (b.count ≡ u32 (length b.relocs))
unfolding build
predict-build l z ep st secs p u e =
    let (run, f) = predict-eq-ok (with_starts l z) ep st secs p e in
    let (b, e', h) = Both-ok _ _ _ p run f (
      file-Both l z ep secs [] (record { state = st; count = 0; failed = false })
        (record { state = p.state; relocs = []; last = none; count = 0 })
        (record {
          words = λ q _. rw (predict-memory (with_starts l z) ep st secs p e) refl;
          unfailed = refl;
          count = refl;
          tail = record {
            within = omega arith;
            at_end = λ pos. absurd (omega arith);
            or_end = inl refl;
            counted = omega arith;
          };
        })
        u) in
    (b, e', sym h.count, h.tail.counted)
