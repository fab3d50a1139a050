-- ===== src/Conv/Pass/Checked.antt =====
-- When the first pass returns: the test of all relocations of a file on the loaded image.
use mathlib.Core.Path.{subst}
use n_ovl.Conv.Pass.{goes_on, advance}
use n_ovl.Base.{
  ℕ, ◌+◌, ◌≤◌, ◌≡◌, refl, ap, ◌∙◌, inl, inr, arith, List, [], ◌∷◌, map, none, some, Bool, true,
  false, not,
}
use n_ovl.Base.{All, All-split, drop, if◌then◌else◌, ◌&&◌, ◌||◌, Bool-cases, Option-cases}
use n_ovl.Base.Exec.{Exec, ok, exit, ◌>>=◌, fold_exec}
use n_ovl.Section.{valid_sec, is_rel_name}
use n_ovl.Reloc.Memory.{Memory, memory_size, word_at}
use n_ovl.Reloc.Target.{Layout, Outcome, success, fail, error, fail_dont_delete_hi}
use n_ovl.Reloc.Handlers.{State, reloc_init}
use n_ovl.Reloc.DryRun.Checked.{passes, seen_after, is_error, is_set, Matches}
use n_ovl.Reloc.DryRun.Checked.Step.{reloc_do-Answers}
use n_ovl.Conv.Elf.{Rel, ElfData, ElfSection}
use n_ovl.Conv.Sort.{sort_rels}
use n_ovl.Conv.Pass.{
  Prediction, note_outcome, predict_rel, predict_block, predict, over_blocks, over_rel_section,
  offset_of, type_of,
}
use n_ovl.Conv.Pass.Counts.{block_words, blocks_words, section_words, file_words}
use n_ovl.Conv.Pass.Predicted.{note_outcome-state}

-- A word in the image.
abbrev pub InMemory : ℕ → Type 0
InMemory i = i + 4 ≤ memory_size

module _ (l : Layout) (ep : ℕ) (m : Memory) where
  -- Every relocation of a list passes, with the registers of the HI16 in front of it.
  pub rels_pass : (ℕ → Bool) → List Rel → Bool
  rels_pass seen [] = true
  rels_pass seen (r ∷ rs) =
      passes l seen (type_of r) (word_at m (offset_of ep r))
      && rels_pass (seen_after seen (type_of r) (word_at m (offset_of ep r))) rs

  -- A data descriptor, in its sorted order, starts with no register.
  pub block_passes : ElfData → Bool
  unfolding rels_pass
  block_passes d = rels_pass (λ r. false) (sort_rels d.rels)

  pub blocks_pass : ℕ → ℕ → List ElfData → Bool
  unfolding block_passes
  blocks_pass sh_size n [] = true
  blocks_pass sh_size n (d ∷ ds) =
      if goes_on n sh_size
      then block_passes d && blocks_pass sh_size (advance n d.d_size) ds
      else true

  pub section_passes : ElfSection → Bool
  unfolding blocks_pass
  section_passes sec =
      if is_rel_name sec.name
      then elim (valid_sec (drop 4 sec.name)) [
        | none ↦ true
        | some id ↦ blocks_pass sec.sh_size 0 sec.blocks
      ]
      else true

  unfoldable pub file_passes : List ElfSection → Bool
  unfolding section_passes
  file_passes [] = true
  file_passes (sec ∷ secs) = section_passes sec && file_passes secs

  -- The pass goes on with the image `m`, and has noted an error if there was one before or if `b` is
  -- false.
  Notes : Prediction → Bool → Exec Prediction → Type 0
  Notes p b x =
      (p' : Prediction) × (x ≡ ok p') × (p'.state.memory ≡ m) × (p'.failed ≡ (p.failed || not b))

note_outcome-failed_or :
    (o : Outcome) (type : ℕ) (p : Prediction)
    → (note_outcome o type p).failed ≡ (p.failed || is_error o)
unfolding note_outcome
note_outcome-failed_or success type p = ground arith
note_outcome-failed_or error type p = ground arith
note_outcome-failed_or fail type p = ground arith
note_outcome-failed_or fail_dont_delete_hi type p = ground arith

module _ (l : Layout) (ep : ℕ) (m : Memory) where
  both_noted : (f f' a b : Bool) → f' ≡ (f || not a) → (f' || not b) ≡ (f || not (a && b))
  both_noted f f' a b e = ground arith

  Notes-bind :
      (p : Prediction) (a b : Bool) (x : Exec Prediction) (f : Prediction → Exec Prediction)
      → Notes l ep m p a x
      → ((p' : Prediction) → p'.state.memory ≡ m → Notes l ep m p' b (f p'))
      → Notes l ep m p (a && b) (x >>= f)
  unfolding Notes
  Notes-bind p a b x f (p', run, mem, failed) k =
      let (p'', run', mem', failed') = k p' mem in
      (p'', rw (run, run') refl, mem', failed' ∙ both_noted p.failed p'.failed a b failed)

  Notes-ok : (p : Prediction) → p.state.memory ≡ m → Notes l ep m p true (ok p)
  unfolding Notes
  Notes-ok p mem = (p, refl, mem, ground arith)

  -- One relocation: the note, and the registers behind it.
  rel-Notes :
      (r : Rel) (seen : ℕ → Bool) (p : Prediction)
      → p.state.memory ≡ m
      → Matches seen p.state
      → InMemory (offset_of ep r)
      → (p' : Prediction) × (predict_rel l ep p r ≡ ok p')
        × (p'.state.memory ≡ m)
        × Matches (seen_after seen (type_of r) (word_at m (offset_of ep r))) p'.state
        × (p'.failed ≡ (p.failed || not (passes l seen (type_of r) (word_at m (offset_of ep r)))))
  unfolding predict_rel
  rel-Notes r seen p mem match inside =
      let (o, st, run, err, kept, match') =
        reloc_do-Answers l (type_of r) (offset_of ep r) p.state seen match inside in
      let p₁ = record p { state = st } in
      let same = note_outcome-state o (type_of r) p₁ in
      (
        note_outcome o (type_of r) p₁,
        rw run refl,
        ap (λ s. s.memory) same ∙ kept ∙ mem,
        subst (λ w. Matches (seen_after seen (type_of r) w) (note_outcome o (type_of r) p₁).state)
            (ap (λ t. word_at t (offset_of ep r)) mem)
            (λ k. ap (λ s. is_set (s.pairs k).status) same ∙ match' k),
        note_outcome-failed_or o (type_of r) p₁
            ∙ ap (λ e. p.failed || e)
                (err ∙ ap (λ t. not (passes l seen (type_of r) (word_at t (offset_of ep r)))) mem),
      )

  rels-Notes :
      (rels : List Rel) (seen : ℕ → Bool) (p : Prediction)
      → p.state.memory ≡ m
      → Matches seen p.state
      → All InMemory (map (offset_of ep) rels)
      → Notes l ep m p (rels_pass l ep m seen rels) (fold_exec (predict_rel l ep) p rels)
  unfolding rels_pass Notes
  rels-Notes [] seen p mem match inside = Notes-ok p mem
  rels-Notes (r ∷ rs) seen p mem match inside =
      let (a, b) = inside in
      let (p₁, run, mem₁, match₁, failed) = rel-Notes r seen p mem match a in
      let (p₂, run', mem₂, failed') = rels-Notes rs _ p₁ mem₁ match₁ b in
      (p₂, rw (run, run') refl, mem₂, failed' ∙ both_noted p.failed p₁.failed _ _ failed)

  block-Notes :
      (d : ElfData) (p : Prediction)
      → p.state.memory ≡ m
      → All InMemory (block_words ep d)
      → Notes l ep m p (block_passes l ep m d) (predict_block l ep p d)
  unfolding predict_block block_passes reloc_init Notes
  block-Notes d p mem inside =
      rels-Notes (sort_rels d.rels) (λ r. false) (record p { state = reloc_init p.state }) mem
        (λ r. refl) inside

  blocks-Notes :
      (sh_size n : ℕ) (ds : List ElfData) (p : Prediction)
      → p.state.memory ≡ m
      → All InMemory (blocks_words ep sh_size n ds)
      → Notes l ep m p
          (blocks_pass l ep m sh_size n ds)
          (over_blocks (predict_block l ep) sh_size n p ds)
  unfolding over_blocks blocks_words blocks_pass
  blocks-Notes sh_size n [] p mem inside = Notes-ok p mem
  blocks-Notes sh_size n (d ∷ ds) p mem inside = elim (Bool-cases (goes_on n sh_size)) [
    | inl e ↦
        let (a, b) = All-split InMemory (block_words ep d) _ (rw e at inside) in
        rw e (
          Notes-bind p _ _ _ _ (block-Notes d p mem a)
            (λ p' mem'. blocks-Notes sh_size (advance n d.d_size) ds p' mem' b))
    | inr e ↦ rw e (Notes-ok p mem)
  ]

  section-Notes :
      (sec : ElfSection) (p : Prediction)
      → p.state.memory ≡ m
      → All InMemory (section_words ep sec)
      → Notes l ep m p
          (section_passes l ep m sec)
          (over_rel_section (λ id q. q) (λ id. predict_block l ep) p sec)
  unfolding over_rel_section section_words section_passes
  section-Notes sec p mem inside = elim (Bool-cases (is_rel_name sec.name)) [
    | inl e ↦ rw e (elim (Option-cases (valid_sec (drop 4 sec.name))) [
      | inl n ↦ rw n (Notes-ok p mem)
      | inr (id, n) ↦ rw n (blocks-Notes sec.sh_size 0 sec.blocks p mem (rw (e, n) at inside))
    ])
    | inr e ↦ rw e (Notes-ok p mem)
  ]

  file-Notes :
      (secs : List ElfSection) (p : Prediction)
      → p.state.memory ≡ m
      → All InMemory (file_words ep secs)
      → Notes l ep m p
          (file_passes l ep m secs)
          (fold_exec (over_rel_section (λ id q. q) (λ id. predict_block l ep)) p secs)
  unfolding file_words file_passes
  file-Notes [] p mem inside = Notes-ok p mem
  file-Notes (sec ∷ secs) p mem inside =
      let (a, b) = All-split InMemory (section_words ep sec) _ inside in
      Notes-bind p _ _ _ _ (section-Notes sec p mem a) (λ p' mem'. file-Notes secs p' mem' b)

-- The first pass over words that lie in the image returns, whatever the file holds: with a count if
-- every relocation passes on the loaded image, and else with the end of the program.
pub predict-file_passes :
    (l : Layout) (ep : ℕ) (st : State) (secs : List ElfSection)
    → All InMemory (file_words ep secs)
    → (p : Prediction) × (predict l ep st secs
        ≡ (if file_passes l ep st.memory secs then ok p else exit))
unfolding predict Notes
predict-file_passes l ep st secs inside =
    let (p, run, mem, failed) =
      file-Notes l ep st.memory secs (record { state = st; count = 0; failed = false }) refl
        inside in
    (
      p,
      elim (Bool-cases (file_passes l ep st.memory secs)) [
        | inl e ↦ rw (run, failed, e) refl
        | inr e ↦ rw (run, failed, e) refl
      ],
    )
