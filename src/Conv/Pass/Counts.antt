-- ===== src/Conv/Pass/Counts.antt =====
-- The two passes over a whole file.
use n_ovl.Conv.Pass.{goes_on, advance}
use n_ovl.Base.{ℕ, ◌≡◌, refl, arith, inl, inr}
use n_ovl.Base.{
  List, [], ◌∷◌, ◌++◌, map, none, some, true, false, if◌then◌else◌, Bool-cases, Option-cases, drop,
}
use n_ovl.Base.Exec.{Exec, ok, exit, fault, fold_exec, OnOk-fold_exec}
use n_ovl.Section.{Section, valid_sec, is_rel_name}
use n_ovl.Reloc.Target.{Layout, with_starts}
use n_ovl.Reloc.Handlers.{reloc_init}
use n_ovl.Reloc.DryRun.States.{SameWords, reloc_init-Agree}
use n_ovl.Reloc.Live.{live-reloc_init}
use n_ovl.Conv.Elf.{Rel, ElfData, ElfSection}
use n_ovl.Conv.Sort.{sort_rels}
use n_ovl.Conv.Pass.{
  Prediction, predict_rel, predict_block, Build, build_rel, build_block, over_blocks,
  over_rel_section, offset_of,
}
use n_ovl.Conv.Pass.Deletion.{IsTail, IsTail-less, IsTail-start, IsTail-set_state}
use n_ovl.Conv.Pass.Agreement.{
  Untouched, touch, Doomed, Both, Both-bind, InStep, predict_rel-Doomed, rel-Both,
}
use n_ovl.Conv.Pass.Loops.{OnOk-over_blocks, OnOk-over_rel_section}

-- The words that the relocations of a data descriptor, of a section and of a file edit, in the
-- order in which they are gone through.
abbrev pub block_words : ℕ → ElfData → List ℕ
block_words ep b = map (offset_of ep) (sort_rels b.rels)

unfoldable pub blocks_words : ℕ → ℕ → ℕ → List ElfData → List ℕ
blocks_words ep sh_size n [] = []
blocks_words ep sh_size n (b ∷ bs) =
    if goes_on n sh_size
    then block_words ep b ++ blocks_words ep sh_size (advance n b.d_size) bs
    else []

unfoldable pub section_words : ℕ → ElfSection → List ℕ
unfolding blocks_words
section_words ep sec =
    if is_rel_name sec.name
    then elim (valid_sec (drop 4 sec.name)) [
      | none ↦ []
      | some id ↦ blocks_words ep sec.sh_size 0 sec.blocks
    ]
    else []

unfoldable pub file_words : ℕ → List ElfSection → List ℕ
unfolding section_words
file_words ep [] = []
file_words ep (sec ∷ secs) = section_words ep sec ++ file_words ep secs

pub Untouched-append :
    (done xs ys : List ℕ)
    → Untouched done (xs ++ ys)
    → Untouched done xs × Untouched (touch done xs) ys
Untouched-append done [] ys h = (tt, h)
Untouched-append done (x ∷ xs) ys h =
    let (a, b) = Untouched-append (x ∷ done) xs ys h.1 in ((h.0, a), b)

pub touch-append : (done xs ys : List ℕ) → touch done (xs ++ ys) ≡ touch (touch done xs) ys
touch-append done [] ys = refl
touch-append done (x ∷ xs) ys = touch-append (x ∷ done) xs ys

-- Between two data descriptors.
pub record AtStart (done : List ℕ) (p : Prediction) (b : Build) : Type 0 where
  pub words : SameWords done p.state b.state
  pub unfailed : p.failed ≡ false
  pub count : p.count ≡ b.count
  pub tail : IsTail b 0

module _ (l : Layout) (z : Section → ℕ) (ep : ℕ) where
  rels-Both :
      (id : Section) (rels : List Rel) (done : List ℕ) (p : Prediction) (b : Build)
      → InStep done p b
      → Untouched done (map (offset_of ep) rels)
      → Both
          (InStep (touch done (map (offset_of ep) rels)))
          (fold_exec (predict_rel (with_starts l z) ep) p rels)
          (fold_exec (build_rel l ep id) b rels)
  rels-Both id [] done p b h u = h
  rels-Both id (r ∷ rs) done p b h u =
      Both-bind (InStep (offset_of ep r ∷ done)) _ _ _ _ _ (rel-Both l z ep id r done p b h u.0)
        (λ p' b' h'. rels-Both id rs (offset_of ep r ∷ done) p' b' h' u.1)
        (λ p' f. OnOk-fold_exec _ _ (λ q r'. predict_rel-Doomed (with_starts l z) ep q r') rs p' f)

  block-Doomed :
      (p : Prediction) (d : ElfData)
      → p.failed ≡ true
      → Doomed (predict_block (with_starts l z) ep p d)
  unfolding predict_block
  block-Doomed p d f =
      OnOk-fold_exec _ _ (λ q r. predict_rel-Doomed (with_starts l z) ep q r) (sort_rels d.rels) _ f

  InStep-AtStart : (done : List ℕ) (p : Prediction) (b : Build) → InStep done p b → AtStart done p b
  InStep-AtStart done p b h = record {
    words = h.agree.words;
    unfailed = h.unfailed;
    count = h.count;
    tail = IsTail-less b h.depth 0 (omega arith) h.tail;
  }

  AtStart-InStep :
      (done : List ℕ) (p : Prediction) (b : Build)
      → AtStart done p b
      → InStep done
          (record p { state = reloc_init p.state })
          (record b { state = reloc_init b.state })
  AtStart-InStep done p b h = record {
    agree = reloc_init-Agree done p.state b.state h.words;
    unfailed = h.unfailed;
    count = h.count;
    depth = 0;
    tail = IsTail-set_state b 0 (reloc_init b.state) h.tail;
    enough = omega (arith, live-reloc_init p.state);
  }

  Both-weaken :
      (R Q : Prediction → Build → Type 0) (x : Exec Prediction) (y : Exec Build)
      → ((p : Prediction) (b : Build) → R p b → Q p b)
      → Both R x y
      → Both Q x y
  Both-weaken R Q (ok p) (ok b) f h = f p b h
  Both-weaken R Q x exit f h = h
  Both-weaken R Q fault fault f h = tt
  Both-weaken R Q exit fault f h = absurd h
  Both-weaken R Q exit (ok b) f h = absurd h
  Both-weaken R Q fault (ok b) f h = absurd h
  Both-weaken R Q (ok p) fault f h = absurd h

  block-Both :
      (id : Section) (d : ElfData) (done : List ℕ) (p : Prediction) (b : Build)
      → AtStart done p b
      → Untouched done (block_words ep d)
      → Both
          (AtStart (touch done (block_words ep d)))
          (predict_block (with_starts l z) ep p d)
          (build_block l ep id b d)
  unfolding predict_block build_block
  block-Both id d done p b h u =
      Both-weaken _ _ _ _ (InStep-AtStart (touch done (block_words ep d)))
        (rels-Both id (sort_rels d.rels) done _ _ (AtStart-InStep done p b h) u)

  blocks-Both :
      (id : Section) (sh_size n : ℕ) (ds : List ElfData) (done : List ℕ) (p : Prediction)
      (b : Build)
      → AtStart done p b
      → Untouched done (blocks_words ep sh_size n ds)
      → Both
          (AtStart (touch done (blocks_words ep sh_size n ds)))
          (over_blocks (predict_block (with_starts l z) ep) sh_size n p ds)
          (over_blocks (build_block l ep id) sh_size n b ds)
  unfolding over_blocks blocks_words
  blocks-Both id sh_size n [] done p b h u = h
  blocks-Both id sh_size n (d ∷ ds) done p b h u = elim (Bool-cases (goes_on n sh_size)) [
    | inl e ↦
        let (u₁, u₂) = Untouched-append done (block_words ep d) _ (rw e at u) in
        rw (e, touch-append)
          (Both-bind (AtStart (touch done (block_words ep d))) _ _ _ _ _
            (block-Both id d done p b h u₁)
            (λ p' b' h'.
              blocks-Both id sh_size (advance n d.d_size) ds (touch done (block_words ep d)) p' b'
                h' u₂)
            (λ p' f.
              OnOk-over_blocks _ _ (λ q d'. block-Doomed q d') sh_size (advance n d.d_size) ds p'
                f))
    | inr e ↦ rw e h
  ]

  abbrev pub predict_section : Prediction → ElfSection → Exec Prediction
  predict_section = over_rel_section (λ id p. p) (λ id. predict_block (with_starts l z) ep)

  abbrev pub build_section : Build → ElfSection → Exec Build
  build_section = over_rel_section (λ id b. record b { last = none }) (build_block l ep)

  section-Both :
      (sec : ElfSection) (done : List ℕ) (p : Prediction) (b : Build)
      → AtStart done p b
      → Untouched done (section_words ep sec)
      → Both
          (AtStart (touch done (section_words ep sec)))
          (predict_section p sec)
          (build_section b sec)
  unfolding over_rel_section section_words
  section-Both sec done p b h u = elim (Bool-cases (is_rel_name sec.name)) [
    | inl e ↦ rw e (elim (Option-cases (valid_sec (drop 4 sec.name))) [
      | inl n ↦ rw n h
      | inr (id, n) ↦ rw n (
          blocks-Both id sec.sh_size 0 sec.blocks done p (record b { last = none })
            (record {
              words = h.words;
              unfailed = h.unfailed;
              count = h.count;
              tail = IsTail-start b h.tail;
            })
            (rw (e, n) at u))
    ])
    | inr e ↦ rw e h
  ]

  section-Doomed :
      (p : Prediction) (sec : ElfSection) → p.failed ≡ true → Doomed (predict_section p sec)
  section-Doomed p sec f =
      OnOk-over_rel_section _ _ _ (λ id q g. g) (λ id q d g. block-Doomed q d g) p sec f

  pub file-Both :
      (secs : List ElfSection) (done : List ℕ) (p : Prediction) (b : Build)
      → AtStart done p b
      → Untouched done (file_words ep secs)
      → Both
          (AtStart (touch done (file_words ep secs)))
          (fold_exec predict_section p secs)
          (fold_exec build_section b secs)
  unfolding file_words
  file-Both [] done p b h u = h
  file-Both (sec ∷ secs) done p b h u =
      let (u₁, u₂) = Untouched-append done (section_words ep sec) _ u in
      rw touch-append (
        Both-bind (AtStart (touch done (section_words ep sec))) _ _ _ _ _
          (section-Both sec done p b h u₁)
          (λ p' b' h'. file-Both secs (touch done (section_words ep sec)) p' b' h' u₂)
          (λ p' f. OnOk-fold_exec _ _ section-Doomed secs p' f))
