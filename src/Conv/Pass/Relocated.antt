-- ===== src/Conv/Pass/Relocated.antt =====
-- What the second pass leaves in the memory image: the words of all pointers and jumps, and those
-- that no relocation names.
use n_ovl.Conv.Pass.{goes_on, advance}
use n_ovl.Base.{ℕ, ◌≡◌, refl, sym, inl, inr, List, [], ◌∷◌, ◌++◌, map, none, some, false}
use n_ovl.Base.{drop, ◌==◌, if◌then◌else◌, Bool-cases, Option-cases}
use mathlib.Core.Path.{subst}
use n_ovl.Base.Exec.{Exec, ok, exit, fault, fold_exec, OnOk, OnOk-bind, OnOk-elim}
use n_ovl.Section.{Section, valid_sec, is_rel_name}
use n_ovl.Reloc.Memory.{Memory, word_at}
use n_ovl.Reloc.Target.{Layout, Outcome, success, fail, error, fail_dont_delete_hi}
use n_ovl.Reloc.Handlers.{State, reloc_do, reloc_init}
use n_ovl.Reloc.DryRun.States.{IsFresh}
use n_ovl.Reloc.Fixed.{Fixed, expected, AreHeld}
use n_ovl.Reloc.Fixed.Step.{reloc_do-Fixed}
use n_ovl.Conv.Elf.{Rel, ElfData, ElfSection}
use n_ovl.Conv.Sort.{sort_rels}
use n_ovl.Conv.Pass.{
  Build, delete_last, append_entry, finish_rel, build_rel, build_block, build, over_blocks,
  over_rel_section, offset_of, type_of,
}
use n_ovl.Conv.Pass.Agreement.{Untouched, touch}
use n_ovl.Conv.Pass.Counts.{
  block_words, blocks_words, section_words, file_words, Untouched-append, touch-append,
}

module _ (l : Layout) (ep : ℕ) (m : Memory) where
  -- The words of the pointers and jumps of a list of relocations, and what each is to hold, in front
  -- of `fixed`.
  abbrev pub rels_fixed : List Rel → List (ℕ × ℕ) → List (ℕ × ℕ)
  rels_fixed [] fixed = fixed
  rels_fixed (r ∷ rs) fixed = rels_fixed rs (expected l m (type_of r) (offset_of ep r) ++ fixed)

  unfoldable pub blocks_fixed : ℕ → ℕ → List ElfData → List (ℕ × ℕ) → List (ℕ × ℕ)
  blocks_fixed sh_size n [] fixed = fixed
  blocks_fixed sh_size n (d ∷ ds) fixed =
      if goes_on n sh_size
      then blocks_fixed sh_size (advance n d.d_size) ds (rels_fixed (sort_rels d.rels) fixed)
      else fixed

  unfoldable pub section_fixed : ElfSection → List (ℕ × ℕ) → List (ℕ × ℕ)
  unfolding blocks_fixed
  section_fixed sec fixed =
      if is_rel_name sec.name
      then elim (valid_sec (drop 4 sec.name)) [
        | none ↦ fixed
        | some id ↦ blocks_fixed sec.sh_size 0 sec.blocks fixed
      ]
      else fixed

  -- Those of a file.
  unfoldable pub file_fixed : List ElfSection → List (ℕ × ℕ) → List (ℕ × ℕ)
  unfolding section_fixed
  file_fixed [] fixed = fixed
  file_fixed (sec ∷ secs) fixed = file_fixed secs (section_fixed sec fixed)

finish_rel-state :
    (o : Outcome) (l : Layout) (id : Section) (b : Build) (rel : Rel)
    → OnOk (λ b'. b'.state ≡ b.state) (finish_rel o l id b rel)
unfolding finish_rel append_entry delete_last
finish_rel-state error l id b rel = tt
finish_rel-state fail l id b rel = elim (Bool-cases (type_of rel == 6)) [
  | inl e ↦ rw e (elim (Option-cases b.last) [ inl n ↦ rw n tt | inr (k, n) ↦ rw n refl ])
  | inr e ↦ rw e refl
]
finish_rel-state fail_dont_delete_hi l id b rel = refl
finish_rel-state success l id b rel = refl

module _ (l : Layout) (ep : ℕ) (m : Memory) where
  abbrev Keeps : List ℕ → List (ℕ × ℕ) → Build → Type 0
  Keeps done fixed b = Fixed m done fixed b.state

  reset-Fixed :
      (done : List ℕ) (fixed : List (ℕ × ℕ)) (st : State)
      → Fixed m done fixed st
      → Fixed m done fixed (reloc_init st)
  unfolding reloc_init
  reset-Fixed done fixed st h = record {
    words = h.words;
    held = h.held;
    apart = h.apart;
    covered = λ r live. absurd (live refl);
  }

  build_rel-Keeps :
      (id : Section) (rel : Rel) (done : List ℕ) (fixed : List (ℕ × ℕ)) (b : Build)
      → Keeps done fixed b
      → IsFresh (offset_of ep rel) done
      → OnOk
          (Keeps (offset_of ep rel ∷ done) (expected l m (type_of rel) (offset_of ep rel) ++ fixed))
          (build_rel l ep id b rel)
  unfolding build_rel
  build_rel-Keeps id rel done fixed b h fresh =
      let i = offset_of ep rel in
      let fixed' = expected l m (type_of rel) i ++ fixed in
      OnOk-bind (λ v. Fixed m (i ∷ done) fixed' v.1) (Keeps (i ∷ done) fixed')
        (reloc_do (type_of rel) l i false b.state) _
        (reloc_do-Fixed m i done fixed b.state h fresh l (type_of rel))
        (λ v h'.
          same_state (i ∷ done) fixed' v.1 _ h'
            (finish_rel-state v.0 l id (record b { state = v.1 }) rel))
    where
      same_state :
          (done : List ℕ) (fixed : List (ℕ × ℕ)) (st : State) (x : Exec Build)
          → Fixed m done fixed st
          → OnOk (λ b'. b'.state ≡ st) x
          → OnOk (Keeps done fixed) x
      same_state done fixed st (ok b') h e = subst (Fixed m done fixed) (sym e) h
      same_state done fixed st exit h e = tt
      same_state done fixed st fault h e = tt

  rels-Keeps :
      (id : Section) (rels : List Rel) (done : List ℕ) (fixed : List (ℕ × ℕ)) (b : Build)
      → Keeps done fixed b
      → Untouched done (map (offset_of ep) rels)
      → OnOk
          (Keeps (touch done (map (offset_of ep) rels)) (rels_fixed l ep m rels fixed))
          (fold_exec (build_rel l ep id) b rels)
  rels-Keeps id [] done fixed b h u = h
  rels-Keeps id (r ∷ rs) done fixed b h (u, us) =
      OnOk-bind (Keeps (offset_of ep r ∷ done) (expected l m (type_of r) (offset_of ep r) ++ fixed))
        _ (build_rel l ep id b r) (λ b'. fold_exec (build_rel l ep id) b' rs)
        (build_rel-Keeps id r done fixed b h u)
        (λ b' h'.
          rels-Keeps id rs (offset_of ep r ∷ done)
            (expected l m (type_of r) (offset_of ep r) ++ fixed) b' h' us)

  -- Between two data descriptors the registers do not count.
  abbrev Rests : List ℕ → List (ℕ × ℕ) → Build → Type 0
  Rests done fixed b = Fixed m done fixed (reloc_init b.state)

  block-Rests :
      (id : Section) (d : ElfData) (done : List ℕ) (fixed : List (ℕ × ℕ)) (b : Build)
      → Rests done fixed b
      → Untouched done (block_words ep d)
      → OnOk
          (Rests (touch done (block_words ep d)) (rels_fixed l ep m (sort_rels d.rels) fixed))
          (build_block l ep id b d)
  unfolding build_block
  block-Rests id d done fixed b h u =
      rested _ _ _
        (rels-Keeps id (sort_rels d.rels) done fixed (record b { state = reloc_init b.state }) h u)
    where
      rested :
          (done : List ℕ) (fixed : List (ℕ × ℕ)) (x : Exec Build)
          → OnOk (Keeps done fixed) x
          → OnOk (Rests done fixed) x
      rested done fixed (ok b') h = reset-Fixed done fixed b'.state h
      rested done fixed exit h = tt
      rested done fixed fault h = tt

  blocks-Rests :
      (id : Section) (sh_size n : ℕ) (ds : List ElfData) (done : List ℕ) (fixed : List (ℕ × ℕ))
      (b : Build)
      → Rests done fixed b
      → Untouched done (blocks_words ep sh_size n ds)
      → OnOk
          (Rests
            (touch done (blocks_words ep sh_size n ds))
            (blocks_fixed l ep m sh_size n ds fixed))
          (over_blocks (build_block l ep id) sh_size n b ds)
  unfolding over_blocks blocks_words blocks_fixed build_block
  blocks-Rests id sh_size n [] done fixed b h u = h
  blocks-Rests id sh_size n (d ∷ ds) done fixed b h u = elim (Bool-cases (goes_on n sh_size)) [
    | inl e ↦
        let (u₁, u₂) = Untouched-append done (block_words ep d) _ (rw e at u) in
        rw (e, touch-append)
          (OnOk-bind
            (Rests (touch done (block_words ep d)) (rels_fixed l ep m (sort_rels d.rels) fixed)) _
            (build_block l ep id b d) _ (block-Rests id d done fixed b h u₁)
            (λ b' h'.
              blocks-Rests id sh_size (advance n d.d_size) ds (touch done (block_words ep d)) _ b'
                h' u₂))
    | inr e ↦ rw e h
  ]

  section-Rests :
      (sec : ElfSection) (done : List ℕ) (fixed : List (ℕ × ℕ)) (b : Build)
      → Rests done fixed b
      → Untouched done (section_words ep sec)
      → OnOk
          (Rests (touch done (section_words ep sec)) (section_fixed l ep m sec fixed))
          (over_rel_section (λ id b. record b { last = none }) (build_block l ep) b sec)
  unfolding over_rel_section section_words section_fixed
  section-Rests sec done fixed b h u = elim (Bool-cases (is_rel_name sec.name)) [
    | inl e ↦ rw e (elim (Option-cases (valid_sec (drop 4 sec.name))) [
      | inl n ↦ rw n h
      | inr (id, n) ↦ rw n (
          blocks-Rests id sec.sh_size 0 sec.blocks done fixed (record b { last = none }) h
            (rw (e, n) at u))
    ])
    | inr e ↦ rw e h
  ]

  file-Rests :
      (secs : List ElfSection) (done : List ℕ) (fixed : List (ℕ × ℕ)) (b : Build)
      → Rests done fixed b
      → Untouched done (file_words ep secs)
      → OnOk (Rests (touch done (file_words ep secs)) (file_fixed l ep m secs fixed)) (
          fold_exec (over_rel_section (λ id b. record b { last = none }) (build_block l ep)) b secs)
  unfolding file_words file_fixed
  file-Rests [] done fixed b h u = h
  file-Rests (sec ∷ secs) done fixed b h u =
      let (u₁, u₂) = Untouched-append done (section_words ep sec) _ u in
      rw touch-append (
        OnOk-bind (Rests (touch done (section_words ep sec)) (section_fixed l ep m sec fixed)) _ _ _
          (section-Rests sec done fixed b h u₁)
          (λ b' h'.
            file-Rests secs (touch done (section_words ep sec)) (section_fixed l ep m sec fixed) b'
              h' u₂))

-- If no two relocations of the file edit a common byte and the second pass returns, then in the
-- image that it leaves every word of a pointer into a section is moved with that section, every word
-- of a jump into .text has its upper six bits and below them the lower 26 bits of a quarter of the
-- moved address, other pointers and jumps are as they were, and so is every word that no relocation
-- names.
pub build-relocated :
    (l : Layout) (ep : ℕ) (st : State) (secs : List ElfSection) (b : Build)
    → Untouched [] (file_words ep secs)
    → build l ep st secs ≡ ok b
    → AreHeld b.state.memory (file_fixed l ep st.memory secs [])
      × ((q : ℕ)
          → IsFresh q (touch [] (file_words ep secs))
          → word_at b.state.memory q ≡ word_at st.memory q)
unfolding build reloc_init
build-relocated l ep st secs b apart e =
    let h =
      OnOk-elim
        (Rests l ep st.memory (touch [] (file_words ep secs)) (file_fixed l ep st.memory secs [])) _
        e
        (file-Rests l ep st.memory secs [] []
          (record { state = st; relocs = []; last = none; count = 0 })
          (record {
            words = λ q f. refl;
            held = tt;
            apart = λ q f. tt;
            covered = λ r live. absurd (live refl);
          })
          apart) in
    (h.held, h.words)
