-- ===== src/Conv/Pass/Placed.antt =====
-- The table entries that the second pass makes of relocations that lie in their sections.
use n_ovl.Conv.Pass.{goes_on, advance}
use n_ovl.Base.{
  ℕ, ◌+◌, ◌^◌, ◌≤◌, ◌<◌, ◌≡◌, ◌⊎◌, refl, arith, List, [], ◌∷◌, true, false, none, some, inl, inr,
}
use n_ovl.Base.{All, All-append, Bool-cases, Option-cases, ◌==◌, drop}
use n_ovl.Base.Word.{u32, sub32}
use n_ovl.Base.Exec.{ok, fold_exec, OnOk, OnOk-bind, OnOk-elim}
use n_ovl.Section.{Section, index, valid_sec, is_rel_name}
use n_ovl.Reloc.Target.{Layout, Outcome, error, fail, success, fail_dont_delete_hi}
use n_ovl.Reloc.Handlers.{State, reloc_do, reloc_init}
use n_ovl.Reloc.Entry.{reloc_mk}
use n_ovl.Conv.Elf.{Rel, ElfData, ElfSection}
use n_ovl.Conv.Sort.{sort_rels}
use n_ovl.Conv.Pass.{
  offset_of, type_of, Build, delete_last, append_entry, entry_of, finish_rel, build_rel,
  build_block, build, over_blocks, over_rel_section,
}
use n_ovl.Conv.Pass.Entries.{Handled, reloc_do-Handled, All-delete_at}

-- A relocation of a word of its section, which is not .bss, with nothing but a type in its info.
abbrev pub IsPlaced : Layout → Section → Rel → Type 0
IsPlaced l id rel =
    (index id < 3)
    × (type_of rel < 2 ^ 6)
    × (sub32 (u32 rel.r_offset) (l.elf_start id) + 4 ≤ l.size id)
    × (l.size id ≤ 2 ^ 24)

-- All relocations of a section.
abbrev pub ArePlaced : Layout → ElfSection → Type 0
ArePlaced l sec =
    (id : Section)
    → is_rel_name sec.name ≡ true
    → valid_sec (drop 4 sec.name) ≡ some id
    → All (λ d. All (IsPlaced l id) (sort_rels d.rels)) sec.blocks

-- An entry for a word of one of the first three sections, of a type that the relocator handles.
pub record IsMade (l : Layout) (r : ℕ) : Type 0 where
  pub section_ : Section
  pub offset : ℕ
  pub type : ℕ
  pub is_entry : r ≡ reloc_mk (index section_ + 1) offset type
  pub section_small : index section_ < 3
  pub inside : offset + 4 ≤ l.size section_
  pub offset_small : offset < 2 ^ 24
  pub handled : (type ≡ 2) ⊎ (type ≡ 4) ⊎ (type ≡ 5) ⊎ (type ≡ 6)

abbrev MadeTable : Layout → Build → Type 0
MadeTable l b = All (IsMade l) b.relocs

module _ (l : Layout) where
  delete_last-MadeTable : (b : Build) → MadeTable l b → OnOk (MadeTable l) (delete_last b)
  unfolding delete_last
  delete_last-MadeTable b h = elim (Option-cases b.last) [
    | inl e ↦ rw e tt
    | inr (n, e) ↦ rw e (All-delete_at (IsMade l) n b.relocs h)
  ]

  entry_of-IsMade :
      (id : Section) (rel : Rel)
      → IsPlaced l id rel
      → Handled (type_of rel)
      → IsMade l (entry_of l id rel)
  entry_of-IsMade id rel (first, small, inside, size) handled = record {
    section_ = id;
    offset = sub32 (u32 rel.r_offset) (l.elf_start id);
    type = type_of rel;
    is_entry = refl;
    section_small = first;
    inside = inside;
    offset_small = omega (arith, inside, size);
    handled = ground (arith, handled, small);
  }

  finish_rel-MadeTable :
      (o : Outcome) (id : Section) (b : Build) (rel : Rel)
      → IsPlaced l id rel
      → (o ≡ success → Handled (type_of rel))
      → MadeTable l b
      → OnOk (MadeTable l) (finish_rel o l id b rel)
  unfolding finish_rel append_entry
  finish_rel-MadeTable error id b rel p t h = tt
  finish_rel-MadeTable fail id b rel p t h = elim (Bool-cases (type_of rel == 6)) [
    | inl e ↦ rw e (delete_last-MadeTable b h)
    | inr e ↦ rw e h
  ]
  finish_rel-MadeTable fail_dont_delete_hi id b rel p t h = h
  finish_rel-MadeTable success id b rel p t h =
      All-append (IsMade l) b.relocs (entry_of l id rel ∷ []) h
        (entry_of-IsMade id rel p (t refl), tt)

  module _ (ep : ℕ) where
    rels-MadeTable :
        (id : Section) (rels : List Rel) (b : Build)
        → All (IsPlaced l id) rels
        → MadeTable l b
        → OnOk (MadeTable l) (fold_exec (build_rel l ep id) b rels)
    unfolding build_rel
    rels-MadeTable id [] b p h = h
    rels-MadeTable id (r ∷ rs) b (p, ps) h =
        OnOk-bind (MadeTable l) (MadeTable l) (build_rel l ep id b r)
          (λ b'. fold_exec (build_rel l ep id) b' rs)
          (OnOk-bind (λ v. v.0 ≡ success → Handled (type_of r)) (MadeTable l)
            (reloc_do (type_of r) l (offset_of ep r) false b.state) _
            (reloc_do-Handled (type_of r) l (offset_of ep r) false b.state)
            (λ v t. finish_rel-MadeTable v.0 id (record b { state = v.1 }) r p t h))
          (λ b' h'. rels-MadeTable id rs b' ps h')

    blocks-MadeTable :
        (id : Section) (sh_size n : ℕ) (ds : List ElfData) (b : Build)
        → All (λ d. All (IsPlaced l id) (sort_rels d.rels)) ds
        → MadeTable l b
        → OnOk (MadeTable l) (over_blocks (build_block l ep id) sh_size n b ds)
    unfolding over_blocks build_block
    blocks-MadeTable id sh_size n [] b p h = h
    blocks-MadeTable id sh_size n (d ∷ ds) b (p, ps) h = elim (Bool-cases (goes_on n sh_size)) [
      | inl e ↦ rw e (
          OnOk-bind (MadeTable l) (MadeTable l) (build_block l ep id b d) _
            (rels-MadeTable id (sort_rels d.rels) (record b { state = reloc_init b.state }) p h)
            (λ b' h'. blocks-MadeTable id sh_size (advance n d.d_size) ds b' ps h'))
      | inr e ↦ rw e h
    ]

    section-MadeTable :
        (sec : ElfSection) (b : Build)
        → ArePlaced l sec
        → MadeTable l b
        → OnOk
            (MadeTable l)
            (over_rel_section (λ id b. record b { last = none }) (build_block l ep) b sec)
    unfolding over_rel_section
    section-MadeTable sec b p h = elim (Bool-cases (is_rel_name sec.name)) [
      | inl e ↦ rw e (elim (Option-cases (valid_sec (drop 4 sec.name))) [
        | inl n ↦ rw n h
        | inr (id, n) ↦
            rw n
              (blocks-MadeTable id sec.sh_size 0 sec.blocks (record b { last = none }) (p id e n) h)
      ])
      | inr e ↦ rw e h
    ]

    file-MadeTable :
        (secs : List ElfSection) (b : Build)
        → All (ArePlaced l) secs
        → MadeTable l b
        → OnOk (MadeTable l) (
            fold_exec
              (over_rel_section (λ id b. record b { last = none }) (build_block l ep))
              b
              secs)
    file-MadeTable [] b p h = h
    file-MadeTable (sec ∷ secs) b (p, ps) h =
        OnOk-bind (MadeTable l) (MadeTable l) _ _ (section-MadeTable sec b p h)
          (λ b' h'. file-MadeTable secs b' ps h')

-- If the relocations lie in their sections and the second pass returns, every entry of its table is
-- for a word of one of the first three sections, and of a type that the relocator handles.
pub build-IsMade :
    (l : Layout) (ep : ℕ) (st : State) (secs : List ElfSection) (b : Build)
    → All (ArePlaced l) secs
    → build l ep st secs ≡ ok b
    → All (IsMade l) b.relocs
unfolding build
build-IsMade l ep st secs b p e =
    OnOk-elim (MadeTable l) _ e
      (file-MadeTable l ep secs (record { state = st; relocs = []; last = none; count = 0 }) p tt)
