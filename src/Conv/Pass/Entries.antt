-- ===== src/Conv/Pass/Entries.antt =====
-- The table entries that the second pass makes.
use n_ovl.Base.{
  ℕ, zero, suc, ◌+◌, ◌%◌, ◌^◌, ◌<◌, ◌≡◌, ◌≢◌, refl, arith, List, [], ◌∷◌, none, Bool, true, false,
  ◌||◌, inl, inr,
}
use n_ovl.Base.{All, All-append, Bool-cases, Option-cases, ◌==◌}
use n_ovl.Base.Word.{IsU32, low_bits}
use n_ovl.Base.Exec.{Exec, ok, exit, fault, OnOk, OnOk-bind, OnOk-fold_exec, OnOk-elim}
use n_ovl.Section.{Section, index}
use n_ovl.Reloc.Target.{Layout, Outcome, error, fail, success, fail_dont_delete_hi}
use n_ovl.Reloc.Handlers.{State, mips_32, mips_26, mips_hi16, mips_lo16, reloc_do, reloc_init}
use n_ovl.Reloc.Entry.{reloc_mk-IsU32, reloc_mk-ne-zero}
use n_ovl.Conv.Elf.{Rel, ElfData, ElfSection}
use n_ovl.Conv.Sort.{sort_rels}
use n_ovl.Conv.Pass.{
  offset_of, type_of, Build, delete_at, delete_last, append_entry, entry_of, finish_rel, build_rel,
  build_block, build,
}
use n_ovl.Conv.Pass.Loops.{OnOk-over_rel_section}

-- A word that does not end the table.
abbrev pub IsEntry : ℕ → Type 0
IsEntry r = (r ≢ 0) × IsU32 r

abbrev HasEntries : Build → Type 0
HasEntries b = All IsEntry b.relocs

OnOk-all {ℓ κ} : {A : Type ℓ} (P : A → Type κ) (m : Exec A) → ((a : A) → P a) → OnOk P m
OnOk-all P (ok a) h = h a
OnOk-all P exit h = tt
OnOk-all P fault h = tt

pub All-delete_at {ℓ} : (P : ℕ → Type ℓ) (n : ℕ) (rs : List ℕ) → All P rs → All P (delete_at n rs)
All-delete_at P n [] h = tt
All-delete_at P zero (r ∷ rs) h = h.1
All-delete_at P (suc n) (r ∷ rs) h = (h.0, All-delete_at P n rs h.1)

-- The low bits of a type that has a handler.
abbrev pub Handled : ℕ → Type 0
Handled type =
    ((low_bits type 7 == 2)
      || ((low_bits type 7 == 4) || ((low_bits type 7 == 5) || (low_bits type 7 == 6))))
    ≡ true

-- A success is one of a type that has a handler.
abbrev pub Typed : ℕ → Outcome × State → Type 0
Typed type r = r.0 ≡ success → Handled type

pub reloc_do-Handled :
    (type : ℕ) (l : Layout) (i : ℕ) (dry : Bool) (st : State)
    → OnOk (Typed type) (reloc_do type l i dry st)
unfolding reloc_do
reloc_do-Handled type l i dry st = elim (Bool-cases (low_bits type 7 == 2)) [
  | inl e ↦ rw e (OnOk-all (Typed type) (mips_32 l i dry st) (λ r _. rw e refl))
  | inr e₂ ↦ elim (Bool-cases (low_bits type 7 == 4)) [
    | inl e ↦ rw (e₂, e) (OnOk-all (Typed type) (mips_26 l i dry st) (λ r _. rw (e₂, e) refl))
    | inr e₄ ↦ elim (Bool-cases (low_bits type 7 == 5)) [
      | inl e ↦
          rw (e₂, e₄, e) (OnOk-all (Typed type) (mips_hi16 l i dry st) (λ r _. rw (e₂, e₄, e) refl))
      | inr e₅ ↦ elim (Bool-cases (low_bits type 7 == 6)) [
        | inl e ↦
            rw (e₂, e₄, e₅, e)
              (OnOk-all (Typed type) (mips_lo16 l i dry st) (λ r _. rw (e₂, e₄, e₅, e) refl))
        | inr e₆ ↦ rw (e₂, e₄, e₅, e₆) (λ k. absurd (cc k))
      ]
    ]
  ]
]

-- Such a type is not zero in the six bits of an entry.
Handled-positive : (type : ℕ) → Handled type → 0 < type % 2 ^ 6
Handled-positive type h = ground (arith, h)

delete_last-HasEntries : (b : Build) → HasEntries b → OnOk HasEntries (delete_last b)
unfolding delete_last
delete_last-HasEntries b h = elim (Option-cases b.last) [
  | inl e ↦ rw e tt
  | inr (n, e) ↦ rw e (All-delete_at IsEntry n b.relocs h)
]

finish_rel-HasEntries :
    (o : Outcome) (l : Layout) (id : Section) (b : Build) (rel : Rel)
    → (o ≡ success → Handled (type_of rel))
    → HasEntries b
    → OnOk HasEntries (finish_rel o l id b rel)
unfolding finish_rel append_entry
finish_rel-HasEntries error l id b rel t h = tt
finish_rel-HasEntries fail l id b rel t h = elim (Bool-cases (type_of rel == 6)) [
  | inl e ↦ rw e (delete_last-HasEntries b h)
  | inr e ↦ rw e h
]
finish_rel-HasEntries fail_dont_delete_hi l id b rel t h = h
finish_rel-HasEntries success l id b rel t h =
    All-append IsEntry b.relocs (entry_of l id rel ∷ []) h (
      (
        reloc_mk-ne-zero (index id + 1) _ (type_of rel) (Handled-positive (type_of rel) (t refl)),
        reloc_mk-IsU32 (index id + 1) _ (type_of rel),
      ),
      tt,
    )

build_block-HasEntries :
    (l : Layout) (elf_ep : ℕ) (id : Section) (b : Build) (d : ElfData)
    → HasEntries b
    → OnOk HasEntries (build_block l elf_ep id b d)
unfolding build_block build_rel
build_block-HasEntries l elf_ep id b d h =
    OnOk-fold_exec HasEntries (build_rel l elf_ep id)
      (λ b' rel h'.
        OnOk-bind (Typed (type_of rel)) HasEntries
          (reloc_do (type_of rel) l (offset_of elf_ep rel) false b'.state) _
          (reloc_do-Handled (type_of rel) l (offset_of elf_ep rel) false b'.state)
          (λ r t. finish_rel-HasEntries r.0 l id (record b' { state = r.1 }) rel t h'))
      (sort_rels d.rels) (record b { state = reloc_init b.state }) h

-- Every entry of the table that the second pass makes is a 32-bit word and not zero, so that the loop
-- that writes the table, which ends at a zero word, writes all of it.
pub build-entries :
    (l : Layout) (elf_ep : ℕ) (st : State) (sections : List ElfSection) (b : Build)
    → build l elf_ep st sections ≡ ok b
    → All IsEntry b.relocs
unfolding build
build-entries l elf_ep st sections b e = OnOk-elim HasEntries _ e (
    OnOk-fold_exec HasEntries _
      (λ b' sec h.
        OnOk-over_rel_section HasEntries (λ id b''. record b'' { last = none })
          (build_block l elf_ep) (λ id b'' h'. h') (build_block-HasEntries l elf_ep) b' sec h)
      sections (record { state = st; relocs = []; last = none; count = 0 }) tt)
