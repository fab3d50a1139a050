-- ===== src/Conv/Pass/Length.antt =====
-- How many table entries the second pass makes at most.
use mathlib.Core.Path.{subst}
use n_ovl.Conv.Pass.{goes_on, advance}
use n_ovl.Base.{ℕ, zero, suc, ◌+◌, ◌≤◌, ◌≡◌, inl, inr, arith, List, [], ◌∷◌, map, none}
use n_ovl.Base.{length, length-append, drop, ◌==◌, Bool-cases, Option-cases}
use n_ovl.Base.Exec.{Exec, ok, exit, fault, ◌>>=◌, fold_exec, OnOk, OnOk-bind, OnOk-any, OnOk-elim}
use n_ovl.Section.{Section, valid_sec, is_rel_name}
use n_ovl.Reloc.Target.{Layout, Outcome, success, fail, error, fail_dont_delete_hi}
use n_ovl.Reloc.Handlers.{State, reloc_init}
use n_ovl.Conv.Elf.{Rel, ElfData, ElfSection}
use n_ovl.Conv.Sort.{sort_rels}
use n_ovl.Conv.Pass.{
  Build, delete_at, delete_last, append_entry, entry_of, finish_rel, build_rel, build_block, build,
  over_blocks, over_rel_section, offset_of, type_of,
}
use n_ovl.Conv.Pass.Counts.{block_words, blocks_words, section_words, file_words}

-- At most `n` entries more.
abbrev pub Grows : ℕ → Build → Exec Build → Type 0
Grows n b x = OnOk (λ b'. length b'.relocs ≤ length b.relocs + n) x

Grows-bind :
    (n k : ℕ) (b : Build) (x : Exec Build) (f : Build → Exec Build)
    → Grows n b x
    → ((b' : Build) → Grows k b' (f b'))
    → Grows (n + k) b (x >>= f)
Grows-bind n k b x f h g =
    OnOk-bind (λ b'. length b'.relocs ≤ length b.relocs + n)
      (λ b'. length b'.relocs ≤ length b.relocs + (n + k)) x f h
      (λ b' h'. further b' (f b') h' (g b'))
  where
    further :
        (b' : Build) (y : Exec Build)
        → length b'.relocs ≤ length b.relocs + n
        → Grows k b' y
        → Grows (n + k) b y
    further b' (ok b'') h' h'' = omega (arith, h', h'')
    further b' exit h' h'' = tt
    further b' fault h' h'' = tt

length-delete_at : (n : ℕ) (rs : List ℕ) → length (delete_at n rs) ≤ length rs
length-delete_at n [] = omega arith
length-delete_at zero (r ∷ rs) = omega arith
length-delete_at (suc n) (r ∷ rs) = omega (arith, length-delete_at n rs)

delete_last-Grows : (b : Build) → Grows 1 b (delete_last b)
unfolding delete_last
delete_last-Grows b = elim (Option-cases b.last) [
  | inl e ↦ rw e tt
  | inr (n, e) ↦ rw e (omega (arith, length-delete_at n b.relocs))
]

finish_rel-Grows :
    (o : Outcome) (l : Layout) (id : Section) (b : Build) (rel : Rel)
    → Grows 1 b (finish_rel o l id b rel)
unfolding finish_rel append_entry
finish_rel-Grows error l id b rel = tt
finish_rel-Grows fail l id b rel = elim (Bool-cases (type_of rel == 6)) [
  | inl e ↦ rw e (delete_last-Grows b)
  | inr e ↦ rw e (omega arith)
]
finish_rel-Grows fail_dont_delete_hi l id b rel = omega arith
finish_rel-Grows success l id b rel = omega (arith, length-append b.relocs (entry_of l id rel ∷ []))

module _ (l : Layout) (ep : ℕ) where
  build_rel-Grows : (id : Section) (b : Build) (rel : Rel) → Grows 1 b (build_rel l ep id b rel)
  unfolding build_rel
  build_rel-Grows id b rel =
      OnOk-bind (λ _. Unit {0}) (λ b'. length b'.relocs ≤ length b.relocs + 1) _ _ (OnOk-any _)
        (λ (o, st) _. finish_rel-Grows o l id (record b { state = st }) rel)

  rels-Grows :
      (id : Section) (b : Build) (rels : List Rel)
      → Grows (length (map (offset_of ep) rels)) b (fold_exec (build_rel l ep id) b rels)
  rels-Grows id b [] = omega arith
  rels-Grows id b (r ∷ rs) =
      subst (λ n. Grows n b (fold_exec (build_rel l ep id) b (r ∷ rs)))
        (one_more (length (map (offset_of ep) rs)))
        (Grows-bind 1 _ b _ _ (build_rel-Grows id b r) (λ b'. rels-Grows id b' rs))
    where
      one_more : (n : ℕ) → 1 + n ≡ suc n
      one_more n = omega arith

  blocks-Grows :
      (id : Section) (sh_size n : ℕ) (b : Build) (ds : List ElfData)
      → Grows
          (length (blocks_words ep sh_size n ds))
          b
          (over_blocks (build_block l ep id) sh_size n b ds)
  unfolding over_blocks blocks_words build_block
  blocks-Grows id sh_size n b [] = omega arith
  blocks-Grows id sh_size n b (d ∷ ds) = elim (Bool-cases (goes_on n sh_size)) [
    | inl e ↦
        rw (e, length-append (block_words ep d) (blocks_words ep sh_size (advance n d.d_size) ds))
          (Grows-bind _ _ b _ _
            (rels-Grows id (record b { state = reloc_init b.state }) (sort_rels d.rels))
            (λ b'. blocks-Grows id sh_size (advance n d.d_size) b' ds))
    | inr e ↦ rw e (omega arith)
  ]

  section-Grows :
      (b : Build) (sec : ElfSection)
      → Grows
          (length (section_words ep sec))
          b
          (over_rel_section (λ id b. record b { last = none }) (build_block l ep) b sec)
  unfolding over_rel_section section_words
  section-Grows b sec = elim (Bool-cases (is_rel_name sec.name)) [
    | inl e ↦ rw e (elim (Option-cases (valid_sec (drop 4 sec.name))) [
      | inl n ↦ rw n (omega arith)
      | inr (id, n) ↦ rw n (blocks-Grows id sec.sh_size 0 (record b { last = none }) sec.blocks)
    ])
    | inr e ↦ rw e (omega arith)
  ]

  file-Grows :
      (b : Build) (secs : List ElfSection)
      → Grows (length (file_words ep secs)) b (
          fold_exec (over_rel_section (λ id b. record b { last = none }) (build_block l ep)) b secs)
  unfolding file_words
  file-Grows b [] = omega arith
  file-Grows b (sec ∷ secs) =
      rw (length-append (section_words ep sec) (file_words ep secs))
        (Grows-bind _ _ b _ _ (section-Grows b sec) (λ b'. file-Grows b' secs))

-- The second pass makes at most one entry for a relocation.
pub build-length :
    (l : Layout) (ep : ℕ) (st : State) (secs : List ElfSection) (b : Build)
    → build l ep st secs ≡ ok b
    → length b.relocs ≤ length (file_words ep secs)
unfolding build
build-length l ep st secs b e =
    let h =
      OnOk-elim (λ b'. length b'.relocs ≤ 0 + length (file_words ep secs)) _ e
        (file-Grows l ep (record { state = st; relocs = []; last = none; count = 0 }) secs) in
    omega (arith, h)
