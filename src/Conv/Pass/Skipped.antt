-- ===== src/Conv/Pass/Skipped.antt =====
-- What a skipped LO16 relocation takes out of the table.
use n_ovl.Base.{
  ℕ, ◌+◌, ◌≡◌, refl, sym, ap, ◌∙◌, arith, List, [], ◌∷◌, ◌++◌, some, length, length-append, ◌==◌,
  true,
}
use n_ovl.Base.Exec.{ok, ◌>>=◌, ok-injective}
use n_ovl.Section.{Section}
use n_ovl.Reloc.Target.{Layout, success, fail}
use n_ovl.Conv.Elf.{Rel}
use n_ovl.Conv.Pass.{Build, type_of, delete_at, delete_last, append_entry, entry_of, finish_rel}
use n_ovl.Conv.Pass.Deletion.{IsTail, append_entry-IsTail, delete_last-IsTail}

delete_at-append : (xs : List ℕ) (x : ℕ) → delete_at (length xs) (xs ++ (x ∷ [])) ≡ xs
delete_at-append [] x = refl
delete_at-append (y ∷ xs) x = ap (λ (l : List ℕ). y ∷ l) (delete_at-append xs x)

delete_last-relocs :
    (b : Build) (last : ℕ) (b' : Build)
    → b.last ≡ some last
    → delete_last b ≡ ok b'
    → b'.relocs ≡ delete_at last b.relocs
unfolding delete_last
delete_last-relocs b last b' at_end e =
    sym (ap (λ (x : Build). x.relocs) (ok-injective _ b' (rw (delete_last, at_end) at e)))

-- Deleting behind an append takes the new entry out.
delete_last-append_entry :
    (b : Build) (depth nr : ℕ)
    → IsTail b depth
    → (b' : Build) × (delete_last (append_entry b nr) ≡ ok b')
      × (b'.relocs ≡ b.relocs)
      × IsTail b' depth
unfolding append_entry
delete_last-append_entry b depth nr h =
    let tail = append_entry-IsTail b depth nr h in
    let (b', e, t, _, _) = delete_last-IsTail (append_entry b nr) depth tail in
    (
      b',
      e,
      delete_last-relocs (append_entry b nr) (length b.relocs) b'
            (tail.at_end (omega arith) ∙ ap some (omega (arith, length-append b.relocs (nr ∷ []))))
            e
          ∙ delete_at-append b.relocs nr,
      t,
    )

-- Where the list is as the second pass keeps it: a skipped LO16 that follows its HI16 directly takes
-- the HI16's entry out, and the table is as before the pair. If another relocation is between the
-- two, that one's entry is taken out, and the entry of the HI16 stays in the table.
pub finish_rel-skipped :
    (l : Layout) (id : Section) (b : Build) (depth : ℕ) (hi other lo : Rel)
    → IsTail b depth
    → type_of lo ≡ 6
    → ((b' : Build) × ((finish_rel success l id b hi >>= λ b₁. finish_rel fail l id b₁ lo) ≡ ok b')
        × (b'.relocs ≡ b.relocs))
      × ((b' : Build) × ((finish_rel success l id b hi >>= λ b₁.
              finish_rel success l id b₁ other >>= λ b₂. finish_rel fail l id b₂ lo)
            ≡ ok b')
          × (b'.relocs ≡ b.relocs ++ (entry_of l id hi ∷ [])))
unfolding finish_rel append_entry
finish_rel-skipped l id b depth hi other lo h six =
    let (b₁, e₁, r₁, _) = delete_last-append_entry b depth (entry_of l id hi) h in
    let (b₂, e₂, r₂, _) =
      delete_last-append_entry (append_entry b (entry_of l id hi)) (depth + 1) (entry_of l id other)
        (append_entry-IsTail b depth (entry_of l id hi) h) in
    ((b₁, rw (is_six (type_of lo) six) e₁, r₁), (b₂, rw (is_six (type_of lo) six) e₂, r₂))
  where
    is_six : (t : ℕ) → t ≡ 6 → (t == 6) ≡ true
    is_six t e = ground arith
