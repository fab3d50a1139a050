-- ===== src/Conv/Sort/Order.antt =====
-- The sort's result is ordered by offset, and has the same relocations as often.
use n_ovl.Base.{
  ℕ, ◌≤◌, List, [], ◌∷◌, ◌++◌, All, All-append, Bool-cases, inl, inr, ltb, ltb→lt, arith,
}
use mathlib.Core.List.{foldl, reverse, Perm, reverse-cons, reverse_perm, perm_middle, append-nil}
use mathlib.Core.List.Perm
use n_ovl.Conv.Elf.{Rel}
use n_ovl.Conv.Sort.{insert_rel, sort_rels}

-- Each relocation is at no higher offset than any behind it.
abbrev pub IsAscending : List Rel → Type 0
IsAscending [] = Unit
IsAscending (x ∷ xs) = All (λ y. x.r_offset ≤ y.r_offset) xs × IsAscending xs

abbrev IsDescending : List Rel → Type 0
IsDescending [] = Unit
IsDescending (x ∷ xs) = All (λ y. y.r_offset ≤ x.r_offset) xs × IsDescending xs

All-insert : (P : Rel → Type 0) (xs : List Rel) (r : Rel) → All P xs → P r → All P (insert_rel xs r)
unfolding insert_rel
All-insert P [] r h p = (p, tt)
All-insert P (x ∷ xs) r h p = elim (Bool-cases (ltb x.r_offset r.r_offset)) [
  | inl e ↦ rw e (p, h)
  | inr e ↦ rw e (h.0, All-insert P xs r h.1 p)
]

All-le :
    (xs : List Rel) (a b : ℕ) → All (λ y. y.r_offset ≤ a) xs → a ≤ b → All (λ y. y.r_offset ≤ b) xs
All-le [] a b h p = tt
All-le (x ∷ xs) a b h p = (omega arith, All-le xs a b h.1 p)

insert_rel-IsDescending :
    (xs : List Rel) (r : Rel) → IsDescending xs → IsDescending (insert_rel xs r)
unfolding insert_rel
insert_rel-IsDescending [] r h = (tt, tt)
insert_rel-IsDescending (x ∷ xs) r h = elim (Bool-cases (ltb x.r_offset r.r_offset)) [
  | inl e ↦ rw e (
    (
      omega (arith, ltb→lt x.r_offset r.r_offset e),
      All-le xs _ _ h.0 (omega (arith, ltb→lt x.r_offset r.r_offset e)),
    ),
    h,
  )
  | inr e ↦ rw e (All-insert _ xs r h.0 (ground (arith, e)), insert_rel-IsDescending xs r h.1)
]

foldl-IsDescending :
    (rels xs : List Rel) → IsDescending xs → IsDescending (foldl insert_rel xs rels)
foldl-IsDescending [] xs h = h
foldl-IsDescending (r ∷ rels) xs h =
    foldl-IsDescending rels (insert_rel xs r) (insert_rel-IsDescending xs r h)

All-reverse : (P : Rel → Type 0) (xs : List Rel) → All P xs → All P (reverse xs)
All-reverse P [] h = tt
All-reverse P (x ∷ xs) h =
    rw (reverse-cons x xs) (All-append P (reverse xs) (x ∷ []) (All-reverse P xs h.1) (h.0, tt))

snoc-IsAscending :
    (xs : List Rel) (x : Rel)
    → IsAscending xs
    → All (λ y. y.r_offset ≤ x.r_offset) xs
    → IsAscending (xs ++ x ∷ [])
snoc-IsAscending [] x h a = (tt, tt)
snoc-IsAscending (y ∷ xs) x h a =
    (All-append _ xs (x ∷ []) h.0 (a.0, tt), snoc-IsAscending xs x h.1 a.1)

reverse-IsAscending : (xs : List Rel) → IsDescending xs → IsAscending (reverse xs)
reverse-IsAscending [] h = tt
reverse-IsAscending (x ∷ xs) h =
    rw (reverse-cons x xs)
      (snoc-IsAscending (reverse xs) x (reverse-IsAscending xs h.1) (All-reverse _ xs h.0))

insert_rel-perm : (xs : List Rel) (r : Rel) → Perm (insert_rel xs r) (r ∷ xs)
unfolding insert_rel
insert_rel-perm [] r = Perm.refl (r ∷ [])
insert_rel-perm (x ∷ xs) r = elim (Bool-cases (ltb x.r_offset r.r_offset)) [
  | inl e ↦ rw e (Perm.refl (r ∷ x ∷ xs))
  | inr e ↦ rw e (Perm.trans (Perm.cons x (insert_rel-perm xs r)) (Perm.swap r x xs))
]

foldl-perm : (rels xs : List Rel) → Perm (foldl insert_rel xs rels) (rels ++ xs)
foldl-perm [] xs = Perm.refl xs
foldl-perm (r ∷ rels) xs =
    Perm.trans (foldl-perm rels (insert_rel xs r))
      (Perm.trans (Perm.append (Perm.refl rels) (insert_rel-perm xs r)) (perm_middle rels xs))

-- The sorted list is in ascending order of the offsets, and a permutation of the list it is given.
pub sort_rels_lem : (rels : List Rel) → IsAscending (sort_rels rels) × Perm (sort_rels rels) rels
unfolding sort_rels
sort_rels_lem rels = (
  reverse-IsAscending _ (foldl-IsDescending rels [] tt),
  Perm.trans (reverse_perm _) (rw (append-nil rels) at (foldl-perm rels [])),
)
