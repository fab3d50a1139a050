-- ===== src/Conv/Pass/Deletion.antt =====
-- The list `ninty_relocs` with its pointer `last`: the pointer is at the list's end whenever a node
-- may be deleted, so that it is never followed when it is null.
use n_ovl.Base.{ℕ, zero, suc, ◌+◌, ◌-◌, ◌≤◌, ◌<◌, ◌≡◌, refl, ap, ◌∙◌, ◌⊎◌, inl, inr, arith}
use n_ovl.Base.{List, [], ◌∷◌, ◌++◌, Option, none, some, length, length-append}
use n_ovl.Base.Word.{u32, sub32}
use n_ovl.Base.Exec.{ok}
use n_ovl.Reloc.Handlers.{State}
use n_ovl.Conv.Pass.{Build, delete_at, prev, delete_last, next_last, append_entry}

-- At least `depth` nodes can be deleted from the end.
pub record IsTail (b : Build) (depth : ℕ) : Type 0 where
  pub within : depth ≤ length b.relocs
  pub at_end : 0 < depth → b.last ≡ some (length b.relocs - 1)
  pub or_end : (b.last ≡ none) ⊎ ((b.last ≡ some (length b.relocs - 1)) × (0 < length b.relocs))
  pub counted : b.count ≡ u32 (length b.relocs)

length-delete_at : (n : ℕ) (xs : List ℕ) → n < length xs → length (delete_at n xs) ≡ length xs - 1
length-delete_at n [] h = refl
length-delete_at zero (x ∷ xs) h = omega arith
length-delete_at (suc n) (x ∷ xs) h = omega (arith, length-delete_at n xs (omega arith))

next_last_at_end :
    (last : Option ℕ) (n : ℕ)
    → (last ≡ none) ⊎ ((last ≡ some (n - 1)) × (0 < n))
    → next_last last (n + 1) ≡ some n
next_last_at_end none n h = ground arith
next_last_at_end (some k) n (inl e) = cc
next_last_at_end (some k) n (inr (e, pos)) = ground (arith, e)

pub append_entry-IsTail :
    (b : Build) (depth nr : ℕ) → IsTail b depth → IsTail (append_entry b nr) (depth + 1)
unfolding append_entry
append_entry-IsTail b depth nr h = record {
  within = omega (arith, longer);
  at_end = λ _. last_is;
  or_end = inr (last_is, omega (arith, longer));
  counted = rw longer (omega arith);
}
  where
    longer : length (b.relocs ++ nr ∷ []) ≡ length b.relocs + 1
    longer = length-append b.relocs (nr ∷ [])

    last_is :
        next_last b.last (length (b.relocs ++ nr ∷ [])) ≡ some (length (b.relocs ++ nr ∷ []) - 1)
    last_is = rw longer (next_last_at_end b.last (length b.relocs) h.or_end ∙ ap some (omega arith))

prev_at_end : (n : ℕ) → (prev n ≡ none) ⊎ ((prev n ≡ some (n - 1)) × (0 < n))
prev_at_end zero = inl refl
prev_at_end (suc n) = inr (ap some (omega arith), omega arith)

prev_pos : (n : ℕ) → 0 < n → prev n ≡ some (n - 1)
prev_pos zero h = elim h [ ]
prev_pos (suc n) h = ap some (omega arith)

pub delete_last-IsTail :
    (b : Build) (depth : ℕ)
    → IsTail b (depth + 1)
    → (b' : Build) × (delete_last b ≡ ok b')
      × IsTail b' depth
      × (b'.state ≡ b.state)
      × (b'.count ≡ sub32 b.count 1)
unfolding delete_last
delete_last-IsTail b depth h = (
  record b {
    relocs = delete_at (length b.relocs - 1) b.relocs;
    last = prev (length b.relocs - 1);
    count = sub32 b.count 1;
  },
  rw (h.at_end (omega arith), delete_last),
  record {
    within = omega (arith, shorter, h.within);
    at_end = λ pos. rw shorter (prev_pos (length b.relocs - 1) (omega (arith, h.within)));
    or_end = rw shorter (prev_at_end (length b.relocs - 1));
    counted = rw shorter (omega (arith, h.counted, h.within));
  },
  refl,
  refl,
)
  where
    shorter : length (delete_at (length b.relocs - 1) b.relocs) ≡ length b.relocs - 1
    shorter = length-delete_at (length b.relocs - 1) b.relocs (omega (arith, h.within))

-- Fewer deletions may be needed.
pub IsTail-less : (b : Build) (depth less : ℕ) → less ≤ depth → IsTail b depth → IsTail b less
IsTail-less b depth less le h = record {
  within = omega (arith, h.within);
  at_end = λ pos. h.at_end (omega arith);
  or_end = h.or_end;
  counted = h.counted;
}

-- Only the list, the pointer and the count matter.
pub IsTail-set_state :
    (b : Build) (depth : ℕ) (st : State) → IsTail b depth → IsTail (record b { state = st }) depth
IsTail-set_state b depth st h = record {
  within = h.within;
  at_end = h.at_end;
  or_end = h.or_end;
  counted = h.counted;
}

-- At the start of a section `last` is null.
pub IsTail-start : (b : Build) → IsTail b 0 → IsTail (record b { last = none }) 0
IsTail-start b h = record {
  within = h.within;
  at_end = λ pos. absurd (omega arith);
  or_end = inl refl;
  counted = h.counted;
}
