-- ===== src/Conv/Output/Writes.antt =====
-- What one write to the output file does, at its end, behind its end, and inside it.
use n_ovl.Base.{
  ℕ, zero, suc, ◌+◌, ◌-◌, ◌≡◌, ◌≢◌, refl, sym, ap, ◌∙◌, arith, List, [], ◌∷◌, ◌++◌, false,
}
use n_ovl.Base.{
  length, take, drop, replicate, All, length-append, length-replicate, drop-length-append,
  take-length-append, ◌==◌,
}
use n_ovl.Base.Bytes.{be_bytes, words_bytes}
use mathlib.Core.List.{append-nil, append_assoc}
use n_ovl.Conv.Output.{write, relocs_by, write_relocs}

suc-add : (n m : ℕ) → suc n + m ≡ suc (n + m)
suc-add n m = omega arith

module _ {A : Type 0} where
  drop-nil : (k : ℕ) → ◌≡◌ {A = List A} (drop k []) []
  drop-nil zero = refl
  drop-nil (suc k) = refl

  drop-add : (n m : ℕ) (xs : List A) → drop (n + m) xs ≡ drop m (drop n xs)
  drop-add zero m xs = ap (λ (k : ℕ). drop k xs) (omega arith)
  drop-add (suc n) m [] = drop-nil (suc n + m) ∙ sym (drop-nil m)
  drop-add (suc n) m (x ∷ xs) = ap (λ (k : ℕ). drop k (x ∷ xs)) (suc-add n m) ∙ drop-add n m xs

  take-length : (xs : List A) → take (length xs) xs ≡ xs
  take-length [] = refl
  take-length (x ∷ xs) = ap (λ (l : List A). x ∷ l) (take-length xs)

  drop-behind : (n : ℕ) (xs : List A) → drop (length xs + n) xs ≡ []
  drop-behind n [] = drop-nil (length {A = A} [] + n)
  drop-behind n (x ∷ xs) =
      ap (λ (k : ℕ). drop k (x ∷ xs)) (suc-add (length xs) n) ∙ drop-behind n xs

-- A write of as many bytes as stand there replaces those.
pub write-inside :
    (pre old new post : List ℕ)
    → length old ≡ length new
    → write (record { bytes = pre ++ (old ++ post); pos = length pre }) new
      ≡ record { bytes = pre ++ (new ++ post); pos = length pre + length new }
unfolding write
write-inside pre old new post e = rw (
  no_gap,
  append-nil (pre ++ (old ++ post)),
  take-length-append pre (old ++ post),
  drop-add (length pre) (length new) (pre ++ (old ++ post)),
  drop-length-append pre (old ++ post),
  ← e,
  drop-length-append old post,
)
  where
    no_gap : length pre - length (pre ++ (old ++ post)) ≡ 0
    no_gap = omega (arith, length-append pre (old ++ post))

-- A write behind the end fills the gap with zeros.
pub write-behind :
    (pre new : List ℕ) (gap : ℕ)
    → write (record { bytes = pre; pos = length pre + gap }) new
      ≡ record { bytes = pre ++ (replicate gap 0 ++ new); pos = length pre + gap + length new }
unfolding write
write-behind pre new gap = rw (
  gap_is,
  ← whole,
  take-length (pre ++ replicate gap 0),
  drop-behind (length new) (pre ++ replicate gap 0),
  append-nil new,
  append_assoc pre (replicate gap 0) new,
)
  where
    gap_is : length pre + gap - length pre ≡ gap
    gap_is = omega arith

    whole : length (pre ++ replicate gap 0) ≡ length pre + gap
    whole = length-append pre (replicate gap 0) ∙ omega (arith, length-replicate gap (zero))

write-end :
    (pre new : List ℕ)
    → write (record { bytes = pre; pos = length pre }) new
      ≡ record { bytes = pre ++ new; pos = length (pre ++ new) }
write-end pre new =
    ap (λ (p : ℕ). write (record { bytes = pre; pos = p }) new) (omega arith)
    ∙ write-behind pre new 0
    ∙ ap (λ (p : ℕ). record { bytes = pre ++ new; pos = p }) (omega (arith, length-append pre new))

-- The table entries, none of them zero, go behind one another.
pub write_relocs-eq :
    (relocs pre : List ℕ)
    → All (λ r. r ≢ 0) relocs
    → write_relocs (record { bytes = pre; pos = length pre }) relocs
      ≡ record { bytes = pre ++ words_bytes relocs; pos = length (pre ++ words_bytes relocs) }
unfolding relocs_by words_bytes
write_relocs-eq [] pre h = rw append-nil
write_relocs-eq (r ∷ rs) pre h = rw (
  not_zero r h.0,
  write-end pre (be_bytes r),
  write_relocs-eq rs (pre ++ be_bytes r) h.1,
  append_assoc pre (be_bytes r) (words_bytes rs),
)
  where
    not_zero : (n : ℕ) → n ≢ 0 → (n == 0) ≡ false
    not_zero n ne = ground arith
