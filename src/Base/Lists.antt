-- ===== src/Base/Lists.antt =====
-- Lists measured and indexed by native numbers, and predicates over all their elements.
use mathlib.Core.Bool.{Bool, true, ◌&&◌}
use Prim.Native.Nat.{ℕ, zero, suc, ◌+◌, ◌-◌, ◌<◌, min}
use mathlib.Core.Path.{◌≡◌, refl, ap}
use mathlib.Core.List.{List, [], ◌∷◌, ◌++◌}
use mathlib.Core.Option.{Option, none, some}
use mathlib.Core.Logic.{inl, inr}
use n_ovl.Base.Tests.{◌==◌, if◌then◌else◌, Bool-cases, both}
use native.Mathlib.Omega.{arith}

module _ {ℓ} {A : Type ℓ} where
  abbrev pub length : List A → ℕ
  length [] = 0
  length (x ∷ xs) = suc (length xs)

  abbrev pub get_elem? : List A → ℕ → Option A
  get_elem? [] i = none
  get_elem? (x ∷ xs) zero = some x
  get_elem? (x ∷ xs) (suc i) = get_elem? xs i

  abbrev pub take : ℕ → List A → List A
  take zero xs = []
  take (suc n) [] = []
  take (suc n) (x ∷ xs) = x ∷ take n xs

  abbrev pub drop : ℕ → List A → List A
  drop zero xs = xs
  drop (suc n) [] = []
  drop (suc n) (x ∷ xs) = drop n xs

  abbrev pub replicate : ℕ → A → List A
  replicate zero a = []
  replicate (suc n) a = a ∷ replicate n a

  abbrev pub All {κ} : (A → Type κ) → List A → Type κ
  All P [] = Unit {κ}
  All P (x ∷ xs) = P x × All P xs

module _ {ℓ} {A : Type ℓ} where
  abbrev pub all : (A → Bool) → List A → Bool
  all test [] = true
  all test (x ∷ xs) = test x && all test xs

  pub all-All : (test : A → Bool) (xs : List A) → all test xs ≡ true → All (λ x. test x ≡ true) xs
  all-All test [] h = tt
  all-All test (x ∷ xs) h = let (a, b) = both (test x) (all test xs) h in (a, all-All test xs b)

module _ {ℓ} {A : Type ℓ} where
  pub length-append : (xs ys : List A) → length (xs ++ ys) ≡ length xs + length ys
  length-append [] ys = omega arith
  length-append (x ∷ xs) ys = omega (arith, length-append xs ys)

  pub length-replicate : (n : ℕ) (a : A) → length (replicate n a) ≡ n
  length-replicate zero a = refl
  length-replicate (suc n) a = ap suc (length-replicate n a)

  pub length-drop : (n : ℕ) (xs : List A) → length (drop n xs) ≡ length xs - n
  length-drop zero xs = omega arith
  length-drop (suc n) [] = omega arith
  length-drop (suc n) (x ∷ xs) = omega (arith, length-drop n xs)

  pub length-take : (n : ℕ) (xs : List A) → length (take n xs) ≡ min n (length xs)
  length-take zero xs = omega arith
  length-take (suc n) [] = omega arith
  length-take (suc n) (x ∷ xs) = omega (arith, length-take n xs)

  pub drop-length-append : (xs ys : List A) → drop (length xs) (xs ++ ys) ≡ ys
  drop-length-append [] ys = refl
  drop-length-append (x ∷ xs) ys = drop-length-append xs ys

  pub take-length-append : (xs ys : List A) → take (length xs) (xs ++ ys) ≡ xs
  take-length-append [] ys = refl
  take-length-append (x ∷ xs) ys = ap (λ (l : List A). x ∷ l) (take-length-append xs ys)

  pub All-append {κ} : (P : A → Type κ) (xs ys : List A) → All P xs → All P ys → All P (xs ++ ys)
  All-append P [] ys hx hy = hy
  All-append P (x ∷ xs) ys hx hy = (hx.0, All-append P xs ys hx.1 hy)

  pub get_elem?-append-left :
      (xs ys : List A) (k : ℕ) → k < length xs → get_elem? (xs ++ ys) k ≡ get_elem? xs k
  get_elem?-append-left [] ys k h = absurd (omega arith)
  get_elem?-append-left (x ∷ xs) ys zero h = refl
  get_elem?-append-left (x ∷ xs) ys (suc k) h = get_elem?-append-left xs ys k (omega arith)

  pub get_elem?-append-right :
      (xs ys : List A) (k : ℕ) → get_elem? (xs ++ ys) (length xs + k) ≡ get_elem? ys k
  get_elem?-append-right [] ys k = ap (get_elem? ys) (omega arith)
  get_elem?-append-right (x ∷ xs) ys k = rw suc_left (get_elem?-append-right xs ys k)
    where
      suc_left : suc (length xs) + k ≡ suc (length xs + k)
      suc_left = omega arith

  pub All-split {κ} : (P : A → Type κ) (xs ys : List A) → All P (xs ++ ys) → All P xs × All P ys
  All-split P [] ys h = (tt, h)
  All-split P (x ∷ xs) ys h = let (a, b) = All-split P xs ys h.1 in ((h.0, a), b)

-- A `switch` over numbers: the first case with the key, or the default.
module _ {ℓ} {A : Type ℓ} where
  unfoldable pub switch : List (ℕ × A) → A → ℕ → A
  switch [] otherwise k = otherwise
  switch ((key, a) ∷ cases) otherwise k = if k == key then a else switch cases otherwise k

  pub switch-All {κ} :
      (P : A → Type κ) (cases : List (ℕ × A)) (otherwise : A) (k : ℕ)
      → All (λ (entry : ℕ × A). P entry.1) cases
      → P otherwise
      → P (switch cases otherwise k)
  unfolding switch
  switch-All P [] otherwise k h d = d
  switch-All P ((key, a) ∷ cases) otherwise k h d = elim (Bool-cases (k == key)) [
    | inl e ↦ rw e h.0
    | inr e ↦ rw e (switch-All P cases otherwise k h.1 d)
  ]
