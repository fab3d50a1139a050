-- ===== src/Base/Exec.antt =====
-- What a piece of the program does: it returns, it leaves by `exit( EXIT_FAILURE )`, or it makes
-- an access that C leaves undefined (out of an array, or through a null pointer).
use mathlib.Core.Path.{◌≡◌, refl, subst}
use mathlib.Core.Option.{Option, none, some}
use mathlib.Core.List.{List, [], ◌∷◌}
use mathlib.Core.Bool.{Bool, true, false, ◌&&◌}

pub data Exec {ℓ} (A : Type ℓ) : Type ℓ where
  ok : A → Exec A
  exit : Exec A
  fault : Exec A

infixl 5 ◌>>=◌
abbrev pub ◌>>=◌ {ℓ κ} : {A : Type ℓ} {B : Type κ} → Exec A → (A → Exec B) → Exec B
ok a >>= f = f a
exit >>= f = exit
fault >>= f = fault

-- Inversion of a chain that returns.
module _ {ℓ κ} {A : Type ℓ} {B : Type κ} where
  pub >>=-eq-ok :
      (first : Exec A) (next : A → Exec B) {b : B}
      → (first >>= next) ≡ ok b
      → (a : A) × (first ≡ ok a) × (next a ≡ ok b)
  >>=-eq-ok (ok a) next e = (a, refl, e)
  >>=-eq-ok exit next e = cc
  >>=-eq-ok fault next e = cc

-- A pointer that may be null.
abbrev pub non_null {ℓ} : {A : Type ℓ} → Option A → Exec A
non_null none = fault
non_null (some a) = ok a

-- A loop that passes a state along.
module _ {ℓ κ} {S : Type ℓ} {A : Type κ} where
  abbrev pub fold_exec : (S → A → Exec S) → S → List A → Exec S
  fold_exec step s [] = ok s
  fold_exec step s (a ∷ as') = step s a >>= λ s'. fold_exec step s' as'

-- What holds of the value if there is one.
abbrev pub OnOk {ℓ κ} : {A : Type ℓ} → (A → Type κ) → Exec A → Type κ
OnOk P (ok a) = P a
OnOk P exit = Unit
OnOk P fault = Unit

pub OnOk-bind {ℓ κ ι} :
    {A : Type ℓ} {B : Type κ} (P : A → Type ι) (Q : B → Type ι) (m : Exec A) (f : A → Exec B)
    → OnOk P m
    → ((a : A) → P a → OnOk Q (f a))
    → OnOk Q (m >>= f)
OnOk-bind P Q (ok a) f h k = k a h
OnOk-bind P Q exit f h k = tt
OnOk-bind P Q fault f h k = tt

pub OnOk-fold_exec {ℓ κ ι} :
    {S : Type ℓ} {A : Type κ} (P : S → Type ι) (step : S → A → Exec S)
    → ((s : S) (a : A) → P s → OnOk P (step s a))
    → (as' : List A) (s : S) → P s
    → OnOk P (fold_exec step s as')
OnOk-fold_exec P step keep [] s h = h
OnOk-fold_exec P step keep (a ∷ as') s h =
    OnOk-bind P P (step s a) (λ s'. fold_exec step s' as') (keep s a h)
      (λ s' h'. OnOk-fold_exec P step keep as' s' h')

pub OnOk-elim {ℓ κ} : {A : Type ℓ} (P : A → Type κ) (m : Exec A) {a : A} → m ≡ ok a → OnOk P m → P a
OnOk-elim P m e h = subst (OnOk P) e h

pub OnOk-any {ℓ} : {A : Type ℓ} (m : Exec A) → OnOk (λ _. Unit {0}) m
OnOk-any (ok a) = tt
OnOk-any exit = tt
OnOk-any fault = tt

pub ok-injective {ℓ} : {A : Type ℓ} (a b : A) → ◌≡◌ {A = Exec A} (ok a) (ok b) → a ≡ b
ok-injective a b e = cc

-- The call returns, with a value that `R` holds of, if the test is true; else it leaves the program.
-- It never makes an undefined access.
abbrev pub Settles {ℓ κ} : {A : Type ℓ} → (A → Type κ) → Bool → Exec A → Type (ℓ ⊔ κ)
Settles {A = A} R b x = (b ≡ true → (a : A) × (x ≡ ok a) × R a) × (b ≡ false → x ≡ exit)

pub Settles-ok {ℓ κ} : {A : Type ℓ} (R : A → Type κ) (a : A) → R a → Settles R true (ok a)
Settles-ok R a h = (λ e. (a, refl, h), λ e. absurd (cc e))

pub Settles-exit {ℓ κ} : {A : Type ℓ} (R : A → Type κ) → Settles R false exit
Settles-exit R = (λ e. absurd (cc e), λ e. refl)

pub Settles-bind {ℓ κ ι} :
    {A : Type ℓ} {B : Type κ} (R : A → Type ι) (Q : B → Type ι) (a b : Bool) (m : Exec A)
    (f : A → Exec B)
    → Settles R a m
    → ((v : A) → R v → Settles Q b (f v))
    → Settles Q (a && b) (m >>= f)
Settles-bind R Q true b m f h k = let (v, run, r) = h.0 refl in rw run (k v r)
Settles-bind R Q false b m f h k = (λ e. absurd (cc e), λ e. rw (h.1 refl) refl)
