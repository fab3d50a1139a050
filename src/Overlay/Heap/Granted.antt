-- ===== src/Overlay/Heap/Granted.antt =====
-- `ovl_load` on a system that grants every request.
use mathlib.Core.Path.{subst, fun_ext}
use n_ovl.Base.{
  inl, inr, Bool-cases, ℕ, ◌+◌, ◌*◌, ◌≡◌, refl, sym, ◌∙◌, List, Option, none, some, Bool, true,
}
use n_ovl.Base.Exec.{Exec, ok, exit, fault, ◌>>=◌}
use n_ovl.Base.Bytes.{read_words}
use n_ovl.Section.{codes}
use n_ovl.Overlay.{OvlHeader, Ovl, get_header, rounds, load_behind, ovl_load}
use n_ovl.Overlay.Heap.{
  World, Object, set_error, free_block, alloc_items, taken, load_header, load_file,
}

bind_assoc {ℓ κ ι} :
    {A : Type ℓ} {B : Type κ} {C : Type ι} (m : Exec A) (f : A → Exec B) (g : B → Exec C)
    → (m >>= f >>= g) ≡ (m >>= λ a. f a >>= g)
bind_assoc (ok a) f g = refl
bind_assoc exit f g = refl
bind_assoc fault f g = refl

bind_same {ℓ κ} :
    {A : Type ℓ} {B : Type κ} (m : Exec A) (f g : A → Exec B)
    → ((a : A) → f a ≡ g a)
    → (m >>= f) ≡ (m >>= g)
bind_same (ok a) f g h = h a
bind_same exit f g h = refl
bind_same fault f g h = refl

-- What a caller reads through the pointer; the null pointer is told apart from an undefined access.
abbrev pub object_ovl : Option Object × World → Exec Ovl
object_ovl (none, w) = exit
object_ovl (some o, w) = ok o.ovl

abbrev always : ℕ → Bool
always n = true

-- A block that is freed, and read.
faulting :
    (b : ℕ) (u : World) (f : Option Object × World → Exec Ovl)
    → (free_block (some b) u >>= (λ _. fault) >>= f) ≡ fault
unfolding free_block
faulting b u f = elim (Bool-cases (u.live b)) [ inl e ↦ rw e refl | inr e ↦ rw e refl ]

header-Granted :
    (reason contents : List ℕ) (w : World) (found : Option (ℕ × OvlHeader))
    → (load_header always reason contents w.requests (w.requests + 1) found (taken (taken w))
        >>= object_ovl)
      ≡ load_behind contents found
unfolding load_header alloc_items
header-Granted reason contents w none =
    faulting w.requests (set_error (codes "not an overlay file") (taken (taken w))) object_ovl
header-Granted reason contents w (some (p, h)) =
    bind_assoc (read_words contents (p + 5 * 4) (rounds h.relocation_count)) _ _

always-Granted :
    (reason contents : List ℕ) (w : World)
    → (load_file always reason (some contents) w >>= object_ovl) ≡ ovl_load contents
unfolding load_file ovl_load
always-Granted reason contents w =
    bind_assoc (get_header contents) _ _
    ∙ bind_same (get_header contents) _ _ (header-Granted reason contents w)

-- On a system that grants every request, loading an opened file ends as the reading of its contents
-- does: it gives an object with what is read if that succeeds, and else makes an undefined access;
-- it never gives the null pointer.
pub load_file-ovl_load :
    (granted : ℕ → Bool) (reason contents : List ℕ) (w : World)
    → ((n : ℕ) → granted n ≡ true)
    → (load_file granted reason (some contents) w >>= object_ovl) ≡ ovl_load contents
load_file-ovl_load granted reason contents w all =
    subst (λ g. (load_file g reason (some contents) w >>= object_ovl) ≡ ovl_load contents)
      (fun_ext (λ n. sym (all n))) (always-Granted reason contents w)
