-- ===== src/Overlay/Heap/Blocks.antt =====
-- The blocks that a sequence of requests takes, and those that a sequence of `free` gives back.
use n_ovl.Base.{
  ℕ, zero, suc, ◌+◌, ◌≡◌, refl, ap, inl, inr, arith, List, [], ◌∷◌, Option, none, some, Bool, true,
  false, not, ◌&&◌, ◌||◌,
}
use n_ovl.Base.{◌==◌, Bool-cases}
use n_ovl.Base.Exec.{ok, fold_exec, OnOk, OnOk-bind}
use n_ovl.Overlay.Heap.{World, Object, free_block, ovl_free, taken, alloc_items}

free_block-live :
    (b : ℕ) (w : World)
    → w.live b ≡ true
    → free_block (some b) w ≡ ok (record w { live = λ c. not (c == b) && w.live c })
unfolding free_block
free_block-live b w h = rw h refl

-- What is live when the blocks of a list have been freed, and that each is live when its turn comes.
abbrev pub gone : List ℕ → (ℕ → Bool) → ℕ → Bool
gone [] live = live
gone (b ∷ bs) live = gone bs (λ c. not (c == b) && live c)

abbrev pub IsLive : List ℕ → (ℕ → Bool) → Type 0
IsLive [] live = Unit
IsLive (b ∷ bs) live = (live b ≡ true) × IsLive bs (λ c. not (c == b) && live c)

frees :
    (bs : List ℕ) (w : World)
    → IsLive bs w.live
    → fold_exec (λ v b. free_block (some b) v) w bs ≡ ok (record w { live = gone bs w.live })
frees [] w h = refl
frees (b ∷ bs) w (h, hs) =
    rw (free_block-live b w h) (frees bs (record w { live = λ c. not (c == b) && w.live c }) hs)

-- The blocks of the words: one, or none behind a null pointer.
abbrev pub words_blocks : Option ℕ → List ℕ
words_blocks none = []
words_blocks (some b) = b ∷ []

frees_words :
    (words : Option ℕ) (w : World)
    → IsLive (words_blocks words) w.live
    → free_block words w ≡ ok (record w { live = gone (words_blocks words) w.live })
unfolding free_block
frees_words none w h = refl
frees_words (some b) w (h, _) = rw h refl

-- All blocks but the array, in the order in which they are freed.
pub ovl_free-ok :
    (o : Object) (w : World)
    → IsLive o.items w.live
    → IsLive (words_blocks o.words) (gone o.items w.live)
    → IsLive (o.bytes ∷ o.self ∷ []) (gone (words_blocks o.words) (gone o.items w.live))
    → ovl_free o w
      ≡ ok (record w {
        live = gone (o.bytes ∷ o.self ∷ []) (gone (words_blocks o.words) (gone o.items w.live));
      })
unfolding ovl_free
ovl_free-ok o w hi hw (hb, (hs, _)) =
    let w₁ = record w { live = gone o.items w.live } in
    let w₂ = record w { live = gone (words_blocks o.words) (gone o.items w.live) } in
    let w₃ = record w {
      live = gone (o.bytes ∷ []) (gone (words_blocks o.words) (gone o.items w.live));
    } in
    rw
      (
        frees o.items w hi,
        frees_words o.words w₁ hw,
        free_block-live o.bytes w₂ hb,
        free_block-live o.self w₃ hs,
      )
      refl

-- The numbers from one on, and whether a number is in a list.
abbrev pub from : ℕ → ℕ → List ℕ
from r zero = []
from r (suc n) = r ∷ from (r + 1) n

abbrev pub has : ℕ → List ℕ → Bool
has b [] = false
has b (c ∷ cs) = (b == c) || has b cs

-- What `alloc_items` gives.
abbrev pub AreItems : ℕ → World → List ℕ × World → Type 0
AreItems n w r = (r.0 ≡ from w.requests n) × ((b : ℕ) → r.1.live b ≡ (has b r.0 || w.live b))

module _ (granted : ℕ → Bool) where
  pub alloc_items-live : (n : ℕ) (w : World) → OnOk (AreItems n w) (alloc_items granted n w)
  unfolding alloc_items
  alloc_items-live zero w = (refl, λ b. refl)
  alloc_items-live (suc n) w = elim (Bool-cases (granted w.requests)) [
    | inr e ↦ rw e tt
    | inl e ↦ rw e (
        OnOk-bind (AreItems n (taken w)) (AreItems (suc n) w) (alloc_items granted n (taken w)) _
          (alloc_items-live n (taken w))
          (λ r h. (
            ap (λ (l : List ℕ). w.requests ∷ l) h.0,
            λ b. swapped (has b r.0) (b == w.requests) (w.live b) (r.1.live b) (h.1 b),
          )))
  ]
    where
      swapped : (x y l live : Bool) → live ≡ (x || (y || l)) → live ≡ ((y || x) || l)
      swapped x y l live h = ground arith
