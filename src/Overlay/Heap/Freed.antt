-- ===== src/Overlay/Heap/Freed.antt =====
-- What `ovl_free` frees of what `ovl_load` has allocated.
use n_ovl.Base.{
  ℕ, ◌+◌, ◌*◌, ◌≤◌, ◌≡◌, refl, ap, ◌∙◌, ◌⊎◌, inl, inr, arith, List, Option, none, some, Bool, true,
  false, ◌||◌,
}
use n_ovl.Base.{◌==◌, Bool-cases}
use n_ovl.Base.Exec.{Exec, ok, exit, fault, ◌>>=◌, OnOk, OnOk-bind, OnOk-any, OnOk-elim}
use n_ovl.Section.{codes}
use n_ovl.Overlay.{OvlHeader, Ovl, get_header, rounds}
use n_ovl.Overlay.Heap.{
  World, Object, set_error, free_block, ovl_free, alloc, behind_alloc, taken, alloc_items,
  fill_object, words_through, load_header, load_contents, load_file,
}
use n_ovl.Overlay.Heap.Blocks.{words_blocks, ovl_free-ok, from, has, AreItems, alloc_items-live}

-- No block has the number of a request that is still to come.
abbrev pub IsNumbered : World → Type 0
IsNumbered w = (b : ℕ) → w.requests ≤ b → w.live b ≡ false

-- Behind a load: with no object, nothing new is live; with one, `ovl_free` frees it, and the array
-- stays.
abbrev pub Freed : World → Option Object × World → Type 0
Freed w (none, w') = (b : ℕ) → w'.live b ≡ w.live b
Freed w (some o, w') =
    (v : World) × (ovl_free o w' ≡ ok v) × ((b : ℕ) → v.live b ≡ ((b == o.array) || w.live b))

-- An object of the blocks from `n` on, with the words' block or without it.
module _ (n : ℕ) (w w' : World) (fresh : (c : ℕ) → n ≤ c → w.live c ≡ false) where
  abbrev object : Option ℕ → List ℕ → Ovl → Object
  object words items ovl = record {
    self = n;
    bytes = n + 1;
    array = n + 1 + 1;
    items = items;
    words = words;
    ovl = ovl;
  }

  abbrev items_from : List ℕ
  items_from = from (n + 1 + 1 + 1 + 1) 4

  abbrev Holds : Option ℕ → Type 0
  Holds words =
      (b : ℕ)
      → w'.live b ≡ (
          has b items_from
          || (has b (words_blocks words)
              || ((b == n + 1 + 1) || ((b == n + 1) || ((b == n) || w.live b)))))

  with_words-Freed :
      (ovl : Ovl)
      → Holds (some (n + 1 + 1 + 1))
      → Freed w (some (object (some (n + 1 + 1 + 1)) items_from ovl), w')
  with_words-Freed ovl h = (
    _,
    ovl_free-ok (object (some (n + 1 + 1 + 1)) items_from ovl) w'
        (ground (arith, h (n + 4), h (n + 5), h (n + 6), h (n + 7))) (ground (arith, h (n + 3)))
        (ground (arith, h (n + 1), h n)),
    λ b. ground (arith, h b, fresh b),
  )

  no_words-Freed : (ovl : Ovl) → Holds none → Freed w (some (object none items_from ovl), w')
  no_words-Freed ovl h = (
    _,
    ovl_free-ok (object none items_from ovl) w'
        (ground (arith, h (n + 4), h (n + 5), h (n + 6), h (n + 7))) tt
        (ground (arith, h (n + 1), h n)),
    λ b. ground (arith, h b, fresh b),
  )

  object-Freed :
      (words : Option ℕ) (items : List ℕ) (ovl : Ovl)
      → (words ≡ none) ⊎ (words ≡ some (n + 1 + 1 + 1))
      → items ≡ items_from
      → Holds words
      → Freed w (some (object words items ovl), w')
  object-Freed words items ovl (inl e) e' h = rw (e, e') (no_words-Freed ovl (rw e at h))
  object-Freed words items ovl (inr e) e' h = rw (e, e') (with_words-Freed ovl (rw e at h))

-- A piece whose value does not matter.
OnOk-then {ℓ κ} :
    {A : Type ℓ} {B : Type κ} (Q : B → Type 0) (m : Exec A) (f : A → Exec B)
    → ((a : A) → OnOk Q (f a))
    → OnOk Q (m >>= f)
OnOk-then Q m f h = OnOk-bind (λ _. Unit {0}) Q m f (OnOk-any m) (λ a _. h a)

then_fault : (w : World) (m : Exec World) → OnOk (Freed w) (m >>= λ _. fault)
then_fault w (ok v) = tt
then_fault w exit = tt
then_fault w fault = tt

module _ (granted : ℕ → Bool) (w : World) (numbered : IsNumbered w) where
  -- The world behind the two arrays, with the block of the words or without it.
  fill_object-Freed :
      (contents : List ℕ) (p : ℕ) (h : OvlHeader) (words : Option ℕ) (u : World)
      → (words ≡ none) ⊎ (words ≡ some (w.requests + 1 + 1 + 1))
      → u.requests ≡ w.requests + 1 + 1 + 1 + 1
      → ((b : ℕ) → u.live b ≡ (has b (words_blocks words) || (taken (taken (taken w))).live b))
      → OnOk (Freed w) (
          fill_object granted contents w.requests
            (w.requests + 1)
            p
            h
            (some (w.requests + 1 + 1))
            words
            u)
  unfolding fill_object
  fill_object-Freed contents p h words u which next held =
      OnOk-then (Freed w) (words_through words contents (p + 5 * 4) (rounds h.relocation_count)) _
        (λ relocations.
          OnOk-bind (AreItems 4 u) (Freed w) (alloc_items granted 4 u) _
            (alloc_items-live granted 4 u)
            (λ (items, w') (are, live).
              object-Freed w.requests w w' numbered words items _ which
                (are ∙ ap (λ r. from r 4) next)
                (λ b.
                  live b
                  ∙ ap (λ (is : List ℕ). has b is || u.live b) (are ∙ ap (λ r. from r 4) next)
                  ∙ ap (λ (t : Bool). has b (from (w.requests + 1 + 1 + 1 + 1) 4) || t) (held b))))

  header-Freed :
      (reason contents : List ℕ) (found : Option (ℕ × OvlHeader))
      → OnOk
          (Freed w)
          (load_header granted reason contents w.requests (w.requests + 1) found (taken (taken w)))
  unfolding load_header
  header-Freed reason contents none =
      then_fault w
        (free_block (some w.requests) (set_error (codes "not an overlay file") (taken (taken w))))
  header-Freed reason contents (some (p, h)) = elim (Bool-cases (granted (w.requests + 1 + 1))) [
    | inr e ↦ rw e tt
    | inl e ↦ elim (Bool-cases (granted (w.requests + 1 + 1 + 1))) [
      | inl e' ↦
          rw (e, e')
            (fill_object-Freed contents p h (some (w.requests + 1 + 1 + 1))
              (taken (taken (taken (taken w)))) (inr refl) refl
              (λ b. shuffled (b == w.requests + 1 + 1 + 1) ((taken (taken (taken w))).live b)))
      | inr e' ↦
          rw (e, e')
            (fill_object-Freed contents p h none
              (record (taken (taken (taken w))) { requests = w.requests + 1 + 1 + 1 + 1 })
              (inl refl) refl (λ b. refl))
    ]
  ]
    where
      shuffled : (x y : Bool) → (x || y) ≡ ((x || false) || y)
      shuffled x y = ground arith

  bytes-Freed :
      (reason contents : List ℕ)
      → OnOk (Freed w) (
          load_contents granted reason contents w.requests
            (alloc granted (taken w))
            (behind_alloc granted (taken w)))
  unfolding load_contents
  bytes-Freed reason contents = elim (Bool-cases (granted (w.requests + 1))) [
    | inl e ↦
        rw e (
          OnOk-then (Freed w) (get_header contents) _ (λ found. header-Freed reason contents found))
    | inr e ↦ rw (e, own) (λ b. ground (arith, numbered b))
  ]
    where
      own : (w.requests == w.requests) ≡ true
      own = ground arith

  load-Freed :
      (reason : List ℕ) (file : Option (List ℕ)) → OnOk (Freed w) (load_file granted reason file w)
  unfolding load_file
  load-Freed reason none = λ b. refl
  load-Freed reason (some contents) = elim (Bool-cases (granted w.requests)) [
    | inl e ↦ rw e (bytes-Freed reason contents)
    | inr e ↦ rw e (λ b. refl)
  ]

-- If `ovl_load` returns, whatever the file holds and whichever requests the system grants, every
-- block is accounted for: with the null pointer, exactly the blocks that were live before are live;
-- with an object, `ovl_free` returns, it frees no block twice, and the blocks that are live then are
-- those that were live before, and the array of sections.
pub load_file-Freed :
    (granted : ℕ → Bool) (reason : List ℕ) (file : Option (List ℕ)) (w : World)
    (r : Option Object × World)
    → IsNumbered w
    → load_file granted reason file w ≡ ok r
    → Freed w r
load_file-Freed granted reason file w r numbered e =
    OnOk-elim (Freed w) (load_file granted reason file w) e
      (load-Freed granted w numbered reason file)
