-- ===== src/Overlay/Heap.antt =====
-- `ovl_load` from its first line, and `ovl_free`, with the blocks that they allocate and free, and
-- with the message of `ovl_set_error`. What the system grants is a parameter.
mod Tests
pub mod Blocks
pub mod Freed
pub mod Granted
use n_ovl.Base.{
  ℕ, zero, suc, ◌+◌, ◌*◌, List, [], ◌∷◌, ◌++◌, Option, none, some, Bool, true, false, not, ◌&&◌,
  ◌||◌,
}
use n_ovl.Base.{take, ◌==◌, if◌then◌else◌}
use n_ovl.Base.Exec.{Exec, ok, exit, fault, ◌>>=◌, fold_exec}
use n_ovl.Base.Bytes.{read_words}
use n_ovl.Section.{codes}
use n_ovl.Overlay.{OvlHeader, Ovl, get_header, rounds, make_sections}

-- A block is the number of the request that it was granted for. `message` is the text behind
-- `ovl_errmesg`.
pub record World : Type 0 where
  pub requests : ℕ
  pub live : ℕ → Bool
  pub message : Option (List ℕ)

-- `struct ovl_t` with its blocks: itself, the array of sections with its four elements, the file's
-- bytes, and the relocation words, whose pointer may be null.
pub record Object : Type 0 where
  pub self : ℕ
  pub bytes : ℕ
  pub array : ℕ
  pub items : List ℕ
  pub words : Option ℕ
  pub ovl : Ovl

-- `free`; a pointer that is no block is undefined, a null pointer is not.
unfoldable pub free_block : Option ℕ → World → Exec World
free_block none w = ok w
free_block (some b) w =
    if w.live b then ok (record w { live = λ c. not (c == b) && w.live c }) else fault

-- `ovl_set_error`: the buffer has 512 bytes, the last of them for the terminating zero.
abbrev pub set_error : List ℕ → World → World
set_error text w = record w { message = some (take 511 text) }

-- The relocation words through a pointer that may be null.
abbrev pub words_through : Option ℕ → List ℕ → ℕ → ℕ → Exec (List ℕ)
words_through none contents p zero = ok []
words_through none contents p (suc n) = fault
words_through (some b) contents p n = read_words contents p n

-- `ovl_free`; the array of sections is not freed.
unfoldable pub ovl_free : Object → World → Exec World
unfolding free_block
ovl_free o w = do
  w₁ ← fold_exec (λ v b. free_block (some b) v) w o.items
  w₂ ← free_block o.words w₁
  w₃ ← free_block (some o.bytes) w₂
  free_block (some o.self) w₃

-- A new block.
abbrev pub taken : World → World
taken w = record w { requests = w.requests + 1; live = λ b. b == w.requests || w.live b }

-- Which requests are granted.
module _ (granted : ℕ → Bool) where
  -- `calloc` and `malloc`: the block, or the null pointer.
  abbrev pub alloc : World → Option ℕ
  alloc w = if granted w.requests then some w.requests else none

  abbrev pub behind_alloc : World → World
  behind_alloc w = if granted w.requests then taken w else record w { requests = w.requests + 1 }

  -- The elements of the array of sections; the code writes through each pointer without a test.
  unfoldable pub alloc_items : ℕ → World → Exec (List ℕ × World)
  alloc_items zero w = ok ([], w)
  alloc_items (suc n) w =
      if granted w.requests
      then (do (items, w') ← alloc_items n (taken w); ok (w.requests ∷ items, w'))
      else fault

  -- From the two arrays on; a null pointer for the array of sections is written through.
  unfoldable pub fill_object :
      List ℕ → ℕ → ℕ → ℕ → OvlHeader → Option ℕ → Option ℕ → World → Exec (Option Object × World)
  unfolding alloc_items
  fill_object contents self bytes p h none words w = fault
  fill_object contents self bytes p h (some array) words w = do
    relocations ← words_through words contents (p + 5 * 4) (rounds h.relocation_count)
    (items, w') ← alloc_items 4 w
    ok (
      some (record {
        self = self;
        bytes = bytes;
        array = array;
        items = items;
        words = words;
        ovl = record {
          sections = make_sections h;
          relocation_count = h.relocation_count;
          contents = contents;
          relocations = relocations;
        };
      }),
      w',
    )

-- Which requests are granted, and `strerror( errno )`.
module _ (granted : ℕ → Bool) (reason : List ℕ) where
  -- Behind the header. With no header `ovl` is freed and then read.
  unfoldable pub load_header :
      List ℕ → ℕ → ℕ → Option (ℕ × OvlHeader) → World → Exec (Option Object × World)
  unfolding fill_object free_block
  load_header contents self bytes none w = do
    w' ← free_block (some self) (set_error (codes "not an overlay file") w)
    fault
  load_header contents self bytes (some (p, h)) w = do
    let w₁ = behind_alloc granted w
    fill_object granted contents self bytes p h (alloc granted w) (alloc granted w₁)
        (behind_alloc granted w₁)

  -- Behind the `malloc` for the file's bytes.
  unfoldable pub load_contents : List ℕ → ℕ → Option ℕ → World → Exec (Option Object × World)
  unfolding load_header
  load_contents contents self none w = do
    w' ← free_block (some self) w
    ok (none, set_error (codes "malloc(): " ++ reason) w')
  load_contents contents self (some bytes) w = do
    found ← get_header contents
    load_header contents self bytes found w

  -- Behind the `calloc` for the object.
  unfoldable pub load_self : List ℕ → Option ℕ → World → Exec (Option Object × World)
  unfolding load_contents
  load_self contents none w = ok (none, set_error (codes "calloc(): " ++ reason) w)
  load_self contents (some self) w =
      load_contents contents self (alloc granted w) (behind_alloc granted w)

  -- `ovl_load`, for the contents of a file that `fopen` opens.
  unfoldable pub load_file : Option (List ℕ) → World → Exec (Option Object × World)
  unfolding load_self
  load_file none w = ok (none, set_error (codes "fopen(): " ++ reason) w)
  load_file (some contents) w = load_self contents (alloc granted w) (behind_alloc granted w)
