-- ===== src/Overlay/Heap/Tests.antt =====
-- A file with one word of .text and one relocation, loaded and freed.
use n_ovl.Base.{ℕ, ◌≡◌, refl, arith, List, [], ◌∷◌, Option, none, some, Bool, true, ltb}
use n_ovl.Base.Exec.{Exec, ok, exit, fault, ◌>>=◌}
use n_ovl.Base.Bytes.{words_bytes, be_bytes, read_words, read_word}
use n_ovl.Overlay.{ovl_load, get_header, header_position}
use n_ovl.Overlay.Heap.{World, Object, load_file, alloc_items}
use n_ovl.Overlay.Heap.Freed.{IsNumbered, Freed, load_file-Freed}
use n_ovl.Overlay.Heap.Granted.{object_ovl, load_file-ovl_load}

abbrev file : List ℕ
file = words_bytes (0x3C08_8080 ∷ 4 ∷ 0 ∷ 0 ∷ 0 ∷ 1 ∷ 0x4200_0000 ∷ 28 ∷ [])

-- One block is live, the one of the first request.
abbrev before : World
before = record { requests = 1; live = λ b. ltb b 1; message = none }

abbrev always : ℕ → Bool
always n = true

abbrev value_of : Exec (Option Object × World) → Option Object × World
value_of (ok r) = r
value_of exit = (none, before)
value_of fault = (none, before)

loading : Option Object × World
unfolding load_file get_header header_position read_word read_words alloc_items
loading = value_of (load_file always [] (some file) before)

loading_runs : load_file always [] (some file) before ≡ ok loading
unfolding loading words_bytes be_bytes
loading_runs = refl

before-IsNumbered : IsNumbered before
before-IsNumbered b h = ground arith

load_file-Freed_example : Freed before loading
load_file-Freed_example =
    load_file-Freed always [] (some file) before loading before-IsNumbered loading_runs

granted_object : (load_file always [] (some file) before >>= object_ovl) ≡ ovl_load file
granted_object = load_file-ovl_load always [] file before (λ n. refl)
