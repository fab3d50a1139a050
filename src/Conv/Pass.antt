-- ===== src/Conv/Pass.antt =====
-- The two passes over the relocation sections: the first is a dry run that predicts how many table
-- entries there will be, the second relocates and makes the entries.
mod Tests
pub mod Loops
pub mod Deletion
pub mod Agreement
pub mod Counts
pub mod Entries
pub mod Skipped
pub mod Predicted
pub mod Checked
pub mod Length
pub mod Placed
pub mod Relocated
pub mod Jumps
use n_ovl.Base.{
  ℕ, suc, zero, ◌+◌, ◌-◌, ◌%◌, ◌^◌, List, [], ◌∷◌, ◌++◌, Option, none, some, Bool, true, false,
}
use n_ovl.Base.{length, drop, ltb, ◌==◌, if◌then◌else◌}
use n_ovl.Base.Word.{u32, add32, sub32}
use n_ovl.Base.Exec.{Exec, ok, exit, fault, ◌>>=◌, fold_exec}
use n_ovl.Section.{Section, index, valid_sec, is_rel_name}
use n_ovl.Reloc.Target.{Layout, Outcome, error, fail, success, fail_dont_delete_hi}
use n_ovl.Reloc.Handlers.{State, reloc_do, reloc_init}
use n_ovl.Reloc.Entry.{reloc_mk}
use n_ovl.Conv.Elf.{Rel, ElfData, ElfSection}
use n_ovl.Conv.Sort.{sort_rels}

-- `n < sh_size` and `n += d_size`, for an `int`, whose word is `n`: it is taken to 64 bits, a negative
-- one with its sign, and the sum is taken back to 32.
unfoldable pub goes_on : ℕ → ℕ → Bool
goes_on n sh_size = if ltb n (2 ^ 31) then ltb n sh_size else ltb (n + (2 ^ 64 - 2 ^ 32)) sh_size

unfoldable pub advance : ℕ → ℕ → ℕ
advance n d_size = (n + d_size) % 2 ^ 32

-- `for( n = 0; n < sh_size && (data = elf_getdata(section, data)); n += data->d_size )`
unfoldable pub over_blocks {ℓ} :
    {S : Type ℓ} → (S → ElfData → Exec S) → ℕ → ℕ → S → List ElfData → Exec S
over_blocks step sh_size n s [] = ok s
over_blocks step sh_size n s (b ∷ bs) =
    if goes_on n sh_size
    then (step s b >>= λ s'. over_blocks step sh_size (advance n b.d_size) s' bs)
    else ok s

-- The loop over the sections in each pass: those named `.rel` and one of the four names.
unfoldable pub over_rel_section {ℓ} :
    {S : Type ℓ} → (Section → S → S) → (Section → S → ElfData → Exec S) → S → ElfSection → Exec S
unfolding over_blocks
over_rel_section enter step s sec =
    if is_rel_name sec.name
    then elim (valid_sec (drop 4 sec.name)) [
      | none ↦ ok s
      | some id ↦ over_blocks (step id) sec.sh_size 0 (enter id s) sec.blocks
    ]
    else ok s

-- The offset of a relocation in the memory image.
abbrev pub offset_of : ℕ → Rel → ℕ
offset_of elf_ep rel = sub32 (u32 rel.r_offset) elf_ep

-- `(int)rel.r_info`, as a bit pattern.
abbrev pub type_of : Rel → ℕ
type_of rel = u32 rel.r_info

-- `ninty_count_pred` is an `int`: a bit pattern here.
pub record Prediction : Type 0 where
  pub state : State
  pub count : ℕ
  pub failed : Bool

-- What the result of the dry run does to the count. An error is noted, and is counted too.
unfoldable pub note_outcome : Outcome → ℕ → Prediction → Prediction
note_outcome error type p = record p { count = add32 p.count 1; failed = true }
note_outcome fail type p = if type == 6 then record p { count = sub32 p.count 1 } else p
note_outcome fail_dont_delete_hi type p = p
note_outcome success type p = record p { count = add32 p.count 1 }

unfoldable pub predict_rel : Layout → ℕ → Prediction → Rel → Exec Prediction
unfolding note_outcome
predict_rel l elf_ep p rel = do
  (v, st) ← reloc_do (type_of rel) l (offset_of elf_ep rel) true p.state
  ok (note_outcome v (type_of rel) (record p { state = st }))

unfoldable pub predict_block : Layout → ℕ → Prediction → ElfData → Exec Prediction
unfolding predict_rel
predict_block l elf_ep p b =
    fold_exec (predict_rel l elf_ep) (record p { state = reloc_init p.state }) (sort_rels b.rels)

-- The first pass; an error ends the program behind its loop.
unfoldable pub predict : Layout → ℕ → State → List ElfSection → Exec Prediction
unfolding predict_block over_rel_section
predict l elf_ep st sections = do
  p ←
      fold_exec (over_rel_section (λ id p. p) (λ id. predict_block l elf_ep))
        (record { state = st; count = 0; failed = false }) sections
  if p.failed then exit else ok p

-- `ninty_relocs`, `last` and `ninty_count_real`. A list node is its position, `none` the null
-- pointer.
pub record Build : Type 0 where
  pub state : State
  pub relocs : List ℕ
  pub last : Option ℕ
  pub count : ℕ

module _ {ℓ} {A : Type ℓ} where
  -- `g_list_delete_link` at a position.
  abbrev pub delete_at : ℕ → List A → List A
  delete_at n [] = []
  delete_at zero (x ∷ xs) = xs
  delete_at (suc n) (x ∷ xs) = x ∷ delete_at n xs

-- `node->prev`
abbrev pub prev : ℕ → Option ℕ
prev zero = none
prev (suc k) = some k

-- Takes the node `last` out; a null `last` is followed.
unfoldable pub delete_last : Build → Exec Build
delete_last b = elim b.last [
  | none ↦ fault
  | some n ↦ ok (record b { relocs = delete_at n b.relocs; last = prev n; count = sub32 b.count 1 })
]

-- The node behind a new last element, `g_list_last` where there was none.
abbrev pub next_last : Option ℕ → ℕ → Option ℕ
next_last none len = some (len - 1)
next_last (some k) len = if ltb (k + 1) len then some (k + 1) else none

unfoldable pub append_entry : Build → ℕ → Build
append_entry b nr = record b {
  relocs = b.relocs ++ nr ∷ [];
  last = next_last b.last (length (b.relocs ++ nr ∷ []));
  count = add32 b.count 1;
}

-- The table entry of a relocation.
abbrev pub entry_of : Layout → Section → Rel → ℕ
entry_of l id rel =
    reloc_mk (index id + 1) (sub32 (u32 rel.r_offset) (l.elf_start id)) (type_of rel)

unfoldable pub finish_rel : Outcome → Layout → Section → Build → Rel → Exec Build
unfolding delete_last append_entry
finish_rel error l id b rel = exit
finish_rel fail l id b rel = if type_of rel == 6 then delete_last b else ok b
finish_rel fail_dont_delete_hi l id b rel = ok b
finish_rel success l id b rel = ok (append_entry b (entry_of l id rel))

unfoldable pub build_rel : Layout → ℕ → Section → Build → Rel → Exec Build
unfolding finish_rel
build_rel l elf_ep id b rel = do
  (v, st) ← reloc_do (type_of rel) l (offset_of elf_ep rel) false b.state
  finish_rel v l id (record b { state = st }) rel

unfoldable pub build_block : Layout → ℕ → Section → Build → ElfData → Exec Build
unfolding build_rel
build_block l elf_ep id b d =
    fold_exec (build_rel l elf_ep id) (record b { state = reloc_init b.state }) (sort_rels d.rels)

-- The second pass; `last` is null again at the start of each section.
unfoldable pub build : Layout → ℕ → State → List ElfSection → Exec Build
unfolding build_block over_rel_section
build l elf_ep st sections =
    fold_exec (over_rel_section (λ id b. record b { last = none }) (build_block l elf_ep))
      (record { state = st; relocs = []; last = none; count = 0 }) sections
