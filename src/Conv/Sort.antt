-- ===== src/Conv/Sort.antt =====
-- The insertion sort of the relocations of one data descriptor, by offset (the loops over
-- `rel_list` in both passes of `novl_conv`).
mod Tests
pub mod Order
use n_ovl.Base.{ℕ, ◌≤◌, List, [], ◌∷◌, ltb, if◌then◌else◌}
use mathlib.Core.List.{foldl, reverse}
use n_ovl.Conv.Elf.{Rel}

-- The inner loop runs from the last filled place of the array down, so the array is read backwards
-- here: an entry with a smaller offset ends the loop, any other is shifted up.
unfoldable pub insert_rel : List Rel → Rel → List Rel
insert_rel [] rel = rel ∷ []
insert_rel (x ∷ xs) rel =
    if ltb x.r_offset rel.r_offset then rel ∷ x ∷ xs else x ∷ insert_rel xs rel

-- `rel_list` after the loops, in the order of its indices.
unfoldable pub sort_rels : List Rel → List Rel
unfolding insert_rel
sort_rels rels = reverse (foldl insert_rel [] rels)
