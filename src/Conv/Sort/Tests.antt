-- ===== src/Conv/Sort/Tests.antt =====
-- The sort on three relocations, two of them at one offset.
use n_ovl.Base.{List, [], ◌∷◌}
use n_ovl.Conv.Elf.{Rel}
use n_ovl.Conv.Sort.{sort_rels}
use n_ovl.Conv.Sort.Order.{IsAscending, sort_rels_lem}
use mathlib.Core.List.{Perm}

abbrev rels : List Rel
rels =
    record { r_offset = 0x10; r_info = 4 }
    ∷ record { r_offset = 4; r_info = 5 }
    ∷ record { r_offset = 0x10; r_info = 6 }
    ∷ []

sort_rels_lem_example : IsAscending (sort_rels rels) × Perm (sort_rels rels) rels
sort_rels_lem_example = sort_rels_lem rels
