-- ===== src/Main/Listing/Table/Tests.antt =====
-- The list of the relocations of the small ELF file of the other tests, converted.
use n_ovl.Base.{ℕ, ◌≡◌, refl, arith, List, some}
use n_ovl.Base.{All}
use n_ovl.Base.Exec.{ok, ◌>>=◌}
use n_ovl.Section.{Section, s_text, s_data, s_rodata, s_bss, codes, valid_sec, is_rel_name}
use n_ovl.Conv.Sort.{sort_rels}
use n_ovl.Conv.Pass.Placed.{IsPlaced, ArePlaced}
use n_ovl.Conv.Whole.{final_layout, novl_conv}
use n_ovl.Conv.Whole.Loadable.{file_of}
use n_ovl.Conv.Whole.Tests.{
  elf, rel_text, image, image_runs, image_sizes, predicted, predicted_runs, built, built_runs,
  image-Untouched, sections_inside, table_length,
}
use n_ovl.Overlay.RoundTrip.{loaded}
use n_ovl.Main.Listing.{list_relocations}
use n_ovl.Main.Listing.Disassembly.{concat}
use n_ovl.Main.Listing.Relocations.{Listed, AreLinesOf, relocation_list}
use n_ovl.Main.Listing.Table.{list_relocations-novl_conv}

elf_placed : All (ArePlaced (final_layout 0x8010_0000 image predicted.count)) elf.sections
unfolding is_rel_name valid_sec sort_rels image
elf_placed = (λ id e. absurd (cc e), (λ id e named. in_text id named, tt))
  where
    in_text :
        (id : Section)
        → some s_text ≡ some id
        → All
            (λ d.
              All (IsPlaced (final_layout 0x8010_0000 image predicted.count) id) (sort_rels d.rels))
            rel_text.blocks
    in_text s_text e = omega arith
    in_text s_data e = absurd (cc e)
    in_text s_rodata e = absurd (cc e)
    in_text s_bss e = absurd (cc e)

list_relocations-novl_conv_example :
    (lines : List (List ℕ)) × (h : All
      (Listed (loaded image.size built.relocs (file_of 0x8080_0000 image built)))
      built.relocs)
    × ((novl_conv 0x8010_0000 elf >>= list_relocations 0x8010_0000 (codes "a.ovl"))
        ≡ ok (relocation_list (codes "a.ovl") (concat lines)))
    × AreLinesOf 0x8010_0000
        (loaded image.size built.relocs (file_of 0x8080_0000 image built))
        built.relocs
        h
        lines
list_relocations-novl_conv_example =
    list_relocations-novl_conv 0x8010_0000 (codes "a.ovl") elf image predicted built image-Untouched
      image_runs predicted_runs built_runs sections_inside.0 sections_inside.1 sections_inside.2
      refl (omega (arith, table_length, image_sizes)) (omega (arith, table_length, image_sizes))
      elf_placed
