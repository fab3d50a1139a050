-- ===== src/Conv/Output/Tests.antt =====
-- An overlay with two table entries, written to a file.
use n_ovl.Base.{ℕ, suc, ◌+◌, ◌≡◌, refl, arith, List, [], ◌∷◌, ◌++◌, true, leb}
use n_ovl.Base.Exec.{ok, exit}
use n_ovl.Section.{Section, s_text, s_data, s_rodata, s_bss}
use n_ovl.Reloc.Memory.{Memory, memory_size, zeroed, put_word}
use n_ovl.Reloc.Target.{Layout, with_starts}
use n_ovl.Conv.Output.{ovl_starts, bytes_from, read_image, write_overlay}
use n_ovl.Conv.Output.Contents.{trailer}
use n_ovl.Conv.Output.Written.{write_overlay-contents}
use n_ovl.Conv.Output.Unaligned.{write_overlay-unaligned}

abbrev size : Section → ℕ
size s_text = 0x10
size s_data = 0x8
size s_rodata = 0
size s_bss = 0x40

abbrev elf_start : Section → ℕ
elf_start s_text = 0x8080_0000
elf_start s_data = 0x8080_0010
elf_start s_rodata = 0x8080_0018
elf_start s_bss = 0x8080_0018

abbrev layout : Layout
layout = record { elf_start = elf_start; ovl_start = elf_start; size = size }

abbrev image : Memory
image = put_word (put_word zeroed 0 0x3C08_8080) 16 0x0102_0304

abbrev relocs : List ℕ
relocs = 0x4500_0000 ∷ 0x8200_0004 ∷ []

read :
    (offset n : ℕ)
    → leb (offset + suc n) memory_size ≡ true
    → read_image image offset (suc n) ≡ ok (bytes_from image offset (suc n))
unfolding read_image
read offset n h = rw h refl

read_none : (offset : ℕ) → read_image image offset 0 ≡ ok []
unfolding read_image
read_none offset = refl

write_overlay-contents_example :
    write_overlay
      (with_starts layout (ovl_starts 0x8010_0000 size 2))
      0x8010_0000
      0x8080_0000
      image
      relocs
      2
    ≡ ok (bytes_from image 0 0x10 ++ (bytes_from image 0x10 8 ++ ([] ++ trailer size relocs)))
write_overlay-contents_example =
    write_overlay-contents layout 0x8010_0000 0x8080_0000 image relocs (bytes_from image 0 0x10)
      (bytes_from image 0x10 8) [] (omega arith) (omega arith) refl
      ((omega arith), ((omega arith), tt)) (read 0 15 refl) (read 0x10 7 refl) (read_none 0x18)

write_overlay-unaligned_example :
    write_overlay
      (with_starts layout (ovl_starts 0x8010_0008 size 2))
      0x8010_0008
      0x8080_0000
      image
      relocs
      2
    ≡ exit
write_overlay-unaligned_example =
    write_overlay-unaligned layout 0x8010_0008 0x8080_0000 image relocs (omega arith) (omega arith)
      (omega arith) ((omega arith), ((omega arith), tt))
