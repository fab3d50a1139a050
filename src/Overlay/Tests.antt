-- ===== src/Overlay/Tests.antt =====
-- The same overlay, written and loaded again.
use n_ovl.Base.{ℕ, suc, ◌+◌, ◌≡◌, refl, arith, List, [], ◌∷◌, ◌++◌, true, leb}
use n_ovl.Base.Exec.{ok, ◌>>=◌}
use n_ovl.Section.{Section, s_text, s_data, s_rodata, s_bss}
use n_ovl.Reloc.Memory.{Memory, memory_size, zeroed, put_word}
use n_ovl.Reloc.Target.{Layout, with_starts}
use n_ovl.Conv.Output.{ovl_starts, bytes_from, read_image, write_overlay}
use n_ovl.Conv.Output.Contents.{trailer}
use n_ovl.Overlay.{ovl_load}
use n_ovl.Overlay.RoundTrip.{loaded, ovl_load-write_overlay}

abbrev size : Section → ℕ
size s_text = 0x10
size s_data = 0x8
size s_rodata = 0
size s_bss = 0x40

abbrev elf_start : Section → ℕ
elf_start s_text = 0x8080_0000
elf_start s_data = 0x8080_0010
elf_start s_rodata = 0x8080_0018
elf_start s_bss = 0x8080_0018

abbrev layout : Layout
layout = record { elf_start = elf_start; ovl_start = elf_start; size = size }

abbrev image : Memory
image = put_word (put_word zeroed 0 0x3C08_8080) 16 0x0102_0304

abbrev relocs : List ℕ
relocs = 0x4500_0000 ∷ 0x8200_0004 ∷ []

read :
    (offset n : ℕ)
    → leb (offset + suc n) memory_size ≡ true
    → read_image image offset (suc n) ≡ ok (bytes_from image offset (suc n))
unfolding read_image
read offset n h = rw h refl

read_none : (offset : ℕ) → read_image image offset 0 ≡ ok []
unfolding read_image
read_none offset = refl

ovl_load-write_overlay_example :
    (write_overlay
        (with_starts layout (ovl_starts 0x8010_0000 size 2))
        0x8010_0000
        0x8080_0000
        image
        relocs
        2
      >>= ovl_load)
    ≡ ok (
        loaded size relocs
          (bytes_from image 0 0x10 ++ (bytes_from image 0x10 8 ++ ([] ++ trailer size relocs))))
ovl_load-write_overlay_example =
    ovl_load-write_overlay layout 0x8010_0000 0x8080_0000 image relocs (bytes_from image 0 0x10)
      (bytes_from image 0x10 8) [] (omega arith) refl refl (omega arith) (omega arith)
      ((omega arith), ((omega arith), tt)) ((omega arith), ((omega arith), tt)) (read 0 15 refl)
      (read 0x10 7 refl) (read_none 0x18)
