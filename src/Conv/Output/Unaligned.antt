-- ===== src/Conv/Output/Unaligned.antt =====
-- A base address that is not a multiple of 16.
use n_ovl.Base.{ℕ, ◌+◌, ◌*◌, ◌%◌, ◌^◌, ◌≤◌, ◌≡◌, ◌≢◌, refl, arith, List, false}
use n_ovl.Base.{length, All, ◌==◌}
use n_ovl.Base.Exec.{exit}
use n_ovl.Section.{Section, s_bss}
use n_ovl.Reloc.Memory.{Memory}
use n_ovl.Reloc.Target.{Layout, with_starts}
use n_ovl.Conv.Output.{ovl_starts, write_overlay}
use n_ovl.Conv.Output.Contents.{body_size, unpadded, padding, Fits}
use n_ovl.Conv.Output.Written.{front_written}

==_false : (n k : ℕ) → n ≢ k → (n == k) ≡ false
==_false n k ne = ground arith

starts_aligned :
    (base : ℕ) (size : Section → ℕ) (count : ℕ) → ovl_starts base size count s_bss % 16 ≡ 0
unfolding ovl_starts
starts_aligned base size count = omega arith

-- For a base address that is no multiple of 16, with no address of the overlay reaching 2 ^ 32, the
-- file below 2 ^ 31 bytes and no table entry zero, `write_overlay` exits without a file, whatever is in the sections: .bss is
-- placed on a multiple of 16, and the end of the file is not.
pub write_overlay-unaligned :
    (l : Layout) (base elf_ep : ℕ) (m : Memory) (relocs : List ℕ)
    → Fits base l.size (length relocs)
    → body_size l.size + 4 * length relocs + 64 ≤ 2 ^ 31
    → base % 16 ≢ 0
    → All (λ w. w ≢ 0) relocs
    → write_overlay
        (with_starts l (ovl_starts base l.size (length relocs)))
        base
        elf_ep
        m
        relocs
        (length relocs)
      ≡ exit
unfolding write_overlay
write_overlay-unaligned l base elf_ep m relocs fits small unaligned nonzero =
    rw
      (
        front_written base l.size relocs fits small nonzero,
        ==_false (ovl_starts base l.size (length relocs) s_bss)
            (unpadded l.size (length relocs) + padding l.size (length relocs) + 4 + base)
            (λ e. unaligned (
              omega (
                arith,
                e,
                starts_aligned base l.size (length relocs),
                file_aligned l.size (length relocs),
              ))),
      )
      refl
  where
    file_aligned :
        (size : Section → ℕ) (count : ℕ) → (unpadded size count + padding size count + 4) % 16 ≡ 0
    file_aligned size count = ground arith
