-- ===== src/Conv/Pass/Tests.antt =====
-- A HI16 relocation whose LO16 is skipped, at the start of .text.
use n_ovl.Base.{◌≡◌, refl, inl, arith, [], ◌∷◌, ◌++◌, none}
use n_ovl.Base.Exec.{ok, ◌>>=◌}
use n_ovl.Section.{s_text}
use n_ovl.Reloc.Memory.{zeroed}
use n_ovl.Reloc.Target.{Layout, success, fail}
use n_ovl.Reloc.Handlers.{invalid}
use n_ovl.Conv.Elf.{Rel}
use n_ovl.Conv.Pass.{Build, entry_of, finish_rel}
use n_ovl.Conv.Pass.Deletion.{IsTail}
use n_ovl.Conv.Pass.Skipped.{finish_rel-skipped}

abbrev layout : Layout
layout = record { elf_start = λ s. 0x8080_0000; ovl_start = λ s. 0x8010_0000; size = λ s. 0x20 }

abbrev hi : Rel
hi = record { r_offset = 0x8080_0000; r_info = 5 }

abbrev other : Rel
other = record { r_offset = 0x8080_0004; r_info = 2 }

abbrev lo : Rel
lo = record { r_offset = 0x8080_0008; r_info = 6 }

abbrev start : Build
start = record {
  state = record { memory = zeroed; pairs = λ r. record { ptr = none; reg = 0; status = invalid } };
  relocs = [];
  last = none;
  count = 0;
}

start-IsTail : IsTail start 0
start-IsTail = record {
  within = omega arith;
  at_end = λ pos. absurd (omega arith);
  or_end = inl refl;
  counted = refl;
}

finish_rel-skipped_example :
    ((b' : Build) × ((finish_rel success layout s_text start hi >>= λ b₁.
    finish_rel fail layout s_text b₁ lo)
        ≡ ok b')
      × (b'.relocs ≡ []))
    × ((b' : Build) × ((finish_rel success layout s_text start hi >>= λ b₁.
            finish_rel success layout s_text b₁ other >>= λ b₂. finish_rel fail layout s_text b₂ lo)
          ≡ ok b')
        × (b'.relocs ≡ [] ++ (entry_of layout s_text hi ∷ [])))
finish_rel-skipped_example = finish_rel-skipped layout s_text start 0 hi other lo start-IsTail refl
