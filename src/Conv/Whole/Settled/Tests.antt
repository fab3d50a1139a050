-- ===== src/Conv/Whole/Settled/Tests.antt =====
-- The small ELF file of the other tests as a convertible one, and one that is refused.
use n_ovl.Reloc.Fixed.{AreHeld, jump_word}
use n_ovl.Reloc.Handlers.{jump_address}
use n_ovl.Reloc.Target.{Layout, moved}
use n_ovl.Conv.Output.{ovl_starts}
use n_ovl.Conv.Pass.Jumps.{build-jump}
use n_ovl.Base.{◌∷◌, some}
use n_ovl.Section.{s_text}
use n_ovl.Reloc.DryRun.States.{IsFresh}
use n_ovl.Conv.Pass.Agreement.{touch}
use n_ovl.Conv.Pass.Relocated.{file_fixed, build-relocated}
use n_ovl.Base.{[], ℕ, ◌≡◌, ◌^◌, ◌≤◌, refl, inl, inr, arith, true, length}
use n_ovl.Base.{All}
use n_ovl.Section.{valid_sec, is_rel_name}
use n_ovl.Reloc.Target.{get_target_section}
use n_ovl.Reloc.DryRun.Checked.{passes, seen_after}
use n_ovl.Reloc.Memory.{word_at}
use n_ovl.Conv.Load.{put_bytes}
use n_ovl.Conv.Load.Settled.{IsLoadable, sections_accept}
use n_ovl.Conv.Sort.{sort_rels}
use n_ovl.Conv.Pass.{goes_on}
use n_ovl.Conv.Pass.Counts.{file_words}
use n_ovl.Conv.Pass.Checked.{InMemory, file_passes}
use n_ovl.Conv.Whole.{final_layout}
use n_ovl.Conv.Whole.Settled.{IsConvertible, Settled, converts}
use n_ovl.Conv.Whole.Tests.{elf, image, predicted, built, built_runs, image-Untouched}

elf-IsLoadable : All (IsLoadable 0x8080_0000) elf.sections
unfolding valid_sec
elf-IsLoadable = (
  inr (omega arith, omega arith, inl (refl, refl, ((omega arith, omega arith), tt))),
  (inl refl, tt),
)

elf_inside : All InMemory (file_words 0x8080_0000 elf.sections)
unfolding file_words sort_rels is_rel_name valid_sec goes_on
elf_inside = omega arith

elf_few : length (file_words 0x8080_0000 elf.sections) ≤ 2 ^ 20
unfolding file_words sort_rels is_rel_name valid_sec goes_on
elf_few = omega arith

pub elf-IsConvertible : IsConvertible 0x8010_0000 elf
elf-IsConvertible = record {
  aligned = refl;
  room = omega arith;
  loadable = elf-IsLoadable;
  apart = image-Untouched;
  inside = elf_inside;
  few = elf_few;
}

elf-converts : converts elf image ≡ true
unfolding sections_accept file_passes passes seen_after image sort_rels word_at put_bytes
    get_target_section is_rel_name valid_sec
elf-converts = refl

build-relocated_example :
    AreHeld built.state.memory (
      file_fixed
        (final_layout 0x8010_0000 image predicted.count)
        0x8080_0000
        predicted.state.memory
        elf.sections
        [])
    × ((q : ℕ)
        → IsFresh q (touch [] (file_words 0x8080_0000 elf.sections))
        → word_at built.state.memory q ≡ word_at predicted.state.memory q)
build-relocated_example =
    build-relocated (final_layout 0x8010_0000 image predicted.count) 0x8080_0000 predicted.state
      elf.sections built image-Untouched built_runs

-- The third relocation, of the jump at 8, is the only one that `file_fixed` has a word for.
abbrev layout : Layout
layout = final_layout 0x8010_0000 image predicted.count

only_jump :
    file_fixed layout 0x8080_0000 predicted.state.memory elf.sections []
    ≡ (8, jump_word layout (word_at predicted.state.memory 8)) ∷ []
unfolding file_fixed sort_rels is_rel_name valid_sec goes_on
only_jump = refl

jump_there :
    (word_at predicted.state.memory 8 ≡ 0x0C20_0000)
    × (get_target_section layout 0x8080_0000 ≡ some s_text)
    × (moved layout s_text 0x8080_0000 ≡ 0x8010_0000)
unfolding predicted word_at get_target_section ovl_starts
jump_there = (refl, refl, refl)

build-jump_example :
    jump_address (word_at built.state.memory 8)
    ≡ moved layout s_text (jump_address (word_at predicted.state.memory 8))
build-jump_example =
    build-jump layout 0x8080_0000 predicted.state elf.sections built 8 [] [] image-Untouched
      built_runs only_jump (omega (arith, jump_there.0)) (rw jump_there.0 jump_there.1)
      (rw (jump_there.0, jump_there.2) (omega arith))
      (rw (jump_there.0, jump_there.2) (omega arith)) (rw (jump_there.0, jump_there.2) refl)
