-- ===== src/Conv/Whole.antt =====
-- `novl_conv` from the point where libelf has the file open, to the bytes of the written file.
pub mod Tests
pub mod Loadable
pub mod Words
pub mod Settled
use n_ovl.Base.{ℕ, ◌+◌, ◌≡◌, List, [], ◌∷◌, none, true, false, ◌==◌, if◌then◌else◌}
use n_ovl.Base.Word.{u32}
use n_ovl.Base.Exec.{Exec, ok, exit, fault, ◌>>=◌}
use n_ovl.Section.{Section}
use n_ovl.Reloc.Memory.{Memory}
use n_ovl.Reloc.Target.{Layout, with_starts}
use n_ovl.Reloc.Handlers.{State, HiloPair, invalid}
use n_ovl.Conv.Elf.{Elf}
use n_ovl.Conv.Load.{Loaded, load_sections}
use n_ovl.Conv.Pass.{Prediction, predict, Build, build}
use n_ovl.Conv.Output.{ovl_starts, write_overlay}

-- The arrays behind the loop over the sections; `ovl_starts` is still zero.
abbrev pub layout_of : Loaded → Layout
layout_of ld = record { elf_start = ld.elf_start; ovl_start = λ s. 0; size = ld.size }

-- The static variables as the first pass finds them.
abbrev pub state_of : Memory → State
state_of m = record { memory = m; pairs = λ r. record { ptr = none; reg = 0; status = invalid } }

-- The layout of the second pass.
abbrev pub final_layout : ℕ → Loaded → ℕ → Layout
final_layout base ld count = with_starts (layout_of ld) (ovl_starts base ld.size count)

-- `settings.base_addr` is `base`.
unfoldable pub novl_conv : ℕ → Elf → Exec (List ℕ)
novl_conv base elf = do
  let elf_ep = u32 elf.e_entry
  ld ← load_sections elf_ep elf.sections
  p ← predict (layout_of ld) elf_ep (state_of ld.memory) elf.sections
  b ← build (final_layout base ld p.count) elf_ep p.state elf.sections
  (if p.count == b.count
      then write_overlay (final_layout base ld p.count) base elf_ep b.state.memory b.relocs b.count
      else exit)
