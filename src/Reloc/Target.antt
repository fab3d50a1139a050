-- ===== src/Reloc/Target.antt =====
-- `get_target_section` and `adjust_address` of src/novl-reloc.c.
pub mod Bounds
use n_ovl.Base.{ℕ, ◌+◌, ◌-◌, ◌%◌, ◌≡◌, List, [], ◌∷◌, Option, none, some, Bool, true, false, not}
use n_ovl.Base.{ltb, leb, ◌==◌, if◌then◌else◌, ◌&&◌, ◌||◌}
use n_ovl.Base.Word.{u32, add32, sub32}
use n_ovl.Section.{Section, s_text, s_data, s_rodata, s_bss, all_sections}

-- The arrays `elf_starts`, `ovl_starts` and `sizes`.
pub record Layout : Type 0 where
  pub elf_start : Section → ℕ
  pub ovl_start : Section → ℕ
  pub size : Section → ℕ

-- The same arrays with other `ovl_starts`.
abbrev pub with_starts : Layout → (Section → ℕ) → Layout
with_starts l starts = record l { ovl_start = starts }

-- What a handler returns: FALSE, NOVL_RELOC_FAIL, NOVL_RELOC_SUCCESS and
-- NOVL_RELOC_FAIL_DONTDELETEHI.
pub data Outcome : Type 0 where
  error fail success fail_dont_delete_hi : Outcome

-- The sum wraps, as it does in `uint32_t`.
unfoldable pub outside : Layout → ℕ → Section → Bool
outside l address i = ltb address (l.elf_start i) || leb (add32 (l.elf_start i) (l.size i)) address

unfoldable pub first_holding : Layout → ℕ → List Section → Option Section
unfolding outside
first_holding l address [] = none
first_holding l address (i ∷ is) =
    if outside l address i then first_holding l address is else some i

-- `none` is the result -1.
unfoldable pub get_target_section : Layout → ℕ → Option Section
unfolding first_holding
get_target_section l address = first_holding l address all_sections

abbrev pub is_text : Section → Bool
is_text s_text = true
is_text s_data = false
is_text s_rodata = false
is_text s_bss = false

-- The address moved by the distance between the section's old and new place.
abbrev pub moved : Layout → Section → ℕ → ℕ
moved l s addr = add32 addr (sub32 (l.ovl_start s) (l.elf_start s))

-- The result, and what `*addr` holds afterwards.
unfoldable pub adjust_address : Layout → ℕ → ℕ → Bool → Outcome × ℕ
adjust_address l addr type dryrun = elim (get_target_section l addr) [
  | none ↦ (fail, addr)
  | some s ↦
      if type == 4 && not (is_text s)
      then (error, addr)
      else if dryrun
      then (success, addr)
      else (success, moved l s addr)
]
