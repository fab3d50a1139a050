-- ===== src/Reloc/DryRun/Checked.antt =====
-- When a dry run of a relocation reports an error, as a test of the relocation, of the word that it
-- is about, and of the registers whose upper half an earlier HI16 set.
pub mod Step
use n_ovl.Base.{
  ℕ, ◌+◌, ◌≤◌, ◌≡◌, refl, sym, ap, ◌∙◌, inl, inr, arith, Option, none, some, Bool, true, false, not,
}
use n_ovl.Base.{◌==◌, if◌then◌else◌, ==_iff, Bool-cases, Option-cases}
use n_ovl.Base.Word.{low_bits, shl32}
use n_ovl.Base.Exec.{Exec, ok}
use n_ovl.Section.{Section}
use n_ovl.Reloc.Memory.{Memory, memory_size, word_at, load-ok}
use n_ovl.Reloc.Target.{
  Layout, Outcome, success, fail, error, fail_dont_delete_hi, is_text, get_target_section,
  adjust_address,
}
use n_ovl.Reloc.Handlers.{
  State, Status, invalid, valid, used, set_pair, set_used, jump_address, hi_register, lo_register,
  finish_word, finish_lo16, mips_32, mips_26, mips_hi16, mips_lo16, reloc_do,
}

-- A jump goes to .text, or out of all sections.
abbrev pub is_jump_target : Option Section → Bool
is_jump_target none = true
is_jump_target (some s) = is_text s

-- The relocation is one that the relocator can do.
unfoldable pub passes : Layout → (ℕ → Bool) → ℕ → ℕ → Bool
passes l seen type w =
    let t = low_bits type 7 in
    if t == 2
    then true
    else if t == 4
    then is_jump_target (get_target_section l (jump_address w))
    else if t == 5
    then true
    else if t == 6
    then seen (lo_register w)
    else false

-- The registers behind it.
unfoldable pub seen_after : (ℕ → Bool) → ℕ → ℕ → ℕ → Bool
seen_after seen type w r =
    if low_bits type 7 == 5 then (if r == hi_register w then true else seen r) else seen r

abbrev pub is_set : Status → Bool
is_set invalid = false
is_set valid = true
is_set used = true

abbrev pub Matches : (ℕ → Bool) → State → Type 0
Matches seen st = (r : ℕ) → is_set (st.pairs r).status ≡ seen r

abbrev pub is_error : Outcome → Bool
is_error error = true
is_error _ = false

-- The answer `o` is no error exactly if `b` says so; the memory stays, and the registers are `seen`.
abbrev pub Answers : Memory → (ℕ → Bool) → Bool → Exec (Outcome × State) → Type 0
Answers m seen b x =
    (o : Outcome) × (st : State) × (x ≡ ok (o, st))
    × (is_error o ≡ not b)
    × (st.memory ≡ m)
    × Matches seen st
