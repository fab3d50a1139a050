-- ===== src/Reloc/Target/Bounds.antt =====
-- Which section an address belongs to, and where `adjust_address` moves it.
use n_ovl.Base.{ℕ, ◌+◌, ◌-◌, ◌^◌, ◌≤◌, ◌<◌, ◌≡◌, ◌≢◌, ◌↔◌, arith, List, [], ◌∷◌, some, none}
use n_ovl.Base.{true, false, inl, inr, Bool-cases, Option-cases, All, ap, ◌∙◌}
use n_ovl.Section.{Section, s_text, s_data, s_rodata, s_bss, all_sections}
use n_ovl.Reloc.Target.{
  Layout, success, outside, first_holding, get_target_section, adjust_address, moved,
}

-- The half-open range that a section covers in the ELF file.
abbrev pub Holds : Layout → ℕ → Section → Type 0
Holds l a s = (l.elf_start s ≤ a) × (a < l.elf_start s + l.size s)

-- The end of every section is a 32-bit address, and no address lies in two sections.
pub record IsSeparate (l : Layout) : Type 0 where
  pub no_wrap : (s : Section) → l.elf_start s + l.size s < 2 ^ 32
  pub apart : (s t : Section) (a : ℕ) → Holds l a s → Holds l a t → s ≡ t

Holds-outside :
    (l : Layout) (a : ℕ) (s : Section)
    → l.elf_start s + l.size s < 2 ^ 32
    → Holds l a s
    → outside l a s ≡ false
unfolding outside
Holds-outside l a s w h = ground arith

outside-Holds :
    (l : Layout) (a : ℕ) (s : Section)
    → l.elf_start s + l.size s < 2 ^ 32
    → outside l a s ≡ false
    → Holds l a s
unfolding outside
outside-Holds l a s w h = ground arith

first_holding-some :
    (l : Layout) (a : ℕ) (ss : List Section) (s : Section)
    → first_holding l a ss ≡ some s
    → outside l a s ≡ false
unfolding first_holding
first_holding-some l a [] s e = cc
first_holding-some l a (i ∷ is) s e = elim (Bool-cases (outside l a i)) [
  | inl out ↦ first_holding-some l a is s (rw out at e)
  | inr in' ↦ ground (arith, in')
]

first_holding-none :
    (l : Layout) (a : ℕ) (ss : List Section)
    → first_holding l a ss ≡ none
    → All (λ s. outside l a s ≡ true) ss
unfolding first_holding
first_holding-none l a [] e = tt
first_holding-none l a (i ∷ is) e = elim (Bool-cases (outside l a i)) [
  | inl out ↦ (out, first_holding-none l a is (rw out at e))
  | inr in' ↦ ground (arith, in')
]

none-outside :
    (l : Layout) (a : ℕ) (s : Section) → get_target_section l a ≡ none → outside l a s ≡ true
unfolding get_target_section
none-outside l a s_text e = (first_holding-none l a all_sections e).0
none-outside l a s_data e = (first_holding-none l a all_sections e).1.0
none-outside l a s_rodata e = (first_holding-none l a all_sections e).1.1.0
none-outside l a s_bss e = (first_holding-none l a all_sections e).1.1.1.0

some-Holds :
    {l : Layout} {a : ℕ} {s : Section}
    → IsSeparate l
    → get_target_section l a ≡ some s
    → Holds l a s
unfolding get_target_section
some-Holds {l} {a} {s} sep e =
    outside-Holds l a s (sep.no_wrap s) (first_holding-some l a all_sections s e)

-- When no section wraps round and no two overlap, the section found for an address is exactly the
-- one whose range holds it.
pub get_target_section_iff :
    (l : Layout) (a : ℕ) (s : Section)
    → IsSeparate l
    → (get_target_section l a ≡ some s) ↔ Holds l a s
get_target_section_iff l a s sep = (
  some-Holds sep,
  λ h. elim (Option-cases (get_target_section l a)) [
    | inl e ↦ absurd (cc (none-outside l a s e, Holds-outside l a s (sep.no_wrap s) h))
    | inr (t, e) ↦ e ∙ ap some (sep.apart t s a (some-Holds sep e) h)
  ],
)

-- Moving an address that lies in a section keeps its distance to the section's start, when the
-- section's new range has 32-bit addresses too.
pub moved-eq :
    (l : Layout) (a : ℕ) (s : Section)
    → Holds l a s
    → l.elf_start s + l.size s < 2 ^ 32
    → l.ovl_start s + l.size s ≤ 2 ^ 32
    → moved l s a ≡ l.ovl_start s + (a - l.elf_start s)
moved-eq l a s h w w' = omega arith

-- A relocation of any type but 4 (a jump) moves an address that lies in some section.
pub adjust_address-moved :
    (l : Layout) (a type : ℕ) (s : Section)
    → get_target_section l a ≡ some s
    → type ≢ 4
    → adjust_address l a type false ≡ (success, moved l s a)
unfolding adjust_address
adjust_address-moved l a type s e h = rw (e, adjust_address) (ground arith)
