-- ===== src/Section.antt =====
-- The four sections of an overlay (`enum OvlSections`, src/overlay.h), what is kept for each of
-- them, and the test that a section's name is one of theirs (`valid_sec`, src/novl-conv.c).
use Prim.Native.Char.{code}
use Prim.Native.String.{String}
use n_ovl.Base.{ℕ, List, [], ◌∷◌, Option, none, some, Bool, true, false, ◌==◌, if◌then◌else◌, ◌&&◌}

-- `OVL_S_COUNT` is the length of `all_sections`.
pub data Section : Type 0 where
  s_text s_data s_rodata s_bss : Section

abbrev pub all_sections : List Section
all_sections = s_text ∷ s_data ∷ s_rodata ∷ s_bss ∷ []

-- The array index that the enumeration gives.
abbrev pub index : Section → ℕ
index s_text = 0
index s_data = 1
index s_rodata = 2
index s_bss = 3

-- A name is the list of its characters' codes, without the terminating zero.
abbrev pub codes : String → List ℕ
codes String.[] = []
codes (String.◌∷◌ c s) = code c ∷ codes s

-- `section_names`
abbrev pub section_name : Section → List ℕ
section_name s_text = codes ".text"
section_name s_data = codes ".data"
section_name s_rodata = codes ".rodata"
section_name s_bss = codes ".bss"

-- `!strncmp(s, prefix, strlen(prefix))`
unfoldable pub has_prefix : List ℕ → List ℕ → Bool
has_prefix s [] = true
has_prefix [] (p ∷ ps) = false
has_prefix (c ∷ s) (p ∷ ps) = c == p && has_prefix s ps

first_section : List Section → List ℕ → Option Section
first_section [] s = none
first_section (id ∷ ids) s = if has_prefix s (section_name id) then some id else first_section ids s

-- `none` is the result -1.
unfoldable pub valid_sec : List ℕ → Option Section
unfolding first_section has_prefix
valid_sec s = first_section all_sections s

-- `!strncmp(".rel.", name, 4)`: only four characters are compared.
unfoldable pub is_rel_name : List ℕ → Bool
unfolding has_prefix
is_rel_name name = has_prefix name (codes ".rel")
