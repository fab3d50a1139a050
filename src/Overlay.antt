-- ===== src/Overlay.antt =====
-- Reading an overlay file, src/overlay.c: the header that the last word points back to, the
-- relocation table behind it, and the sections in front.
mod Tests
pub mod RoundTrip
pub mod Heap
use n_ovl.Base.{
  ℕ, ◌+◌, ◌-◌, ◌*◌, ◌%◌, ◌^◌, ◌≤◌, ◌<◌, List, [], ◌∷◌, Option, none, some, Bool, true, false,
}
use n_ovl.Base.{length, ltb, leb, not, ◌==◌, if◌then◌else◌, ◌&&◌, ◌||◌}
use n_ovl.Base.Word.{u32, add32}
use n_ovl.Base.Exec.{Exec, ok, exit, fault, ◌>>=◌}
use n_ovl.Base.Bytes.{read_word, read_words}
use n_ovl.Section.{Section, s_text, s_data, s_rodata, s_bss}

-- `struct ovl_header_t`: the sizes in the order of the sections, then the number of relocations.
pub record OvlHeader : Type 0 where
  pub size_text : ℕ
  pub size_data : ℕ
  pub size_rodata : ℕ
  pub size_bss : ℕ
  pub relocation_count : ℕ

-- `struct ovl_section_t`; `bytes` is the pointer `data`, as an offset into the file, null for .bss.
pub record OvlSection : Type 0 where
  pub addr : ℕ
  pub size : ℕ
  pub bytes : Option ℕ

-- `struct ovl_t`, with the file's bytes behind its pointer `data`.
pub record Ovl : Type 0 where
  pub sections : List OvlSection
  pub relocation_count : ℕ
  pub contents : List ℕ
  pub relocations : List ℕ

-- Where the header starts. `offset > ovl->filesize` compares `int`s, so that an offset from 2 ^ 31
-- on is a negative number and passes; the pointer then lies behind the file.
unfoldable pub header_position : ℕ → ℕ → Option (Exec ℕ)
header_position filesize offset =
    if (ltb offset (2 ^ 31) && ltb filesize offset) || not (offset % 4 == 0)
    then none
    else some (if ltb offset (2 ^ 31) then ok (filesize - offset) else fault)

-- The words of the header, in the order of the fields of the struct.
abbrev pub header_of : List ℕ → Exec OvlHeader
header_of (text ∷ data_ ∷ rodata ∷ bss ∷ count ∷ []) = ok (record {
  size_text = text;
  size_data = data_;
  size_rodata = rodata;
  size_bss = bss;
  relocation_count = count;
})
header_of _ = fault

-- The header behind the test of the offset.
abbrev pub header_from : List ℕ → Option (Exec ℕ) → Exec (Option (ℕ × OvlHeader))
header_from contents none = ok none
header_from contents (some where_) = do
  ptr ← where_
  words ← read_words contents ptr 5
  h ← header_of words
  ok (some (ptr, h))

-- The result is the position of the header with the header; `none` is the null pointer.
unfoldable pub get_header : List ℕ → Exec (Option (ℕ × OvlHeader))
get_header contents = do
  offset ← (if leb 4 (length contents) then read_word contents (length contents - 4) else fault)
  header_from contents (header_position (length contents) offset)

-- The rounds of `for( i = 0; i < ovl->relocation_count; i++ )`: none if the `int` is negative.
abbrev pub rounds : ℕ → ℕ
rounds count = if ltb count (2 ^ 31) then count else 0

-- The loop over the sections, with the running total of their sizes.
abbrev pub make_sections : OvlHeader → List OvlSection
make_sections h =
    let data_addr = u32 h.size_text in
    let rodata_addr = add32 data_addr h.size_data in
    let bss_addr = add32 rodata_addr h.size_rodata in
    record { addr = 0; size = h.size_text; bytes = some 0 }
    ∷ record { addr = data_addr; size = h.size_data; bytes = some data_addr }
    ∷ record { addr = rodata_addr; size = h.size_rodata; bytes = some rodata_addr }
    ∷ record { addr = bss_addr; size = h.size_bss; bytes = none }
    ∷ []

-- Where `get_header` finds no header, the code frees `ovl` and then reads `ovl->data`.
abbrev pub load_behind : List ℕ → Option (ℕ × OvlHeader) → Exec Ovl
load_behind contents none = fault
load_behind contents (some (ptr, h)) = do
  relocations ← read_words contents (ptr + 5 * 4) (rounds h.relocation_count)
  ok (record {
    sections = make_sections h;
    relocation_count = h.relocation_count;
    contents = contents;
    relocations = relocations;
  })

-- `ovl_load` from the point where the file has been read.
unfoldable pub ovl_load : List ℕ → Exec Ovl
ovl_load contents = do found ← get_header contents; load_behind contents found
