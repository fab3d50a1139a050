-- ===== src/Main/Listing/Whole.antt =====
-- The disassembly of a whole file: the sections behind one another.
use n_ovl.Base.{
  ℕ, ◌+◌, ◌-◌, ◌*◌, ◌%◌, ◌^◌, ◌≤◌, ◌<◌, ◌≡◌, refl, ap, ◌∙◌, inl, inr, arith, List, [], ◌∷◌, ◌++◌,
  Bool, true, false,
}
use n_ovl.Base.{
  length, get_elem?, length-append, get_elem?-append-left, get_elem?-append-right, ltb, Bool-cases,
}
use n_ovl.Base.Word.{u32, add32, IsU32}
use n_ovl.Base.Exec.{ok}
use n_ovl.Section.{codes}
use n_ovl.Overlay.{OvlHeader, Ovl, make_sections, ovl_load}
use n_ovl.Printer.Conf.{Conf}
use n_ovl.Main.Listing.{code_lines, words_of_size, code_header, disassemble_file}
use n_ovl.Main.Listing.Disassembly.{concat, IsLine, IsLine-at, code_lines-IsLine}

module _ (conf : Conf) (raw : Bool) (contents : List ℕ) where
  -- The lines for the words from a position on, at the addresses from an address on.
  abbrev pub AreLines : ℕ → ℕ → List (List ℕ) → Type 0
  AreLines pos addr lines =
      (k : ℕ)
      → k < length lines
      → IsLine conf raw contents (pos + 4 * k) (u32 (addr + 4 * k)) (get_elem? lines k)

  AreLines-at :
      (p q a b : ℕ) (lines : List (List ℕ))
      → p ≡ q
      → a ≡ b
      → AreLines p a lines
      → AreLines q b lines
  AreLines-at p q a b lines e f x = rw (← e, ← f) x

  AreLines-append :
      (pos addr : ℕ) (xs ys : List (List ℕ))
      → AreLines pos addr xs
      → AreLines (pos + 4 * length xs) (u32 (addr + 4 * length xs)) ys
      → AreLines pos addr (xs ++ ys)
  AreLines-append pos addr xs ys hx hy k h = elim (Bool-cases (ltb k (length xs))) [
    | inl e ↦ rw (get_elem?-append-left xs ys k (ground (arith, e))) (hx k (ground (arith, e)))
    | inr e ↦ behind (k - length xs) (ground (arith, e)) (ground (arith, e, h, length-append xs ys))
  ]
    where
      behind :
          (j : ℕ)
          → k ≡ length xs + j
          → j < length ys
          → IsLine conf raw contents (pos + 4 * k) (u32 (addr + 4 * k)) (get_elem? (xs ++ ys) k)
      behind j e lt =
          rw (e, get_elem?-append-right xs ys j)
            (IsLine-at conf raw contents _ _ _ _ (get_elem? ys j) (omega arith) (omega arith)
              (hy j lt))

  sized_words : (size : ℕ) → size < 2 ^ 31 → size % 4 ≡ 0 → 4 * words_of_size size ≡ size
  sized_words size small fours = ground (arith, small, fours)

  -- The text of a section behind its header: a line for each of its words.
  section_lines_of :
      conf.spacing ≤ 100
      → (size pos addr : ℕ) → size < 2 ^ 31
      → size % 4 ≡ 0
      → pos + size ≤ length contents
      → IsU32 addr
      → (lines : List (List ℕ)) × (code_lines conf raw contents (words_of_size size) pos addr
          ≡ ok (concat lines, u32 (addr + size)))
        × (4 * length lines ≡ size)
        × AreLines pos addr lines
  section_lines_of room size pos addr small fours inside a =
      let words = sized_words size small fours in
      let (lines, run, len, each) =
        code_lines-IsLine conf raw contents room (words_of_size size) pos addr
          (omega (arith, words)) a in
      (
        lines,
        run ∙ ap (λ (b : ℕ). ok (concat lines, b)) (omega (arith, words)),
        omega (arith, words, len),
        λ k lt. each k (omega (arith, len)),
      )

-- The text of a file: a header and the lines for each of the sections.
abbrev pub listed : List ℕ → List (List ℕ × List (List ℕ)) → List ℕ
listed filename [] = []
listed filename ((name, lines) ∷ rest) =
    code_header filename name ++ (concat lines ++ listed filename rest)

module _ (conf : Conf) (raw : Bool) (base : ℕ) (filename contents : List ℕ) (h : OvlHeader)
    (room : conf.spacing ≤ 100) (base_word : IsU32 base)
    (inside : h.size_text + h.size_data + h.size_rodata ≤ length contents)
    (small : h.size_text + h.size_data + h.size_rodata < 2 ^ 31)
    (fours : (h.size_text % 4 ≡ 0) × (h.size_data % 4 ≡ 0) × (h.size_rodata % 4 ≡ 0)) where
  text_lines :
      (t : List (List ℕ)) × (code_lines conf raw contents (words_of_size h.size_text) 0 base
        ≡ ok (concat t, u32 (base + h.size_text)))
      × (4 * length t ≡ h.size_text)
      × AreLines conf raw contents 0 base t
  text_lines =
      section_lines_of conf raw contents room h.size_text 0 base (omega (arith, small)) fours.0
        (omega (arith, inside)) base_word

  -- The code of .text alone.
  pub disassemble_text :
      (o : Ovl)
      → ovl_load contents ≡ ok o
      → o.sections ≡ make_sections h
      → o.contents ≡ contents
      → (t : List (List ℕ)) × (disassemble_file conf raw base filename contents false
          ≡ ok (listed filename ((codes ".text", t) ∷ [])))
        × (4 * length t ≡ h.size_text)
        × AreLines conf raw contents 0 base t
  unfolding disassemble_file
  disassemble_text o is_o is_s is_c =
      let (t, run, len, each) = text_lines in (t, rw (is_o, is_s, is_c, run) refl, len, each)

  -- All sections that are in the file.
  pub disassemble_all :
      (o : Ovl)
      → ovl_load contents ≡ ok o
      → o.sections ≡ make_sections h
      → o.contents ≡ contents
      → (t d r : List (List ℕ)) × (disassemble_file conf raw base filename contents true
          ≡ ok (
              listed filename
                ((codes ".text", t) ∷ (codes ".data", d) ∷ (codes ".rodata", r) ∷ [])))
        × (4 * length t ≡ h.size_text)
        × (4 * length d ≡ h.size_data)
        × (4 * length r ≡ h.size_rodata)
        × AreLines conf raw contents 0 base (t ++ (d ++ r))
  unfolding disassemble_file
  disassemble_all o is_o is_s is_c =
      let (t, run_t, len_t, each_t) = text_lines in
      let (d, run_d, len_d, each_d) =
        section_lines_of conf raw contents room h.size_data (u32 h.size_text)
          (u32 (base + h.size_text)) (omega (arith, small)) fours.1 (omega (arith, inside, small))
          (omega arith) in
      let (r, run_r, len_r, each_r) =
        section_lines_of conf raw contents room h.size_rodata (add32 (u32 h.size_text) h.size_data)
          (u32 (u32 (base + h.size_text) + h.size_data)) (omega (arith, small)) fours.2
          (omega (arith, inside, small)) (omega arith) in
      (
        t,
        d,
        r,
        rw (is_o, is_s, is_c, run_t, run_d, run_r) refl,
        len_t,
        len_d,
        len_r,
        AreLines-append conf raw contents 0 base t (d ++ r) each_t (
            AreLines-append conf raw contents _ _ d r
              (AreLines-at conf raw contents _ _ _ _ d (omega (arith, len_t, small))
                (omega (arith, len_t)) each_d)
              (AreLines-at conf raw contents _ _ _ _ r (omega (arith, len_t, len_d, small))
                (omega (arith, len_t, len_d)) each_r)),
      )
