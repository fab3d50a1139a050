-- ===== src/Main/Listing/Disassembly.antt =====
-- The listing of a section's code, line by line.
use n_ovl.Base.{
  ℕ, zero, suc, ◌+◌, ◌*◌, ◌≤◌, ◌<◌, ◌≡◌, refl, ap, arith, List, [], ◌∷◌, ◌++◌, Option, some, Bool,
}
use n_ovl.Base.{length, get_elem?}
use n_ovl.Base.Word.{u32, add32, IsU32}
use n_ovl.Base.Exec.{ok}
use n_ovl.Base.Bytes.{read_word, read_word-ok}
use n_ovl.Printer.Conf.{Conf}
use n_ovl.Decoder.Disassemble.{disassemble}
use n_ovl.Decoder.Safety.{disassemble-Prints}
use n_ovl.Main.Listing.{code_line, code_lines}

unfoldable pub concat : List (List ℕ) → List ℕ
concat [] = []
concat (l ∷ ls) = l ++ concat ls

module _ (conf : Conf) (raw : Bool) (contents : List ℕ) where
  -- The line for the word at a position, at an address.
  abbrev pub IsLine : ℕ → ℕ → Option (List ℕ) → Type 0
  IsLine pos addr line =
      (w : ℕ) × (text : List ℕ) × (read_word contents pos ≡ ok w)
      × (disassemble conf w addr ≡ ok text)
      × (line ≡ some (code_line raw addr w text))

  pub IsLine-at :
      (p q a b : ℕ) (line : Option (List ℕ)) → p ≡ q → a ≡ b → IsLine p a line → IsLine q b line
  IsLine-at p q a b line e f x = rw (← e, ← f) x

  IsLine-later :
      (lines : List (List ℕ)) (line : List ℕ) (n pos addr : ℕ)
      → IsU32 addr
      → IsLine pos addr (some line)
      → ((k : ℕ)
          → k < n
          → IsLine (pos + 4 + 4 * k) (u32 (add32 addr 4 + 4 * k)) (get_elem? lines k))
      → (k : ℕ) → k < suc n
      → IsLine (pos + 4 * k) (u32 (addr + 4 * k)) (get_elem? (line ∷ lines) k)
  IsLine-later lines line n pos addr a first each zero lt =
      IsLine-at pos _ addr _ (some line) (omega arith) (omega (arith, a)) first
  IsLine-later lines line n pos addr a first each (suc k) lt =
      IsLine-at _ _ _ _ (get_elem? lines k) (omega arith) (omega arith) (each k (omega arith))

  pub code_lines-IsLine :
      conf.spacing ≤ 100
      → (n pos addr : ℕ) → pos + 4 * n ≤ length contents
      → IsU32 addr
      → (lines : List (List ℕ)) × (code_lines conf raw contents n pos addr
          ≡ ok (concat lines, u32 (addr + 4 * n)))
        × (length lines ≡ n)
        × ((k : ℕ) → k < n → IsLine (pos + 4 * k) (u32 (addr + 4 * k)) (get_elem? lines k))
  unfolding code_lines concat
  code_lines-IsLine room zero pos addr h a =
      ([], ap (λ (b : ℕ). ok ([], b)) (omega (arith, a)), refl, λ k lt. absurd (omega arith))
  code_lines-IsLine room (suc n) pos addr h a =
      let (w, read) = read_word-ok contents pos (omega arith) in
      let (text, shown, _) = disassemble-Prints conf w addr room in
      let line = code_line raw addr w text in
      let (lines, run, len, each) =
        code_lines-IsLine room n (pos + 4) (add32 addr 4) (omega arith) (omega arith) in
      (
        line ∷ lines,
        rw (read, shown, run) (ap (λ (b : ℕ). ok (line ++ concat lines, b)) (omega arith)),
        ap suc len,
        IsLine-later lines line n pos addr a (w, text, read, shown, refl) each,
      )
