-- ===== src/Base/Bytes.antt =====
-- Big-endian words in a sequence of bytes, as `g_htonl` and `g_ntohl` make and read them.
use Prim.Native.Nat.{ℕ, zero, suc, ◌+◌, ◌*◌, ◌/◌, ◌%◌, ◌^◌, ◌≤◌}
use mathlib.Core.Path.{◌≡◌, refl, ap, ◌∙◌}
use mathlib.Core.List.{List, [], ◌∷◌, ◌++◌, append_assoc}
use native.Mathlib.Omega.{arith}
use n_ovl.Base.Lists.{All, length, drop, length-append, length-drop, drop-length-append}
use n_ovl.Base.Word.{IsU32}
use n_ovl.Base.Exec.{Exec, ok, fault, ◌>>=◌}

unfoldable pub be_bytes : ℕ → List ℕ
be_bytes w = w / 2 ^ 24 % 2 ^ 8 ∷ w / 2 ^ 16 % 2 ^ 8 ∷ w / 2 ^ 8 % 2 ^ 8 ∷ w % 2 ^ 8 ∷ []

abbrev first_word : List ℕ → Exec ℕ
first_word (a ∷ b ∷ c ∷ d ∷ rest) = ok (a * 2 ^ 24 + b * 2 ^ 16 + c * 2 ^ 8 + d)
first_word _ = fault

-- The word at a position; one that ends behind the last byte is not there.
unfoldable pub read_word : List ℕ → ℕ → Exec ℕ
read_word xs pos = first_word (drop pos xs)

-- A run of words, and its bytes.
unfoldable pub words_bytes : List ℕ → List ℕ
words_bytes [] = []
words_bytes (w ∷ ws) = be_bytes w ++ words_bytes ws

unfoldable pub read_words : List ℕ → ℕ → ℕ → Exec (List ℕ)
unfolding read_word
read_words xs pos zero = ok []
read_words xs pos (suc n) = do w ← read_word xs pos; ws ← read_words xs (pos + 4) n; ok (w ∷ ws)

pub length-be_bytes : (w : ℕ) → length (be_bytes w) ≡ 4
unfolding be_bytes
length-be_bytes w = refl

pub length-words_bytes : (ws : List ℕ) → length (words_bytes ws) ≡ 4 * length ws
unfolding words_bytes
length-words_bytes [] = refl
length-words_bytes (w ∷ ws) =
    length-append (be_bytes w) (words_bytes ws)
    ∙ omega (arith, length-be_bytes w, length-words_bytes ws)

pub read_word-append :
    (xs ys : List ℕ) (w pos : ℕ)
    → IsU32 w
    → pos ≡ length xs
    → read_word (xs ++ (be_bytes w ++ ys)) pos ≡ ok w
unfolding read_word be_bytes
read_word-append xs ys w pos h e =
    rw (e, drop-length-append xs (be_bytes w ++ ys)) (ap ok (omega arith))

read_words-suc :
    (xs : List ℕ) (pos n w : ℕ) (ws : List ℕ)
    → read_word xs pos ≡ ok w
    → read_words xs (pos + 4) n ≡ ok ws
    → read_words xs pos (suc n) ≡ ok (w ∷ ws)
unfolding read_words
read_words-suc xs pos n w ws e e' = rw (e, e')

pub read_words-append :
    (ws xs ys : List ℕ) (pos : ℕ)
    → All IsU32 ws
    → pos ≡ length xs
    → read_words (xs ++ (words_bytes ws ++ ys)) pos (length ws) ≡ ok ws
unfolding read_words words_bytes
read_words-append [] xs ys pos h e = refl
read_words-append (w ∷ ws) xs ys pos h e =
    read_words-suc _ pos (length ws) w ws
      (rw (append_assoc (be_bytes w) (words_bytes ws) ys)
        (read_word-append xs (words_bytes ws ++ ys) w pos h.0 e))
      (rw
        (
          append_assoc (be_bytes w) (words_bytes ws) ys,
          ← append_assoc xs (be_bytes w) (words_bytes ws ++ ys),
        )
        (read_words-append ws (xs ++ be_bytes w) ys (pos + 4) h.1
          (omega (arith, length-append xs (be_bytes w), length-be_bytes w))))

first_word-ok : (xs : List ℕ) → 4 ≤ length xs → (w : ℕ) × (first_word xs ≡ ok w)
first_word-ok [] h = absurd (omega arith)
first_word-ok (a ∷ []) h = absurd (omega arith)
first_word-ok (a ∷ b ∷ []) h = absurd (omega arith)
first_word-ok (a ∷ b ∷ c ∷ []) h = absurd (omega arith)
first_word-ok (a ∷ b ∷ c ∷ d ∷ rest) h = (a * 2 ^ 24 + b * 2 ^ 16 + c * 2 ^ 8 + d, refl)

pub read_word-ok :
    (contents : List ℕ) (pos : ℕ)
    → pos + 4 ≤ length contents
    → (w : ℕ) × (read_word contents pos ≡ ok w)
unfolding read_word
read_word-ok contents pos h =
    first_word-ok (drop pos contents) (omega (arith, h, length-drop pos contents))
