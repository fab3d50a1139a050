-- ===== src/Reloc/Memory.antt =====
-- The memory image, `static uint8_t memory[4 * 1024 * 1024]` of src/novl-conv.c, and the accesses
-- `g_ntohl( *i )` and `*i = g_htonl( w )` of src/novl-reloc.c: big-endian words at a byte offset.
use n_ovl.Base.{ℕ, ◌+◌, ◌*◌, ◌/◌, ◌%◌, ◌^◌, ◌≤◌, ◌<◌, ◌≡◌, ◌⊎◌, false, arith}
use n_ovl.Base.{◌==◌, leb, if◌then◌else◌}
use n_ovl.Base.Word.{IsU32}
use n_ovl.Base.Exec.{Exec, ok, fault}

abbrev pub memory_size : ℕ
memory_size = 4 * 1024 * 1024

-- A byte for each offset; those past `memory_size` are never read or written.
abbrev pub Memory : Type 0
Memory = ℕ → ℕ

-- The array is zero when the program starts.
abbrev pub zeroed : Memory
zeroed a = 0

unfoldable pub word_at : Memory → ℕ → ℕ
word_at m p = m p * 2 ^ 24 + m (p + 1) * 2 ^ 16 + m (p + 2) * 2 ^ 8 + m (p + 3)

unfoldable pub put_word : Memory → ℕ → ℕ → Memory
put_word m p w a =
    if a == p
    then w / 2 ^ 24 % 2 ^ 8
    else if a == p + 1
    then w / 2 ^ 16 % 2 ^ 8
    else if a == p + 2
    then w / 2 ^ 8 % 2 ^ 8
    else if a == p + 3
    then w % 2 ^ 8
    else m a

-- A word access outside the array is undefined.
unfoldable pub load : Memory → ℕ → Exec ℕ
load m p = if leb (p + 4) memory_size then ok (word_at m p) else fault

unfoldable pub store : Memory → ℕ → ℕ → Exec Memory
store m p w = if leb (p + 4) memory_size then ok (put_word m p w) else fault

abbrev pub IsBytes : Memory → Type 0
IsBytes m = (a : ℕ) → m a < 2 ^ 8

-- Two words with no byte in common.
abbrev pub Disjoint : ℕ → ℕ → Type 0
Disjoint p q = (p + 4 ≤ q) ⊎ (q + 4 ≤ p)

pub word_at-IsU32 : (m : Memory) (p : ℕ) → IsBytes m → IsU32 (word_at m p)
unfolding word_at
word_at-IsU32 m p h = omega (arith, h p, h (p + 1), h (p + 2), h (p + 3))

pub put_word-IsBytes : (m : Memory) (p w : ℕ) → IsBytes m → IsBytes (put_word m p w)
unfolding put_word
put_word-IsBytes m p w h a = ground (arith, h a)

pub word_at-put_word_self : (m : Memory) (p w : ℕ) → IsU32 w → word_at (put_word m p w) p ≡ w
unfolding word_at put_word
word_at-put_word_self m p w h = ground arith

pub word_at-put_word_ne :
    (m : Memory) (p q w : ℕ) → Disjoint p q → word_at (put_word m p w) q ≡ word_at m q
unfolding word_at put_word
word_at-put_word_ne m p q w h = ground arith

pub load-ok : (m : Memory) (p : ℕ) → p + 4 ≤ memory_size → load m p ≡ ok (word_at m p)
unfolding load
load-ok m p h = ground arith

pub store-ok : (m : Memory) (p w : ℕ) → p + 4 ≤ memory_size → store m p w ≡ ok (put_word m p w)
unfolding store
store-ok m p w h = ground arith

pub load-fault : (m : Memory) (p : ℕ) → leb (p + 4) memory_size ≡ false → load m p ≡ fault
unfolding load
load-fault m p h = rw h
