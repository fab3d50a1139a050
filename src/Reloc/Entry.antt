-- ===== src/Reloc/Entry.antt =====
-- The words of an overlay's relocation table: `novl_reloc_mk` of src/novl-reloc.c writes one, the
-- macros OVL_RELOC_GET_… of src/overlay.h read its fields.
use n_ovl.Base.{ℕ, ◌+◌, ◌-◌, ◌*◌, ◌%◌, ◌^◌, ◌<◌, ◌≡◌, ◌≢◌, arith, bit_or}
use n_ovl.Base.Bits.{bit_or_apart, bit_or_above}
use n_ovl.Base.Word.{sub32, shr, low_bits, shl32, IsU32}

-- The upper bits of `sec` leave the word.
unfoldable pub reloc_mk : ℕ → ℕ → ℕ → ℕ
reloc_mk sec offset type =
    let w = shl32 sec 30 in
    let w' = bit_or w (low_bits offset 24) in bit_or w' (shl32 (low_bits type 6) 24)

-- OVL_RELOC_GET_ADDR, OVL_RELOC_GET_SEC and OVL_RELOC_GET_TYPE.
unfoldable pub get_addr : ℕ → ℕ
get_addr r = low_bits r 24

unfoldable pub get_sec : ℕ → ℕ
get_sec r = sub32 (shr r 30) 1

unfoldable pub get_type : ℕ → ℕ
get_type r = low_bits (shr r 24) 6

-- The word as a sum of its three fields.
reloc_mk-sum :
    (sec offset type : ℕ)
    → reloc_mk sec offset type ≡ sec % 4 * 2 ^ 30 + type % 2 ^ 6 * 2 ^ 24 + offset % 2 ^ 24
unfolding reloc_mk
reloc_mk-sum sec offset type =
    rw (upper, bit_or_apart 24 (sec % 4 * 2 ^ 6) (offset % 2 ^ 24) (omega arith), middle)
      (omega (
        arith,
        bit_or_above 24 (sec % 4 * 2 ^ 6) (type % 2 ^ 6) (offset % 2 ^ 24) (omega arith),
        bit_or_apart 6 (sec % 4) (type % 2 ^ 6) (omega arith),
      ))
  where
    upper : sec * 2 ^ 30 % 2 ^ 32 ≡ sec % 4 * 2 ^ 6 * 2 ^ 24
    upper = omega arith

    middle : type % 2 ^ 6 * 2 ^ 24 % 2 ^ 32 ≡ type % 2 ^ 6 * 2 ^ 24
    middle = omega arith

-- A table entry that is made for one of the first three sections, for an offset below 2 ^ 24 and
-- a type below 2 ^ 6, reads back as the section's index, the offset and the type.
pub get-reloc_mk :
    (id offset type : ℕ)
    → id < 3
    → offset < 2 ^ 24
    → type < 2 ^ 6
    → (get_sec (reloc_mk (id + 1) offset type) ≡ id)
      × (get_addr (reloc_mk (id + 1) offset type) ≡ offset)
      × (get_type (reloc_mk (id + 1) offset type) ≡ type)
unfolding get_sec get_addr get_type
get-reloc_mk id offset type hi ho ht = rw reloc_mk-sum (omega arith, omega arith, omega arith)

pub reloc_mk-IsU32 : (sec offset type : ℕ) → IsU32 (reloc_mk sec offset type)
reloc_mk-IsU32 sec offset type = omega (arith, reloc_mk-sum sec offset type)

-- An entry of a type that the relocator handles is no zero word, whatever its section.
pub reloc_mk-ne-zero : (sec offset type : ℕ) → 0 < type % 2 ^ 6 → reloc_mk sec offset type ≢ 0
reloc_mk-ne-zero sec offset type h e = omega (arith, reloc_mk-sum sec offset type)

-- The two bits for the section's number are too few for the fourth section.
pub get_sec-reloc_mk-four : (offset type : ℕ) → get_sec (reloc_mk 4 offset type) ≡ 2 ^ 32 - 1
unfolding get_sec
get_sec-reloc_mk-four offset type = rw reloc_mk-sum (omega arith)
