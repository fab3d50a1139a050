-- ===== src/Reloc/Pair/Shared.antt =====
-- Two LO16 relocations that share the HI16 relocation before them (the status HILO_STATUS_USED of
-- src/novl-reloc.c): the second one writes the upper half again.
use n_ovl.Base.{ℕ, ◌+◌, ◌*◌, ◌^◌, ◌≤◌, ◌<◌, ◌≡◌, ap, ◌∙◌, ◌↔◌, arith, false}
use n_ovl.Base.{some}
use n_ovl.Base.Word.{add32, shl32, low_bits}
use n_ovl.Base.Exec.{ok, ◌>>=◌}
use n_ovl.Section.{Section}
use n_ovl.Reloc.Memory.{Memory, memory_size, word_at, IsBytes, Disjoint}
use n_ovl.Reloc.Target.{Layout, success, get_target_section, moved}
use n_ovl.Reloc.Handlers.{
  State, valid, used, hi_register, lo_register, sign_extend, high_half, reloc_do, set_used,
}
use n_ovl.Reloc.Pair.{
  pair_address, IsRelocatedPair, after_pair, after_pair-IsRelocatedPair, after_hi16, HasPair,
  lo16_address, reloc_do-lo16, reloc_do-hi16, pair_set, word_hi, word_lo,
}

-- Two upper halves that give one address with the same lower half are the same.
halves_iff :
    (hi lo a b : ℕ)
    → a < 0xFFFF_8000
    → b < 0xFFFF_8000
    → (add32
          (shl32 (low_bits (hi * 2 ^ 16 + high_half b) 16) 16)
          (sign_extend (low_bits (lo * 2 ^ 16 + low_bits a 16) 16))
        ≡ a)
      ↔ (high_half a ≡ high_half b)
halves_iff hi lo a b ha hb = (λ e. ground arith, λ e. ground arith)

module _ (m : Memory) (p i j a b : ℕ) (bytes : IsBytes m) (pi : Disjoint p i) (pj : Disjoint p j)
    (ij : Disjoint i j) (small_a : a < 0xFFFF_8000) (small_b : b < 0xFFFF_8000) where
  abbrev after_both : Memory
  after_both = after_pair (after_pair m p i a) p j b

  pub first : IsRelocatedPair m (after_pair m p i a) p i a
  first = after_pair-IsRelocatedPair m p i a bytes pi small_a

  pub second : IsRelocatedPair (after_pair m p i a) after_both p j b
  second = after_pair-IsRelocatedPair (after_pair m p i a) p j b first.bytes pj small_b

  -- The first pair after the second one has been written.
  pub first_pair_iff : (pair_address after_both p i ≡ a) ↔ (high_half a ≡ high_half b)
  unfolding pair_address
  first_pair_iff =
      rw
        (
          word_hi (after_pair m p i a) p j b first.bytes pj small_b,
          second.others i (omega arith) ij,
          word_lo m p i a bytes pi small_a,
        )
        (halves_iff _ _ a b small_a small_b)

-- The pair of a register after its first LO16 relocation, as the second one finds it.
pair_used :
    (st : State) (p i j a : ℕ)
    → hi_register (word_at st.memory p) ≡ lo_register (word_at st.memory i)
    → hi_register (word_at st.memory p) ≡ lo_register (word_at st.memory j)
    → word_at (after_pair st.memory p i a) j ≡ word_at st.memory j
    → HasPair
        (set_used
          (after_hi16 st p)
          (lo_register (word_at st.memory i))
          (after_pair st.memory p i a))
        p
        j
        (shl32 (low_bits (word_at st.memory p) 16) 16)
        used
pair_used st p i j a same_i same_j kept = rw (kept, ← same_j, ← same_i) (ground arith)

-- A HI16 relocation and two LO16 relocations on its register, in three separate words, with
-- addresses in sections `s` and `t` that are moved below 0xFFFF8000: all three return success, and
-- the pair of the second LO16 forms its moved address. The pair of the first LO16 still forms its
-- own moved address exactly when the two moved addresses have the same upper half.
pub hi16-lo16-lo16 :
    (l : Layout) (st : State) (p i j : ℕ) (s t : Section)
    → IsBytes st.memory
    → Disjoint p i
    → Disjoint p j
    → Disjoint i j
    → p + 4 ≤ memory_size
    → i + 4 ≤ memory_size
    → j + 4 ≤ memory_size
    → hi_register (word_at st.memory p) ≡ lo_register (word_at st.memory i)
    → hi_register (word_at st.memory p) ≡ lo_register (word_at st.memory j)
    → get_target_section l (pair_address st.memory p i) ≡ some s
    → get_target_section l (pair_address st.memory p j) ≡ some t
    → moved l s (pair_address st.memory p i) < 0xFFFF_8000
    → moved l t (pair_address st.memory p j) < 0xFFFF_8000
    → (st' : State) × ((do
      r ← reloc_do 5 l p false st
      r' ← reloc_do 6 l i false r.1
      reloc_do 6 l j false r'.1)
        ≡ ok (success, st'))
      × (pair_address st'.memory p j ≡ moved l t (pair_address st.memory p j))
      × ((pair_address st'.memory p i ≡ moved l s (pair_address st.memory p i)) ↔ (
          high_half (moved l s (pair_address st.memory p i))
          ≡ high_half (moved l t (pair_address st.memory p j))))
unfolding pair_address
hi16-lo16-lo16 l st p i j s t bytes pi pj ij hp hi hj same_i same_j found_i found_j small_i
      small_j =
    (
      set_used st₁ (lo_register (word_at st₁.memory j))
          (after_both st.memory p i j a b bytes pi pj ij small_i small_j),
      rw (reloc_do-hi16 l st p false hp, once) twice,
      (second st.memory p i j a b bytes pi pj ij small_i small_j).address,
      first_pair_iff st.memory p i j a b bytes pi pj ij small_i small_j,
    )
  where
    a : ℕ
    a = moved l s (pair_address st.memory p i)

    b : ℕ
    b = moved l t (pair_address st.memory p j)

    st₁ : State
    st₁ =
        set_used (after_hi16 st p) (lo_register (word_at st.memory i)) (after_pair st.memory p i a)

    reg : ℕ
    reg = shl32 (low_bits (word_at st.memory p) 16) 16

    once : reloc_do 6 l i false (after_hi16 st p) ≡ ok (success, st₁)
    once =
        reloc_do-lo16 l (after_hi16 st p) p i reg valid s bytes pi hp hi (pair_set st p i same_i)
          (λ e. cc) found_i small_i

    kept : word_at st₁.memory j ≡ word_at st.memory j
    kept =
        (first st.memory p i j a b bytes pi pj ij small_i small_j).others j (omega arith)
          (omega arith)

    address : lo16_address l st₁ p j reg used t ≡ pair_address st.memory p j
    address = ap (λ (w : ℕ). add32 reg (sign_extend (low_bits w 16))) kept

    twice :
        reloc_do 6 l j false st₁
        ≡ ok (
          success,
          set_used st₁ (lo_register (word_at st₁.memory j)) (after_pair st₁.memory p j b),
        )
    twice =
        reloc_do-lo16 l st₁ p j reg used t
          (first st.memory p i j a b bytes pi pj ij small_i small_j).bytes pj hp hj
          (pair_used st p i j a same_i same_j kept) (λ e. cc) (rw address found_j)
          (rw address small_j)
        ∙ rw address
