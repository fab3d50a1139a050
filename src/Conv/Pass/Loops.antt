-- ===== src/Conv/Pass/Loops.antt =====
-- The loops over data descriptors and sections, for a property of the state and for a relation
-- between the two passes.
use n_ovl.Conv.Pass.{goes_on, advance}
use n_ovl.Base.{ℕ, List, [], ◌∷◌, inl, inr}
use n_ovl.Base.{Bool-cases, Option-cases, drop}
use n_ovl.Base.Exec.{Exec, OnOk, OnOk-bind}
use n_ovl.Section.{Section, valid_sec, is_rel_name}
use n_ovl.Conv.Elf.{ElfData, ElfSection}
use n_ovl.Conv.Pass.{over_blocks, over_rel_section}

module _ {ℓ κ} {S : Type ℓ} (P : S → Type κ) where
  pub OnOk-over_blocks :
      (step : S → ElfData → Exec S)
      → ((s : S) (b : ElfData) → P s → OnOk P (step s b))
      → (sh_size n : ℕ) (bs : List ElfData) (s : S) → P s
      → OnOk P (over_blocks step sh_size n s bs)
  unfolding over_blocks
  OnOk-over_blocks step keep sh_size n [] s h = h
  OnOk-over_blocks step keep sh_size n (b ∷ bs) s h = elim (Bool-cases (goes_on n sh_size)) [
    | inl e ↦ rw e (
        OnOk-bind P P (step s b) _ (keep s b h)
          (λ s' h'. OnOk-over_blocks step keep sh_size (advance n b.d_size) bs s' h'))
    | inr e ↦ rw e h
  ]

  pub OnOk-over_rel_section :
      (enter : Section → S → S) (step : Section → S → ElfData → Exec S)
      → ((id : Section) (s : S) → P s → P (enter id s))
      → ((id : Section) (s : S) (b : ElfData) → P s → OnOk P (step id s b))
      → (s : S) (sec : ElfSection) → P s
      → OnOk P (over_rel_section enter step s sec)
  unfolding over_rel_section
  OnOk-over_rel_section enter step keep_enter keep s sec h =
      elim (Bool-cases (is_rel_name sec.name)) [
        | inl e ↦ rw e (elim (Option-cases (valid_sec (drop 4 sec.name))) [
          | inl n ↦ rw n h
          | inr (id, n) ↦ rw n (
              OnOk-over_blocks (step id) (keep id) sec.sh_size 0 sec.blocks (enter id s)
                (keep_enter id s h))
        ])
        | inr e ↦ rw e h
      ]
