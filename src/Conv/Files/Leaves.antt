-- ===== src/Conv/Files/Leaves.antt =====
-- What a conversion leaves at the path of its output.
use mathlib.Core.Path.{subst, fun_ext}
use n_ovl.Base.{
  ℕ, zero, suc, leb, ltb, ◌+◌, ◌^◌, ◌&&◌, ◌≡◌, refl, sym, ap, ◌∙◌, ◌⊎◌, inl, inr, List, [], ◌∷◌,
  none, some, Bool, true, false,
}
use n_ovl.Base.{◌==◌, if◌then◌else◌, Bool-cases}
use n_ovl.Base.Word.{u32, sub32}
use n_ovl.Base.Exec.{Exec, ok, exit, fault, ◌>>=◌, fold_exec}
use n_ovl.Section.{Section, s_text, s_data, s_rodata}
use n_ovl.Reloc.Memory.{Memory, memory_size}
use n_ovl.Reloc.Target.{Layout}
use n_ovl.Conv.Elf.{Elf}
use n_ovl.Conv.Load.{Loaded, load_sections}
use n_ovl.Conv.Pass.{Prediction, predict, Build, build}
use n_ovl.Conv.Output.{
  OutFile, write, write_section, write_footer, footer_by, read_image, write_overlay, header_addr,
}
use n_ovl.Conv.Whole.{layout_of, state_of, final_layout, novl_conv}
use n_ovl.Conv.Files.{
  Device, IsComplete, Disk, Ending, returns, leaves, undefined, behind, Answers, open_elf,
  put_sections, close_file, put_overlay, convert_opened, convert_file,
}

-- The ending `e` shows on the disk what `x` does: the value's file if there is one, and if the
-- program is left, one of `Left`.
unfoldable pub Shows {ℓ} :
    {A : Type ℓ} → (A → List ℕ) → (Disk → Type 0) → Exec A → Ending A → Type ℓ
Shows file Left (ok a) e = e ≡ returns a (some (file a))
Shows file Left exit e = (disk : Disk) × (e ≡ leaves disk) × Left disk
Shows file Left fault e = e ≡ undefined

Shows-behind {ℓ κ} :
    {A : Type ℓ} {B : Type κ} (file : B → List ℕ) (Left : Disk → Type 0) (disk : Disk) (x : Exec A)
    (next : A → Exec B) (next' : A → Ending B)
    → Left disk
    → ((a : A) → Shows file Left (next a) (next' a))
    → Shows file Left (x >>= next) (behind disk x next')
unfolding Shows
Shows-behind file Left disk (ok a) next next' h k = k a
Shows-behind file Left disk exit next next' h k = (disk, refl, h)
Shows-behind file Left disk fault next next' h k = refl

-- A check that removes the file when it fails.
Shows-checked {ℓ} :
    {A : Type ℓ} (file : A → List ℕ) (Left : Disk → Type 0) (test : Bool) (x : Exec A)
    (e : Ending A)
    → Left none
    → Shows file Left x e
    → Shows file Left (if test then x else exit) (if test then e else leaves none)
unfolding Shows
Shows-checked file Left true x e h k = k
Shows-checked file Left false x e h k = (none, refl, h)

-- The file is removed, or it is there and empty.
abbrev pub IsRemoved : Disk → Type 0
IsRemoved disk = disk ≡ none

abbrev pub IsCleared : Disk → Type 0
IsCleared disk = (disk ≡ some []) ⊎ (disk ≡ none)

-- A read from the image does not leave the program.
read_image-returns : (m : Memory) (offset n : ℕ) → (read_image m offset n ≡ exit) → ⊥
unfolding read_image
read_image-returns m offset zero e = cc e
read_image-returns m offset (suc n) e = elim (Bool-cases (leb (offset + suc n) memory_size)) [
  | inl t ↦ cc (rw t at e)
  | inr t ↦ cc (rw t at e)
]

Shows-read :
    (disk : Disk) (f : OutFile) (x : Exec (List ℕ)) (next : OutFile → Exec OutFile)
    (next' : OutFile → Ending OutFile)
    → (x ≡ exit → ⊥)
    → ((f' : OutFile) → Shows (λ f''. f''.bytes) IsRemoved (next f') (next' f'))
    → Shows
        (λ f''. f''.bytes)
        IsRemoved
        ((x >>= λ new. ok (write f new)) >>= next)
        (behind disk x (λ new. next' (write f new)))
unfolding Shows
Shows-read disk f (ok new) next next' h k = k (write f new)
Shows-read disk f exit next next' h k = absurd (h refl)
Shows-read disk f fault next next' h k = refl

-- The device that is complete.
abbrev pub reliable : Device
reliable = record { fwrite = write; closed = λ bytes. bytes }

pub complete-reliable : (dev : Device) → IsComplete dev → reliable ≡ dev
complete-reliable dev (writes, closes) =
    ap (λ (w : OutFile → List ℕ → OutFile). record reliable { fwrite = w })
      (fun_ext (λ f. fun_ext (λ new. sym (writes f new))))
    ∙ ap (λ (c : List ℕ → List ℕ). record dev { closed = c })
        (fun_ext (λ bytes. sym (closes bytes)))

put_sections-Shows :
    (l : Layout) (base ep : ℕ) (m : Memory) (f : OutFile) (ss : List Section)
    → Shows
        (λ f'. f'.bytes)
        IsRemoved
        (fold_exec (write_section l base ep m) f ss)
        (put_sections reliable l base ep m f ss)
unfolding put_sections write_section Shows
put_sections-Shows l base ep m f [] = refl
put_sections-Shows l base ep m f (s ∷ ss) = elim (Bool-cases (l.ovl_start s == f.pos + base)) [
  | inr e ↦ rw e (none, refl, refl)
  | inl e ↦ rw e (
      Shows-read (some f.bytes) f (read_image m (sub32 (l.elf_start s) ep) (l.size s))
        (λ f'. fold_exec (write_section l base ep m) f' ss)
        (λ f'. put_sections reliable l base ep m f' ss) (read_image-returns m _ _)
        (λ f'. put_sections-Shows l base ep m f' ss))
]

close_file-Shows :
    (header : ℕ) (x : Exec OutFile) (e : Ending OutFile)
    → Shows (λ f. f.bytes) IsRemoved x e
    → Shows
        (λ bytes. bytes)
        IsCleared
        (x >>= λ f. if header == f.pos then ok f.bytes else exit)
        (close_file reliable header e)
unfolding Shows
close_file-Shows header (ok f) e h = rw h (
    Shows-checked (λ bytes. bytes) IsCleared (header == f.pos) (ok f.bytes)
      (returns f.bytes (some f.bytes)) (inr refl) refl)
close_file-Shows header exit e (disk, run, gone) = rw run (disk, refl, inr gone)
close_file-Shows header fault e h = rw h refl

-- The footer does not leave the program.
footer-returns : (f : OutFile) (header : ℕ) → (write_footer f header ≡ exit) → ⊥
unfolding footer_by
footer-returns f header e =
    elim (Bool-cases (ltb (u32 f.pos) (2 ^ 31) && leb (2 ^ 31) (u32 f.pos + 4))) [
      | inl t ↦ cc (rw t at e)
      | inr t ↦ cc (rw t at e)
    ]

Shows-footer :
    (disk : Disk) (x : Exec OutFile) (next : OutFile → Exec (List ℕ))
    (next' : OutFile → Ending (List ℕ))
    → (x ≡ exit → ⊥)
    → ((f : OutFile) → Shows (λ bytes. bytes) IsCleared (next f) (next' f))
    → Shows (λ bytes. bytes) IsCleared (x >>= next) (behind disk x next')
unfolding Shows
Shows-footer disk (ok f) next next' h k = k f
Shows-footer disk exit next next' h k = absurd (h refl)
Shows-footer disk fault next next' h k = refl

put_overlay-Shows :
    (l : Layout) (base ep : ℕ) (m : Memory) (relocs : List ℕ) (count : ℕ)
    → Shows
        (λ bytes. bytes)
        IsCleared
        (write_overlay l base ep m relocs count)
        (put_overlay reliable l base ep m relocs count)
unfolding put_overlay write_overlay
put_overlay-Shows l base ep m relocs count = Shows-footer _ _ _ _ (footer-returns _ _) (λ f'.
    Shows-checked (λ bytes. bytes) IsCleared _ _ _ (inr refl)
      (close_file-Shows (header_addr base l.size) _ _
        (put_sections-Shows l base ep m _ (s_text ∷ s_data ∷ s_rodata ∷ []))))

pub convert_opened-Shows :
    (base : ℕ) (elf : Elf)
    → Shows (λ bytes. bytes) IsCleared (novl_conv base elf) (convert_opened reliable base elf)
unfolding convert_opened novl_conv
convert_opened-Shows base elf =
    let ep = u32 elf.e_entry in
    Shows-behind file IsCleared (some []) (load_sections ep elf.sections) _ _ (inl refl)
      (λ (ld : Loaded).
        Shows-behind file IsCleared (some [])
          (predict (layout_of ld) ep (state_of ld.memory) elf.sections) _ _ (inl refl)
          (λ (p : Prediction).
            let l = final_layout base ld p.count in
            Shows-behind file IsCleared (some []) (build l ep p.state elf.sections) _ _ (inl refl)
              (λ (b : Build).
                Shows-checked file IsCleared (p.count == b.count) _ _ (inr refl)
                  (put_overlay-Shows l base ep b.state.memory b.relocs b.count))))
  where
    file : List ℕ → List ℕ
    file bytes = bytes

Shows-exit {ℓ} :
    {A : Type ℓ} (file : A → List ℕ) (Left : Disk → Type 0) (disk : Disk)
    → Left disk
    → Shows file Left exit (leaves disk)
unfolding Shows
Shows-exit file Left disk h = (disk, refl, h)

Shows-weaken {ℓ} :
    {A : Type ℓ} (file : A → List ℕ) (P Q : Disk → Type 0) (x : Exec A) (e : Ending A)
    → ((left : Disk) → P left → Q left)
    → Shows file P x e
    → Shows file Q x e
unfolding Shows
Shows-weaken file P Q (ok a) e h k = k
Shows-weaken file P Q exit e h (disk, run, left) = (disk, run, h disk left)
Shows-weaken file P Q fault e h k = k

-- Every conversion on a complete device.
reliable-Shows :
    (base : ℕ) (a : Answers) (disk : Disk)
    → Shows
        (λ bytes. bytes)
        (λ left. (left ≡ disk) ⊎ IsCleared left)
        (open_elf a >>= λ elf. if a.writable then novl_conv base elf else exit)
        (convert_file reliable base a disk)
unfolding convert_file
reliable-Shows base a disk =
    Shows-behind (λ bytes. bytes) _ disk (open_elf a) _ _ (inl refl)
      (λ elf. elim (Bool-cases a.writable) [
        | inl e ↦ rw e (
            Shows-weaken (λ bytes. bytes) IsCleared _ _ _ (λ left h. inr h)
              (convert_opened-Shows base elf))
        | inr e ↦ rw e (Shows-exit _ _ disk (inl refl))
      ])

-- If every `fwrite` is complete and `fclose` brings all bytes to the disk, then whatever the ELF file
-- is, a conversion never leaves a part of an overlay at the path of its output: when it returns, all
-- bytes of the overlay that `novl_conv` makes of the opened file are there, and nothing else; when it
-- leaves the program, then what was there before is, or an empty file, or nothing; and it makes an
-- undefined access exactly if `novl_conv` does.
pub convert_file-Shows :
    (dev : Device) (base : ℕ) (a : Answers) (disk : Disk)
    → IsComplete dev
    → Shows
        (λ bytes. bytes)
        (λ left. (left ≡ disk) ⊎ IsCleared left)
        (open_elf a >>= λ elf. if a.writable then novl_conv base elf else exit)
        (convert_file dev base a disk)
convert_file-Shows dev base a disk complete =
    subst
      (λ d.
        Shows (λ bytes. bytes) (λ left. (left ≡ disk) ⊎ IsCleared left)
          (open_elf a >>= λ elf. if a.writable then novl_conv base elf else exit)
          (convert_file d base a disk))
      (complete-reliable dev complete) (reliable-Shows base a disk)
