-- ===== src/Main/Run.antt =====
-- `main` of src/main.c behind `getopt`. The files are a parameter: what `ovl_load` reads, and what
-- the ELF library makes of a file. A run that ends by an error is `exit`, whatever it printed
-- before; the messages on the standard error stream are not modelled.
pub mod Convert
use n_ovl.Base.{ℕ, List, [], ◌∷◌, ◌++◌, Option, none, some, true, false, if◌then◌else◌}
use n_ovl.Base.Exec.{Exec, ok, exit, ◌>>=◌}
use n_ovl.Conv.Elf.{Elf}
use n_ovl.Conv.Whole.{novl_conv}
use n_ovl.Printer.Conf.{initial}
use n_ovl.Main.Args.{
  OpMode, op_none, op_list_sections, op_list_relocations, op_convert, op_disassemble,
  op_disassemble_all, Settings, initial_settings, Given, get_flag, args_process,
}
use n_ovl.Main.Listing.{disassemble_file, list_relocations, list_sections}

-- What a run leaves: the printed text, and the files it has written.
pub record Result : Type 0 where
  pub printed : List ℕ
  pub written : List (List ℕ × List ℕ)

-- The contents of a file that can be opened, and the ELF object of one that libelf takes.
module _ (file : List ℕ → Option (List ℕ)) (elf_of : List ℕ → Option Elf) where
  -- A file that cannot be loaded ends the program.
  abbrev pub with_file : (List ℕ → Exec (List ℕ)) → Option (List ℕ) → Exec (List ℕ)
  with_file list none = exit
  with_file list (some contents) = list contents

  -- `for( s = filenames; s; s = s->next )`
  unfoldable pub each_file : (List ℕ → List ℕ → Exec (List ℕ)) → List (List ℕ) → Exec Result
  each_file list [] = ok (record { printed = []; written = [] })
  each_file list (name ∷ names) = do
    text ← with_file (list name) (file name)
    rest ← each_file list names
    ok (record { printed = text ++ rest.printed; written = rest.written })

  -- `novl_conv` of a file that libelf takes; any other ends the program.
  unfoldable pub conv_opened : ℕ → List ℕ → Option Elf → Exec Result
  conv_opened base out none = exit
  conv_opened base out (some elf) = do
    bytes ← novl_conv base elf
    ok (record { printed = []; written = (out, bytes) ∷ [] })

  -- `convert_elf`: -o and -A are wanted.
  unfoldable pub convert_elf : Settings → List ℕ → Option (List ℕ) → Exec Result
  unfolding conv_opened
  convert_elf s name none = exit
  convert_elf s name (some out) =
      if get_flag b'o' s
      then (if get_flag b'A' s then conv_opened s.base_addr out (elf_of name) else exit)
      else exit

  -- The switch over the mode, for one file or more.
  unfoldable pub act : Settings → OpMode → List (List ℕ) → Exec Result
  unfolding each_file convert_elf
  act s mode [] = exit
  act s op_list_relocations names = each_file (list_relocations s.base_addr) names
  act s op_list_sections names = each_file (list_sections (get_flag b'h' s) s.base_addr) names
  act s op_convert (name ∷ []) = convert_elf s name s.oval
  act s op_convert (name ∷ other ∷ names) = exit
  act s op_disassemble names =
      each_file
        (λ name contents.
          disassemble_file initial (get_flag b'V' s) s.base_addr name contents false)
        names
  act s op_disassemble_all names =
      each_file
        (λ name contents. disassemble_file initial (get_flag b'V' s) s.base_addr name contents true)
        names
  act s op_none names = exit

  -- `main`, for the results of `getopt` and the arguments behind the options.
  unfoldable pub main : List Given → List (List ℕ) → Exec Result
  unfolding act
  main given names = do s ← args_process initial_settings given; act s s.opmode names
