-- ===== src/Lib.antt =====
-- nOVL, the Nintendo Overlay Tool: the conversion of a MIPS ELF object to an overlay, the loading of
-- an overlay file, its disassembly and listings, and the command line.
--
-- The conversion (`novl_conv`, src/novl-conv.c) copies the sections .text, .data, .rodata and .bss of
-- the ELF file to a memory image, makes a dry run of all relocations to count the entries of the
-- overlay's relocation table, sets the addresses of the overlay's sections from that count, relocates
-- the image in a second pass, which makes the entries, and writes the file. Both passes call
-- `novl_reloc_do` (src/novl-reloc.c), which keeps for each register the HI16 instruction whose LO16
-- is still to come. `ovl_load` (src/overlay.c) reads an overlay file.
--
-- The modules:
--   Base      tests, lists, 32-bit words, big-endian bytes, and the type Exec of what a piece of the
--             program does: it returns (`ok`), it leaves by exit( EXIT_FAILURE ) (`exit`), or it makes
--             an access that C leaves undefined (`fault`).
--   Section   `enum OvlSections` of src/overlay.h, `section_names` and `valid_sec` of
--             src/novl-conv.c.
--   Reloc     src/novl-reloc.c. Memory is the image, Target the section search and the address
--             adjustment, Handlers the four handlers, dispatch and reset, Entry the relocation words
--             with the macros of src/overlay.h. The arrays `elf_starts`, `ovl_starts` and `sizes` are
--             the record Layout; the arrays `hilopair_*` and the image are the record State, which
--             each handler takes and returns. DryRun compares the dry run of a relocation with the
--             real one, Fixed follows the words of the image through the real runs.
--   Conv      src/novl-conv.c. Elf is what the calls of libelf return, Load the loop that fills the
--             image, Sort the sort of the relocations, Pass the counting pass (`predict`) and the
--             relocating pass (`build`), Output the overlay's addresses and the file, Whole the
--             conversion of an opened file, Files all of it with the output file on the disk.
--   Overlay   src/overlay.c: `ovl_get_header` and the reading of a file's contents by `ovl_load`; Heap is
--             `ovl_load` from its first line, and `ovl_free`, with the blocks of memory.
--   Mesg      the text of messages, src/mesg.c: Pieces is the grammar of a message with colours,
--             Named the functions that give a message its level and symbol.
--   Printer   src/opprintf.c, the printing of one instruction from a format: Text is what sprintf prints
--             of numbers and padding, Names the tables of names, Conf the configuration word
--             `mr4kd_conf`, Format the format interpreter `mr4kd_sprintf`.
--   Decoder   src/decoder.c. A function that prints an instruction is an Op, a name with a format; the
--             switches are tables (Special, Regimm, Immediate, Cop0, Cop1 with Single and Double,
--             Storage, and the main one in Disassemble, with `mr4kd_disassemble`). Split is
--             `r4300_decode_op`.
--   Main      src/main.c behind getopt: Args the options, Listing the disassembly of a file and the
--             lists of its relocations and sections, Run the program; with RelocNames, the names of
--             src/novl.c, and FormatValue, src/func.c. The files, and what libelf makes of them, are
--             parameters of Run.
--
-- Numbers are natural numbers; where the program computes in `uint32_t` the sum, difference or shift
-- is taken modulo 2 ^ 32 (Base/Word). A value in an `int` is its bit pattern. All loops are over lists
-- or over a number of rounds, so that no fuel is needed. The table of relocations is a list, and a
-- pointer to one of its nodes is a position. The words of the image are big-endian bytes at an offset,
-- and an access that is not wholly inside the array of 4 MB is a fault.
--
-- A text is a list of character codes. What a run prints is the text of a run that returns; a run
-- that ends by an error is `exit`, whatever it printed before.
--
-- Writes to the output are complete in Conv/Output; in Conv/Files what `fwrite` and `fclose` do is a
-- parameter, the record Device. The position of the footer is an `int`, whose wrap-around is written
-- out; the results on the written file are for files below 2 ^ 31 bytes.
--
-- Not modelled: the ELF library, a copy of another project's; getopt; which messages the conversion and
-- Main give on the standard error stream; mr4kd_flag_set, mr4kd_flag_clear and mr4kd_flag_get of
-- src/opprintf.c, which nothing calls.
pub mod Base
pub mod Section
pub mod Reloc
pub mod Overlay
pub mod Conv
pub mod Mesg
pub mod Printer
pub mod Decoder
pub mod Main
