-- ===== src/Lib.antt =====
-- rmDOS: a model of its C tools, the programs under firmware/src/main/dos that the Small-C compiler
-- scripts/rmcc.py builds for a 16-bit DOS. A tool keeps its state in static variables, changes it in
-- small functions, and calls the kernel through INT 21h, INT 25h and INT 26h.
--
-- How the source corresponds to the model:
--   - The static variables of a tool are a record (`Editor` of Edit.antt, `Chk` and `Bpb` of
--     Chkdsk.antt), and a function that changes them is a function on that record with the same
--     name. An array is a function from offsets to bytes with no end (`Buffer` of Base/Bytes.antt), so
--     that a write past an array's size is a change that a theorem has to exclude.
--   - Base/Word.antt has the compiler's integers: 16-bit words whose `<` and `>=` are signed.
--   - What an interrupt answers is a parameter: which sectors fail (`Drive`), how many bytes a write
--     takes, what a read gives, whether a file opens.
--   - A loop is a recursion on the rounds that are left, or on a count that is enough for it: the
--     text's length for the loops over lines and the loop of a save, the buffer's size for the loop
--     of a load. Each round moves on by at least one byte.
--
-- The parts:
--   - Edit.antt, firmware/src/main/dos/edit.c: the text buffer, its lines and the cursor.
--     Edit/Search.antt has `find_at` and `do_find`, Edit/Files.antt `save_file`, Edit/Load.antt
--     `load_file`, Edit/Keys.antt the key loop of `main`, in which the prompt of `do_find` and the
--     question before quitting are modes of a state machine that takes one key a step. Edit/Zipper,
--     Edit/Lines, Edit/Moves, Edit/RoundTrip, Edit/Keys/Session, Edit/Keys/Saves and Edit/Keys/Quit hold
--     proofs.
--   - Chkdsk.antt and Chkdsk/Fat.antt, firmware/src/main/dos/chkdsk.c: the volume's parameters and
--     the one-sector buffer through which the FAT is read and written. Chkdsk/Fat/Flush,
--     Chkdsk/Fat/Store, Chkdsk/Fat/Pack, Chkdsk/Fat/Entries and Chkdsk/Fat/Lost hold proofs.
--     Chkdsk/Bits.antt has the cluster bitmap, Chkdsk/Layout.antt `parse_bpb`, which sets the
--     parameters, Chkdsk/Mirror.antt `check_fat_mirror` and `sync_fat_mirror`, and Chkdsk/Walk.antt
--     `walk_chain`, whose loop has as many rounds as the volume has clusters, as in the source.
--     Chkdsk/Totals.antt has the totals of bytes, and Chkdsk/Recover.antt `size_to_clusters` and the
--     files that recovered clusters become; Chkdsk/Recover/Entries, Chkdsk/Recover/Added,
--     Chkdsk/Recover/Root and Chkdsk/Recover/Sizes hold its proofs. Chkdsk/Mirror/Loops, Chkdsk/Mirror/Copies,
--     Chkdsk/Walk/Steps, Chkdsk/Walk/Chain and Chkdsk/Walk/Fat16 hold proofs.
--   - Runtime.antt and Runtime/Args.antt, firmware/src/main/dos/inc/dos.c: what the tools link, which
--     is characters, `print_num`, and the words of the command line. DOS gives 127 bytes of command
--     line with a CR behind them, so 128 bytes of fuel are enough for each loop over it; the theorems
--     ask for more fuel than the text that is left. Runtime/Numbers, Runtime/Args/Words,
--     Runtime/Args/Copies and Runtime/Args/Tokens hold proofs.
--   - Sort.antt, firmware/src/main/dos/sort.c: from the bytes that are read to the bytes that are
--     printed. Sort/Text has the lines of a text; Sort/Lines, Sort/Reading, Sort/Sorted and
--     Sort/Whole hold proofs.
--   - Dirlist.antt, firmware/src/main/dos/inc/dirlist.c: the table of directory entries. An entry as a
--     value and the order of the keys are in Dirlist/Entry; Dirlist/Keys, Dirlist/Sorted,
--     Dirlist/Fields, Dirlist/Stored and Dirlist/Loaded hold proofs.
--   - Find.antt, firmware/src/main/dos/find.c: the search in a line, the loop that reads, the
--     switches and `main`, with opening a file and standard input as parameters. A line has 127 bytes
--     with its NUL, so 128 rounds are enough for the loops over it. Find/Match, Find/Lines,
--     Find/Bytes, Find/Reading and Find/Ends hold proofs.
--   - Command.antt and the files below it, firmware/src/main/dos/command.c. Command/Env.antt is the
--     environment, strings in the memory of a segment, with the allocation as a parameter;
--     Command/Env/Block has it as a list of texts, and Command/Env/Lookup, Command/Env/Kept,
--     Command/Env/Put, Command/Env/Names and Command/Env/Shown hold proofs. Command/Set.antt is SET,
--     which splits a line and calls `env_put`. Command/Redirect.antt opens and closes the handles of a
--     redirection, with DOS as an interface, `Dos`, and what its calls promise in
--     Command/Redirect/Handles; Command/Redirect/Stdin and Command/Redirect/Restored hold proofs.
--     Command/Parse.antt finds the redirections in a command.
--     Command/Batch.antt has the arguments of batch files, Command/Percent.antt the values that
--     replace %NAME%, Command/Text.antt the strings, and Command/Startup.antt the command tail of the
--     shell itself. The files below these hold their proofs. A loop over a string has fuel, and
--     its theorems ask for more than the string has bytes; a command has 80 bytes.
--   - Debug.antt and the files below it, firmware/src/main/dos/debug.c: numbers, tokens and the arena.
--     Debug/Code.antt has D, E and U, Debug/Assemble.antt A, and Debug/Files.antt N, L and W over
--     `Disk`, an interface. Debug/Hex, Debug/Code/Length, Debug/Assemble/Words, Debug/Assemble/Trip,
--     Debug/Assemble/Back, Debug/Files/Trip and Debug/Files/Load hold proofs. A loop over a file has
--     as much fuel as there are bytes, of which each chunk takes at least one.
--   - Strings.antt: a C string in memory as a text, which COMMAND and DEBUG share.
--   - Compare.antt and Exchange.antt: what SORT and DIR write out twice, the loop that compares two C
--     strings, the exchange of two rows and the exchange sort. The sort is proved once, over a
--     `Table`, a record of a program's operations on rows and the laws they satisfy, which
--     Sort/Sorted and Dirlist/Sorted fill. Compare/Laws and Compare/Texts have the orders,
--     Exchange/Order, Exchange/Bytes and Exchange/Rows the proofs.
--
-- Not modelled: the BIOS, the boot sector and the kernel, which are assembly; the build scripts; the
-- command lines of EDIT, CHKDSK and SORT; the screen output of EDIT and CHKDSK; of COMMAND the
-- dispatch, IF, FOR, GOTO and pipes, of DEBUG R, P, G and T; and the tools not named above.
pub mod Base
pub mod Runtime
pub mod Compare
pub mod Exchange
pub mod Sort
pub mod Find
pub mod Dirlist
pub mod Edit
pub mod Chkdsk
pub mod Strings
pub mod Command
pub mod Debug
