-- ===== src/Lib.antt =====
-- LumaOS: a kernel for x86 with paging, a process manager with a round robin scheduler, a keyboard
-- driver and an ext2 file system. This library models the parts of the kernel that keep state and
-- proves what they do to it.
--
-- The program's parts and the files that model them:
--   src/paging.c, src/header/memory/paging.h: Paging. `struct PageManagerState`, the list of
--     directories, CR3 and the log of flushed addresses are the record `Paging`; each function of
--     the C file is the function of the same name. A directory is found by its virtual address,
--     and `list_base` is the address that the linker gives to `page_directory_list`. Paging.Frames
--     is about the frame map, Paging.Owners and Paging.Invariant about who owns a frame,
--     Paging.Release and Paging.Lifecycle about whole directories, Paging.Calls about the calls
--     one by one, Paging.Boot about the state that the initialisers give.
--   src/keyboard.c, src/header/driver/keyboard.h: Keyboard. The driver's struct and its two statics
--     are the record `KeyboardState`; the scancode that `in` reads is an argument. Keyboard.Tables
--     holds the two layouts, Keyboard.Modifiers is about shift and caps lock, Keyboard.Buffer about
--     the buffer as a stack, Keyboard.Session about runs of keys and reads.
--   src/process.c, src/header/process/process.h: Process. `_process_list`, `process_manager_state`
--     and the page manager are the record `Kernel`. Creating and destroying a process call the
--     functions of Paging. The call of `read`, the word that powers the machine off and the jump
--     into a context are events of a log: the file's bytes go to user memory, which is not part of
--     the state.
--   src/scheduler.c: Scheduler, on the same `Kernel`.
--   src/ext2.c, src/header/filesystem/ext2.h: Ext2. The disk is an array of blocks, each an array of
--     bytes; the superblock and the descriptor table that stay in memory are bytes at the offsets
--     of their packed structs (`FileSystem`). Ext2.Numbers and Ext2.Disk hold the numbering and the
--     bitmaps, Ext2.Inodes the inode table, Ext2.Blocks the logical blocks of a file, Ext2.Release
--     how they are given back, Ext2.Directory the entries of a directory, Ext2.Files the calls
--     `write`, `read`, `delete` and `read_directory` and the formatting of a disk. Ext2.Bitmap and
--     Ext2.Allocation, Ext2.Mapping, Ext2.Table, Ext2.Fresh, Ext2.Entries, Ext2.Calls and
--     Ext2.Format are about these.
--   src/interrupt.c, the file operations behind the system calls: FileCalls, over the disk of Ext2.
--     `copy_file`, `create_directory`, `delete_file`, `delete_directory` and `move_file` stand in
--     FileCalls.Copy, FileCalls.Create, FileCalls.Delete and FileCalls.Move; the walks that they
--     repeat are written once, in FileCalls. FileCalls.Listing, FileCalls.Split, FileCalls.Append,
--     FileCalls.Remove, FileCalls.Removed and FileCalls.Empty are about the entries of a block,
--     FileCalls.Contents about the blocks of a copy, FileCalls.Refusals and FileCalls.Creations
--     about the codes.
--   src/string.c and src/stdlib/string.c: Libc.Kernel and Libc.Shell, over memory as a function of
--     the address; the addresses do not wrap around. Libc.Moves, Libc.Compare, Libc.Strings and
--     Libc.Padding are about both files.
--   src/framebuffer.c, system call 6 of src/interrupt.c, and `print_string` and `print_char` of
--     src/builtin_commands.c: Console. The screen's cells are an array, the bytes sent to the ports a
--     log. Console.Position and Console.Bounds are about the cursor and the cells.
--   src/user-shell.c, the conversions of src/builtin_commands.c, and src/cmos.c: CommandLine.
--     CommandLine.Splitting and CommandLine.Commands are about `process_command`, which works on the
--     line in place, CommandLine.Numbers about numbers as text, CommandLine.Clock about the time. The
--     registers behind the clock's two ports are an argument. CommandLine.Editing is the loop of
--     `main` that reads a line, without the clock that it shows while it waits;
--     CommandLine.Editing.Typing and CommandLine.Totality are about what it hands over.
--   src/builtin_commands.c, the commands: Builtins. The shell's globals, the file system behind the
--     system calls and the log of what is printed are the record `ShellState`; a string is the list
--     of its characters. Builtins.Lookup is the shell's own walk along a directory, and
--     Builtins.Directories, Builtins.Removal and Builtins.Copying are the commands, which call the
--     operations of FileCalls with the requests that they build. Builtins.Lookup.Agreement,
--     Builtins.Directories.Place, Builtins.Directories.Messages, Builtins.Removal.Reach and
--     Builtins.Copying.Moving are about the two sides together. Builtins.Finding is `find`, with
--     Builtins.Finding.Root about it, Builtins.Paths the normal form of a path, with
--     Builtins.Paths.Components and Builtins.Paths.Display, and Builtins.Processes `exec`, `ps` and
--     `kill` over Process.
--   src/interrupt.c, the handler of the vectors and the controllers' ports: Interrupts, as the list of
--     what is done; Interrupts.Order is about the
--     acknowledgements and the exceptions that never return. System calls 11, 18 and 22:
--     SystemCalls, with SystemCalls.Rows about the rows of a listing.
--   src/speaker.c: Speaker, the bytes that are sent.
--   src/idt.c, src/header/cpu/idt.h: Descriptors, the interrupt gates; the addresses of the stubs are
--     an argument. Descriptors.Gates is about what the processor reads from them.
--   Common holds the Boolean tests, arrays as functions with `update`, bits of a byte, C's `int`
--     (Common.Int) and little-endian words in byte arrays (Common.Bytes).
--
-- Numbers are natural numbers, with the wrap-around of C's types written out where the source can
-- reach it. An array in memory is a function on indices; a variable that is read before it is set
-- (the tail of the inode table in `sync_node`, an inode that `read_inode` does not fill) is an
-- argument, `stack` or `stale`, so that a theorem holds for whatever is there.
--
-- Loops over a fixed range carry the number of rounds that is left. A loop without a bound in the
-- source runs on rounds that are enough for every run that ends: 16 for the searches of the process
-- list, whose index repeats after 16 rounds, and 512 for the walks along a directory block, whose
-- offset grows in every round unless a record length is 0. Where the
-- rounds can run out, that is an outcome of its own (`endless`, `none`), not a value.
--
-- The searches of the shell keep their own limits: 50 entries of a directory, and 11 levels below
-- the root.
--
-- A loop over a string has as many rounds as its argument `fuel` says, and `none` where the string
-- is longer; the theorems ask for one round more than the string has characters.
--
-- Not modelled: the port and assembly code (src/disk.c, src/portio.c but for the logs of `out`,
-- src/gdt.c, the loading of the table in src/idt.c, src/kernel.c and the .s files), which is input
-- and output or constant tables; of src/interrupt.c the timer's ports and the pointers that the
-- system calls take from the frame, which are the arguments of the functions here; of the shell the
-- command `cat`, which runs the kernel's own functions in user mode on tables that are never read
-- there; the disk image tool
-- (src/external-inserter.c) and the manual test src/test_ext2.c; `scheduler_init`, which programs the
-- timer; and `deallocate_logical_block_range`, which nothing calls. The log of flushed addresses has
-- no entry for a reload of CR3. A division by a block count of 0, which traps, is not modelled: the
-- theorems on freeing blocks assume the 1024 that formatting stores. What follows when an `int`
-- overflows in the conversions of numbers, which C leaves undefined, or when the path on display or
-- its normal form outgrows its array of 256 characters is not modelled: these runs end in `none`.
pub mod Common
pub mod Paging
pub mod Keyboard
pub mod Ext2
pub mod FileCalls
pub mod Libc
pub mod Console
pub mod CommandLine
pub mod Builtins
pub mod Interrupts
pub mod Speaker
pub mod SystemCalls
pub mod Descriptors
pub mod Process
pub mod Scheduler
