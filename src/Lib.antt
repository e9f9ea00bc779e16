-- ===== src/Lib.antt =====
-- A verification of the kernel: the heap, the string functions, the PATA driver, ChainFS, the file
-- system on top of it, the mouse, the keyboard and the screen, the interrupts, the panic screen, the
-- serial port, the shell with its programs, and the loop that reads lines and runs them.
--
-- The heap (src/mlibc/memory.c) is Heap: a state of headers at addresses and payload bytes, and one
-- function for each of init_heap, kmalloc, kfree, kcalloc, krealloc, kget_free_memory and
-- kmalloc_usable_size, under their names in C. Heap/Blocks is the abstract view, a list of blocks
-- that tile the heap; Heap/State states which list a heap holds (IsHeap), and Heap/Kmalloc,
-- Heap/Kfree, Heap/Keeps, Heap/Krealloc and Heap/Moves say what the operations do to it.
-- Heap/Chain, Heap/Writes, Heap/Carve, Heap/Malloc, Heap/Free, Heap/Release, Heap/FirstFit and
-- Heap/InUse hold the lemmas. Addresses and sizes are 64-bit, with their wrap-around. The loops
-- over the blocks run on 4097 rounds, more than the blocks of 32 bytes at least that a heap of
-- 131072 bytes holds. A header is a cell of its own at its address, so that a payload write over a
-- header is not modelled.
--
-- The strings (src/mlibc/string.c) are Mlibc: strcmp on memory, with fuel for the positions
-- compared. memset and memcpy stand with the heap.
--
-- The driver (src/kernel/drivers/disk/pata/pata.c) is Pata: the port writes of a transfer, the
-- sector that they address, and the disk as a function from sector numbers to sectors. The drive is
-- taken to become ready and to transfer all 256 words. The cache flush behind a write (0xE7) stands
-- among the port writes; it has no effect on the disk, which here is what a read returns.
-- pata_identify only prints and is left out.
--
-- ChainFS (src/kernel/drivers/fs/chainFS/chainfs.c) is ChainFs: the state g_chainfs together with
-- the disk, passed through every call. ChainFs itself has the block map and
-- chainfs_free_block_chain, ChainFs/Data the loops of chainfs_write_file and chainfs_read_file,
-- ChainFs/Volume chainfs_init and chainfs_format, ChainFs/Table the searches of the file table,
-- ChainFs/Paths split_path, chainfs_resolve_path and the directory operations, ChainFs/Files the
-- operations on files, which call kmalloc and kfree of Heap. Numbers are 32-bit, with their wrap-
-- around. An entry of the file table has the 60 bytes of the packed struct in chainfs.h, not the 64
-- that chainfs.md gives; ChainFs/Table/Packed has the struct, ChainFs/Table/Array what the reads and
-- writes of entries are on an array of them. Fuel bounds the rounds along a chain of blocks; one more than the length of the chain is
-- enough. A path is the list of its bytes. chainfs_mkdir and chainfs_write_file give none for a
-- path that overruns their local buffers. The calls of com1_printf are logging and are left out.
--
-- ChainFs/Table/Entry, ChainFs/Table/Lookup and ChainFs/Table/Search say what a new entry of the
-- table is and what the searches make of it, ChainFs/Paths/Name and ChainFs/Paths/Mkdir follow a
-- name without slashes through chainfs_mkdir and chainfs_chdir, ChainFs/Paths/Current and
-- ChainFs/Paths/Located have chainfs_get_current_path, and ChainFs/Files/Name, ChainFs/Files/Write,
-- ChainFs/Files/Kept, ChainFs/Files/Created, ChainFs/Files/RoundTrip and ChainFs/Files/Delete
-- follow a file through chainfs_write_file, chainfs_read_file and chainfs_delete_file, with kmalloc
-- and kfree of the heap.
--
-- ChainFs/Fields, ChainFs/Map, ChainFs/Data/Step, ChainFs/Data/Store, ChainFs/Data/Load,
-- ChainFs/Data/RoundTrip, ChainFs/Data/Delete, ChainFs/Volume/Mount, ChainFs/Table/Find,
-- ChainFs/Paths/Split, ChainFs/Paths/Root, ChainFs/Volume/Sectors, ChainFs/Volume/Blank and
-- ChainFs/Layout hold the theorems on these; the files called Examples
-- apply the theorems to concrete states.
--
-- The mouse (src/kernel/drivers/mouse.c) is Mouse: mouse_handler as a function of the two bytes
-- that it reads from the ports, with the state and the video memory; its theorems stand in
-- Mouse/Cursor.
--
-- The screen (src/kernel/drivers/vga.c) is Screen: clear_screen, scroll_screen, print and
-- update_cursor on the video memory, a function from offsets to bytes, and the port writes.
-- Screen/Cells has print, Screen/Cursor what the display controller makes of the writes.
--
-- The keyboard (src/kernel/drivers/keyboard.c) is Keyboard: handle_keyboard and scanf, which calls
-- print and update_cursor of Screen. Its loop runs over the bytes that the ports give from round to
-- round. Keyboard/Line is the line editor in the abstract, Keyboard/Edits and Keyboard/Bounds have
-- the theorems.
--
-- The interrupts (src/kernel/interrupts: idt.c, pic.c and handlers.c) are Interrupts: the gates of
-- the table, the writes to the two controllers and irq_handler, which calls mouse_handler of Mouse.
-- The addresses of the assembly stubs are arguments. Interrupts/Gates and Interrupts/Pic have the
-- theorems, the latter for a controller that takes the writes.
--
-- The serial port (src/lib/com1.c) is Serial: each function gives the bytes it sends. The loop of
-- com1_write_dec has 21 rounds, for the 20 digits of a 64-bit number. Serial/Hex, Serial/Decimal
-- and Serial/Printf have the theorems, the latter with the text of each conversion on its own; atoi, in Mlibc, reads decimal numbers back.
--
-- The handler of exceptions (src/kernel/panic.c) is Panic: the screen and the log that kernel_panic
-- leaves, none where the table of messages would be read past its end. Panic/Log has the theorem on
-- both.
--
-- The shell and its programs (src/kernel/bin) are Programs: touch.c, cat.c and mydir.c in Programs
-- itself, info.c and fetch.c in Programs/Info, calc.c in Programs/Calc, disk.c in Programs/Disk, and
-- shell_func of shell.c in Programs/Command, which reads the line, Programs/Dispatch, which runs the
-- command, Programs/Listing (ls) and Programs/SelfTest (test_fs). They call the operations of ChainFs,
-- print of Screen and scanf of Keyboard on one state. Programs/Outside has what they use that is not C
-- of the repository: itoa and cpuid are functions, and the words of pata_identify are an array. A
-- command gives none where the fuel of a chain runs out, a local buffer is overrun, a division traps
-- or the keyboard gives no whole line. A fuel of 5 is enough for cat to read the 2047 bytes that a chain without
-- a circle holds, and a fuel of 6 for it to return on every disk. Programs/Lines has the loop of cat
-- and the command line of touch, Programs/RoundTrip these two together, Programs/Returns (with
-- ChainFs/Files/Returns) the fuel of cat, Programs/Dump the lines of disk dump, Programs/Divide the
-- division of calc, Programs/Sound what each command keeps, and Programs/Invariant puts these
-- together.
--
-- The main function (src/kernel/kernel.c) is Kernel: the state that kmain sets up, a round of its
-- loop, and the states that the loop gets to. Kernel/Reach has what holds in all of them, Kernel/Lines
-- what a round makes of a line that is typed, Kernel/Ready the state after a format, and
-- Kernel/RoundTrip a session of three lines.
--
-- Not modelled: the assembly files and printf, which are below C; the reads of the
-- serial port; the set-up of the mouse's controller, which only writes to ports and polls them;
-- kheap_dump, which only prints, and kmalloc_aligned.
pub mod Prelude
pub mod Heap
pub mod Mlibc
pub mod Pata
pub mod ChainFs
pub mod Mouse
pub mod Screen
pub mod Keyboard
pub mod Interrupts
pub mod Serial
pub mod Panic
pub mod Programs
pub mod Kernel
