-- ===== src/Lib.antt =====
-- A model of the kernel of student-distrib/, a small operating system with three terminals, a
-- read-only file system and six processes, and what is proved of it.
--
-- The parts. A process calls the kernel by descriptors (Syscalls, Descriptor): the table of a
-- descriptor leads to the file system, to a directory (Files, FileSystem), to the real-time clock
-- (Rtc) or to the terminal (Keyboard, Console). The timer gives the processor to the three
-- terminals in turn (Sched) and maps video memory (Paging) to the screen or to the saved screen of
-- the terminal whose turn it is; the keyboard works on the terminal that is viewed. All interrupts
-- go through the controllers (Pic), and the block and string functions (Memory, Text) serve all.
--
-- Which file models which code:
--   Memory, Text        memory and strings, from student-distrib/lib.c (memcpy, strncmp, itoa, ...)
--   FileSystem          student-distrib/file_system.c up to read_data
--   Files               student-distrib/file_system.c from file_open on
--   Descriptor          jump_table and file_desc of student-distrib/syscalls.h
--   Process             the control blocks, the process slots and the programs in memory, from
--                       student-distrib/syscalls.h
--   Syscalls            student-distrib/syscalls.c; `open` is `open_call`, and Syscalls/Execute has
--                       execute and launch
--   Interrupts          the handlers of student-distrib/idt_init.c, with those of EXCEPTION_MAKER
--   Idt                 initialize_idt of the same file, and the gates of student-distrib/x86_desc.h
--   Kernel              entry of student-distrib/kernel.c from init_paging on, and the events that
--                       follow the start of the first shell
--   Paging              student-distrib/paging.c
--   Pic                 student-distrib/i8259.c
--   Rtc                 student-distrib/rtc.c
--   Sched               student-distrib/pit.c
--   Console             the screen and the terminals of student-distrib/lib.c, and printf
--   Keyboard            student-distrib/kb.c
--   Syscalls/Dispatch   system_call_handler of student-distrib/linkage.S
--   User                the programs of syscalls/: Cat, Ls, Shell, Counter, Hello,
--                       Pingpong and Syserr, with syscalls/ece391support.c (Library) and
--                       the calls (Program)
--   Prelude             shared names, Boolean tests, 32-bit words
--   Tests               runs at concrete inputs
-- A component's own file has its state and its operations, named as in the source; the modules
-- below it have what is proved.
--
-- State is a record that a function takes and returns. A word is a natural number below 2^32 with
-- the wrap-around written out; an `int32_t` is its bit pattern, compared by `signed_lt`. Memory is a
-- function from addresses to bytes; Mem is what a program sees at its addresses, while the memory of
-- a Console is physical and video memory is reached through the first page table.
--
-- Loops. Counted loops recurse on the rounds that are left. The search for a NUL takes fuel for the
-- whole address space, and `none` means that there is no NUL in it. The loop of `read_data` has one
-- round more than there are bytes to its end point, which is enough since each round copies a byte
-- at least. A busy wait (rtc_read, terminal_read) is cut in two, before and after; that of the clock
-- is also run on the interrupts that arrive.
--
-- A process is started by start_process, the part of `execute` from the choice of the slot on: the
-- pages from 128 MB on show the frame of four megabytes that the page directory names, and the other
-- frames are kept aside until they are mapped again (map_program, Process/Pages). The way into a
-- program, and the way back into the parent by the saved frame pointer, are results of the call.
-- The timer changes the directory entry too (Sched); there the memory of the programs is not shown.
--
-- A program of syscalls/ is a tree (Run): it ends with a result, or sleeps in a read of its terminal
-- or of the clock or in a command that it executes, and goes on with what the kernel then returns.
-- A program that loops takes the rounds that are allowed as an argument; the theorems say how many
-- are enough. Where the compiler and the linker put arrays and strings is a parameter.
--
-- Not modelled: what `entry` does before init_paging (it prints the multiboot information and loads
-- segment registers), the assembly that enters and leaves an interrupt, the tests of the kernel,
-- and of the user programs grep and sigtest. Flushing the TLB, ss0 of the task state segment and
-- the interrupt flag are left out: a handler is one step.
pub mod Prelude
pub mod Memory
pub mod Text
pub mod FileSystem
pub mod Descriptor
pub mod Files
pub mod Paging
pub mod Pic
pub mod Idt
pub mod Rtc
pub mod Sched
pub mod Console
pub mod Keyboard
pub mod Process
pub mod Syscalls
pub mod Interrupts
pub mod Kernel
pub mod User
pub mod Tests
