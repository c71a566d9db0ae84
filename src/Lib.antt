-- ===== src/Lib.antt =====
-- IllinixOS: a small 32-bit operating system with three terminals, a read-only file system, a
-- round-robin scheduler and ten system calls. The library models the C code of student-distrib as
-- functions on explicit state.
--
-- How the parts interact. A program enters the kernel by a system call. sys_execute looks its file
-- up in the directory of the file system image, copies it into the 4 MB page of a free process slot
-- and enters it; sys_halt goes back to the parent. sys_open, sys_close, sys_read and sys_write find a
-- descriptor in the block of the running process and call one of four drivers through the
-- function pointers stored there: regular files, the directory, the clock, or the terminal. Reads of
-- the clock and the terminal wait for interrupts. The timer starts the three shells, switches the
-- display when the keyboard has asked for it, and gives the terminals their turns.
--
-- Which file models which part.
--   Prelude          lists and arrays over the native numbers, Boolean tests, 32-bit words, and
--                    checks of all numbers below a bound.
--   FileSys          student-distrib/file_sys_driver.c: Image is the boot block, inodes and data
--                    blocks as bytes; Dentry is read_dentry_by_name and read_dentry_by_index, with
--                    strlen and strcpy of student-distrib/lib.c; Data is read_data.
--   Pic              student-distrib/i8259.c: masks, initialization and ends of interrupts.
--   Rtc              student-distrib/rtc.c: the virtual clocks of the three terminals; Interrupt is
--                    init_rtc and the end of the interrupt.
--   Segments         the segment descriptors of student-distrib/x86_desc.h.
--   Kernel/Boot      entry of student-distrib/kernel.c: the order in which the parts start. The vectors
--                    on which the controllers deliver are read off the words that they are sent.
--   Screen           putc, putc_kb, clear and update_xy of student-distrib/lib.c, and update_cursor
--                    of student-distrib/keyboard.c.
--   Screen/Print     puts and printf of student-distrib/lib.c.
--   Strings          itoa, strrev, strncmp and strncpy of student-distrib/lib.c; Memory is memset,
--                    memset_word, memset_dword, memcpy and memmove, label by label.
--   Terminal         student-distrib/terminal.c, and sys_getargs of student-distrib/syscalls.c.
--   Kernel           the globals and process control blocks of student-distrib/scheduling.h.
--   Kernel/Files     file_open, file_read, directory_read and the like of
--                    student-distrib/file_sys_driver.c.
--   Kernel/Syscalls  sys_open, sys_close, sys_read and sys_write of student-distrib/syscalls.c.
--   Kernel/Process   sys_execute and sys_halt of student-distrib/syscalls.c.
--   Kernel/Scheduling  student-distrib/scheduling.c, move_four_kb of student-distrib/idt.c, and
--                    sys_vidmap of student-distrib/syscalls.c.
--   Kernel/Running   interrupts of the timer and the clock, keys, system calls and reads that wait, as the
--                    steps of a relation on the kernel's state; the invariant is in
--                    Kernel/Process/System, Forest and Slots.
--   Kernel/Process/Exceptions  the exception handlers of student-distrib/idt.c.
--   Kernel/Typing    kb_handler of student-distrib/idt.c and init_keyboard of
--                    student-distrib/keyboard.c: History is the saved lines, Handler the choice of
--                    characters and the whole handler, Start the initialization.
--   Paging           student-distrib/paging.c: the page directory and tables at boot. Walk is the lookup
--                    that the processor does in them, which is not code of the repository.
--   Programs         syscalls/ece391cat.c, on the model of the system calls; Listing is
--                    syscalls/ece391ls.c, Counter syscalls/ece391counter.c and Errors
--                    syscalls/ece391syserr.c; Shell is syscalls/ece391shell.c, ece391hello.c and
--                    ece391testprint.c; Support is the comparisons of syscalls/ece391support.c.
--   Idt              initialize_idt and set_exception_params of student-distrib/idt.c.
-- In each part the modules below it prove theorems, and Tests runs them on concrete data.
--
-- Conventions. A C function is a function of the same name that takes the state it reads and returns
-- its result and the state it leaves. A word is a number below 2 ^ 32: -1 is 2 ^ 32 - 1, and
-- comparisons of `int` shift both sides by 2 ^ 31. An array is a function from indices. A null
-- pointer or a pointer through which the processor would fault is `none` or `fault`. sys_read takes
-- a buffer that may be null, and a driver that stores through it is a fault; a buffer that is not
-- null is memory of the program, and does not overlap the kernel's data.
--
-- Loops. A loop whose count the code fixes is recursion on the rounds that are left: 63 directory
-- entries, 32 characters, 8 descriptors, 6 process slots, 25 rows of 80 cells, 128 characters of a
-- line, 4096 bytes of a screen, 1024 entries of a page table, 256 vectors. read_data has as many
-- rounds as its bounds are apart. The shift loop of rtc_set_frequency has 32 rounds, which empty any
-- word. The waiting loops take what arrives while they wait: rtc_read a number of clock interrupts,
-- t_read the keyboard buffers that its passes find; they give `none` if that is not enough, and the
-- theorems say when it is.
--
-- A format is read to its end, a string in an array to the end of the array; itoa has 32 rounds. cat
-- and ls have as many rounds as they are given, and the theorems on them say how many are enough;
-- the shell has no end of its own. A loop on %ecx is recursion on %ecx.
--
-- Not modelled: what printf draws on error paths of the system calls; the interrupt flag; in the
-- kernel's state, page tables but for the page bases that change; at boot, the multiboot
-- information; the handler of the non-maskable interrupt, which loops for ever; the other assembly,
-- which the model meets only as the entry to a program, the return to a saved frame, the dispatch of
-- system calls and the addresses of wrappers; the user programs other than cat, ls, counter, syserr,
-- hello, testprint and the shell, and the kernel's own tests. What a program does that the shell
-- starts is a parameter.
pub mod Prelude
pub mod FileSys
pub mod Pic
pub mod Rtc
pub mod Screen
pub mod Terminal
pub mod Strings
pub mod Kernel
pub mod Paging
pub mod Idt
pub mod Segments
pub mod Programs
