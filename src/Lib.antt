-- ===== src/Lib.antt =====
-- FOS, a small teaching operating system for the 32-bit PC: what of its own core logic is modelled
-- here, and what is proved of it. Paths are from the root of the repository.
--
-- Parts and files. The kernel of PROJECT_template/kern keeps environments (processes), schedules
-- them on clock interrupts, and hands out memory; a user program links PROJECT_template/lib, whose
-- heap asks the kernel for pages by system calls. Each part has a file that holds its definitions
-- and a folder of the same name with the proofs about them and, in Tests, concrete runs.
--   Prelude: machine words of 32 bits (every wrap-around is written as `% 2 ^ 32`), lists, shared
--     lemmas.
--   Queue: the linked-list macros of PROJECT_template/inc/queue.h (LIST_INIT, LIST_INSERT_HEAD,
--     LIST_INSERT_TAIL, LIST_INSERT_AFTER, LIST_INSERT_BEFORE, LIST_REMOVE, LIST_CONCAT,
--     LIST_FOREACH) on the `prev_next_info` of all nodes and one
--     list head, as updates of functions from node addresses, NULL being 0. `Holds` relates them to
--     the list of the nodes; the other parts use that list.
--   UserHeap: `malloc` and `free` of PROJECT_template/lib/uheap.c: the array `spaces`, its size, and
--     the system calls sys_allocateMem and sys_freeMem as a list of the calls made. A write behind
--     the array is a result of its own. UserHeap.Backed joins `malloc` to the kernel's side of
--     sys_allocateMem (PROJECT_template/kern/syscall.c).
--   Sched: PROJECT_template/kern/sched.c, with env_run, env_exit, allocate_environment and
--     free_environment of PROJECT_template/kern/user_environment.c: the NEW, READY and EXIT queues
--     and the round-robin scheduler. A function that enters user code or the command prompt does not
--     return in C: its result here is the state in which it does so. A kernel panic and a read
--     through a NULL `curenv` are results of their own.
--   Memory: frames, page tables and permissions of PROJECT_template/kern/memory_manager.c for the
--     address space of one environment; a frame is its number, and a kernel panic is `none`.
--     Memory.PageFile: the disk frames and disk page tables of PROJECT_template/kern/file_manager.c.
--     Memory.UserPages: allocateMem, which backs the user heap with pages. Memory.Safe: when the
--     frames of a memory are accounted for.
--   PageFault: page_fault_handler of PROJECT_template/kern/trap.c, with its active and second lists,
--     on Memory and its page file.
--   HeapPages: freeMem of PROJECT_template/kern/memory_manager.c, which sys_freeMem calls for the user
--     heap: the page file, the page tables and both lists of PageFault.
--   Strings: memset, memcpy, memmove, memcmp and ltostr of PROJECT_template/lib/string.c, on a memory
--     of bytes. Strings.Text: the functions of that file on strings, which are lists of characters;
--     what they write is written into the memory.
--   Printing: PROJECT_template/lib/printfmt.c: the text that vprintfmt gives to `putch`, for a format
--     and a list of arguments, and vsnprintf with its buffer in the memory of Strings. A missing
--     argument, or one of another type, is a result of its own, and so is "%e" of the least int, for
--     which C reads in front of an array. Printing.Console: cprintf of
--     PROJECT_template/lib/printf.c and PROJECT_template/kern/printf.c, and readline of
--     PROJECT_template/lib/readline.c.
--   Objects: the array of named objects that PROJECT_template/kern/semaphore_manager.c and
--     PROJECT_template/kern/shared_memory_manager.c both write out, for any `Kind` of object.
--     Objects.Semaphores and Objects.Shares fill it with the two types; a share gives its frames back
--     to Memory.
--   Console: PROJECT_template/kern/console.c. Console.Input: the circular input buffer. Console.Screen: the
--     cells of the display and the text for the printer. Console.Keyboard: scan codes, modifiers, the
--     tables of the keys and the delete key. Console.Poll: cons_getc, cons_getc2 and getchar on what the
--     devices deliver.
--   SystemCalls: sys_cputs of PROJECT_template/kern/syscall.c, by which cprintf and atomic_cprintf of a user
--     program reach the printing of the kernel and the console. SystemCalls.Frames: __sys_allocate_page and
--     sys_clearFFL of the same file.
--   Traps: fault_handler of PROJECT_template/kern/trap.c: the checks of the stacks, table faults, which make
--     a page table, and page faults, which PageFault serves.
--   Environments: env_free of PROJECT_template/kern/user_environment.c, on PageFault, Memory and
--     pf_free_env of PROJECT_template/kern/file_manager.c, in Memory.Releasing; the identifiers of
--     environments, with envid2env of PROJECT_template/kern/helpers.c.
--
-- Fuel and bounds. LIST_FOREACH on the links takes fuel, which bounds its rounds: the length of
-- the list and one is enough. The loops of ltostr have ten rounds of fuel, since a word has at
-- most ten digits. printfmt has as many rounds as the format has characters, and one: each takes a
-- character. printnum has 64 rounds, since the bases are at least 10. All else is structural
-- recursion. Addresses and sizes are natural numbers below 2^32 where that matters, and the
-- hypotheses say so. A page fault needs at most two free frames, one for the page and one for a
-- table of the page file; a table fault one more. The input buffer of the console holds at most
-- 511 characters, and the loops over page tables go through all 955 tables of the user part and
-- their 1024 entries.
--
-- Not modelled: device drivers and the start-up code (PROJECT_template/boot, kern/kclock.c,
-- kern/picirq.c, kern/kdebug.c, lib/disk.c, and of kern/console.c the initialisation of the
-- devices), the command prompt, the trap frames, the rest of the system call dispatcher, the
-- loading of programs and the address-space set-up of kern/user_environment.c, the working set
-- arrays, strsplit, the test programs of PROJECT_template/user and the tests kern/test_kheap.c and
-- kern/test_priority.c, and everything that only panics: the kernel heap, page buffering, MLFQ
-- scheduling, and smalloc, sget, realloc, expand, shrink and freeHeap of the user heap. The
-- run-time checks chk1 and chk2 of the scheduler change no state.
pub mod Console
pub mod Environments
pub mod HeapPages
pub mod Memory
pub mod Objects
pub mod PageFault
pub mod Prelude
pub mod Printing
pub mod Queue
pub mod Sched
pub mod Strings
pub mod SystemCalls
pub mod Traps
pub mod UserHeap
