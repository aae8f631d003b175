-- ===== src/Lib.antt =====
-- ChicOS, a simulator of an operating system in C (src/chicos.c, src/defines.h, src/modules/).
--
-- The program keeps one global `app`. Threads for the CPU, the disk and the printer run loops over
-- it, and take turns by the semaphores in it. Here each module's part of `app` is a record, and
-- each function of the module takes the parts it uses and returns them. What a call comes to is an
-- `Outcome` (Base/Effects.antt): a result, a wait on a semaphore that nobody else posts, a use of
-- a null pointer or of an index out of bounds, the end of the program, or a loop that
-- has not ended in the rounds that it was given. A `sem_t` is its count. Each function runs alone,
-- from the call to the return: another thread's steps in between are not modelled.
--
-- Base.antt        what the modules share: tests, lists as arrays, outcomes and what holds
--                  of their results, unsigned words
-- Utils.antt       src/modules/utils/utils.c
-- Stdio.antt       the C library's files and strings, as far as the sources use them: `fgets`, `strtok`,
--                  `atoi`, and in Stdio/Scan `fscanf` and `fgetc`, with what they make of a line in
--                  Stdio/Scanned
-- Memory.antt      src/modules/memory/mem.c: the page table, `c_alloc`, `c_dealloc`, `c_realloc`,
--                  and the page replacement `second_chance`. An address is an offset into the pool.
--                  Memory/Invariant is the state between two calls, Memory/Search the first run of
--                  free pages, Memory/Alloc and Memory/Release the two operations on blocks,
--                  Memory/Blocks how blocks live side by side, Memory/Replace, Memory/Victim and
--                  Memory/Room the path on which pages run out.
-- Disk.antt        src/modules/io/disk.c: the queue of requests, the arm, and `disk_loop`, a round
--                  at a time. Disk/Queue, Disk/Nearest and Disk/Service are about the queue, the
--                  choice of a request and the loop.
-- Process.antt     src/modules/process/process.c: the process table, lookup by pid, and the
--                  operations on one process. A pointer to a process is its index.
-- Scheduler.antt   src/modules/scheduler/scheduler.c: who runs next (Scheduler/Select), and the
--                  removal of killed processes (Scheduler/Shift, Scheduler/Reap, Scheduler/Pass).
-- Semaphore.antt   src/modules/semaphore/semaphore.c: the semaphores of the simulated processes.
--                  Semaphore/Waiters reads the ring of waiters as a queue, Semaphore/Counting is
--                  about the value and the processes, Semaphore/Names about making and finding.
-- Printer.antt     src/modules/io/printer.c: the linked list of print requests, whose nodes are
--                  blocks of the allocator, and the printer's loop. Printer/Chain reads the links
--                  as a list, Printer/Jobs is about the queue, Printer/Requests about requests going
--                  in and out, Printer/Loop about printing.
-- Code.antt        src/modules/process/process.c: `init_code_section`, which reads a process's
--                  instructions, over the bytes of its file. Code/Line and Code/Commands are about
--                  one line, Code/Load and Code/Section about the whole section.
-- Synt.antt        src/modules/fs/synt.c: opening a process's file and reading its header, over the
--                  bytes; Synt/Header is about a header as the files have it. What memory holds that is
--                  allocated is a parameter, `Contents`.
-- Create.antt      src/modules/process/process.c: `p_create`, `log_process`, `p_realloc`, `get_pid`, and
--                  `memory_load_req` of mem.c. Create/Loaded is about a process made from a file,
--                  Create/Realloc about one that gets more memory. A process has cells for as many
--                  instructions as fit in its block; a write behind them is a fault.
-- Syscall.antt     src/modules/cpu/cpu.c: the parts of `app` as one state, `System`; `sys_call` and
--                  `interrupt_control`. What the callers print into the buffer and `sscanf` reads back
--                  is a record, `Args`.
-- Cpu.antt         src/modules/cpu/cpu.c: `exec_process`, and `cpu_loop` a round at a time. Cpu/Locks
--                  is about the semaphores over all of it, Cpu/Cell and Cpu/Run about a process that
--                  runs, Cpu/Reads about one that reads.
-- Log.antt         src/modules/log/log.c: which messages are shown and under which heading.
-- User.antt        src/modules/user/user.c: `trim_whitespace` (User/Trim), and accounts: their files,
--                  the log and the login (User/Login). The password's hash and its check are arguments.
-- Main.antt        src/chicos.c: the arguments (Main/Options), the start and the end (Main/Start).
-- Render.antt      src/modules/render/render.c: the windows (Render/Layout), what is typed in and the
--                  login (Render/Input); Render/Panels is what the panels show: a text with its line
--                  and column for each call that prints; Render/Screens has the thread's loop.
-- The operations that take a table semaphore keep its count: Process/Locks, Semaphore/Locks,
-- Scheduler/Locks, Create/Locks and Syscall/Locks have the lemmas that Cpu/Locks uses.
-- The modules called Tests run the definitions on small inputs.
--
-- Bounds and fuel. Loops over arrays are recursion on the rounds that are left. `sweep`, the loop
-- of `second_chance`, gets one round more than there are pages: it ends when it comes round to the
-- page before the hand, and a hand at page 0 finds on its second lap that it has cleared the bits.
-- The loop of `c_alloc` gets one round for each page asked for, since each eviction counts a page
-- more. `disk_rounds` is the endless loop of the disk's thread up to its first interrupt.
-- `read_names` gets 300 rounds more than there are bytes: after the last byte at most 257 rounds pass
-- until the names are full. `last_token` and `read_account` get one more than there are bytes.
-- `cpu_rounds` is the CPU's endless loop for a number of rounds that is given.
-- `load_loop` gets two rounds more than there are bytes, and each round takes a byte. Unsigned
-- fields wrap where the source's arithmetic can reach the end of the type.
--
-- Not modelled: of src/modules/render the logo and the welcome screen, which only show, and the
-- float computations of the bars, which are arguments; the threads' interleaving, the contents of
-- the pool beyond what the parameters give, `clear_mem`, the memory percentages, the page table's
-- print and `is_mem_free` of mem.c, the time stamps and directories of user.c, and the third-party
-- code under vendor.
mod Base
pub mod Utils
pub mod Stdio
pub mod Memory
pub mod Disk
pub mod Process
pub mod Scheduler
pub mod Semaphore
pub mod Synt
pub mod Printer
pub mod Code
pub mod Create
pub mod Syscall
pub mod Cpu
pub mod User
pub mod Log
pub mod Main
pub mod Render
