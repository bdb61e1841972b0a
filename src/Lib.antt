-- ===== src/Lib.antt =====
-- A model of the PKE kernel for RISC-V: physical pages, Sv39 page tables, processes, the scheduler,
-- system calls and traps, the loader of the application, the start of the machine, and the functions for
-- strings, printing and host files that they use.
--
-- How the parts interact: pmm.c hands out pages; vmm.c builds page tables in such pages; process.c
-- builds a process from pages and page tables; sched.c keeps the ready processes in a queue and
-- resumes one through switch_to; strap.c receives the traps of user mode and calls syscall.c, whose
-- calls use all of the others. minit.c starts the machine and kernel.c the kernel, which has elf.c load
-- the application from the host; mtrap.c passes the timer on to strap.c. Each file below
-- is a group of C functions with the names of the C code.
--   Base        lists, Boolean tests and words of 64 bits; `Run`, the ways a kernel function can end
--   Phys        physical memory by 64-bit words and the allocator's variables (`Phys`)
--   Pmm         kernel/pmm.c; Pmm/Chain is the free list as a list of pages
--   Vmm         kernel/vmm.c and the macros of kernel/riscv.h; Vmm/Space says when the tables of all
--               address spaces are well formed, and its `pte_at` is the abstract map of a space
--   Kernel      the kernel's state: `Phys`, `procs[]`, `current`, `ready_queue_head`, the heap's end,
--               the ticks, the control registers, and the addresses that the linker fixes
--   Trapframe   `struct trapframe` and the end of kernel/strap_vector.S
--   Sched       kernel/sched.c, with switch_to and free_process; Sched/Queue is the ready queue as a
--               list of processes
--   Proc        kernel/process.c: Proc for the pool and alloc_process, Proc/Fork, Proc/Wait; Proc/Alloc is
--               the space of a new process, with Vmm/Built for the steps on the way. Below Proc/Fork, State
--               is what a part of the loop may change, Data, Segment, Code and Cases are its cases, Regions
--               the parent's segments as a list, Loop the loop, Start what comes before it, Finish what
--               comes behind, Outcome and Whole the call from end to end
--   Syscall     kernel/syscall.c
--   Strap       kernel/strap.c; Strap/Forks is the call `fork` from the trap to the return
--   Strings     util/string.c on memory by bytes
--   Snprintf    vsnprintf of util/snprintf.c; Snprintf/Text is the text that a format stands for,
--               and Snprintf/RoundTrip reads by atol what it prints
--   Rounds      sequences of yields, waits, exits and ticks of the timer, with user code in between
--   Host        what the loader reads of the host
--   Elf         kernel/elf.c and kernel/elf.h; Elf/Load is one segment, Elf/Table all of them, and
--               Elf/Bincode the load from the kernel's arguments to the entry point
--   Boot        kernel/kernel.c
--   Machine     kernel/machine/minit.c and kernel/machine/mtrap.c; Machine/Timer is a tick of the timer from
--               the machine mode to the user, with the hardware's hand-over between the two handlers
--   User        user/user_lib.c; the kernel's answer to `ecall` is a parameter
--   Files       spike_interface/spike_file.c
--   Tests       concrete states and runs
--
-- A command takes the state and ends as `Run` says: it returns, stops the machine by panic, assert or
-- shutdown, faults on the NULL page, leaves for user mode, or loops. `switch_to` leaves for user mode
-- by `sret`, so no C code behind a call of it runs.
--
-- Pointers of the kernel are physical addresses, since the kernel maps memory one to one; a pointer
-- to a process is an index into the pool. Where the kernel calls memset and memcpy, they are modelled
-- by what they leave in its memory of words; Strings has the loops of both.
--
-- Bounds and fuel: words wrap at 2^64. The loop of create_freepage_list makes at most one round for
-- each page below the end of memory, that of map_pages one for each page up to the last, that of
-- insert_to_ready_queue one for each process of a queue of different processes, at most 32. Where
-- this fuel ends, or the endless loop of wait finds nothing, a command is `hang`. The loops of
-- util/string.c that stop at a zero byte run on fuel too, one for each byte of the text. The loop that
-- counts decimal digits has fuel for 19, which a number below 2^63 does not exceed.
--
-- The host is a parameter: the answers of its calls in Host and Files, the findings in the device tree in
-- Machine. An ELF file is what its reads deliver. The delegation registers keep the bits that the
-- hardware has.
--
-- Not modelled: what the kernel prints, the saving of registers by the trap vectors, the assembly entry,
-- spike_file_stat, and the parser of the device tree and the HTIF registers of
-- spike_interface, which are taken over from another project, and user/app_wait.c, a test program.
pub mod Base
pub mod Phys
pub mod Pmm
pub mod User
pub mod Vmm
pub mod Kernel
pub mod Trapframe
pub mod Sched
pub mod Proc
pub mod Syscall
pub mod Strap
pub mod Strings
pub mod Rounds
pub mod Files
pub mod Host
pub mod Elf
pub mod Boot
pub mod Machine
pub mod Snprintf
pub mod Tests
