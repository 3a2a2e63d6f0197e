-- ===== src/Lib.antt =====
-- A model of the kernel of Jake, a RISC-V teaching kernel, and of the behaviour of its parts.
--
-- The kernel has a buddy allocator of physical pages (src/kernel/buddy.c), page tables and virtual
-- memory areas on top of it (pt.c, with the lists of util.c), a parser of application binaries
-- (elfpars.c), processes with a scheduler (process.c), and the handlers of traps in supervisor and
-- machine mode (exception.c, timer.c). A trap calls the scheduler or a system call; a system call or
-- a page fault calls the page tables; those call the allocator.
--
-- Files:
--   Buddy        buddy.c: `Buddy` is the free lists and the block array. A `struct block *` is the
--                block's index, `none` is NULL. Buddy.Roles has the invariant `IsHeap`: each page is
--                the head of a free block, the head of a block in use, inside of a block, or outside;
--                each free list is a chain of just the free blocks of its order. Buddy.Client has runs
--                of the allocator with a client, which holds blocks and gives them back.
--   Machine      the state of pt.c: words of memory, nodes and VMAs by address, and the variables.
--   Nodes        node_init to list_is_empty of util.c.
--   Util         the part of util.c on bytes.
--   Elf          elfpars.c.
--   Pt           pt.c and pt.h: Entry (macros), Alloc, Walk, Page, Vma and Init follow the file's order.
--   Process      process.c and process.h: State (the records), Scheduler, Space, Run. `Leaves` is how
--                a function of the kernel ends: it returns, goes to user mode, halts or spins. Layout
--                has what the list holds by the statuses of its slots.
--   Trap         exception.c and timer.c: Scall (system calls and the timer), Fault (scall), Hart
--                (machine mode). Trap.Session has sessions: traps from user mode into `scall`, one after
--                the other. Trap.Dispatch is the interface of its lemmas: statements about the process
--                list, and the four calls that change it.
--   Tester       the assembly course: the assignments (asm/assignments) as functions on registers, and the
--                program that tests them (asm/tester_src/tester_main.c). It shares no state with the
--                kernel.
--   Boot         main.c: `main` joins the parts.
--   Debug        the functions that print registers, frames and mappings (debug.c, and some of util.c,
--                process.c and pt.c), as the bytes that they print.
--   Common       numbers, lists, maps, results and laws of bits that the parts share.
--   The other files hold lemmas and, named Tests, runs on concrete states.
--
-- State is passed explicitly: an operation takes the state last and gives the new one back beside its
-- result. A negative C result is a `negsuc` of ℤ. Words wrap at 2 ^ 64 where the source can.
--
-- Fuel: a loop over a list takes rounds, and `none` says that they ran out. buddy_remove takes as many
-- rounds as there are blocks, __buddy_try_merge 14, since each merge raises an order that is at most
-- 13, pt_salloc 2, since its recursive call finds no page and does not recur; the scheduler and the
-- search for a slot have the 256 rounds that the code counts. The walks over the lists of VMAs take
-- their rounds from the caller: vpn2vma and get_free_vpn need one more than there are VMAs, the loop of
-- pt_vma_new one more than the VMA has pages, unless an error is met, which takes it back. The loop of
-- pt_vma_unmap_pages goes back over pages that are not mapped; where none is mapped up to the first page
-- of the VMA, a third of that page's number and 2 rounds are enough. The loop of assignment 2.1 needs
-- one round more than its argument, and so do the calls of assignment 4.1.
--
-- Parameters of the model that the linker or app.S fixes are fields of `Machine` and `Kernel`: the
-- addresses of ksatp, of process_list, of the two applications, and of the variable satp of scall. For
-- assignment 4.1, what the compiler makes of recursive_call_4_1 (the address behind its call, the
-- bytes that it takes from the stack and what it writes there) is one as well.
--
-- Not modelled: assembly (trap.S, stack.S, ns16550a.S), the TLB, the prints between the steps of the
-- other functions, printf, the pointer shift of buddy_migrate, and of the tester main, the test 4.0,
-- and the assignments 4.0 and 5.0, which depend on single registers and on the layout of the memory.
-- Where assignment 4.1 returns to another place than it was called from, what then runs is not
-- followed. `rand` of the C library is an argument.
pub mod Common
pub mod Machine
pub mod Buddy
pub mod Nodes
pub mod Util
pub mod Elf
pub mod Pt
pub mod Process
pub mod Tester
pub mod Trap
pub mod Boot
pub mod Debug
