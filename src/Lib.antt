-- ===== src/Lib.antt =====
-- mockos: a kernel after Linux 0.12, its parts in C, as functions on explicit states.
--
-- The parts and the files that model them. Paths are from the repository's root.
--
--   Mm        mm/memory.c, mm/swap.c, include/linux/mm.h. The state is `Mm.State.Mem`: the byte array
--             `mem_map` with the byte in front of it, the words of the memory, HIGH_MEMORY, and the
--             number of loads of cr3. `Mm.FreePage` is `get_free_page`, `Mm.Init` is `mem_init`,
--             `Mm.Tables` is `copy_page_tables`, `Mm.Protect` is `do_wp_page`, `un_wp_page` and the
--             macro `lin2phy`.
--   Sched     kernel/sched.c. The state is `Sched.Kernel`: the array `task`, the field `state` of every
--             task, and `current`. `Sched` has `schedule`, `do_timer` and `sys_pause`; `Sched.Choice`
--             says which task `schedule` takes and `Sched.Fair` when a task gets its turn.
--             `Sched.Wait` has `__sleep_on`, cut at its call of `schedule`, with `sleep_on`,
--             `interruptible_sleep_on` and `wake_up`; `Sched.Wait.Chain` is about the queue that the
--             locals `tmp` of the sleepers make. `Sched.Mutex` has `sys_klock` and `sys_kunlock` as steps
--             of several tasks.
--   Fork      kernel/fork.c: `find_empty_process`, on the table and the numbers that tasks bear. `Fork.Task`
--             is `struct task_struct` and INIT_TASK of include/linux/sched.h, `Fork.Change` what
--             `copy_process` stores to a task, and `Fork.Copy` `copy_mem` and `copy_process` on the state
--             `Fork.Copy.Machine`, which holds the memory of Mm, the tasks and `gdt`. `Fork.Links` is about
--             the links between relatives, `Fork.Counts` about the counts of inodes and files,
--             `Fork.Child`, `Fork.Return` and `Fork.Born` about the child. `Fork.System` has `sys_fork`
--             of kernel/sys_call.s; `Fork.Spawn` and `Fork.Table` relate it to the table that a user sees,
--             `Fork.Turns` to the scheduler.
--   Printf    kernel/vsprintf.c: `skip_atoi` and `number`; `Printf.Format` reads a directive, and
--             `Printf.Vsprintf` has the conversions and the loop of `vsprintf`. `Printf.Arrange` and
--             `Printf.Layout` are about what `number` writes.
--   Buffer    fs/buffer.c, with `struct buffer_head` of include/linux/fs.h. The state is `Buffer.Cache`:
--             each field of the heads as a function of a head's address, `hash_table` and
--             `free_list`. `Buffer` has the two queue functions and `find_buffer`, `Buffer.Search` the
--             search of the free list, `Buffer.Getblk` `get_hash_table` and `getblk`, `Buffer.Init` `buffer_init`. What holds
--             between calls is `Buffer.Reuse.IsCache`: the free list is a ring (`Buffer.Ring`), each hash
--             queue a list that ends with NULL (`Buffer.Hash`, `Buffer.Queues`), and every head
--             stands in the queue of its block (`Buffer.Hashed`, `Buffer.Rehash`). `Buffer.Frames` says
--             which step leaves which lists alone, `Buffer.Placed` that a block taken keeps it all, and
--             `Buffer.Answer` what `getblk` answers.
--   Segment   Descriptors: `get_base` and `set_base` of kernel/sched.c, `set_limit` of include/linux/sched.h
--             (`Fork.Limits` is about it and `get_limit`), the macros of include/asm/system.h,
--             and in `Segment.Tables` `trap_init` of kernel/traps.c and what `sched_init` of
--             kernel/sched.c writes to `gdt`, `idt` and `task`. `Segment.Fields` is what the processor
--             reads from a descriptor.
--   Strings   include/string.h, on the bytes of the memory: copies and comparisons of texts in `Strings`,
--             with what they leave in `Strings.Copy` and `Strings.Compare`; the searches in `Strings.Find`,
--             with `Strings.Find.Sets`, `Places`, `Substring` and `Tokens`; `memcpy` to `memset` in
--             `Strings.Memory`. A text is a list of bytes that stands at an address (`Strings.Text`).
--   Build     tools/build.c: `main`, cut at its three files. What the program asks the system for, the
--             contents of files, device numbers and how much a `write` takes, is the record `Build.Host`,
--             an argument of the functions that use it. `Build.Image` is the image that is written, `Build.Sector` its first sector,
--             `Build.Checked` and `Build.Accepted` are what holds whenever one is written.
--   Disk      The block devices: IN_ORDER and `struct request` of kernel/blk_drv/blk.h, kernel/blk_drv/hd.c,
--             and `hd_interrupt` of kernel/idt.asm. The state is `Disk.Disk`; what the ports give is an
--             argument. `sys_kdebug` is the static function of hd.c, which has no caller there. `Disk.Order` is about the order of requests, `Disk.Read` about a read of several
--             sectors.
--   Calls     The system calls: the numbers and the wrappers of include/unistd.h, `sys_call_table` of
--             include/linux/sys.h, the stubs of kernel/traps.c and the call through the table in
--             kernel/sys_call.s. `Calls.Table` is about numbers and places; `Calls.Answer` is the call
--             `fork()` of init/main.c, from the wrapper to `sys_fork` and back.
--   Log       kernel/printk.c: `printk` and `printm`, with the sizes of their buffers, and `init_serial`.
--             The result `overrun` stands for a write past the end of the buffer.
--   Start     init/main.c: `main` up to `sti`, on the state `Start.System` of all parts that it sets up.
--   Prelude   what the parts share: Boolean tests, lists, integers and words.
--   Tests     the theorems and the definitions at concrete inputs.
--
-- How they interact: the page fault handler and `copy_process` unshare pages with `un_wp_page`, which
-- takes its new page from `get_free_page`, as `copy_page_tables` does. `sys_fork` takes a slot and a number
-- from `find_empty_process`, a page from `get_free_page`, and shares the parent's pages with
-- `copy_page_tables`; the scheduler then finds the child in the table. The timer and the wait queues
-- call `schedule`. All output is formatted by `vsprintf`, into the buffers of `printk` and `printm`. A user
-- reaches `sys_fork`, `sys_pause` and the mutex through the table of the calls. `main` starts all parts.
--
-- Numbers are natural; where C wraps, the definition says so (`% 256` for the counts of `mem_map`,
-- `% 2 ^ 32` for a size). An `int` argument of `vsprintf` is its pattern of 32 bits; width and precision are
-- integers, and `sub_int` of `Prelude.Int` is a difference of them as the machine leaves it, in 32 bits.
--
-- Loops: those with a count are recursion on the count. `schedule` has two loops without a bound and
-- gets NR_TASKS rounds for each, enough if the current task stands in the table. The search for
-- a process number gets 129 rounds, one more than the numbers that 64 tasks can bear. `number` has
-- a round for each of the 36 bytes of its buffer; 32 bits in base 2 need 32. `vsprintf` has a round
-- more than the format has bytes. The walk through a hash queue gets one round more than the queue has
-- heads, the search of the free list a round for each head. `getblk` and `get_hash_table` are cut where
-- they sleep and where they go to `repeat`, so a round of them ends.
--
-- A loop of include/string.h over a text without a count gets fuel as an argument, and more rounds than the
-- text has bytes are enough; a scan with the count 0xffffffff has that count. The copies of tools/build.c
-- get a round for each byte of a file, and setup is filled up in two rounds of 1024 bytes.
--
-- Tasks are kept apart from the words of the memory: a task stands in a page of its own, which the page
-- tables of others do not name. A `long` of tools/build.c has 32 bits, and a `read` from a file gives what is
-- left of it up to the size of the buffer. Addresses of bytes do not wrap.
--
-- Not modelled: the calls of `printk` and `printm` in the other parts, which only print; the stack
-- switch behind `switch_to`, of which the new `current` is kept; the timer chip and the screen; the
-- assembly of the entries of other interrupts and of the return from a system call; what of blk.h
-- is compiled for other devices only, and what `main` does behind `sti`. `panic` never returns: it
-- is a result of its own (`halted`), or `none`. The memory is read and written by words at the
-- addresses that the code computes, and paging does not translate them, since the kernel maps its
-- memory to itself.
pub mod Buffer
pub mod Build
pub mod Calls
pub mod Disk
pub mod Fork
pub mod Log
pub mod Mm
pub mod Prelude
pub mod Printf
pub mod Sched
pub mod Segment
pub mod Start
pub mod Strings
pub mod Tests
