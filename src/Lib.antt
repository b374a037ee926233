-- ===== src/Lib.antt =====
-- Demand paging for the Xinu kernel, and the heaps beside it.
--
-- A process made by vcreate() has a virtual heap, whose pages live in backing stores on a remote disk
-- and come into one of 28 physical frames on a page fault. The parts, and the modules for them:
--
--   * BackingStore: the table of the eight backing stores (paging/*.c, include/page_server.h). Stores is
--     bstab with its mutexes and counters; psinit, get_bs, allocate_bs, deallocate_bs, release_bs,
--     open_bs, close_bs and count_bs are the functions of those names. BackingStore.Process is
--     paging/bs.c: bs_init, free_proc_bs (freeProcBS) and get_bs_info.
--   * Disk: read_bs and write_bs (paging/read_bs.c, paging/write_bs.c) over a Device, the driver of the
--     remote disk, of which Disk.Read.Reliable says what is relied on.
--   * Frames: the inverted page table and its FIFO queue (system/ipt.c, include/ipt.h). Ipt is the array
--     ipt with flistHead, flistTail, currpolicy and the static counters; the functions are those of
--     ipt.c in snake case (freeFrameFIFO is free_frame_fifo).
--   * Paging: virtual addresses, and the bit fields of directory and table entries (system/paging.c,
--     include/paging.h).
--   * Machine: physical memory with the page tables in it, the process table as far as paging reads it,
--     and the functions that touch both the frames and memory: evict_frame, get_new_frame and the
--     clock of system/ipt.c; Machine.Tables builds tables and directories, and Machine.Fault is
--     pf_handler of system/paging.c. pf_handler takes a frame by get_new_frame, which may evict a page
--     through write_bs, and fills it by read_bs.
--   * Heap: the free lists of system/getmem.c, freemem.c, getstk.c, vgetmem.c and vfreemem.c.
--   * Queues: the table of process queues (system/queue.c, newqueue.c, insert.c, insertd.c, getitem.c,
--     include/queue.h), doubly linked lists that the scheduler and the semaphores use.
--   * Semaphores: making and reading semaphores (system/semcreate.c, semcount.c, include/semaphore.h).
--     The mutexes of the paging parts stand as their counts: wait() on a count of 0 blocks.
--   * Kernel: the scheduler (system/resched.c, ready.c, resume.c, suspend.c, chprio.c, getprio.c,
--     yield.c) over the process table, the queues and the semaphores. Kernel.Wait is system/wait.c,
--     signal.c, signaln.c, semreset.c and semdelete.c; Kernel.Sleep is system/sleep.c, unsleep.c,
--     wakeup.c and clkhandler.c; Kernel.Message is system/send.c, receive.c, recvclr.c and recvtime.c.
--     IsSched (Kernel.Inv) and InOrder (Kernel.System) are the invariants, and Kernel.Reach has
--     calls as steps, but not chprio(), which does not keep the order, nor send(), receive() and create(); Queues.Insertd has the delta list of sleeping processes. defer_start and defer_stop are the two cases of resched_cntl().
--   * Ports: the ports through which processes pass messages (system/ptinit.c, ptcreate.c, ptsend.c,
--     ptrecv.c, ptcount.c, ptdelete.c, ptreset.c, ptclear.c, include/ports.h). The nodes are a memory of
--     their own with the pointers of the code; Ports.Rep says what lists of nodes represent, and
--     Represents is the abstract view: a sequence of messages for each port and a number of free nodes.
--     Ports.Calls are the calls, over the ports and a Kernel, whose semaphores they use.
--   * Processes: create(), kill(), userret() and getpid() (system/create.c, kill.c, userret.c, getpid.c)
--     over the scheduler, the heap, the frames and the backing stores. Kernel.Kill is the switch of
--     kill(), Kernel.Remove, Kernel.Enter and Kernel.Deliver what it, create() and send() do to the queues
--     and states, Kernel.States what resched() and ready() do to the states. kill is the whole of kill(),
--     kill_start and kill_end, with no other process running in between.
--   * Pools: buffer pools (system/bufinit.c, mkbufpool.c, getbuf.c, freebuf.c, include/bufpool.h), whose
--     buffers come from the heap and are counted by a semaphore.
--   * Outcome and Partial: a routine returns, blocks in wait(), or panics; a search ends or does not.
--
-- Numbers are uint32 and wrap where the code's do, each place by `% 2 ^ 32`; pointers and pages are their
-- numbers, and C arrays are functions of the index, so an index out of range reads and writes a
-- place of its own. Interrupts are disabled throughout each routine, so it runs as one step. The
-- loops over while(remain > 0) run on fuel equal to the pages that remain, which is enough since
-- each round takes at least one; all other loops have the code's own bound, and the retries of a disk
-- block its count of attempts. The search of insert() runs on NPROC + 1 rounds, enough to pass every
-- process of a queue and reach its tail; so do those of insertd(), wakeup() and semreset(). semdelete() has as
-- many rounds as the count needs to reach 0, and one more. The walk of _ptclear() runs on a bound above the
-- number of the port's messages.
--
-- resched() switches the context: its result is the state in which the process that it chose runs on. A
-- call that may block and go on afterwards, as receive(), recvtime(), clkhandler(), ptsend(), ptrecv(),
-- getbuf() and kill() do, is two functions, before and after, and _ptclear() is three; a priority and a delay stand as the keys that they are inserted with.
--
-- read() of the remote disk lets other processes run until the block is there: read_bs(), and pf_handler(),
-- which calls it, are one step here, and so is what they do to the frames and tables. getmem() in ptinit(),
-- with its panic, is the argument that says where the nodes are. When no free block follows, freemem() adds
-- the length to the block and compares with NULL, which a sum that wraps around to 0 would equal: give and
-- walk leave that comparison out, since on a heap in order no block ends beyond maxheap.
--
-- Not modelled: the functions that print, the hooks, which do nothing unless they are switched on, the
-- time at which TLB entries are read, and page faults taken by the kernel itself, as in vgetmem().
-- vcreate(), devices, the network and the shell are left out; of a process, its name is, and
-- close() on its descriptors is a parameter. The disposal function of ptreset() and ptdelete() stands as the
-- sequence of messages that it is given.
pub mod Prelude
pub mod Outcome
pub mod BackingStore
pub mod Frames
pub mod Paging
pub mod Heap
pub mod Queues
pub mod Semaphores
pub mod Partial
pub mod Kernel
pub mod Disk
pub mod Machine
pub mod Examples
pub mod Ports
pub mod Processes
pub mod Pools
