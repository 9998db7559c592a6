-- ===== src/Lib.antt =====
-- AliOS, a 32-bit x86 kernel (kernel/): models of its core parts and what is proved of them.
--
-- The parts, by module:
--   * Base passes on the library's names and holds the helpers that the parts share: Boolean
--     tests on numbers, list lemmas, updates of functions at a point, 8-, 32- and 64-bit
--     wrap-around, bits.
--   * Pipe models kernel/pipe.c. `Pipe` is `pipe_t`, an array of 512 bytes with two free-running
--     positions. `read_pass` and `write_pass` are one pass of the loops of `pipe_read` and
--     `pipe_write`; a pass runs with interrupts off, so passes are the atomic steps.
--     Pipe.Contents gives the abstract view (the list of the bytes held), Pipe.Fifo the inner
--     loops, Pipe.System any interleaving of passes, Pipe.Blocking and Pipe.Writing the whole
--     calls, Pipe.Pool the eight slots.
--   * Pmm models kernel/pmm.c: the page bitmap, its counter and the reference counts. Pmm.Bitmap
--     has the single-bit operations, Pmm.Init `pmm_init`, Pmm.Alloc the invariant and allocation,
--     Pmm.Refs sharing and release, Pmm.Fresh what a caller gets, Pmm.Calls any sequence of calls.
--   * Vm models kernel/uvm.c and kernel/paging.c over Pmm, and Vm.Fault the handler of
--     kernel/fault.c. A page is a table of 1024 words or 4096 bytes of data. Vm.Map and Vm.Table
--     relate the tables to a map from virtual pages to entries, Vm.Ways and Vm.Refines have
--     `uvm_map`, Vm.Create and Vm.Free the making and freeing of an address space. Vm.Pair has two
--     address spaces side by side; over it Vm.Forks, Vm.Share, Vm.Loops, Vm.Start, Vm.Image and
--     Vm.Clone have `uvm_clone`. Vm.Cow and Vm.Resolve have the write to a page that is shared since
--     a fork, Vm.Isolation both together.
--   * Heap models kernel/heap.c over Pmm: Heap.Blocks the search and that blocks stay apart, Heap.Held
--     the blocks in use,
--     Heap.Coalesce the merging, Heap.Grow new pages, Heap.Kmalloc both calls as a whole.
--   * Task models kernel/task.h and the fields that `task_create_user` of kernel/task.c fills in.
--   * Sched models kernel/sched.c and the tick of kernel/timer.c. The circular list of tasks is
--     the current task and the list of the others in `next` order. Sched.Ring has `schedule`,
--     Sched.Calls all calls as one type, Sched.Waiting, Sched.Children and Sched.Wait `sched_wait`, Sched.Fds
--     `release_pipe_fds`, Sched.Safety an invariant of all calls, Sched.Tick and Sched.Wakeup the
--     tick, Sched.Fair round robin.
--   * Ata models `ata_read` and `ata_write` of kernel/ata.c over a drive that is a parameter: its
--     bytes, and for each wait whether the drive answers in time and without an error. Ata.Slices
--     has slices of the bytes, Ata.Sectors what is transferred.
--   * Alfs models kernel/alfs.c, which calls Ata. Alfs.Reading and Alfs.Writing are the
--     operations, Alfs.Names the stored names, Alfs.Find and Alfs.Lookup the searches, Alfs.Extent, Alfs.Read,
--     Alfs.ReadAll, Alfs.Write, Alfs.Slot and Alfs.Store what reads and writes deliver and leave,
--     Alfs.Roundtrip that a write is read back and spares the other files.
--   * Path models kernel/path.h: a path is a list of bytes, `walk` the macro `WALK`.
--     Path.Canonical has the stack of components, Path.Resolve whole paths, Path.Split parent and
--     base name.
--   * Syscall models kernel/syscall.c over Sched, Alfs and Path: the calls on descriptors, tasks and
--     pipes; Syscall.Files has reads and writes. Syscall.Ends counts the open pipe ends of all
--     tasks; Syscall.Fds, Pipes, Access, Replace, Tasks, Exits, Balance and Signals follow the count
--     through each call, Syscall.Steps through any sequence of them. A read or a write of a pipe
--     is handed to Pipe. Syscall.Memory has `brk` and `exec` over Vm and Elf, Syscall.Grow and
--     Syscall.Exec what they do.
--   * Elf models kernel/elf.c over Alfs and Vm. Elf.Page has the bytes of a page that `elf_load`
--     fills and Elf.Load its place in the address space. Elf.Args models `elf_push_args`,
--     Elf.Strings and Elf.Words have its two halves, Elf.Layout what the program finds.
--   * Keyboard models kernel/keyboard.c: the handler of IRQ 1 with the byte that it reads as an
--     argument. Keyboard.Queue has the ring as a queue, Keyboard.Keys typing and Ctrl-C.
--   * Shell models `sh_glob` of kernel/shell.c, and Shell.Glob relates it to what a pattern means.
-- The Tests module of each part runs it on small inputs.
--
-- The parts interact as in the code: the heap takes pages, the scheduler closes pipe ends when a
-- task dies, the file system reads and writes sectors through the driver, and each of them works
-- on states built from the others' records.
--
-- Loops. `drain`, `fill` and the scans of a table recurse on the number of rounds or on the list.
-- The loops of `alfs_read`, `alfs_write` and `alfs_pread` run on fuel: the number of sectors or
-- bytes left, of which a round takes at least one. `pipe_read` and `pipe_write` run on fuel that
-- counts passes; `2 * len + 2` passes are enough if the other tasks respond, as their theorems
-- state. What the other tasks do between two passes is a parameter of these two. The loop of
-- `kmalloc` runs on fuel, one search a round; one more than there are free pages is enough, and
-- two passes are for the loop of `kfree`.
--
-- A page is a table or user data, in two memories, and every page below 65536 can be reached at its
-- address, where the code's identity map ends at 128 MB. A drive that is not ready loses what is written
-- to its data port, and what is read from it, or left in a buffer by a read that fails, is unknown.
--
-- Not modelled: assembly, port access, the context switch, the stack frames of new tasks, the
-- tasks' use of the heap, null pointers, what a failed `alfs_init` leaves in its buffers, and the
-- parts of the kernel and the user programs that no module names.
pub mod Base
pub mod Pipe
pub mod Pmm
pub mod Heap
pub mod Vm
pub mod Task
pub mod Sched
pub mod Ata
pub mod Alfs
pub mod Elf
pub mod Path
pub mod Syscall
pub mod Keyboard
pub mod Shell
