-- ===== src/Lib.antt =====
-- The kernel of OpenBLT, the console of its console server, its hash table, its file system server, and parts
-- of its network server, its dynamic loader and its libc.
--
-- OpenBLT is a small kernel with servers. The kernel names every object, a task, a semaphore, a port or
-- a queue, by the id of a resource; each resource has a queue of the tasks that wait on it, and the
-- scheduler moves tasks between those queues and the run queue. Ports carry messages between tasks; the
-- console server turns the text of a message into changes of a screen, the file system server the paths
-- of its clients into open files.
--
-- Kernel/List.antt        kernel/list.c: the list operations on memory. List/Ring says what a ring of
--                         nodes stands for, List/Sequence, Taking and Search relate the operations to
--                         the sequence of items, List/Separation is about two lists in one memory.
-- Kernel/State.antt       the objects of kernel/resource.h, task.h, port.h and sem.h, and the globals.
--                         Queues of tasks are sequences here, and not rings in memory.
-- Kernel/Queue.antt       rsrc_enqueue and rsrc_dequeue of kernel/resource.c, task_wake and wait_on of
--                         kernel/task.c, swtch and preempt of kernel/kernel.c.
-- Kernel/Resource.antt    kernel/resource.c: the table of ids, owners and names.
-- Kernel/Sem.antt         kernel/sem.c.
-- Kernel/Port.antt        kernel/port.c; Port/Transfer has port_send and port_recv.
-- Kernel/Memory.antt      kernel/memory.c: the free pages, and the pools of blocks by size.
--                         Memory/Virtual has the pages of the kernel's own space.
-- Kernel/Aspace.antt      kernel/aspace.c: page tables, areas and the groups of pages that areas share;
--                         Aspace/Calls has the calls, which also bind and release ids.
-- Kernel/Team.antt        kernel/team.c, and task_create, task_destroy and thr_wait of kernel/task.c;
--                         Team/Threads has thr_spawn, and new_thread and brk of kernel/kernel.c.
-- Kernel/FreeList.antt    chains of free entries in an array.
-- Hash.antt               lib/libblt/hash.c and include/blt/hash.h: the hash table. Hash/Probing and
--                         Hash/Primes are about the walk over the cells, Hash/Cells says what a
--                         table maps a key to.
-- Vfs/Path.antt           srv/vfs/path.c: paths; Path/Resolving relates them to stacks of names.
-- Vfs/Rootfs.antt         srv/vfs/rootfs.c, and Vfs/Bootfs.antt srv/vfs/bootfs.c: the two file systems.
-- Vfs/Shm.antt            srv/vfs/shm.c: the entries of a directory for a client.
-- Vfs/Server.antt         srv/vfs/fs.c, super.c and vfs.c: the mounts and the calls of clients, for any
--                         file systems; Vfs/Drivers has the start with the two of them, and Vfs/Main the loop
--                         of vfs_main, which keeps its connections in the table of Hash.antt.
-- Libc.antt               lib/libc/string.c: the operations on blocks of memory and on strings.
-- Libc/Format.antt        lib/libc/snprintf.c: formatted text.
-- Dl.antt                 lib/libdl/sym.c: symbols and relocations of shared libraries.
--                         Dl/Symbols says which symbol is meant.
-- Net.antt                srv/network: mbuf.c, protocol/eth and protocol/arp.
-- Posix.antt              lib/libposix/fdl.c: the file descriptors of a program.
-- Console/Screen.antt     srv/console2/vt100.c: the operations on the screen.
-- Console/Interpreter     srv/console2/vt100.c: the interpreter of characters and sequences.
--                         Console/Safety is about one character, Console/Writing about a text.
--
-- Each component has the names of its C functions, with kmallocP and kfreeP as kmalloc_p and kfree_p.
-- The modules under it are named for
-- what they are about; Examples holds concrete runs. What a stopped kernel or a bad memmove gives is
-- `none`. A call that blocks ends with another task current; it goes on, when its task is current
-- again, at `wait_result`, `send_resume` or `recv_resume`.
--
-- Fuel: the walks over a list take more fuel than the list has nodes, and the loop of rsrc_release
-- takes one more than the tasks that wait. The walks over a hash table take at most one more step than
-- it has cells, and an insert that rebuilds the table makes inserts that do not. The search for a span
-- has the 1024 entries of a page table, and the loops of aspace_destroy and team_destroy one round more
-- than there are areas or resources. The reads of a whole file take one more than it has
-- bytes, and its data is sent in no more pieces than it has bytes.
--
-- Not modelled: the page that kmalloc takes for a pool that is used up, so that kmalloc_p gives no
-- result there, and kfreepage, the areas and the stacks are those of calls in which the pools have a
-- block; interrupts and registers, which the switch of tasks leaves to the machine; the
-- memory of the objects and of the message buffers, whose addresses are arguments; several processors
-- (kernel/smp.c); the hardware cursor of the console; the room of a buffer for a path; the locks of the
-- servers; the commands that load drivers into the file system server, and the configuration of
-- network interfaces; the other servers and libraries, most of which drive devices or pass calls on as
-- messages.
pub mod Prelude
pub mod Kernel
pub mod Console
pub mod Libc
pub mod Hash
pub mod Vfs
pub mod Dl
pub mod Net
pub mod Posix
