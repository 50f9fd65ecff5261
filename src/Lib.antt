-- ===== src/Lib.antt =====
-- The kernel of A3teamOS, a teaching operating system in C derived from xv6, with a slab allocator.
--
-- The parts of the program that are modelled, and where:
--
-- * Memory, Memory/*: src/string.c and the string instructions of src/x86.h on a memory of bytes.
--   Memory.Block says which bytes memset and memmove leave where, Memory.Word reads back words.
-- * Kalloc, Kalloc/*: the page allocator src/kalloc.c. `Kmem` is the free list with the memory through
--   which it is linked; `kfree`, `kalloc` and `freerange` are the functions of those names. The
--   address `end` of the linker is the parameter `kernel_end`.
-- * Slab, Slab/*: the slab allocator src/slab.c and src/slab.h. `Kernel` is `stable` with the page
--   allocator under it, `Slab` is `struct slab`. Slab.Bits has set_bit, get_bit and clear_bit on bytes,
--   Slab.Bitmap setBitmap, clearBitmap, checkEmpty, checkNewpage and getpageNum, Slab.SizeClass
--   getnumofBits, nextPowerOf2 and getslabIdx, Slab.Alloc slabinit, kmalloc and kmfree.
-- * Log, Log/*: the write-ahead log src/log.c. `Log` is `struct log` with its header, `Store` the
--   buffer cache with the writes to the disk in order; a crash is a prefix of the writes.
-- * Pipe, Pipe/*: src/pipe.c. `Pipe` is `struct pipe`; Pipe.Queue sees it as a queue of bytes.
-- * File, File/*: the table of open files and its reference counts, src/file.c.
-- * Proc, Proc/*: the process table, src/proc.c. `Ptable` is `ptable` with `nextpid` and the page
--   allocator; Proc.Lifecycle has fork, exit, wait, yield, sleep and a round of the scheduler.
-- * Fs, Fs/*: the file system src/fs.c over blocks of bytes: Fs has the block map, Fs.Inode inodes on
--   the disk and in the cache, Fs.Content bmap, itrunc, iput, readi and writei, Fs.Path directories
--   and paths. The buffer cache below it is the current contents of every block.
-- * Lock, Lock/*: spin locks and sleep locks, src/spinlock.c and src/sleeplock.c. `Cpu` is the part of
--   `struct cpu` that they use, with the interrupt flag.
-- * Bcache, Bcache/*: the buffer cache src/bio.c over the disk in memory src/memide.c. `Bcache` is `bcache`
--   with the disk under it; Bcache.View is what the cache and the disk hold together.
-- * Console, Console/*: src/console.c. `Input` is the ring `input`, on which `consoleintr` and `consoleread`
--   work; Console.Edit sees it as the characters for the readers and the line that is typed.
-- * Print, Print/*: printint and cprintf of src/console.c, printint and printf of src/printf.c, and atoi.
-- * Shell, Shell/*: the scanner and the parser of the shell src/user/sh.c. `Cmd` is `struct cmd`; a
--   pointer into the line is the rest of the line.
-- * Vm, Vm/*: page tables, src/vm.c, in the memory of `Kmem`. Vm has the walk, the mapping and the
--   unmapping of pages and copyout; Vm.Space whole address spaces.
-- * Sysfile, Sysfile/*: file descriptors in src/sysfile.c. Syscall, Syscall/*: arguments of system calls,
--   src/syscall.c.
-- * Inodes, Inodes/*: inodes as the calls use them, src/fs.c: a state with the disk, the cache of inodes,
--   the locks that the process holds and the transactions that it has begun. Inodes.Rules has tallies of
--   what is taken and given back; Inodes.Moves and Inodes.Entries have the tally of each operation,
--   Inodes.Walk that of namex. Paths, Paths/*: link and unlink; Opens, Opens/*: create, open, mkdir,
--   mknod and chdir, src/sysfile.c.
-- * Transfers, Transfers/*: filestat, fileread and filewrite, src/file.c, with sys_read, sys_write and
--   sys_fstat. Pipe.Ends, Pipe/Ends/*: pipealloc of src/pipe.c and sys_pipe.
--   The file Transfers/Devices has consoleread and consolewrite of src/console.c as the functions of the
--   one device.
-- * Keyboard, Keyboard/*: src/kbd.c and the tables of src/kbd.h.
-- * Vm, Vm/Grow, Vm/Grow/*: growproc of src/proc.c and sys_sbrk of src/sysproc.c.
-- * Base, Base/*: notation, Boolean tests, lists over the numbers, finite tables.
--
-- How they interact: kmalloc takes pages from kalloc and kmfree gives them back with kfree; both
-- allocators clear and fill memory with memset. The log writes blocks through the buffer cache. Page
-- tables are pages of kalloc, and vm.c follows them through the same memory. The descriptors of a
-- process in sysfile.c count in the table of open files of file.c; what the scheduler lets run is a
-- parameter of its pass. The console and printf print numbers the same way, and a line that the
-- console hands over is what the shell parses; the models of the two are not joined. The keyboard
-- gives consoleintr its characters. The calls on paths and files work on one state of inodes, whose
-- transactions are counted and stand for begin_op and end_op of the log; the table of devices
-- is a parameter of reading and writing, which Transfers.Devices fills with the console. growproc changes page tables.
--
-- Conventions: an int or uint is the number of its bit pattern, and arithmetic that can wrap is taken
-- modulo 2 ^ 32. A function that can panic returns an Option, or an outcome with a fault; a loop is a
-- recursion on the rounds left, given as the number that the C loop makes, or as 32 for the loop that
-- shifts an unsigned int to 0, which Slab.SizeClass proves enough. freerange has 2 ^ 20 rounds, as there
-- are 2 ^ 20 pages, which Kalloc.Range proves enough. The walk along a path has one round
-- more than the path has characters, which Inodes.Walk proves enough, and filewrite as many rounds as
-- bytes. Outside Lock a critical section is one step without its spin lock, and where the code sleeps the
-- model returns to its caller; a process that waits for a lock of an inode which it holds itself has no
-- result. One process at a time uses the inodes.
--
-- Not modelled: start-up, interrupt controllers and device drivers, which drive hardware registers;
-- exec and the dispatch of system calls; the tool that makes a file system; the user's allocator; the
-- loops of the user programs and test programs.
pub mod Base
pub mod Bcache
pub mod Console
pub mod File
pub mod Fs
pub mod Inodes
pub mod Kalloc
pub mod Keyboard
pub mod Lock
pub mod Log
pub mod Memory
pub mod Opens
pub mod Paths
pub mod Pipe
pub mod Print
pub mod Proc
pub mod Shell
pub mod Slab
pub mod Syscall
pub mod Sysfile
pub mod Transfers
pub mod Vm
