-- ===== src/Lib.antt =====
-- A teaching operating system (xv6 with Peterson locks): a model of its code and the theorems that
-- make it correct.
--
-- The parts, and the files that model them:
-- * Peterson.antt, Peterson/: kernel/peterson.c, kernel/peterson.h. `Table` is `ptable`, a `Slot` is
--   a `struct peterson_lock`. One function per system call. Each call runs under the spin lock of
--   its entry, so that a section between two releases of it is atomic: `begin_acquire` is
--   `sys_peterson_acquire` up to its first return or `yield`, `retry_acquire` a round after `yield`.
-- * Tournament.antt, Tournament/: user/libtournament.c. `Lib` holds the static variables. `advance`
--   takes a process to the end of its next kernel section, `step` and `Reach` put processes in any
--   interleaving over one table of locks. Levels has the arithmetic of the tree, Invariant what a
--   process holds where it stands, Exclusion the theorems on runs; Create has `tournament_create`,
--   which sets up what Exclusion asks for.
-- * Strings.antt, Strings/: kernel/string.c, and `strcmp`, `strchr`, `atoi`, `memmove` of
--   user/ulib.c, on a memory that gives a byte for each address.
-- * Files.antt, Files/: `filealloc`, `filedup`, `fileclose` of kernel/file.c. What `fileclose` has
--   to tear down is a value, `Teardown`.
-- * Proc.antt, Proc/: kernel/proc.c, kernel/proc.h. `Kernel` is the table with what the calls
--   change beside it, `nextpid` as its 32 bits; Proc/Lifecycle has `fork`, `exit` and `wait`, which
--   use Files. A function that sleeps is cut there: `sleep_begin` and `sleep_end`, and a round of
--   `wait` as `wait_scan`.
-- * Pipe.antt, Pipe/: kernel/pipe.c with counters of 32 bits that wrap around; Ring.antt has the
--   lemmas on the buffer, which Console shares.
-- * Console.antt, Console/: `consoleintr` and `consoleread` of kernel/console.c.
-- * Log.antt, Log/: kernel/log.c. `commit` and `recover_from_log` give their disk writes in order,
--   a crash is a first part of them; Space has the calls in any interleaving, Short a run on the log
--   that mkfs/mkfs.c makes.
-- * Bio.antt, Bio/: kernel/bio.c, kernel/buf.h. The cache is a list, the most recently used first.
-- * Kalloc.antt, Kalloc/: kernel/kalloc.c, over the memory of Strings. `Kmem` has the free pages as
--   a list, `Links` (Kalloc/Links) the pointers in them that the code has instead.
-- * Vm.antt, Vm/: kernel/vm.c and the macros of kernel/riscv.h. A page-table page is 512 words.
--   Tables has the pages of a table as a tree, Map and Unmap the table as a map from addresses to
--   entries, Space the growth of an address space, Copy the copies between the kernel and a process.
-- * Fs.antt, Fs/: the blocks of kernel/fs.c. `Disk` is the free map and the words of each block as
--   the buffer cache holds them; `slot` (Fs/Blocks) numbers the entries of a file. Inodes has the
--   table of inodes and those on the disk, Path the elements of a path as `skipelem` takes them.
-- * Grep.antt, Grep/: the matcher of user/grep.c, on strings as lists.
-- * Spinlock.antt, Spinlock/: kernel/spinlock.c.
-- * Prelude.antt, Prelude/: Boolean tests, lists, integers and updated functions.
-- The Tests modules hold runs of the theorems at concrete inputs.
--
-- Bounds and fuel. The sizes of the tables are those of kernel/param.h. Loops over a table count the
-- rounds left. `strlen`, `strcmp`, `strchr` and `atoi` have fuel, since their loops end only where
-- the memory has a NUL or a byte that is no digit; the theorems ask for more fuel than the bytes
-- before it. `freerange` has more fuel than there are pages, the loop of the kill-line character as
-- much as there is to erase, and `get_log2_if_power_of_2` as much as its argument.
-- The loop of `mappages` has a round for each page below `MAXVA` and one more, where `walk` panics;
-- `copyin`, `copyinstr` and `copyout` have as many rounds as bytes, and each round copies one at
-- least. `uvmalloc` has more rounds than the new size has pages.
-- The counters of pipes and of the console, `nextpid` and the `refcnt` of a buffer have 32 bits and
-- wrap around. Other counts (references to files and inodes, operations in the log, `noff`) are
-- natural numbers: what they count is held by a process, an entry of a table of a fixed size or a
-- nested call.
--
-- Not modelled: traps (kernel/trap.c), the copy of address spaces, the contents of files (`readi`,
-- `writei`), directories and the calls above them (kernel/sysfile.c), exec, the drivers, the boot
-- code and assembly, the other user programs and mkfs but for the size of its log. What they deliver
-- (a page table for `fork`, the contents of a disk block, the result of a fork) is an argument of the
-- definitions.
-- Sleep locks and the UART are left out. Spin locks are taken to exclude each other in all parts but
-- Spinlock, and the memory barriers are not modelled. Messages on the console are left out.
pub mod Prelude
pub mod Peterson
pub mod Tournament
pub mod Strings
pub mod Files
pub mod Proc
pub mod Ring
pub mod Pipe
pub mod Log
pub mod Bio
pub mod Kalloc
pub mod Spinlock
pub mod Console
pub mod Fs
pub mod Vm
pub mod Grep
