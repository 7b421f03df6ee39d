-- ===== src/Lib.antt =====
-- Foreign Linux runs Linux programs on Windows: a system call of the program becomes a call of the
-- functions below, which keep the kernel's state in the process and use Win32 for the rest. The
-- parts that are modelled are those whose own logic decides what the program sees.
--
-- - Base: numbers, lists and Boolean tests that the other modules share.
-- - Text (src/str.c): `Utf8` and `Utf16` have the functions that read, write and count one character,
--   `Convert` the four conversions. A buffer is the list of its code units from the pointer on.
-- - Format (src/vsprintf.c, src/vsscanf.c, src/str.c): `Number` has the macros PRINT_NUM and PARSE_NUM,
--   `Print` kvsprintf and ksprintf, `Scan` kvsscanf, `Atoi` katoi and katou over them, `Strip` strip.
-- - Futex (src/syscall/futex.c): the wait queues and events of the threads as a state, `futex_wait`
--   cut where it sleeps, with the removal of a block from the list that holds it, wake and requeue
--   with their lock operations, and the steps of all threads.
-- - Heap (src/heap.c): kmalloc and kfree, which the files below take their structures from.
-- - Tls (src/syscall/tls.c): the tables of thread areas over the slots of Win32, and fork.
-- - Eventfd (src/fs/eventfd.c) and Pipe (src/fs/pipe.c): files that programs read, write and poll.
-- - Vfs (src/syscall/vfs.c): `Descriptors` has the table of file descriptors, the reference counts of
--   the files, and the calls that open, duplicate and close descriptors, which only one thread at a
--   time makes, as all hold one lock; `Mounts` the list of mount points and its search; `Paths` the
--   resolution and the opening of paths, with the answers of the file systems as a parameter;
--   `Fork` the visit of the open files, in the order of `qsort`, which is a parameter.
-- - Signals (src/syscall/sig.c): the masks of the threads, what is pending, the packets to the signal
--   thread, and the steps of all of them.
-- - Rbtree (src/lib/rbtree.c): red-black trees, with rb_remove in `Remove`. The nodes below a node are
--   a tree and its parents a context, so that no pointer is left.
-- - Datetime (src/datetime.c) and Wcwidth (src/wcwidth.c): file times and the times of Unix,
--   whose `long` has 32 bits, and widths for the console.
--
-- Numbers are natural numbers, a w-bit integer has its wrap-around written out, and a signed one is
-- its bit pattern. What Win32 does is an argument: the answer of a call (Pipe), or a record of
-- operations with its documented behaviour as a named hypothesis (Eventfd, Tls). A new block of
-- memory is an argument of kmalloc. The entry behind the end of the table of file names, which the
-- code reads, is the argument `past`.
--
-- Loops run on fuel where they do not follow a list. The conversions and kvsprintf take one round for
-- each unit of their input, the digits of a number 64 rounds, the binary search one for each entry
-- of the table and the chain of a block one for each of its bytes; the theorems below show that this
-- is enough, or state what the loop computes within it. Path resolution takes two rounds for each byte
-- of the path at most, and 4100 more for each symbolic link, whose target has at most 4096 bytes.
-- kvsscanf does not always end.
--
-- Not modelled: memory maps, processes, timers, the console, the other files, and the binary
-- translator, much of which is calls of Win32; rt_sigsuspend; the writing of messages to the
-- log; the length of the buffers for paths; what a call with arguments of the wrong type does.
pub mod Base
pub mod Text
pub mod Format
pub mod Futex
pub mod Heap
pub mod Tls
pub mod Eventfd
pub mod Pipe
pub mod Datetime
pub mod Wcwidth
pub mod Rbtree
pub mod Vfs
pub mod Signals
