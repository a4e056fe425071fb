-- ===== src/Lib.antt =====
-- Models of the C programs of the repository, and what is proved of them.
--
-- hw-shell/tokenizer.c is Shell/Tokenizer.antt: `tokenize` cuts a line into words. The loop is a
-- recursion on the line, `step` its body for one mode, `check_full` the call of abort(). The child
-- modules prove the bounds of the static buffer (Bounds) and the round trip (RoundTrip).
--
-- hw-memory/mm_alloc/mm_alloc.c is Allocator.antt. A `Heap` holds the globals, the headers of blocks
-- by address, the bytes and the program break. A command returns, faults where the C code follows a
-- pointer to no header, or has used up the rounds that the loop of mm_malloc() was given; one round
-- more than there are blocks is enough. sbrk() is the parameter `Os`; its
-- increment is signed, and the theorems on mm_malloc() keep it positive. Cells.antt is the abstract view,
-- a list of cells in the order of their addresses; Place, Search, Malloc and Used treat mm_malloc(),
-- and Free, Release, FreeList and Freed mm_free(). Not modelled: that a header which is written into a
-- free block changes bytes of that block.
--
-- proj-pregame/src/threads/thread.c, with the interrupt level of interrupt.c, is Threads.antt. A
-- `Kernel` holds the threads by the address of their page, the lists and the statistics; a failed
-- ASSERT or a PANIC is `panics`. A function that switches threads returns when the thread that it
-- switches to is back behind its own call of schedule(). Invariant.antt says what holds between two
-- calls; Switch, Schedule and Ops take schedule() apart, Calls has the operations that give up the
-- CPU, Wake those that make a thread ready, Rounds the order of threads that yield, and Ticks the timer.
-- Of the lock of allocate_tid() only the assertions are kept: no call is interrupted while it has it.
-- Not modelled: the stack frames of a new thread and its name, page directories, and the boot sequence.
--
-- proj-pregame/src/threads/synch.c has two models. Synch.antt follows threads through lock_acquire(),
-- lock_try_acquire() and lock_release() in atomic parts, which may alternate in any order: a `World` is
-- a lock with its semaphore and the point each thread has reached, `turn` the next part of a thread,
-- and `Reachable` the states that turns lead to. RwLock.antt is rw_lock_acquire() and rw_lock_release()
-- with cond_signal() and cond_broadcast(); since their guard lock excludes other threads (Synch), its
-- steps are whole sections, up to a cond_wait(). Steps and Sections show that the invariants are kept,
-- Exclusion and Guarantees what follows. Not modelled: that the counters are 32 bit wide, since there
-- are fewer threads than that.
--
-- hw-intro/words/word_count.c and main.c are Words.antt: `add_word` and the loop of find_word(), which
-- runs on fuel since it need not end, and the counters of main.c as loops over the bytes of a text, with
-- `count_step` and `num_step` for one byte. Find, Number, Count and Order have their theorems. The
-- buffer of count_words() is the list of the bytes stored up to `index`.
--
-- proj-pregame/src/lib/kernel/bitmap.c is Bitmap.antt: the array of words with its operations on bits,
-- ranges and groups. Bits gives the view as a sequence of bits, in which Ranges and Scan state the
-- operations on ranges and the search for a group.
--
-- proj-pregame/src/filesys/inode.c is Inode.antt: inode_read_at() and inode_write_at() sector by sector,
-- with the bounce buffer; whether malloc() gives one is an argument, and the bytes of the disk are a
-- function. Place has the arithmetic of sectors, Reading and Writing the view as one array of bytes, and
-- RoundTrip what a read sees of a write.
-- Not modelled: negative sizes and offsets, and files of 2 GB and more.
--
-- proj-pregame/src/lib/kernel/list.c is LinkedList.antt, the links and the operations on them, with
-- LinkedList/Sorting.antt, the operations that compare elements. The memory is the two links of every
-- element, by its address; a failed ASSERT or a null pointer that is followed is `panics`. `Holds` says
-- that a memory has a list's elements between its two headers (Chain); Splice takes ranges out of a
-- chain and puts them in, Basic and Deque have the operations on one element. Merge and Passes are what
-- list_sort() computes, as relations on lists of elements, Walk and Sort that it computes it; Insert,
-- Select and Reverse have the other operations. The loops have a bound; one more than there are elements is enough.
--
-- proj-pregame/src/lib/string.c is Strings.antt: the memory is a byte at each address, and loops that
-- end at a null byte have a bound, for which more than the lengths of the strings together is enough.
-- `Text` says that a string stands at an address. Text has strlen(), strchr() and strcmp(), Blocks the
-- copies of blocks, Copies strlcpy(), and Tokens strtok_r().
-- Not modelled: addresses that wrap around at the end of the memory.
--
-- proj-pregame/src/lib/stdlib.c, sort() and binary_search(), is Heapsort.antt: an array is a function
-- from indices to elements. Sift has heapify(), Order the two loops of sort(), Search binary_search().
-- Not modelled: qsort() and bsearch(), which call these, atoi(), and the bytes of an element.
--
-- proj-pregame/src/filesys/file.c, with the reference counts of inode.c, is Files.antt: open files and
-- inodes by their addresses, over inode_read_at() and inode_write_at() of Inode.antt. What malloc()
-- returns is an argument, and the calls of free_map_release() are recorded. `Counted` says that the counts
-- are right; Openers and Closing show that the calls keep it, and Positions what reads and writes see.
-- Not modelled: inode_create(), and what free_map_release() does.
--
-- proj-pregame/src/lib/kernel/hash.c is HashTable.antt: a bucket is the list of its elements, the hash and
-- the order of the caller are arguments, and so is whether malloc() has memory for new buckets. Buckets has
-- what rehash() moves, Counts how many elements there are, Table the changes of a table, Operations what
-- hash_find() gives after them, and Iteration the iterators. The loop that makes the number of buckets a
-- power of 2 has a bound, which is more than the number it starts from, and so has the loop of hash_next(),
-- one more than there are buckets. `Valid` says that each element is in the bucket of its hash, that the
-- count is right and that no two elements are equal. The calls of a destructor or an action are recorded.
-- Not modelled: hash_bytes(), hash_string() and hash_int().
pub mod Prelude
pub mod Shell
pub mod Allocator
pub mod Threads
pub mod Synch
pub mod RwLock
pub mod Words
pub mod Bitmap
pub mod Inode
pub mod LinkedList
pub mod Strings
pub mod Heapsort
pub mod Files
pub mod HashTable
