-- ===== src/Lib.antt =====
-- tiny-os, a Pintos kernel: a verification library for its core, one module to a source file.
--
-- Parts, and how they interact:
--   Common: tests on numbers, lists by index, the bits of a word, and runs that may panic.
--   Bitmap: lib/kernel/bitmap.c. A bitmap is a record of its size and its 32-bit elements; each
--     function of the file is a definition of its name without the prefix (bitmap_scan is
--     Bitmap.scan). bitmap_none is none_set. Failed assertions are `none`.
--   Palloc: threads/palloc.c over Bitmap. The state is the two pools and the bytes of memory; the
--     bitmap calls are those of Bitmap. A pointer is a number and NULL is 0.
--   LinkedList: lib/kernel/list.c. The state is a store of `prev` and `next` links by address, and a
--     list is the pair of addresses of its two header elements. Each assignment of the source is one
--     update of the store, in the order of the source.
--   Thread: threads/thread.c. The state is the status of every thread, the ready list and the thread
--     that runs; a call that switches threads returns the state in which the next one runs. The end
--     of thread_exit is exit_switch. switch_threads, which is machine code, changes running_thread.
--   Synch: threads/synch.c over Thread. sema_down is a loop that may sleep: sema_down_turn is one
--     turn of it. Machine has the threads that share a lock: a step is a stretch of lock_acquire,
--     lock_try_acquire, lock_release or of a call of Thread that runs with interrupts off.
--     Condition has the condition variables: the semaphores of the waiting threads, which are on their
--     stacks, are a store by address. Its calls are runs into which no timer interrupt comes.
--   Swap: vm/swap.c. The state is the free list, the sequence of its elements; the lock makes each
--     call one step. The frame's data on the disk is not modelled.
--   Intq: devices/intq.c. The state is the ring buffer, its two waiters and its lock; the calls run on the
--     kernel of Thread. intq_getc and intq_putc are modelled up to where they sleep, `acquire_turn` is where
--     a thread that slept for the lock goes on, and `getc_again` and `putc_again` are where one that slept
--     in wait () does. Whether the caller is an interrupt handler is an argument.
--   Hash: lib/kernel/hash.c. The state is the counts and the buckets, each the sequence of its
--     elements. The table's hash and comparison are parameters, and so is whether malloc succeeds.
--   Division: lib/arithmetic.c. Numbers are 64-bit words. divl is the DIVL instruction, `none` its
--     divide error.
--   Sort: lib/stdlib.c without atoi. An array is a function from the indexes of its elements;
--     the elements and their comparison are parameters. The loop of heapify takes one more turn of fuel
--     than there are elements, and so does that of binary_search.
--   Stdio: lib/stdio.c, format_integer, and in Snprintf vsnprintf, to which the output of __vprintf is an
--     argument. The buffer is the sequence of its characters, newest first, and the
--     output is the sequence of the characters. 64 turns of fuel are enough for the digits of a 64-bit
--     number, 65 for the zeros in front.
--   Atoi: lib/stdlib.c, atoi. An int is a word of 32 bits, memory a function from addresses to bytes.
--   Random: lib/random.c. The state is its four variables; a byte is a number below 256.
--   Frame: vm/frame.c. The state is the list of frames, cut at the clock hand, and where the hand is. The word that
--     PTE points to is a member of its frame, so pagedir_set_accessed changes that member. The scan has fuel
--     for two rounds and one frame more. Of the write-out of the evicted page there is what its ASSERT
--     tests, by two arguments: whether the page is one of a file, and what swap_slot_write returns. The page
--     tables and ft_destroy are not modelled; `none` is an ASSERT or a use of freed memory.
--   Inode: filesys/inode.c, an inode by itself. A disk is a function from sectors and the offsets in them to
--     bytes; a sector is read and written as a whole. The loops of inode_read_at and inode_write_at take
--     one more turn of fuel than there are bytes to move. off_t is a number, which no theorem lets be
--     negative; bytes_to_sectors has the wrap of its 32-bit sum, and sectors_of is the number meant. Whether malloc gives a bounce buffer is an argument.
--   BitmapFile: lib/kernel/bitmap.c, the part that keeps a bitmap in a file, over Inode and Bitmap. A file
--     is its inode.
--   FreeMap: filesys/free-map.c over Bitmap and BitmapFile: the state is the bitmap and its file.
--   InodeTable: filesys/inode.c, the list of the open inodes, over Inode and FreeMap. The state is the disk,
--     the free map and the list; an open inode is named by its sector. inode_disk_bytes and
--     inode_disk_of are the layout of struct inode_disk.
--   File: filesys/file.c over Inode and InodeTable. A file has the sector of its inode, its position and its
--     flag; Denials keeps the files that are open as a list.
--   FreeMapFile: filesys/free-map.c, the functions that make, open and close the file of the map, over File.
--   Pagedir: userprog/pagedir.c and threads/pte.h. Memory is a function from the addresses of its words; what
--     palloc_get_page returns for a page table is an argument. Neither the TLB nor CR3 is modelled.
--   Strings: lib/string.c. The state is memory, a function from addresses to bytes. A loop that runs
--     to the end of a string takes fuel, and is `none` when the fuel ends first.
--
-- Lists of threads and of swap extents are the sequences of their elements; list.c itself is in
-- LinkedList. The interrupt level is not kept: each function of Thread is a run with interrupts off,
-- and the assertions on it hold by that.
--
-- Bounds and fuel: `for` loops with a counter recur on the rounds left. Loops that follow links take
-- fuel, and their theorems hold for every fuel above the length of the list, so the loop ends.
-- Sizes and addresses are numbers below 2 ^ 32, with the wrap of `size_t` written out where the source
-- adds. `malloc` enters Bitmap.create as the memory that it returned.
--
-- Not modelled: device drivers, boot code, interrupt tables, console output and user programs, which
-- are input and output or hardware set-up. The memory that lists are embedded in is not modelled:
-- a list element is its address. The block allocator, directories,
-- processes and system calls are not modelled.
mod Common
pub mod Atoi
pub mod Bitmap
pub mod BitmapFile
pub mod Division
pub mod File
pub mod Frame
pub mod FreeMap
pub mod FreeMapFile
pub mod Hash
pub mod Inode
pub mod InodeTable
pub mod Intq
pub mod LinkedList
pub mod Random
pub mod Sort
pub mod Stdio
pub mod Strings
pub mod Swap
pub mod Synch
pub mod Thread
pub mod Pagedir
pub mod Palloc
