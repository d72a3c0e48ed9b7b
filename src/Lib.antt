-- ===== src/Lib.antt =====
-- dreamos: the kernel's strings, bitmap, hash map, mutex, scheduler, page allocator, file system
-- paths, files and romfs.
--
-- The kernel's parts, from the bottom: include/os_def.h has the arithmetic of os_size_t; the page
-- allocator src/memory/os_memory_page.c is a buddy system over doubly linked lists of page
-- metadata, on which the slab allocator and the page tables stand; src/os_bitmap.c is what the file
-- descriptors and identifiers are given out from.
--
-- Base holds shared names, Boolean tests and lists over the native numbers. Word (include/os_def.h)
-- writes the wrap-around of a 64-bit os_size_t out: add_size, sub_size, shl; size, mask, align_up
-- and align_down are SIZE, MASK, ALIGN_UP and ALIGN_DOWN. Word/Bits, Word/Align and Word/Xor say
-- what &, |, ~ and ^ do to binary digits, and Word/Log what ALIGN_UP_MIN gives.
--
-- Bitmap (src/os_bitmap.c): the record Bitmap is os_bitmap_t, its memory a list of 64-bit groups;
-- create, remove, get_bit, set_bit, find_some_ones, find_some_zeros and set_bits are the functions
-- os_bitmap_create and so on. A failed OS_ASSERT, and a write past the memory, give none.
-- os_memory_alloc is a parameter of create. The loops run on fuel, one more than the size, since
-- every round goes on by a bit at least. Bitmap/View has the invariant and the bits as a function,
-- Bitmap/Access, Bitmap/Find, Bitmap/SetBits and Bitmap/Create one operation each.
--
-- Page (src/memory/os_memory_page.c): a pointer is its number; Pages holds page_allocated and the
-- fields of every page_metainfo_t by address, Layout what os_memory_page_init computes once. alloc
-- is _alloc and free is _free, with the same loops: alloc_loop and free_loop run through the orders
-- that are left up to BUDDY_ORDER_MAX, so their number of rounds is given. An access through
-- OS_NULL gives none. Page/Addr has the two address translations, Page/Chains a linked list in the
-- store, Page/Lists the free lists of a state, Page/Space sums over the free blocks, Page/Sound the
-- invariant, Page/Halves and Page/Buddy the arithmetic of buddies, Page/Alloc and Page/Take _alloc,
-- Page/Free _free, Page/Cycle the two together. Page/Init has os_memory_page_init up to its last
-- loop. Since buddy_get lacks its return statement in the source, the model gives what it computes.
--
-- Str (src/os_string.c): a string is the list of its bytes before the terminating 0, a block of
-- memory a list of bytes; strlen, strcmp, memcmp, memset, memcpy and strcpy are os_strlen and so
-- on, and give none for an access past the end of a block. Str/Order and Str/Blocks say what they
-- do.
--
-- Vfs (src/os_vfs.c): normalize_path is os_vfs_normalize_path, its buffer the reversed list of the
-- bytes before `j`. Its loop runs on fuel, one more than the length of the path, since every round
-- goes on by a byte at least. Vfs/Dirs has what a path means; Vfs/Steps and Vfs/Rounds are the
-- rounds of the loop, by bytes and by components, Vfs/Normalize and Vfs/Meaning the whole.
-- Vfs/Mounts has os_vfs_register, os_vfs_find_fs_by_name and os_vfs_find_mp_by_path on the list of
-- file systems and the mount table, with Vfs/Mounts/Lookup and Vfs/Mounts/Register about them;
-- Vfs/Mounts/Change has os_vfs_mount and os_vfs_unmount, the operations of the file systems and the
-- allocations being parameters, and Vfs/Mounts/RoundTrip the one after the other.
--
-- Hashmap (src/os_hashmap.c): a Hashmap is os_hashmap_t with each bucket as the list of its items;
-- create, set_item, get and remove_item are os_hashmap_create, os_hashmap_set, os_hashmap_get and
-- os_hashmap_remove_item. Whether os_memory_alloc has room is a parameter, and the hash function a
-- field. Hashmap/Buckets treats a bucket as an association list, Hashmap/Laws and Hashmap/Create
-- have the operations.
--
-- Mutex (src/os_mutex.c, src/os_waitqueue.c): lock and unlock are os_mutex_lock and os_mutex_unlock
-- on the mutex and its waiting list. Mutex/System has the tasks around it, as a step relation: a
-- call is one step, since it runs in a critical area; a task that waits sleeps until it is woken.
-- Mutex/System/Steps and Mutex/System/Reach have the invariant and what follows from it.
--
-- Task (src/os_task.c, src/os_tick.c): a task is its address, Kernel holds the store of tasks, the
-- ready lists and the variables of the scheduler. schedule, switch_task, yield_now, sleep, wake_up,
-- startup and tick_handler are os_task_schedule, its switch, os_task_yield and so on; their Outcome
-- says whether they return, fail an assertion or find a stack overflow. arch_task_switch is
-- assembly and recorded in switches. Task/Ready has get_next_task, Task/Inv the invariant,
-- Task/Switch and Task/Schedule os_task_schedule, Task/Steps and Task/Calls the calls, Task/Reach
-- any sequence of them, Task/Turns, Task/Slice and Task/Wake what tasks see of it. Task/Create has
-- os_task_init and os_task_remove on the scheduler, the process ids (Bitmap and Hashmap), the
-- tables of descriptors (Files/Table) and the tree of tasks.
--
-- Romfs (src/vfs/os_vfs_romfs.c): a Dirent is an os_vfs_romfs_dirent_t with what its data points
-- to, bytes or an array of entries. romfs_lookup runs by recursion on the tree, as its loops do.
-- Romfs/Walk has the meaning of a path in a tree, Romfs/Lookup compares the two. Romfs/Files has
-- romfs_open, romfs_read, romfs_lseek, romfs_readdir and romfs_stat on a descriptor and its node,
-- Romfs/Reads what a sequence of them reads.
--
-- Files (src/os_file.c): Files has the nodes, the descriptors, os_file_list and the mutexes;
-- file_open, file_close and, in Files/Ops, file_read and so on are os_file_open, os_file_close,
-- os_file_read. The operations of the file systems, called through os_file_ops_t, are a parameter
-- of each call, which gives what they return and what they write into the node and the descriptor;
-- what they do elsewhere, with the buffers of the caller and their own data, is left out.
-- Files/Count has the counts, Files/Open and Files/Close the two operations, Files/Uses closing and
-- the other calls, Files/Session sequences of calls, Files/Settle and Files/Reach what holds after
-- them. Files/Table has the table of the descriptors of a task, over Bitmap and Hashmap: the ids,
-- creating a descriptor (Files/Table/Create) and creating one after the other (Files/Table/Fill).
--
-- Not modelled: critical areas (one caller at a time is assumed), printing and the self tests; the
-- loop of os_memory_page_init that frees the pages; os_file_fdid_remove, which takes a list node
-- off that nothing has put into a list, so that what it does has no meaning in C; the other
-- components; boards, firmware and assembly.
pub mod Base
pub mod Bitmap
pub mod Files
pub mod Hashmap
pub mod Mutex
pub mod Page
pub mod Romfs
pub mod Str
pub mod Task
pub mod Vfs
pub mod Word
