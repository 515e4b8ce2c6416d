-- ===== src/Lib.antt =====
-- OSExt, the operating system extension in kernel/.
--
-- Parts and files. The physical memory manager hands out pages from blocks of the operating system;
-- the slab allocator makes objects of pages; the scheduler switches between kernel threads, whose
-- descriptors are such objects. The drivers access the registers of devices; the clock counts with a
-- timer, and the dialogs draw on the screen, set the clock and install modules, which are ELF files.
--
-- Physical: kernel/memory/physical_MM.c. `Table` is the array `pages` up to `blockindex`, and every
--   function of the file becomes a function on the table. `ti_malloc` is an argument, and the calls
--   of `ti_free` are results. Physical/Words, Valid, Flags, UsePage, Consecutive and Blocks hold the
--   proofs.
-- Scheduler: kernel/scheduling/scheduler.c and thread.c. Scheduler/State is the ring of threads, a
--   list that begins with `running_kernel_thread` and follows `next`; Scheduler/Schedule is
--   `schedule_kernel_thread` and `schedule_kernel_thread_current_saved`; Scheduler/Calls is
--   `scheduler_kernel_thread_wait`, `scheduler_kernel_thread_wait_thread`,
--   `scheduler_add_kernel_thread`, `scheduler_svc_thread_destroy_self` and
--   `scheduler_remove_kernel_thread`. Whether the GUI task runs, the mode that was interrupted and
--   the saved registers are arguments. The state records timer, interrupts and time slept.
-- Slab: kernel/memory/slab.c. Slab/State is the descriptors in a store, Slab/Objects one slab,
--   Slab/Cache the three lists of a cache, Slab/Kmalloc the search through the caches. The used bits
--   are a list of bytes. An allocation ends where it calls `growCache`, which is Slab/Grow and takes
--   pages of Physical, and in which the calls for descriptors are arguments that may change the heap.
--   Bits, ObjectLaws, Ends, Endless, BestFit and Grown hold the proofs.
-- Systime: kernel/drivers/systime.c. Systime/Clock is the clock on the registers of Devices, and
--   Systime/Calendar the conversions. Seconds, Ticking, Walk and Timestamps hold the proofs.
-- LinkedList: kernel/LinkedList.c, over a store of entries.
-- Libk: kernel/libk/memory.c, math.c and string.c, in Libk/Memory, Numbers, Strings and Printf.
--   MemoryLaws, Compare, Print, Text and Inside hold the proofs.
-- Virtual: kernel/memory/virtual_MM.c. Virtual/Space is an address space with its lists, the words of
--   the physical memory, which the kernel writes through its own mapping, and `getPhysicalAddress`;
--   Virtual/Descriptors, Map and Create are the functions that write tables. What a request
--   for a table or a list entry gives and does to the machine, as caches may grow, is an argument;
--   Virtual/Growth says what growth does. Freeing pages works on the table of Physical. Words,
--   Translate, Added, Shares, Quiet, Kept, Steps, Created and Freed hold the proofs.
-- Elf: kernel/elf/elf.c, on a memory that gives the byte at each address. Elf/Header reads headers,
--   Elf/Image is the image and its entry, Elf/Sections the copies of sections and the global offset
--   table, Elf/Pages the pages of a file. What `kmalloc`, `useConsecutivePages` and the file
--   functions of the operating system return is an argument; the memory operations and string
--   comparisons are those of Libk. Agree, Assembled, Got and Bounds hold the proofs.
-- Modules: kernel/modules/modules.c. Modules/Install is installing and uninstalling, on the list of
--   modules, the memory and the table of pages, with the functions of Elf and Libk; the operating
--   system's files, `useConsecutivePages`, the results of `kmalloc` and of the code of a module, and the
--   pages that these two mark in the table, are arguments.
--   Modules/Exports is the search for exported functions, which are given by their indices. Balance,
--   Outcome, Names, Steps and Search hold the proofs.
-- Sync: kernel/scheduling/lock.c and deferred_action.c, and kernel/libk/mutex.c and modes.c, in
--   Sync/Lock, Actions, Mutex and Interrupts. Counting and Exclusion are the steps of the users of a
--   lock and of a mutex, and Repeated is what doing actions comes to.
-- Gui: kernel/drivers/keypad.c in Gui/Keypad, kernel/modules/module_manager.c in Gui/Manager and
--   modules/clock/time-dialog.c in Gui/TimeDialog, each a state and a round of inputs; they use
--   Modules, Systime and Libk. Keys, Choices and Selection hold the proofs.
-- Hooks: the registered functions of kernel/os-hooks.c; the functions for draw and file hooks are the
--   same but for their array. Hooks/Listed holds the proofs.
-- Vfs: the paths of kernel/vfs/vfs.c; Vfs/Contains holds the proofs.
-- Screen: kernel/drivers/lcd.c, the characters of kernel/charset/charset.c and the images of
--   kernel/gui/img565.c and modules/background/bmp.c. Screen/Draw draws on a buffer, Screen/Lcd on
--   the driver's own buffers; Screen/Image creates images with the pages of Physical, and Screen/Bmp
--   loads them. Pixels, Shapes, Text and Decoded hold the proofs.
-- Devices: the registers of kernel/drivers/timer.c, irq_controller.c, power.c, rtc.c and
--   watchdog.c, as words by their indices. Access, Masks, Resume and Settings hold the proofs.
-- Common: shared names, tests on numbers, lists, bits and 32-bit words.
--
-- Numbers are natural numbers; the sums and products of the source's 32-bit and 64-bit words that
-- can wrap have their remainder written out, and a signed word is given by its bits. Where a definition
-- leaves a product unbounded, it says so.
--
-- Fuel. The loops over a linked list take fuel. `free_all_pageblocks` has a round for each block.
-- The loops over the slabs of a cache take fuel as an argument, since the links can run in a circle.
-- `unix_to_timestamp` takes the fuel of its loop over the years; 12, 31, 24 and 60 rounds do for the
-- loops behind it. A number of 32 or 64 bits has at most 32 or 64 digits. `sprintf_safe` takes fuel,
-- and needs no more rounds than its format has characters and one, unless it runs into a "%%" at the
-- end of its buffer.
--
-- Not modelled: what devices do by themselves, interrupt handlers and assembly, since they are
-- effects of the machine; the start of the kernel's own space, processes, what the dialogs draw,
-- system calls, the other programs of the repository and the C library.
pub mod Common
pub mod Devices
pub mod Elf
pub mod Gui
pub mod Hooks
pub mod Libk
pub mod LinkedList
pub mod Modules
pub mod Physical
pub mod Scheduler
pub mod Screen
pub mod Slab
pub mod Sync
pub mod Systime
pub mod Vfs
pub mod Virtual
