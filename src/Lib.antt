-- ===== src/Lib.antt =====
-- Ghittle, a small 64-bit kernel: its utilities, allocators, file system, tasks and devices.
--
-- The parts, and the files that model them:
--   utils/mem_utils.c                 Mem: memory is a function from addresses to bytes
--   utils/bitmap.c                    Bitmap: maps of bits in memory
--   utils/queue.c, include/queue.h    Queue: a ring of items of a fixed size
--   utils/string.c                    Str: C strings, numbers (Str.Numbers, Str.Unsigned) and the
--                                     formats of vsprintf (Str.Format)
--   utils/sync.c                      Sync: the recursive mutex
--   include/list.h                    Ring: circular lists through nodes in memory
--   memory/kmem.c, memory/page.c      Kmem: allocators of pages and of 16-byte shards
--   memory/page.c, include/page.h     Page: the page tables of the 64-bit kernel
--   core/kernel32/main.c              Boot: clearing and copying the kernel, its first page tables;
--                                     PBOOT_FLAG is the byte of memory that include/types.h names
--   core/kernel64/main.c              Kernel64: how the 64-bit kernel starts its parts
--   core/kernel64/desc.c              Desc: the descriptor tables as bytes
--   device/timer.c, core/kernel64/pic.c, core/kernel64/pit.c
--                                     Timer: the waits, and what is written to the chips
--   core/kernel64/interrupt.c         Interrupt: the handlers, over the parts that they change
--   device/hdd.c                      Hdd, Hdd.Sector: the driver of the disk over the ports; and
--                                     Drive: what the file system asks of it, as an interface
--   filesys/filesys.c                 Fs: the table that links blocks to chains; and Fs.Mount: format
--                                     and mount
--   device/block.c, filesys/dir.c     Fs.Block, Fs.Dir: blocks, and the root directory in block 0
--   filesys/file.c                    File: open files; File.Reading, File.Writing, File.Seeking and
--                                     File.Opening: what is done with them
--   task/task.c                       Task: the pool of tasks
--   task/sched.c, task/task_ll.asm    Sched: the scheduler and the switch of tasks
--   device/keyboard.c                 Keyboard: scan codes, key state, the queue of keys, the waits
--   device/console.c                  Console: the cursor, text on the screen and printk
--   mkimage/mkfilesys.c               MkFilesys: the program that puts files into an image
--   mkimage/mkimage.c                 MkImage: the program that makes the image to boot from; and
--                                     HostFiles: what it asks of the host, as an interface
-- Base has the names that all share, and Tests applies the theorems to concrete data.
--
-- A function of the code is a definition of the same name in lower case (`init_IDT` is `init_idt`,
-- `__kfree` is `kfree_sized`). A loop or
-- a branch that needs a name of its own is a definition beside it. Numbers are natural numbers, with
-- the wrap-around of the C type written out where the code can reach it. State is passed explicitly:
-- an operation takes a record and gives the result with the new record. The return value 0 of the
-- functions that give 0 or -1 is `true`. A call that would wait for a mutex that another task holds
-- gives `none`.
--
-- The parts meet where the code calls: the allocators search bitmaps, the keyboard and the file
-- system put their data into queues and blocks, files use the table, the directory and the heap, and
-- the scheduler keeps the tasks of the pool on two lists under a mutex.
--
-- Bounds. Loops with a counter run by structural recursion on the rounds that are left. Loops over a
-- chain of blocks have fuel, and more fuel than the chain has blocks is enough. The loops of reading
-- and writing a file have fuel for the whole blocks and two partial ones. `change_led` has fuel for
-- the nesting of its own calls through `wait_for_ack`.
--
-- The waits of the disk have fuel for 502 rounds, which is enough because each round lasts at least
-- one of the 500 ticks that they allow. `mdelay` and `wait_pit` have fuel for the readings up to one
-- at which the time is over. The loops over the digits of a number have fuel for 65 digits.
--
-- `copyfile` of mkimage has fuel for the reads of 512 bytes, and as many as the file has sectors and
-- one more are enough. The boot loader in assembly is a hypothesis on the memory that it leaves.
--
-- The board. What the processor, the disk and the clock do is a parameter: a function for the write
-- that memory keeps, the registers of `cpuid`, the readings of a counter, and for the disk the record
-- `Board` with the ports, the time and the interrupts that arrive.
--
-- Not modelled: assembly, which switches modes, stacks and tables; the listing of the directory,
-- which is switched off but for `dir_open`; the self tests; the wiring of Hdd to the interface
-- Drive, for which the laws of a disk would have to be assumed.
pub mod Base
pub mod Mem
pub mod Queue
pub mod Bitmap
pub mod Kmem
pub mod Sync
pub mod Drive
pub mod Fs
pub mod Str
pub mod File
pub mod Ring
pub mod Task
pub mod Sched
pub mod Keyboard
pub mod Console
pub mod Boot
pub mod Page
pub mod Desc
pub mod Timer
pub mod Hdd
pub mod MkFilesys
pub mod HostFiles
pub mod MkImage
pub mod Interrupt
pub mod Kernel64
pub mod Tests
