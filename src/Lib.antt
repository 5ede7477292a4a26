-- ===== src/Lib.antt =====
-- A model of the kernel of a retro gaming console for the Raspberry Pi, and its verification.
--
-- The parts of the program, the files that model them, and the code they are about:
--
-- * Pmm models src/kernel/pmm/pmm.cpp and include/kernel/pmm.h, the bitmap allocator of 4 KiB frames.
--   Its state `Pmm` is the globals `bitmap`, `phys_mem_start` and `total_frames`; `pmm_init`,
--   `alloc_frame`, `alloc_frames` and `free_frame` are the functions of the same names. Pmm/Bitmap is
--   about single bits, Pmm/Valid about the invariant, Pmm/Alloc, Pmm/Runs and Pmm/Free about the calls.
-- * Io models `print_helper`, `uart_put_uint` and `uart_put_hex` of src/kernel/io/io.cpp; a write past
--   the end of their buffer is `none`.
-- * Render models src/display/render.cpp: pixels, lines, the font and characters, over the globals
--   `framebuffer_*` of include/display/display.h. Render/Font holds the two tables of glyphs.
-- * Terminal models `_term_scroll`, `term_clear`, `term_putc` and `term_puts` of src/kernel/io/io.cpp,
--   over the globals of include/display/render.h. It draws with Render.
-- * Mmu models the page tables of src/kernel/mmu/mmu.cpp: `map` is `map_range`, `_unmap_locked` is
--   `unmap_locked`, and `unmap`, `translate`, `_get_or_alloc_table` keep their names. Tables are
--   addressed by their base and an index. The abstract view of them is a map from pages, by their three
--   indices, to descriptors. Mmu/Tree says what it means that the tables are a tree of three levels that
--   owns its frames; Mmu/Pages, Mmu/Fresh and Mmu/Dropped are about the three ways in which the code
--   changes it, Mmu/Map and Mmu/Unmap about one page and Mmu/Spans, Mmu/Ranges and Mmu/Contract about
--   ranges. Mmu/Setup is `mmu_init`, with the registers it writes, and Mmu/Identity and Mmu/Installed
--   are about the map that it installs. Mmu/Frames is about the frames that `map` takes for tables.
-- * Spinlock models src/kernel/spinlock/spinlock.cpp as the steps of any number of cores: an exclusive
--   load, an exclusive store, the wait for an event and the release each are one step, the hardware may
--   disarm a monitor or set an event at any time, and a run is any interleaving. Spinlock/Invariant,
--   Spinlock/Exclusion and Spinlock/Progress are about the states that runs get to.
-- * Cache models the loops of src/kernel/cache/cache.cpp over the lines of a range.
-- * Heap models src/kernel/heap_alloc/heap_alloc.cpp, Dma src/kernel/dma/dma.cpp and Libc
--   src/kernel/libc_retarget/libc_retarget.cpp: three arenas of addresses, over Mmu and Pmm. Their
--   loops run on fuel, the pages of the whole arena, and the theorems on their results show that it is
--   enough. Libc/Backed and Libc/Growth join the break with the page tables and the frames behind it.
-- * Timer models src/kernel/timer/timer.cpp, with the counter's readings as an argument.
-- * Sd models src/sd/sd.cpp and include/sd/sd.h over a host controller that is an argument; its polling
--   loops run on fuel, `none` is a wait that outlasts it. Sd is the commands and waits, Sd/Transfer the
--   data commands, `sdio_read` and `sdio_write`, Sd/Bringup the clock and the driver's globals, and
--   Sd/Identify the identification of a card and `sdio_init`. Sd/Pio states what a controller without
--   errors and the card behind it do, with a bound on its polls: a data port that opens only to a command
--   and registers set up for its transfer, on an array of words. Sd/Stored, Sd/Blocks and Sd/Media are about the words that go through the data port, Sd/NoCard
--   about a controller that latches no event.
-- * Interrupts models src/kernel/interrupts/interrupts.cpp: the setup of the controller, the interrupt
--   handler and the backtrace, and in Interrupts/Print what the handlers of exceptions print.
--   Interrupts/Dump and Interrupts/Report are about the report.
-- * Disk models src/kernel/fatfs_retarget/diskio.c over an interface of the SD driver. Disk/Device is what
--   it asks of the driver, an array of bytes; Disk/Card puts the driver of Sd behind it, and
--   Disk/Requests runs sequences of reads and writes.
-- * Shell models the line editor, the tokenizer, the dispatcher and the commands on files of
--   src/kernel/shell/shell.cpp; Shell/Files has FatFs as an argument,
--   Shell/Resolution `atoi`. Shell/Session is `shell_run` on the bytes that are typed, with one round of
--   fuel for each prompt; Shell/Typed and Shell/Commands are about it, the latter with what each command's
--   name stands for, and Shell/Texts has the fixed texts.
-- * Uart models `uart_init` and the characters that src/kernel/io/io.cpp sends and receives over the
--   PL011, which is an argument.
-- * Display models the mailbox requests of src/display/display.cpp, with VideoCore as an argument
--   that answers each request; Display/Mailbox is the handshake of `_send_command`, whose waits run on fuel.
-- * Boot models src/kernel/kernel.cpp and src/kernel/crt/crt.cpp: `sd_selftest` over FatFs, and
--   `kernel_main` up to the shell, which puts Mmu, Heap, Display, Timer, Interrupts and Uart together; an `f_mount`
--   that does not return and a request that VideoCore never answers are courses of it, and the other calls
--   of FatFs are taken to return.
-- * Common holds numbers, words, bits and lists for all of them.
--
-- Numbers are natural; the wrap-around of a w-bit type is written out as a remainder by 2 ^ w. Loops
-- with a bound known at entry recurse on the rounds left. The digit loops of Io recurse on the places
-- left in the buffer, and are proved to need no more.
--
-- A body that holds a lock from start to end is one atomic step of the model of its file. Not modelled:
-- barriers and TLB maintenance, which do not change the tables; the order in which memory accesses other
-- than those of the lock word become visible; diagnostic output; the boot code and the vector table
-- in assembly; the words that VideoCore leaves in a buffer, which are a function of those it gets; and the
-- third-party libraries under lib/ (FatFs, the USB stack), whose calls are arguments of the model.
pub mod Common
pub mod Pmm
pub mod Mmu
pub mod Heap
pub mod Dma
pub mod Libc
pub mod Io
pub mod Render
pub mod Terminal
pub mod Display
pub mod Timer
pub mod Disk
pub mod Shell
pub mod Sd
pub mod Interrupts
pub mod Spinlock
pub mod Cache
pub mod Uart
pub mod Boot
