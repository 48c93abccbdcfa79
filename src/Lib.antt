-- ===== src/Lib.antt =====
-- A verification of parts of the AVR kernel.
--
-- Base holds what all parts share: Boolean tests on the native numbers, arithmetic modulo 2 ^ 32 and
-- 2 ^ 64 written out with %, the bits of a byte, and byte-addressed memory as a function that is
-- updated cell by cell, with little-endian words.
--
-- Util.Div models kernel/util/div6432.c: __udivmoddi4 with its two loops, __udivdi3 and __umoddi3. The
-- loops run on fuel. The first doubles the divisor at most 64 times, the second halves the quotient
-- bit at most 65 times, and the theorems show that this fuel is enough.
--
-- Util.Strings, Util.Copy and Util.Numbers model kernel/util/string.c: the functions that read texts,
-- those that write memory, and the conversions of numbers. Memory is a function from addresses, and a
-- pointer is an address, NULL being 0. A loop that ends at a terminator runs on rounds; the theorems
-- ask for more rounds than the texts have characters, and show that these are enough. The digits of
-- a number take as many rounds as its local buffer has bytes, and a theorem shows that they fit.
-- Util.Text has what a zero-terminated text in memory is, as a list. Children: Search, Compare and
-- Spans (of Strings), Move and Append (of Copy), Decimal, RoundTrip and Commas (of Numbers).
--
-- Util.Parser models kernel/util/parser.c over those: paths (Paths) and the replacement of a text in
-- place (Replace). Util.Tok models kernel/util/tok.c and strtok of string.c; strtok's static variable
-- is an argument and a result. size_t and int have 32 bits.
--
-- Util.Chain models kernel/util/list.h, a doubly linked list over nodes in memory. Segments reads runs of
-- nodes as lists; Refines and Unlink show that appending and removing keep the links of both ways and
-- do to the list what they should. malloc is a parameter by its answer.
--
-- Util.Math models the integer functions of kernel/util/math.c. Root, Power and Angle show what isqrt,
-- ipow and iatan2 answer; their loops run on rounds, as many as the width of an int bounds.
--
-- Arch.X86.Pmm models kernel/arch/x86/virtual/pmm.c, the bitmap of the physical frames: pmm_init over
-- the memory map in the boot information, pmm_alloc_frame and pmm_free_frame. Frames says which frames
-- are in use and what an allocation does, Free what freeing does, Init what pmm_init leaves free. The
-- bits of a word are in Base.Words.
--
-- Arch.X86.Heap models kernel/arch/x86/heap.c, the block heap behind kmalloc and kfree. The record
-- Heap has the static variables of that file and the physical memory; each C function is a function
-- on it under its own name, the prefix kmalloc_ left off the static ones. Its public operations run
-- with interrupts off, so each is one step. kernel_crashout, which does not return, is the outcome
-- crashed. Children: Layout (where the bitmap stands), Bitmap (marking blocks), Search (first fit),
-- Headers (allocation headers and the write-back of the bitmap), Alloc and Outcome (kmalloc), Live
-- (kmalloc_is_valid), Free (kfree), Safety and Lifecycle (allocations beside each other), Init
-- (heap_init), Access (the getters and setters), Iterate (kmalloc_next), Memory (kmem_write, kmem_read).
--
-- Emulation.X4 models kernel/emulation/x4, an emulator of 8-bit programs. Machine has the packed
-- register file as 33 bytes, because the instructions index it by register number, the memory behind
-- the bus, and what was shown. Ops has one function per opcode_ function of opcodes.h; an access past
-- the register file, or a division by zero, has no meaning in C and is none. Services has the display
-- and keyboard services of services.c; Run has fetch, decode, dispatch and the loop of x4.c.
-- Stack, Calls, Compare, Interrupts and Length hold the theorems by subject; Encoding has the operands of
-- the instructions and Pointer what keeps the execution pointer. The keyboard driver (what each poll
-- answers) and the file-system service are parameters. The rounds of the print loop are bounded by a
-- parameter; the theorem on it asks for more rounds than characters.
--
-- Boot.X86.Mutex models kernel/boot/x86/mutex.c. Kernel has the running thread, the threads' states,
-- the mutexes, and the links of the waiters that stand on the stacks of waiting threads. A call of
-- mutex_lock is followed up to the switch of thread_yield, which gives the processor away. Queue reads
-- the links as a list; Refines states what a mutex is without its representation.
--
-- Boot.X86.Scheduler models the dynamic priorities of kernel/boot/x86/scheduler.c: thread_charge_cpu
-- with its loop (each round lowers the priority, which bounds the rounds), thread_recover and
-- thread_age. Charge has the loop in closed form, Age what the operations keep.
--
-- Boot.X86.Events models the events of the same file: the wait list of an event, event_signal, and
-- event_wait in two steps, up to the switch of thread_yield and from it on. The loops over the list
-- run on rounds, and the theorems show that as many rounds as waiters, or one more, are enough. Signal
-- is about event_signal, Remove about a thread that leaves the list when its time is up.
--
-- Boot.X86.Dispatch models thread_handler_c of the same file, which the timer and thread_yield enter: the
-- run queue as links between thread blocks, the pass that wakes, ages and unlinks threads, the choice of
-- the next thread, and the switch. Ring reads the links as a list, Choose says which thread is
-- chosen, Switch that one thread runs. The FPU state and the memory of stacks are left out.
--
-- Fs models kernel/fs/basefs, the file system on a disk, in layers that use only the theorems of the one
-- below. Fs.Cache is backend/io_x86.c, the write-back cache of one sector: Content reads cache and drive
-- as one memory, Bytes has fs_mem_read and fs_mem_write on it, Sync what stands on the drive. The drive
-- is an environment, a sequence of answers to accesses; one that fails changes nothing. Fs.Bitmap is
-- bitmap.c: Frame shows that the frame of 32 bytes and the disk stand for one bitmap, Blocks what the
-- operations do to single blocks. Fs.Device is device.c: Runs and Layout serve Alloc, Free and Sync, for
-- fs_alloc, fs_free and fs_device_sync; Open, Capacity, Prepare, Reserve and Format show what
-- fs_device_format leaves. Base.Runs has the first-fit scan that it shares with the heap.
-- Fs.File is the reading part of file.c, and cryptography.c: Header and Names have the fields of a header,
-- Chain and Handle what a file is on the disk, Read what fs_file_read answers. The loop over the extents
-- runs on rounds; the theorem asks for more than the file has extents. The theorems on contents assume
-- a drive that never fails, and say so; what a failing one does to fs_cache_flush is in Sync. The fields of
-- FSDeviceContext are two records, and a null context is not modelled.
--
-- Not modelled: drivers, the window manager, writing of files, directories, the creation of threads, and
-- the other parts that the manifest lists with their reasons.
pub mod Base
pub mod Util
pub mod Arch
pub mod Emulation
pub mod Boot
pub mod Fs
