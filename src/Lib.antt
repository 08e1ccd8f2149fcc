-- ===== src/Lib.antt =====
-- System Commander, a hobby operating system for x86-64: a model of its kernel.
--
-- The Limine boot loader enters the kernel at `kenter` (src/entry/entry.c), which fills the descriptor
-- and interrupt tables, takes the memory map over into the allocator of physical pages, sets the
-- kernel heap up, looks for the disk controllers on the PCI bus, reads the partition tables of the
-- disks, and mounts a file system, from which programs are read. Each part below is a module with one
-- function per C function, of the same name; child modules hold what is proved, and Tests modules run
-- the functions and theorems at concrete inputs.
--
-- - Bitmap: src/utils/bitmap.c. A bitmap is its size and the bytes from the pointer on, so that an
--   index past the size reads and writes the bytes behind the buffer, as in C.
-- - Phys: src/memory/phys_allocator.c and memory.c. The static variables of the file are the record
--   `Allocator`, and each call maps one to the next. The memory map is a list of entries; the counters
--   wrap around at 2 ^ 64. Its clients are PageMap and Heap.
-- - PageMap: src/memory/page_map.c. The state `Machine` is the allocator and the 64-bit words of
--   memory by their addresses; the page walk of the processor, with large pages and canonical addresses, is
--   written out beside the code.
-- - Heap: src/memory/heap.c. The state is the machine, the segment headers by their addresses, and the
--   three static variables. A list of blocks is the abstract view: `Holds` relates the two, and `used`
--   forgets all but the allocations. Where a page of the heap cannot be requested or mapped there is
--   no state behind the call: a header that is written to it is a page fault, and what an earlier
--   part of the code does to the other pages is not followed.
-- - Libc: src/memory/stdmemory.c and src/utils/string.c. Memory is a function from addresses to bytes;
--   comparisons take the lists of the strings' characters.
-- - Cpu: src/cpu/idt.c, gdt.c, tss.c, interrupts.c, msr.c and syscalls/syscalls.c, with the
--   registration of the interrupt handlers in src/entry/entry.c.
-- - Pci: src/drivers/pci.c and acpi.c. What memory holds is an argument; a walk over the bus is the
--   list of its steps, which are the log lines and the calls of the AHCI driver.
-- - Disk: src/drivers/ahci.c and src/fs/partitions/gpt.c. A transfer is the command that is issued to
--   the controller and the result; what the registers read at each poll is a parameter. The partition
--   code uses a record of disk operations, which `Disk.Device` states with its laws, within what the
--   commands of the driver can express.
-- - Fs: src/fs/fs.c, src/fs/fat.c and src/fs/ext2.c. Paths are lists of names. The mount table calls
--   the handlers of the file systems, which are fields of a record as in src/include/syscom/fs.h.
--   In `Fs.Ext2` and `Fs.Fat` a call gives an `Outcome`, where reads and writes outside of an object,
--   a panic and a loop that does not end are values; the abstract view of a volume is the list of its
--   bytes.
-- - Elf: src/programs/elf.c, the mapping of the pages of a program.
--
-- Numbers. A machine word is a natural number, and what can leave the range of its C type wraps around
-- where it does so in C (`Common.Words`). A signed value is its bit pattern or, in time stamps, an
-- integer. A null pointer is address 0.
--
-- Loops. A loop with a counter recurses on the rounds that are left. Where the code has no bound of its
-- own there is fuel. The walk of `malloc` takes a step for each segment, and `malloc` calls itself
-- after it has made the heap larger: a second growth is merged with the first, so that three calls
-- and walks over two segments more than at first are enough. The string
-- functions that run to a NUL take as many steps as there are bytes before it. The wait for the end of
-- a disk command is a poll of hardware that need not end, and has no enough fuel. The loops over the
-- entries of an ext2 directory have a round more than the directory has bytes, which is enough for
-- entries of any size but 0. The transfers of a FAT file have a round more than there are bytes; the
-- chain of clusters of a FAT directory may be endless, and the search in it takes the rounds as an
-- argument.
--
-- Not modelled: the assembly stubs, port input and output, the log, the console and the panic screen,
-- which read nothing back into the state; the C structures of the Limine protocol but for the entries
-- of its memory map; the bytes of heap allocations; interrupts that come between two steps, since the
-- kernel has one thread and its handlers end in a panic or return to it unchanged; the
-- bytes of a program and the jump to it, the listing of directories on FAT volumes, and the
-- DMA buffers of the disk driver.
pub mod Common
pub mod Bitmap
pub mod Libc
pub mod Phys
pub mod PageMap
pub mod Heap
pub mod Cpu
pub mod Pci
pub mod Disk
pub mod Fs
pub mod Elf
