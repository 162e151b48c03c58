-- ===== src/Lib.antt =====
-- LBoot, a boot loader for x86: what it does once its second stage runs.
--
-- The second stage reads a FAT12 floppy disk through the BIOS, or receives files over a serial line
-- by XMODEM; it loads an ELF kernel and its modules into memory and jumps to the kernel. Memory for
-- its own use comes from its allocator, and what it prints goes to the text screen.
--
-- * Base has shared notation: tests on native numbers, lists as arrays, casts to a width, and
--   `Outcome`, in which `panics` is a call of `_panic` and `no_fuel` a recursion that was cut.
-- * Alloc is src/mm/alloc.c. `Heap` is the list of entry tables and the list of their entries, in
--   the order of the chain; `alloc`, `free` and `alloc_init` are the functions of those names, and
--   `find_free`, `add_alloc` and `do_free` the static functions below them.
-- * Fifo is src/data/fifo.c, a ring of bytes with its `uint32_t` arithmetic.
-- * BiosStorage is src/storage/bios.c, over a BIOS that may fail; Fat is src/storage/fs/fat.c, over
--   any device, such as that disk; a read through the BIOS gives the bytes that Fat.Disk has a
--   device give.
-- * Path is src/storage/fs/fs.c, over the find and close of such a driver.
-- * Xmodem is src/storage/protocol/xmodem.c, over a port that is the list of what its reads give.
-- * Protocol is src/storage/protocol/protocol.c, the choice of the driver by a URI, with the choice
--   of the serial port in xmodem.c.
-- * Exec is src/exec/exec.c and src/exec/fmt/elf.c, over files that are functions from an offset and
--   a size to bytes, and a memory that is a function from addresses to bytes.
-- * Vga is src/io/vga.c.
-- * Output is src/io/output.c: the division and the numbers of `printf`, the machine that reads its
--   format (Format), and the printing functions over a selected device (Sink).
-- * Stdlib is src/stdlib: the strings as lists of bytes, the functions on memory (Memory), and
--   `strtoul`, which reads what Output writes.
-- * Intr is src/intr/pic.c, src/intr/idt.c and src/intr/interrupts.c, over the ports of a machine that
--   is a parameter; Time is src/time/time.c and src/time/pit.c over the same ports, whose handler is
--   registered with Intr.
-- * Multiboot is src/exec/multiboot.c, over a BIOS and a memory that are parameters; Walk reads what it
--   leaves as a kernel does.
-- * SectorMap is the host tool tools/sector_mapper, which writes the map of the sectors that the
--   first stage loads.
--
-- Loops over arrays and lists are structural. A loop whose end the types do not show has fuel, which
-- the function that starts it sets: one for each step that the loop can take, so `suc off` and
-- `suc sz` for a read of a FAT file, which takes at least a byte at a time, and `suc size` for a read
-- of sectors. The receiver of XMODEM has no limit of its own, and its fuel is an argument, as is that
-- of the directory search; the theorem on transfers gives one for each packet. `printf` has a unit
-- for each byte of its format, a number of 64 bits one for each of its bits, a file of the host tool
-- one for each byte, and `time_delay` takes its fuel, above the rounds that it waits, as an argument. So
-- do the loop over the tags of a kernel's header, one for each tag, and the memory map of the BIOS,
-- one for each call, since neither loop has a limit of its own.
--
-- Offsets of type `off_t` are numbers that are not negative, and sums of them that would exceed 31
-- bits, which C leaves undefined, do not wrap; the offset of the XMODEM receiver, which goes below 0,
-- is kept as its 32 bits. The count of `_print`, an `int`, does not wrap either. Memory past the end of
-- a C array reads as 0. The ticks of the timer come in any number between two tests of `time_delay`,
-- as a parameter.
--
-- Not modelled are the assembly with the first stage, the switch to the BIOS and the wrappers of the
-- interrupts, the serial port, the configuration, the opening of files and
-- of kernels by name, and of the host tool its search of a directory and its calls of the host system.
pub mod Base
pub mod Alloc
pub mod BiosStorage
pub mod Exec
pub mod Fat
pub mod Fifo
pub mod Intr
pub mod Multiboot
pub mod Output
pub mod Path
pub mod Protocol
pub mod SectorMap
pub mod Stdlib
pub mod Time
pub mod Vga
pub mod Xmodem
