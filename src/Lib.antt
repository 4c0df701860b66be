-- ===== src/Lib.antt =====
-- hrishikos, a small operating system for x86_64: its memory managers, its C library, the console
-- and the keyboard, the inodes and blocks of its file system, and the line that its shell reads.
--
-- The parts, from the hardware up:
--   * os/mm/pmm.c hands out physical blocks of 4096 bytes from a bitmap: Mm/Pmm.antt.
--   * os/mm/vmm.c maps virtual pages to physical blocks in four-level tables, and takes the tables'
--     own blocks from pmm.c: Mm/Vmm.antt.
--   * os/mm/heap.c is the buddy allocator behind malloc; its lists stand in memory, and it takes
--     blocks from pmm.c and maps them with vmm.c: Mm/Heap.antt.
--   * os/drivers/keyboard.c turns scan codes into a ring of key codes: Drivers/Keyboard.antt; what its
--     keys stand for is written down a second time, by the rows of the keyboard, in
--     Drivers/Keyboard/Layout.antt.
--   * os/lib/string.c and os/lib/ctype.c copy, compare and reverse bytes: Clib/Strings.antt.
--   * os/drivers/vga_text.c shows text on the screen and scrolls it with memcpy:
--     Drivers/VgaText.antt.
--   * os/lib/bitmap.c keeps a bitmap on the disk with one block of it in memory: Clib/Bitmap.antt.
--   * os/fs/fs_superblock.c and os/fs/fs_helper.c lay out the disk: Fs/Superblock.antt.
--   * os/fs/fs_data.c hands out data blocks from a bitmap of bitmap.c at the place that the
--     superblock says: Fs/Data.antt.
--   * os/fs/fs_inode.c keeps inodes in a cache with a clock hand over a table on the disk, and the
--     blocks of a file, which it takes from fs_data.c: Fs/Inode.antt and Fs/Inode/Blocks.antt, with
--     os/lib/math.c.
--   * os/fs/fs_directory.c keeps entries in the blocks of a directory, an inode: Fs/Directory.antt;
--     its path functions take a path apart: Fs/Path.antt.
--   * os/lib/stdlib.c prints and reads numbers in a base, with strrev of string.c, and names the heap
--     as C does: Clib/Stdlib.antt.
--   * os/lib/stdio.c reads the conversions of a format: Clib/Stdio.antt.
--   * os/lib/file.c reads and writes the blocks of an open file, through fs_inode.c: Clib/File.antt.
--   * os/bin/shell/shell.c reads a line from the keyboard, which vga_text.c echoes, takes it apart into
--     arguments, and finds the command with strcmp: Bin/Shell.antt.
--
-- The file named for a part holds its state and its operations, under the names of the C functions
-- less their prefix (`pmm_alloc_block` is `Mm.Pmm.alloc_block`); the files below it hold the proofs,
-- and its Tests.antt runs it at concrete inputs. Base.antt holds the shared names and lemmas,
-- Base/Bits.antt those on the digits of a word.
--
-- State. The globals of a C file are one record, and a function that changes them returns the new
-- one. Raw memory is a function from the address to the word that stands there: the bitmap of pmm.c
-- by the word's index, page tables and the heap's list links by the byte's address, strings and the
-- screen by the byte. `Heap` contains `Vmm`, which contains `Pmm`, as the calls go. The transfers of
-- the ATA drive are a record of two operations, `Clib.Bitmap.Drive`, over a state that is left open.
-- How the compiler lays inodes and directory entries out in a block are such records too,
-- `Fs.Inode.Layout` and `Fs.Directory.EntryLayout`; the laws of the first, and
-- that the drive reads back what was written, are hypotheses of the theorem that uses them. The packed
-- struct of fs_inode.h, byte by byte, is Fs/Inode/Packed.antt, and Fs/Inode/Packed/Fields.antt shows the
-- laws of it. An entry of the inode cache is named by its index where the code passes a pointer to it.
-- Machine words are natural numbers with the wrap written out (`u32`, `add32`, `sub64`).
--
-- Loops with a counter recurse on the rounds that are left. The walk along a free list has fuel for
-- 4097 blocks, one more than the heap has blocks of the least size, and the theorems on it show that
-- it ends with a result; the loop of `heap_size_to_order` has 14 rounds, one more than the orders,
-- the loop of `heap_init` as many. `none` of the heap's operations is a read past the end of the array
-- of list heads or a list that does not end; `none` of the console's operations is a scroll by a
-- count that leaves the screen; `none` of the inodes' and the shell's operations is an access outside
-- an array.
--
-- A walk along a string has as much fuel as its caller passes, and the theorems ask for more than the
-- string's length; `strrev` has 32768 rounds, all that its 16-bit indices allow. A number of 64 bits
-- is printed with 65 rounds, one for each digit in base 2 and one to stop. The rounds of a line that is
-- read are the characters that the keyboard has given so far.
--
-- The processor's walk, `Mm.Vmm.Walk.translate`, is that of tables whose last level holds pages of 4096
-- bytes, which `vmm_init` builds: it looks at no page-size bit.
--
-- Not modelled: what printf shows and sscanf assigns, whose arguments are a va_list; the flush of the
-- translation buffer; the assembly and the port commands of the ATA driver; the walk along a path over
-- directories, and with it the opening of files; the editor and the shell's commands.
mod Base
pub mod Mm
pub mod Bin
pub mod Clib
pub mod Fs
pub mod Drivers
