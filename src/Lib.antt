-- ===== src/Lib.antt =====
-- RoninOS, a small freestanding i386 kernel in C: a model of its parts and the theorems that
-- hold of them.
--
-- - Text (kernel/lib/string.c): the string and memory routines over a byte-addressed memory.
-- - Keyboard (kernel/input/keyboard.c and keyboard.h): the scan code decoder behind IRQ 1.
--   Keyboard/Keys is a keyboard with a left and a right key for each modifier, and the bytes
--   that it sends.
-- - Sched (kernel/sched/thread.c and thread.h): the thread table and the round-robin scheduler.
-- - Heap (kernel/heap.c and heap.h): the block allocator. Its calls into the frame allocator
--   and the page tables are the interface Frames, a parameter that Memory fills. The mapping
--   loop has 4098 rounds, enough for the 16 MB that the heap may span; kmalloc's loop needs two
--   turns, one before and one after an expansion.
-- - Multiboot (kernel/mem/multiboot2.h): the boot information as bytes in memory, the fields of
--   its structures, and the walks over its tags and over the entries of a memory map that
--   kernel/mem/pmm.c makes.
-- - Pmm (kernel/mem/pmm.c and pmm.h): the frame allocator; Pmm/Init is pmm_init. Its walks over
--   the boot information have rounds, and 2 ^ 32 are enough for information that is
--   well-formed.
-- - Paging (kernel/mem/paging.c and paging.h): the page directory and the tables of the
--   bootstrap pool. The identity loop has 2 ^ 20 rounds, one for each page of the address
--   space.
-- - Memory: the interface Frames of the heap filled with Pmm and Paging, as kernel/heap.c links
--   to them.
-- - Ramfs (kernel/fs/ramfs.c and ramfs.h): the file system in memory. Walks along the children
--   of a directory have rounds, and one for each entry is enough.
-- - Vfs (kernel/fs/vfs.c and vfs.h): Vfs/Normal is path normalisation, with the normal form
--   said without its functions in Vfs/FullText and Vfs/NormalForm, Vfs/Mounts the mounts and
--   the resolution of paths, Vfs/Files the calls on descriptors and directories. A file system
--   is the record FsOps of its operations, a parameter, over a state and nodes of its own; that
--   looking a name up, reading a directory and asking for a size leave that state alone is part
--   of the record. A loop over a text has a round more than the text has bytes, and
--   normalize_path needs no more; vfs_listdir, which the file system may keep going for ever,
--   is given rounds.
-- - Fat32 (kernel/fs/fat32.c and fat32.h): FAT32 with one sector of root directory and files of
--   one cluster, over the two functions of a block device, which are parameters. Fat32/Names is
--   make_name83, Fat32/Table the allocation table and the search of the root directory,
--   Fat32/Format fat32_format and fat32_mount, Fat32/Files the calls on files; the other
--   modules prove. A device that keeps what is written is the record Reliable (Fat32/Reliable),
--   and a disk whose parts fit the record Layout (Fat32/Layout). Every loop has its bound in
--   the source.
-- - RamVfs: the record FsOps of Vfs filled by the operations of Ramfs (ramfs_ops of
--   kernel/fs/ramfs.c). A walk that does not end in the rounds given counts as an error there.
-- - Initrd (kernel/fs/initrd.c): the boot modules as files, with the record FsOps of Vfs filled
--   by its operations. The walk over the boot information and the reading of a command line
--   have rounds, and 2 ^ 32 are enough for information that is well-formed.
-- - Shell (kernel/shell/shell.c): the line editor. It reads the KeyEvent that Keyboard emits,
--   and hands calls to the terminal and the commands out as a list.
-- - Terminal (kernel/terminal/terminal.c and kernel/ui/theme.h): the text terminal. Drawing
--   gives the words of VGA memory as a function of the state, and the hardware cursor is its
--   position.
-- - Devices (kernel/block/blockdev.c and blockdev.h): the registry of block devices.
-- - Base: what the modules share; it models no code.
--
-- Machine words are native numbers with their wrap-around written out. A loop whose end is not
-- evident has a number of rounds, and the theorems say how many are enough.
--
-- Not modelled: the ATA driver, the consoles, interrupts, the commands and the UEFI stub. Most
-- of these are drivers and output; the others are left for later.
pub mod Base
pub mod Text
pub mod Keyboard
pub mod Sched
pub mod Heap
pub mod Multiboot
pub mod Pmm
pub mod Paging
pub mod Memory
pub mod Ramfs
pub mod Vfs
pub mod Initrd
pub mod Fat32
pub mod RamVfs
pub mod Shell
pub mod Terminal
pub mod Devices
