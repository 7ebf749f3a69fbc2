-- ===== src/Lib.antt =====
-- The ext2 simulator: a shell over an ext2 disk image, with in-memory inodes, an open file table,
-- two processes and a mount table.
--
-- The parts and their modules, and the sources that they model (paths from the repository's root):
--   Bytes      memory as bytes; the structures of include/ext2fs/ext2_fs.h by their offsets
--   Disk       src/util.c: get_super, get_group, get_block, put_super, put_group, put_block
--   Alloc      src/alloc_dealloc.c: the bitmaps; ialloc, balloc, idealloc, bdealloc
--   Sim        src/type.h, src/global.c: the state, and the monad of commands
--   Minodes    src/util.c: iget, iput, and the inode table's transfers
--   Text       C strings: strncpy, strcmp and the names in a buffer
--   Dir        src/util.c: search; src/level1.c: insert_entry, remove_entry, dir_is_empty
--   Access     src/util.c: has_perm; src/level3.c: pswitch
--   Paths      src/util.c: tokenize, getino; src/level1.c: parseargs, shell_cd
--   Files      src/level1.c: mkdir, creat, rmdir, link, symlink, unlink, touch, chmod, chown, chgrp;
--              src/util.c: clear_blocks
--   OpenFiles  src/level2.c: open, close, lseek, read, write, cat, cp, mv
--   Mounts     src/level3.c: mount, umount; src/main.c: init, mount_root; src/command.c: my_quit
--   Print      src/level1.c: ls, pwd, readlink, stat; src/level2.c: pfd; src/level3.c: the list of
--              mounts
--   Commands   src/command.c: the handlers, the table, execute; src/main.c: main and its loop
--   Sound      what holds of the state between two commands, the counts of open files included
--   Ends       which commands come to an end on every disk image
--   Sample     a small disk image on which the theorems are exercised
-- Paths/Lookup has the look-up of names on the disk that `getino` is compared with, Minodes/Settled
-- the states in which the inodes in memory are those of the disk, and Minodes/View the inode that
-- `iget` finds, in memory or on the disk. Base has the shared tests and the facts about bits.
--
-- The commands of Files, OpenFiles and Mounts find inodes by Paths, which reads directories by Dir
-- and holds inodes by iget and iput of Minodes; those keep the inodes of Disk and Alloc in memory.
-- Commands calls each of them for a line that is typed. A run of the program is a sequence of such
-- lines from the static storage of its start. Sound has a rule for each way to build a command, a
-- lemma for each function of the source, and puts them together for `execute` and `main`; Ends is
-- built in the same way.
--
-- An image is a function from offsets to bytes for each device number, read and written by
-- lseek, read and write without failure. A buffer or a structure is the function from its offsets
-- to its bytes, so that overlapping fields, block boundaries and field widths are those of the
-- source; what lies behind a buffer's end reads as 0. Fields of type __u16 and __u32 wrap around.
-- A pointer into a table is an index and NULL is `none`; dereferencing NULL and other undefined
-- accesses end a run in `fault`: a device's name of 64 bytes or more in the first mount entry, a
-- comparison with a name in the mount table that has no NUL in its 64 bytes, or a print of it; a
-- new directory entry that ends behind the buffer of its block; a bit behind the block of a bitmap,
-- which an image with more than 8192 inodes or blocks can lead to; and a block of a file behind the
-- double indirect ones, from byte 67383296 on. An `int` argument is its 32 bits, and a negative one
-- is from 2 ^ 31 on; so is the rest of a file of 2 ^ 31 bytes or more, of which file_read reads
-- nothing.
--
-- The functions of Alloc are those of the source inside the block of a bitmap, and tell by
-- `search_overruns` and `bit_overruns` where they leave it; the commands that call them fault there.
-- In the same way `block_of` and `place_block` of OpenFiles/Data are called for blocks in reach.
-- `time(0)` is the state's `clock`. Messages printed by printf are left out; the output of
-- shell_cat is its result. `open` is a parameter of Mounts, and `close` of a device does nothing.
--
-- Loops run on the rounds that are left, or on fuel: a walk over a directory block on 1025, one
-- more than its bytes, since every step is one byte at least; the loops of file_read and
-- file_write on one more than the bytes asked for; those of shell_cat and file_cp on 2 ^ 32, since
-- every round reads a byte of a file whose size has 32 bits. A loop of the source that does not
-- end is a run that ends in `out_of_fuel`.
--
-- help_pwd runs on 256 calls: it looks up the same name in every call, so that it ends in its
-- second call or not at all. At the end of its input the main loop repeats the last line, which is
-- `out_of_fuel` too.
--
-- Not modelled: the messages, and how numbers and dates are laid out by printf and strftime. The
-- headers under include/ext2fs are those of e2fsprogs, and only the offsets of the fields that the
-- source uses are taken from them.
pub mod Base
pub mod Bytes
pub mod Disk
pub mod Alloc
pub mod Sim
pub mod Text
pub mod Dir
pub mod Access
pub mod Paths
pub mod Files
pub mod OpenFiles
pub mod Mounts
pub mod Minodes
pub mod Print
pub mod Commands
pub mod Sound
pub mod Ends
pub mod Sample
