-- ===== src/Disk/Layout.antt =====
-- The fields of the superblock and of the group descriptor that the code uses, at the offsets of
-- include/ext2fs/ext2_fs.h.
use cpts.Base.{ℕ}
use cpts.Bytes.{Buf, u16, u32}

unfoldable pub s_inodes_count : Buf → ℕ
s_inodes_count s = u32 s 0

unfoldable pub s_blocks_count : Buf → ℕ
s_blocks_count s = u32 s 4

unfoldable pub s_magic : Buf → ℕ
s_magic s = u16 s 56

abbrev pub super_magic : ℕ
super_magic = 0xEF53

unfoldable pub bg_block_bitmap : Buf → ℕ
bg_block_bitmap g = u32 g 0

unfoldable pub bg_inode_bitmap : Buf → ℕ
bg_inode_bitmap g = u32 g 4

unfoldable pub bg_inode_table : Buf → ℕ
bg_inode_table g = u32 g 8
