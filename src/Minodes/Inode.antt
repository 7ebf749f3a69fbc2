-- ===== src/Minodes/Inode.antt =====
-- The fields of an inode at their offsets in struct ext2_inode, and the minode around it.
use cpts.Base.{ℕ, ◌+◌, ◌*◌, Bool, bit_and, ◌==◌}
use cpts.Bytes.{Buf, u16, put_u16, u32, put_u32}
use cpts.Sim.{Minode}

unfoldable pub i_mode : Buf → ℕ
i_mode b = u16 b 0

unfoldable pub i_uid : Buf → ℕ
i_uid b = u16 b 2

unfoldable pub i_size : Buf → ℕ
i_size b = u32 b 4

unfoldable pub i_atime : Buf → ℕ
i_atime b = u32 b 8

unfoldable pub i_ctime : Buf → ℕ
i_ctime b = u32 b 12

unfoldable pub i_mtime : Buf → ℕ
i_mtime b = u32 b 16

unfoldable pub i_gid : Buf → ℕ
i_gid b = u16 b 24

unfoldable pub i_links_count : Buf → ℕ
i_links_count b = u16 b 26

unfoldable pub i_blocks : Buf → ℕ
i_blocks b = u32 b 28

unfoldable pub i_block : Buf → ℕ → ℕ
i_block b k = u32 b (40 + 4 * k)

unfoldable pub set_i_mode : ℕ → Buf → Buf
set_i_mode v b = put_u16 b 0 v

unfoldable pub set_i_uid : ℕ → Buf → Buf
set_i_uid v b = put_u16 b 2 v

unfoldable pub set_i_size : ℕ → Buf → Buf
set_i_size v b = put_u32 b 4 v

unfoldable pub set_i_atime : ℕ → Buf → Buf
set_i_atime v b = put_u32 b 8 v

unfoldable pub set_i_ctime : ℕ → Buf → Buf
set_i_ctime v b = put_u32 b 12 v

unfoldable pub set_i_mtime : ℕ → Buf → Buf
set_i_mtime v b = put_u32 b 16 v

unfoldable pub set_i_gid : ℕ → Buf → Buf
set_i_gid v b = put_u16 b 24 v

unfoldable pub set_i_links_count : ℕ → Buf → Buf
set_i_links_count v b = put_u16 b 26 v

unfoldable pub set_i_blocks : ℕ → Buf → Buf
set_i_blocks v b = put_u32 b 28 v

unfoldable pub set_i_block : ℕ → ℕ → Buf → Buf
set_i_block k v b = put_u32 b (40 + 4 * k) v

-- `(i_mode & 0xF000) == t`: 0x4000 is a directory, 0x8000 a regular file, 0xA000 a symlink.
unfoldable pub has_type : ℕ → Buf → Bool
has_type t b = bit_and (i_mode b) 0xF000 == t

abbrev pub dir_type : ℕ
dir_type = 0x4000

abbrev pub file_type : ℕ
file_type = 0x8000

abbrev pub link_type : ℕ
link_type = 0xA000

-- A write to a field of the inode of a minode.
abbrev pub on_inode : (Buf → Buf) → Minode → Minode
on_inode f m = record m { inode = f m.inode }

abbrev pub mark_dirty : Minode → Minode
mark_dirty m = record m { dirty = Bool.true }
