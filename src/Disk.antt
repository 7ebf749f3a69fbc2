-- ===== src/Disk.antt =====
-- The block device layer of src/util.c: `lseek`, `read` and `write` on the image files, and the
-- whole-block, superblock and group descriptor accesses built from them. An image is read and
-- written at any offset, and reading or writing it does not fail.
pub mod Laws
pub mod Layout
use cpts.Base.{ℕ, ◌+◌, ◌-◌, ◌*◌, ◌<◌, Bool, ◌&&◌, ltb, ◌==◌, if◌then◌else◌}
use cpts.Bytes.{Buf, within}

-- The byte at each offset of the file behind each device number.
abbrev pub Image : Type 0
Image = ℕ → Buf

abbrev pub block_size : ℕ
block_size = 1024

abbrev pub inode_size : ℕ
inode_size = 128

abbrev pub super_block : ℕ
super_block = 1

abbrev pub group_block : ℕ
group_block = 2

-- sizeof(struct ext2_super_block) and sizeof(struct ext2_group_desc)
abbrev pub super_size : ℕ
super_size = 1024

abbrev pub group_size : ℕ
group_size = 32

-- `lseek(dev, off, SEEK_SET); read(dev, buf, n)`
unfoldable pub read_at : Image → ℕ → ℕ → ℕ → Buf
read_at img dev off n i = if ltb i n then img dev (off + i) else 0

-- `lseek(dev, off, SEEK_SET); write(dev, buf, n)`
unfoldable pub write_at : Image → ℕ → ℕ → ℕ → Buf → Image
write_at img dev off n buf d a = if (d == dev) && within off n a then buf (a - off) else img d a

unfoldable pub get_super : Image → ℕ → Buf
get_super img dev = read_at img dev (super_block * block_size) super_size

unfoldable pub get_group : Image → ℕ → Buf
get_group img dev = read_at img dev (group_block * block_size) group_size

unfoldable pub get_block : Image → ℕ → ℕ → Buf
get_block img dev blk = read_at img dev (blk * block_size) block_size

unfoldable pub put_super : Image → ℕ → Buf → Image
put_super img dev super = write_at img dev (super_block * block_size) super_size super

unfoldable pub put_group : Image → ℕ → Buf → Image
put_group img dev group = write_at img dev (group_block * block_size) group_size group

unfoldable pub put_block : Image → ℕ → ℕ → Buf → Image
put_block img dev blk buf = write_at img dev (blk * block_size) block_size buf
