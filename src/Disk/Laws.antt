-- ===== src/Disk/Laws.antt =====
-- What is read back from an image after a write.
use cpts.Base.{ℕ, ◌+◌, ◌-◌, ◌*◌, ◌≡◌, ◌≢◌, ◌⊎◌, fun_ext, inl, arith}
use cpts.Bytes.{Buf, IsBytes, trim}
use cpts.Bytes.Fields.{Apart}
use cpts.Disk.{
  Image, block_size, read_at, write_at, get_super, get_group, get_block, put_super, put_group,
  put_block,
}

abbrev pub IsImage : Image → Type 0
IsImage img = (dev : ℕ) → IsBytes (img dev)

read-write_self :
    (img : Image) (dev off n : ℕ) (buf : Buf)
    → read_at (write_at img dev off n buf) dev off n ≡ trim n buf
unfolding read_at write_at trim
read-write_self img dev off n buf = fun_ext λ i. ground arith

read-write-Apart :
    (img : Image) (dev off n : ℕ) (buf : Buf) (d o m : ℕ)
    → (d ≢ dev) ⊎ Apart off n o m
    → read_at (write_at img dev off n buf) d o m ≡ read_at img d o m
unfolding read_at write_at
read-write-Apart img dev off n buf d o m h = fun_ext λ i. ground arith

pub write-IsImage :
    (img : Image) (dev off n : ℕ) (buf : Buf)
    → IsImage img
    → IsBytes buf
    → IsImage (write_at img dev off n buf)
unfolding write_at
write-IsImage img dev off n buf h k d a = ground (arith, h d a, k (a - off))

read-IsBytes : (img : Image) (dev off n : ℕ) → IsImage img → IsBytes (read_at img dev off n)
unfolding read_at
read-IsBytes img dev off n h i = ground (arith, h dev (off + i))

pub get_block-IsBytes : (img : Image) (dev blk : ℕ) → IsImage img → IsBytes (get_block img dev blk)
unfolding get_block
get_block-IsBytes img dev blk = read-IsBytes img dev _ _

pub get_super-IsBytes : (img : Image) (dev : ℕ) → IsImage img → IsBytes (get_super img dev)
unfolding get_super
get_super-IsBytes img dev = read-IsBytes img dev _ _

pub get_group-IsBytes : (img : Image) (dev : ℕ) → IsImage img → IsBytes (get_group img dev)
unfolding get_group
get_group-IsBytes img dev = read-IsBytes img dev _ _

pub put_block-IsImage :
    (img : Image) (dev blk : ℕ) (buf : Buf)
    → IsImage img
    → IsBytes buf
    → IsImage (put_block img dev blk buf)
unfolding put_block
put_block-IsImage img dev blk buf = write-IsImage img dev _ _ buf

pub put_super-IsImage :
    (img : Image) (dev : ℕ) (buf : Buf)
    → IsImage img
    → IsBytes buf
    → IsImage (put_super img dev buf)
unfolding put_super
put_super-IsImage img dev buf = write-IsImage img dev _ _ buf

pub put_group-IsImage :
    (img : Image) (dev : ℕ) (buf : Buf)
    → IsImage img
    → IsBytes buf
    → IsImage (put_group img dev buf)
unfolding put_group
put_group-IsImage img dev buf = write-IsImage img dev _ _ buf

-- A block reads back as it was written.
pub get_block-put_block_self :
    (img : Image) (dev blk : ℕ) (buf : Buf)
    → get_block (put_block img dev blk buf) dev blk ≡ trim block_size buf
unfolding get_block put_block
get_block-put_block_self img dev blk buf = read-write_self img dev _ _ buf

-- A write to a block changes no other block, on any device.
pub get_block-put_block_ne :
    (img : Image) (dev blk : ℕ) (buf : Buf) (d b : ℕ)
    → (d ≢ dev) ⊎ (b ≢ blk)
    → get_block (put_block img dev blk buf) d b ≡ get_block img d b
unfolding get_block put_block
get_block-put_block_ne img dev blk buf d b h =
    read-write-Apart img dev _ _ buf d (b * block_size) block_size (ground arith)

pub get_block-put_super :
    (img : Image) (dev : ℕ) (buf : Buf) (d b : ℕ)
    → (d ≢ dev) ⊎ (b ≢ 1)
    → get_block (put_super img dev buf) d b ≡ get_block img d b
unfolding get_block put_super
get_block-put_super img dev buf d b h =
    read-write-Apart img dev _ _ buf d (b * block_size) block_size (ground arith)

pub get_block-put_group :
    (img : Image) (dev : ℕ) (buf : Buf) (d b : ℕ)
    → (d ≢ dev) ⊎ (b ≢ 2)
    → get_block (put_group img dev buf) d b ≡ get_block img d b
unfolding get_block put_group
get_block-put_group img dev buf d b h =
    read-write-Apart img dev _ _ buf d (b * block_size) block_size (ground arith)

pub get_super-put_super :
    (img : Image) (dev : ℕ) (buf : Buf)
    → get_super (put_super img dev buf) dev ≡ trim block_size buf
unfolding get_super put_super
get_super-put_super img dev buf = read-write_self img dev _ _ buf

pub get_super-put_group :
    (img : Image) (dev : ℕ) (buf : Buf) (d : ℕ)
    → get_super (put_group img dev buf) d ≡ get_super img d
unfolding get_super put_group
get_super-put_group img dev buf d = read-write-Apart img dev _ _ buf d _ _ (ground arith)

pub get_super-put_block :
    (img : Image) (dev blk : ℕ) (buf : Buf) (d : ℕ)
    → (d ≢ dev) ⊎ (blk ≢ 1)
    → get_super (put_block img dev blk buf) d ≡ get_super img d
unfolding get_super put_block
get_super-put_block img dev blk buf d h =
    read-write-Apart img dev (blk * block_size) _ buf d _ _ (ground arith)

pub get_group-put_group :
    (img : Image) (dev : ℕ) (buf : Buf) → get_group (put_group img dev buf) dev ≡ trim 32 buf
unfolding get_group put_group
get_group-put_group img dev buf = read-write_self img dev _ _ buf

pub get_group-put_super :
    (img : Image) (dev : ℕ) (buf : Buf) (d : ℕ)
    → get_group (put_super img dev buf) d ≡ get_group img d
unfolding get_group put_super
get_group-put_super img dev buf d = read-write-Apart img dev _ _ buf d _ _ (ground arith)

pub get_group-put_block :
    (img : Image) (dev blk : ℕ) (buf : Buf) (d : ℕ)
    → (d ≢ dev) ⊎ (blk ≢ 2)
    → get_group (put_block img dev blk buf) d ≡ get_group img d
unfolding get_group put_block
get_group-put_block img dev blk buf d h =
    read-write-Apart img dev (blk * block_size) _ buf d _ _ (ground arith)

-- Other devices keep their superblock and group descriptor.
pub super_other :
    (img : Image) (dev d : ℕ) (buf : Buf)
    → d ≢ dev
    → get_super (put_super img dev buf) d ≡ get_super img d
unfolding get_super put_super
super_other img dev d buf h = read-write-Apart img dev _ _ buf d _ _ (inl h)

pub group_other :
    (img : Image) (dev d : ℕ) (buf : Buf)
    → d ≢ dev
    → get_group (put_group img dev buf) d ≡ get_group img d
unfolding get_group put_group
group_other img dev d buf h = read-write-Apart img dev _ _ buf d _ _ (inl h)
