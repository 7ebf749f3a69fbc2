-- ===== src/Alloc.antt =====
-- src/alloc_dealloc.c: the bitmaps of inodes and blocks. `ialloc` and `balloc`, and `idealloc`
-- and `bdealloc`, have the same text over different fields: the fields are the record `Table`.
-- Numbers count from 1 and bits from 0. An `int` argument is taken where it is not negative. The
-- functions are those of the source as long as they stay inside the array of the bitmap; where they
-- leave it is told by `search_overruns` and `bit_overruns`, and the commands that call them fault.
pub mod Bitmap
pub mod Find
pub mod View
pub mod Update
pub mod Frame
pub mod Contract
pub mod Traces
mod Tests
use cpts.Base.{
  ℕ, zero, suc, ◌+◌, ◌-◌, ◌/◌, ◌%◌, ◌^◌, Bool, Option, none, some, bit_and, bit_or, ltb, leb, ◌&&◌,
  true, false, ◌==◌, if◌then◌else◌, ℤ, pos, negsuc,
}
use cpts.Bytes.{Buf, u16, put_u16, u32, put_u32}
use cpts.Disk.{Image, get_super, get_group, get_block, put_super, put_group, put_block}

-- `buf[i] & (1 << j)`; only whether it is zero matters, so the sign of a `char` does not.
unfoldable pub tst_bit : Buf → ℕ → ℕ
tst_bit buf bit = bit_and (buf (bit / 8)) (2 ^ (bit % 8))

unfoldable pub set_bit : Buf → ℕ → Buf
set_bit buf bit i = if i == bit / 8 then bit_or (buf i) (2 ^ (bit % 8)) else buf i

-- `~(1 << j)` in the byte that the result is stored to.
unfoldable pub clr_bit : Buf → ℕ → Buf
clr_bit buf bit i = if i == bit / 8 then bit_and (buf i) (255 - 2 ^ (bit % 8)) else buf i

-- Where a kind of number is kept: the offset of its bitmap's block number and of its free count
-- in the group descriptor, and of its count and its free count in the superblock.
pub record Table : Type 0 where
  pub bitmap_at : ℕ
  pub group_free_at : ℕ
  pub count_at : ℕ
  pub super_free_at : ℕ

pub data Kind : Type 0 where
  inodes blocks : Kind

-- bg_inode_bitmap, bg_free_inodes_count, s_inodes_count, s_free_inodes_count, and the same of blocks
abbrev pub table : Kind → Table
table inodes = record { bitmap_at = 4; group_free_at = 14; count_at = 0; super_free_at = 16 }
table blocks = record { bitmap_at = 0; group_free_at = 12; count_at = 4; super_free_at = 12 }

-- `for (int i = 0; i < count; i++) if (tst_bit(bmap, i) == 0)`, with `n` rounds left from `i`.
unfoldable pub first_clear : ℕ → ℕ → Buf → Option ℕ
first_clear zero i bmap = none
first_clear (suc n) i bmap =
    let rest = first_clear n (i + 1) bmap in if tst_bit bmap i == 0 then some i else rest

-- `count--` on the free counts: unsigned fields wrap around.
unfoldable pub less_free : Table → Buf → Buf → Buf × Buf
less_free t s g = (
  put_u32 s t.super_free_at (u32 s t.super_free_at + 4294967295),
  put_u16 g t.group_free_at (u16 g t.group_free_at + 65535),
)

unfoldable pub more_free : Table → Buf → Buf → Buf × Buf
more_free t s g = (
  put_u32 s t.super_free_at (u32 s t.super_free_at + 1),
  put_u16 g t.group_free_at (u16 g t.group_free_at + 1),
)

-- The three writes at the end: bitmap, group descriptor, superblock.
unfoldable pub put_all : Image → ℕ → ℕ → Buf → Buf × Buf → Image
put_all img dev blk bmap (s, g) = put_super (put_group (put_block img dev blk bmap) dev g) dev s

unfoldable pub alloc : Table → ℕ → Image → ℕ × Image
alloc t dev img =
    let s = get_super img dev in
    let g = get_group img dev in
    let blk = u32 g t.bitmap_at in
    let bmap = get_block img dev blk in
    elim (first_clear (u32 s t.count_at) 0 bmap) [
      | some i ↦ (i + 1, put_all img dev blk (set_bit bmap i) (less_free t s g))
      | none ↦ (0, img)
    ]

unfoldable pub ialloc : ℕ → Image → ℕ × Image
unfolding alloc
ialloc dev img = alloc (table inodes) dev img

unfoldable pub balloc : ℕ → Image → ℕ × Image
unfolding alloc
balloc dev img = alloc (table blocks) dev img

-- The number is decremented, which makes 0 negative.
unfoldable pub dealloc : Table → ℕ → ℕ → Image → ℤ × Image
dealloc t dev zero img = (negsuc 0, img)
dealloc t dev (suc bit) img =
    let s = get_super img dev in
    let g = get_group img dev in
    let blk = u32 g t.bitmap_at in
    let bmap = get_block img dev blk in
    if leb (u32 s t.count_at) bit
    then (negsuc 0, img)
    else if tst_bit bmap bit == 0
    then (negsuc 1, img)
    else (pos 0, put_all img dev blk (clr_bit bmap bit) (more_free t s g))

unfoldable pub idealloc : ℕ → ℕ → Image → ℤ × Image
unfolding dealloc
idealloc dev ino img = dealloc (table inodes) dev ino img

unfoldable pub bdealloc : ℕ → ℕ → Image → ℤ × Image
unfolding dealloc
bdealloc dev bno img = dealloc (table blocks) dev bno img

abbrev is_none : Option ℕ → Bool
is_none none = true
is_none (some i) = false

-- `bmap[BLOCK_SIZE]` has 8192 bits. When they are all set and the count is larger, the search of
-- `ialloc` and `balloc` goes on behind the array.
unfoldable pub search_overruns : Kind → ℕ → Image → Bool
search_overruns k dev img =
    let bmap = get_block img dev (u32 (get_group img dev) (table k).bitmap_at) in
    ltb 8192 (u32 (get_super img dev) (table k).count_at) && is_none (first_clear 8192 0 bmap)

-- And `idealloc` and `bdealloc` look at a bit behind it when the count allows the number.
unfoldable pub bit_overruns : Kind → ℕ → ℕ → Image → Bool
bit_overruns k dev zero img = false
bit_overruns k dev (suc bit) img =
    leb 8192 bit && ltb bit (u32 (get_super img dev) (table k).count_at)

-- The image after `bdealloc`, when its bit is inside the array.
unfoldable pub freed_block : ℕ → ℕ → Image → Option Image
unfolding bdealloc bit_overruns
freed_block dev bno img =
    if bit_overruns blocks dev bno img then none else some (bdealloc dev bno img).1
