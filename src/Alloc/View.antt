-- ===== src/Alloc/View.antt =====
-- The abstract view of a device's allocation state: which numbers are taken, how many there are,
-- and the free counts; and the layout that the view rests on.
use cpts.Base.{ℕ, ◌≤◌, ◌≢◌, Bool}
use cpts.Bytes.{u16, u32}
use cpts.Disk.{Image, get_super, get_group, get_block}
use cpts.Disk.Laws.{IsImage}
use cpts.Alloc.{Kind, inodes, blocks, table}
use cpts.Alloc.Bitmap.{taken}

-- The number of the bitmap's block.
unfoldable pub bitmap_block : Kind → ℕ → Image → ℕ
bitmap_block k dev img = u32 (get_group img dev) (table k).bitmap_at

unfoldable pub count : Kind → ℕ → Image → ℕ
count k dev img = u32 (get_super img dev) (table k).count_at

unfoldable pub super_free : Kind → ℕ → Image → ℕ
super_free k dev img = u32 (get_super img dev) (table k).super_free_at

unfoldable pub group_free : Kind → ℕ → Image → ℕ
group_free k dev img = u16 (get_group img dev) (table k).group_free_at

-- The item of bit `i`, which has the number `i + 1`, is allocated.
unfoldable pub used : Kind → ℕ → Image → ℕ → Bool
used k dev img i = taken (get_block img dev (bitmap_block k dev img)) i

-- The bitmaps have blocks of their own, and each fits into its block.
pub record IsExt2 (dev : ℕ) (img : Image) : Type 0 where
  pub bytes : IsImage img
  pub not_super : (k : Kind) → bitmap_block k dev img ≢ 1
  pub not_group : (k : Kind) → bitmap_block k dev img ≢ 2
  pub distinct : bitmap_block inodes dev img ≢ bitmap_block blocks dev img
  pub fits : (k : Kind) → count k dev img ≤ 8192
