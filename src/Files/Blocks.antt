-- ===== src/Files/Blocks.antt =====
-- `clear_blocks` of src/util.c: the data blocks of a file are freed, those of the indirect blocks
-- too, down to the double indirect one.
use cpts.Base.{on_some, Option, none, some, true, ℕ, zero, suc, ◌+◌, ◌*◌, ◌==◌, if◌then◌else◌}
use cpts.Bytes.{Buf, u32, put_u32}
use cpts.Disk.{Image, get_block, put_block}
use cpts.Alloc.{freed_block}
use cpts.Sim.Monad.{M, stop, ◌>>=◌, ◌>>◌, gets, set_image, set_minode}
use cpts.Minodes.Inode.{set_i_size}

-- An array of block numbers in a buffer, with the image.
abbrev pub Words : Type 0
Words = Buf × Image

-- `for (; i < n; i++) { if (!blocks[i]) break; … }` over the array at offset `base`, with `n`
-- rounds left.
unfoldable pub clear_direct : ℕ → ℕ → ℕ → ℕ → Words → Option Words
clear_direct dev base zero i w = some w
clear_direct dev base (suc n) i (b, img) =
    let bno = u32 b (base + 4 * i) in
    let rest =
      on_some (freed_block dev bno img) none
        (λ img'. clear_direct dev base n (i + 1) (put_u32 b (base + 4 * i) 0, img')) in
    if bno == 0 then some (b, img) else rest

-- A loop that clears what each number of the array stands for, and the number.
unfoldable pub clear_each : (ℕ → Image → Option Image) → ℕ → ℕ → Words → Option Words
clear_each clear zero i w = some w
clear_each clear (suc n) i (b, img) =
    on_some (clear (u32 b (4 * i)) img) none
      (λ img'. clear_each clear n (i + 1) (put_u32 b (4 * i) 0, img'))

-- What `clear_indirect` does after it has cleared the array of block `blk`.
abbrev free_array : ℕ → ℕ → Option Words → Option Image
free_array dev blk none = none
free_array dev blk (some (b, img)) = freed_block dev blk (put_block img dev blk b)

-- `*addr = 0` is left to the caller, for which it is a no-op where the number is 0 already.
unfoldable pub clear_indirect : ℕ → ℕ → ℕ → Image → Option Image
clear_indirect dev zero blk img =
    if blk == 0
    then some img
    else free_array dev blk (clear_direct dev 0 256 0 (get_block img dev blk, img))
clear_indirect dev (suc depth) blk img =
    if blk == 0
    then some img
    else free_array dev blk
        (clear_each (clear_indirect dev depth) 256 0 (get_block img dev blk, img))

-- The whole of `clear_blocks` on an inode: `i_block` is at offset 40.
unfoldable pub clear_inode : ℕ → Words → Option Words
clear_inode dev w = on_some (clear_direct dev 40 12 0 w) none (λ (b, img).
    on_some (clear_indirect dev 0 (u32 b 88) img) none (λ img1.
      let b1 = put_u32 b 88 0 in
      on_some (clear_indirect dev 1 (u32 b1 92) img1) none
        (λ img2. some (set_i_size 0 (put_u32 b1 92 0), img2))))

unfoldable pub clear_blocks : ℕ → M (Unit {0})
clear_blocks mip = do
  m ← gets (λ s. s.m_inodes mip)
  cleared ← gets (λ s. clear_inode m.dev (m.inode, s.image))
  on_some cleared stop
      (λ w. do set_image (λ img. w.1); set_minode mip (λ m. record m { inode = w.0; dirty = true }))
