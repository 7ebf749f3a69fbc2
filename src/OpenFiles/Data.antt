-- ===== src/OpenFiles/Data.antt =====
-- The data of open files: `get_bno`, `file_read` and `file_write`. Logical blocks 0 to 11 are
-- direct, the next 256 are in the block of i_block[12], and those behind are two steps away.
use cpts.Base.{
  on_some, ℕ, zero, suc, ◌+◌, ◌-◌, ◌*◌, ◌/◌, ◌%◌, ℤ, pos, Bool, true, ◌&&◌, Option, none, some, [],
  ◌∷◌, ◌++◌, ltb, ◌==◌, min, if◌then◌else◌, not,
}
use cpts.Bytes.{Buf, u32, put_u32, zeros}
use cpts.Disk.{Image, block_size, get_block, put_block}
use cpts.Alloc.{balloc}
use cpts.Text.{Text, length, text_at, put_text}
use cpts.Sim.Monad.{
  M, out_of_fuel, pure, deref, ◌>>=◌, ◌>>◌, gets, set_oft, set_image, set_minode, stop,
}
use cpts.Minodes.Inode.{i_size, set_i_size, i_block}
use cpts.OpenFiles.{entry_of}
use cpts.Files.{failed}

-- Number `k` of an array of block numbers in a block.
abbrev word : Image → ℕ → ℕ → ℕ → ℕ
word img dev blk k = u32 (get_block img dev blk) (4 * k)

-- The bytes that the direct, the indirect and the double indirect blocks reach. The numbers of a
-- block behind them are read from behind `dbuf`.
abbrev pub file_limit : ℕ
file_limit = (12 + 256 + 256 * 256) * block_size

-- A transfer of `n` bytes at `offset` goes behind them.
abbrev pub overruns : ℕ → ℕ → Bool
overruns offset n = ltb 0 n && ltb file_limit (offset + n)

-- `int bytes = i_size - offset`, where a negative number is 0: nothing is read then.
unfoldable pub bytes_left : ℕ → ℕ → ℕ
bytes_left size offset =
    let d = (size + 4294967296 - offset) % 4294967296 in if ltb d 2147483648 then d else 0

-- The block of logical block `lbk`, one of those that the blocks reach.
unfoldable pub block_of : Image → ℕ → Buf → ℕ → ℕ
block_of img dev ip lbk =
    if ltb lbk 12
    then i_block ip lbk
    else if ltb lbk 268
    then word img dev (i_block ip 12) (lbk - 12)
    else word img dev (word img dev (i_block ip 13) ((lbk - 268) / 256)) ((lbk - 268) % 256)

-- The loop of `file_read`: what it copies. `n` and `bytes` are what is wanted and what is left.
unfoldable pub read_loop : ℕ → Image → ℕ → Buf → (offset n bytes : ℕ) → Option Text
read_loop zero img dev ip offset n bytes = none
read_loop (suc fuel) img dev ip offset n bytes =
    let start = offset % block_size in
    let remain = min (min (block_size - start) n) bytes in
    let tmp = get_block img dev (block_of img dev ip (offset / block_size)) in
    let rest = read_loop fuel img dev ip (offset + remain) (n - remain) (bytes - remain) in
    if ltb 0 n && ltb 0 bytes
    then on_some rest none (λ out. some (text_at tmp start remain ++ out))
    else some []

-- The count, and the bytes that are stored to `buf`; a read behind `dbuf` is a fault. A negative `int`
-- asks for nothing.
unfoldable pub read_in : ℕ → ℕ → M (ℤ × Text)
read_in o arg = do
  let n = if ltb arg 2147483648 then arg else 0
  e ← gets (λ s. s.oft o)
  if not (e.mode == 0) && not (e.mode == 2) then pure (failed, []) else do
    p ← deref e.inodeptr
    m ← gets (λ s. s.m_inodes p)
    let bytes = bytes_left (i_size m.inode) e.offset
    if overruns e.offset (min n bytes) then stop else do
      got ← gets (λ s. read_loop (n + 1) s.image m.dev m.inode e.offset n bytes)
      on_some got (λ s. out_of_fuel)
          (λ out. do
            set_oft o (λ e. record e { offset = e.offset + length out })
            pure (pos (length out), out))

unfoldable pub file_read : ℕ → ℕ → M (ℤ × Text)
unfolding read_in
file_read fd n = do op ← gets (entry_of fd); on_some op (pure (failed, [])) (λ o. read_in o n)

-- `get_bno` on the number at offset `off` of a buffer: a missing block is allocated and blanked.
unfoldable pub get_bno : ℕ → ℕ → Buf → Image → ℕ × Buf × Image
get_bno dev off b img =
    let blk = u32 b off in
    if blk == 0
    then (let (bno, img1) = balloc dev img in
        (bno, put_u32 b off bno, put_block img1 dev bno zeros))
    else (blk, b, img)

-- Number `k` of the array in block `blk`, with the array written back.
unfoldable pub word_bno : ℕ → ℕ → ℕ → Image → ℕ × Image
unfolding get_bno
word_bno dev blk k img =
    let (bno, b, img1) = get_bno dev (4 * k) (get_block img dev blk) img in
    (bno, put_block img1 dev blk b)

-- The block to write logical block `lbk` to, one of those that the blocks reach, the inode and the
-- image.
unfoldable pub place_block : ℕ → ℕ → Buf → Image → ℕ × Buf × Image
unfolding get_bno
place_block dev lbk ip img =
    if ltb lbk 12
    then get_bno dev (40 + 4 * lbk) ip img
    else if ltb lbk 268
    then (let (indirect, ip1, img1) = get_bno dev 88 ip img in
        let (blk, img2) = word_bno dev indirect (lbk - 12) img1 in (blk, ip1, img2))
    else (let (indirect, ip1, img1) = get_bno dev 92 ip img in
        let dbuf = get_block img1 dev indirect in
        let (dblk, dbuf1, img2) = get_bno dev (4 * ((lbk - 268) / 256)) dbuf img1 in
        let (blk, img3) = word_bno dev dblk ((lbk - 268) % 256) img2 in
        (blk, ip1, put_block img3 dev indirect dbuf1))

-- The first `n` bytes of `s` dropped.
abbrev pub drop : ℕ → Text → Text
drop zero s = s
drop (suc n) [] = []
drop (suc n) (x ∷ xs) = drop n xs

-- What the loop of `file_write` changes.
pub record Written : Type 0 where
  pub inode : Buf
  pub image : Image
  pub offset : ℕ

-- One round: `remain` bytes of `s` go to the block of the offset, and the size grows to the offset.
unfoldable pub write_round : ℕ → ℕ → Text → Written → Written
unfolding place_block word_bno
write_round dev remain s w =
    let start = w.offset % block_size in
    let (blk, ip, img) = place_block dev (w.offset / block_size) w.inode w.image in
    let offset = w.offset + remain in
    record {
      inode = if ltb (i_size ip) offset then set_i_size offset ip else ip;
      image = put_block img dev blk (put_text (get_block img dev blk) start remain s);
      offset = offset;
    }

-- The bytes of `s` are those not written yet.
unfoldable pub write_loop : ℕ → ℕ → Text → Written → Option Written
write_loop zero dev s w = none
write_loop (suc fuel) dev s w =
    let remain = min (block_size - w.offset % block_size) (length s) in
    let rest = write_loop fuel dev (drop remain s) (write_round dev remain s w) in
    if length s == 0 then some w else rest

unfoldable pub finish_write : ℕ → ℕ → Text → Written → M ℤ
finish_write o p s w = do
  set_image (λ img. w.image)
  set_minode p (λ m. record m { inode = w.inode; dirty = true })
  set_oft o (λ e. record e { offset = w.offset })
  pure (pos (length s))

-- A write behind `dbuf` is a fault.
unfoldable pub write_in : ℕ → Text → M ℤ
unfolding finish_write
write_in o s = do
  e ← gets (λ t. t.oft o)
  if e.mode == 0 then pure failed else if overruns e.offset (length s) then stop else do
    p ← deref e.inodeptr
    m ← gets (λ t. t.m_inodes p)
    w ← gets (λ t.
        write_loop (length s + 1) m.dev s
          (record { inode = m.inode; image = t.image; offset = e.offset }))
    on_some w (λ t. out_of_fuel) (λ w. finish_write o p s w)

-- The bytes of `s` are `buf`, and their number is `n`.
unfoldable pub file_write : ℕ → Text → M ℤ
unfolding write_in
file_write fd s = do op ← gets (entry_of fd); on_some op (pure failed) (λ o. write_in o s)
