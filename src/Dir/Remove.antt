-- ===== src/Dir/Remove.antt =====
-- `remove_entry` and `dir_is_empty` of src/level1.c.
use cpts.Base.{
  ℕ, zero, suc, ◌+◌, ◌-◌, Bool, true, false, ◌&&◌, ◌||◌, [], ◌∷◌, ltb, ◌==◌, if◌then◌else◌,
}
use cpts.Bytes.{Buf, put_u8, put_u16, put_u32, shift, zeros}
use cpts.Disk.{Image, block_size, get_block, put_block}
use cpts.Alloc.{blocks, bit_overruns, bdealloc}
use cpts.Text.{Text, same_text, strncpy}
use cpts.Sim.{Minode}
use cpts.Sim.Monad.{M, out_of_fuel, pure, ◌>>=◌, ◌>>◌, gets, on_bitmap, set_image, set_minode}
use cpts.Minodes.Inode.{
  i_size, set_i_size, i_block, set_i_block, i_links_count, on_inode, mark_dirty,
}
use cpts.Dir.{entry_inode, rec_len, name_len, entry_name, dir_fuel}

-- The entry with the name: its offset, and the length of the entry in front of it.
pub data Spot : Type 0 where
  spot : ℕ → ℕ → Spot
  absent endless : Spot

-- `while (len < BLOCK_SIZE)`: an entry of length 0 is met again and again.
unfoldable pub find_entry : ℕ → Buf → ℕ → ℕ → Text → Spot
find_entry zero buf len pre name = endless
find_entry (suc fuel) buf len pre name =
    let rest = find_entry fuel buf (len + rec_len buf len) (rec_len buf len) name in
    if ltb len block_size
    then (if same_text (entry_name buf len) name then spot len pre else rest)
    else absent

-- The inode, the name's length and the name of the entry at `dn` are copied to the one at `dp`.
unfoldable pub copy_entry : Buf → ℕ → ℕ → Buf
copy_entry b dp dn =
    let b1 = put_u32 b dp (entry_inode b dn) in
    let b2 = put_u8 b1 (dp + 6) (name_len b1 dn) in
    strncpy b2 (dp + 8) (name_len b2 dn) (shift b2 (dn + 8))

-- `dp->rec_len = dn->rec_len`, behind the copy of the name.
unfoldable pub move_entry : Buf → ℕ → ℕ → Buf
unfolding copy_entry
move_entry b dp dn = let b3 = copy_entry b dp dn in put_u16 b3 (dp + 4) (rec_len b3 dn)

-- The buffer to write back, or the early return on an entry of length 0.
pub data Shifted : Type 0 where
  shifted : Buf → Shifted
  gave_up no_end : Shifted

-- The entries behind the one at `len` move down by `offset`; the last one takes the rest of the
-- block. `BLOCK_SIZE - len` is stored to 16 bits, so a `len` past the end wraps around.
unfoldable pub shift_entries : ℕ → Buf → ℕ → ℕ → Shifted
shift_entries zero b len offset = no_end
shift_entries (suc fuel) b len offset =
    let dn = len + offset in
    let moved = move_entry b len dn in
    let r = rec_len moved dn in
    let rest =
      if rec_len moved (dn + r) == 0 then gave_up else shift_entries fuel moved (len + r) offset in
    if ltb (dn + rec_len b dn) block_size
    then rest
    else shifted (put_u16 (copy_entry b len dn) (len + 4) (block_size + 131072 - len))

-- `for (j = i; j < 11; j++) i_block[j] = i_block[j+1];`, with `n` rounds left.
unfoldable pub close_gap : ℕ → ℕ → Buf → Buf
close_gap zero j b = b
close_gap (suc n) j b = close_gap n (j + 1) (set_i_block j (i_block b (j + 1)) b)

-- The only entry of block `i`.
unfoldable pub drop_block : ℕ → ℕ → M (Unit {0})
drop_block mip i = do
  m ← gets (λ s. s.m_inodes mip)
  set_image (λ img. put_block img m.dev (i_block m.inode i) zeros)
  on_bitmap (bit_overruns blocks m.dev (i_block m.inode i)) (bdealloc m.dev (i_block m.inode i))
  set_minode mip (on_inode (λ b. set_i_size (i_size b + 4294967296 - block_size) b))
  set_minode mip (on_inode (λ b. set_i_block 11 0 (close_gap (11 - i) i b)))
  set_minode mip mark_dirty

unfoldable pub finish_shift : ℕ → ℕ → Shifted → M (Unit {0})
finish_shift mip i gave_up = pure tt
finish_shift mip i no_end = λ s. out_of_fuel
finish_shift mip i (shifted buf) = do
  m ← gets (λ s. s.m_inodes mip)
  set_image (λ img. put_block img m.dev (i_block m.inode i) buf)
  set_minode mip mark_dirty

-- The last entry of a block gives its bytes to the one in front of it.
unfoldable pub drop_last : ℕ → ℕ → Buf → ℕ → ℕ → M (Unit {0})
drop_last mip i buf len pre = do
  m ← gets (λ s. s.m_inodes mip)
  set_image (λ img.
      put_block img m.dev (i_block m.inode i)
        (put_u16 buf (len - pre + 4) (block_size - (len - pre))))
  set_minode mip mark_dirty

unfoldable pub remove_at : ℕ → ℕ → Buf → ℕ → ℕ → M (Unit {0})
remove_at mip i buf len pre =
    if rec_len buf len == block_size
    then drop_block mip i
    else if len + rec_len buf len == block_size
    then drop_last mip i buf len pre
    else finish_shift mip i (shift_entries dir_fuel buf len (rec_len buf len))

-- What is done after the scan of block `i`: `rest` if the name is not in it.
unfoldable pub at_spot : ℕ → ℕ → Buf → Spot → M (Unit {0}) → M (Unit {0})
at_spot mip i buf (spot len pre) rest = remove_at mip i buf len pre
at_spot mip i buf absent rest = rest
at_spot mip i buf endless rest = λ s. out_of_fuel

-- `n` blocks are left, from block `i` on.
unfoldable pub remove_from : ℕ → ℕ → ℕ → Text → M (Unit {0})
remove_from zero i mip name = pure tt
remove_from (suc n) i mip name = do
  m ← gets (λ s. s.m_inodes mip)
  buf ← gets (λ s. get_block s.image m.dev (i_block m.inode i))
  if i_block m.inode i == 0
      then remove_from n (i + 1) mip name
      else at_spot mip i buf (find_entry dir_fuel buf 0 0 name) (remove_from n (i + 1) mip name)

unfoldable pub remove_entry : ℕ → Text → M (Unit {0})
remove_entry mip name = remove_from 12 0 mip name

abbrev pub is_dot : Text → Bool
is_dot name = same_text name (0x2E ∷ []) || same_text name (0x2E ∷ 0x2E ∷ [])

-- Every entry of a block is "." or "..", up to one of length 0.
unfoldable pub only_dots : ℕ → Buf → ℕ → Bool
only_dots zero buf j = true
only_dots (suc fuel) buf j =
    let rest = only_dots fuel buf (j + rec_len buf j) in
    if ltb j block_size
    then (if rec_len buf j == 0 then true else if is_dot (entry_name buf j) then rest else false)
    else true

unfoldable pub blocks_empty : Image → Minode → ℕ → ℕ → Bool
blocks_empty img m zero i = true
blocks_empty img m (suc n) i =
    let rest = blocks_empty img m n (i + 1) in
    if i_block m.inode i == 0
    then rest
    else only_dots dir_fuel (get_block img m.dev (i_block m.inode i)) 0 && rest

unfoldable pub dir_is_empty : Image → Minode → Bool
dir_is_empty img m = if ltb 2 (i_links_count m.inode) then false else blocks_empty img m 12 0
