-- ===== src/Dir.antt =====
-- Directories: the entries in a directory's blocks (struct ext2_dir_entry_2), `search` of
-- src/util.c, and `insert_entry`, `remove_entry` and `dir_is_empty` of src/level1.c. A loop over a
-- block runs on fuel, one more than the bytes of a block.
pub mod Remove
pub mod Listing
pub mod Search
pub mod Frame
pub mod Insert
pub mod Entered
pub mod Lookup
pub mod Removed
pub mod Endless
pub mod Undo
mod Tests
use cpts.Base.{
  ℕ, zero, suc, ◌+◌, ◌-◌, ◌*◌, ◌/◌, ◌%◌, Bool, true, false, not, ◌&&◌, ◌||◌, [], ◌∷◌, ltb, leb,
  ◌==◌, if◌then◌else◌,
}
use cpts.Bytes.{Buf, put_u8, u16, put_u16, u32, put_u32, shift, zeros}
use cpts.Disk.{Image, block_size, get_block, put_block}
use cpts.Alloc.{blocks, search_overruns, balloc}
use cpts.Text.{Text, length, same_text, text_at, c_str, put_text, strncpy}
use cpts.Sim.{Sim, Minode}
use cpts.Sim.Monad.{
  M, Run, out_of_fuel, stop, pure, ◌>>=◌, ◌>>◌, gets, on_bitmap, set_image, set_minode,
}
use cpts.Minodes.Inode.{
  i_size, set_i_size, i_block, set_i_block, i_links_count, on_inode, mark_dirty,
}

abbrev pub entry_inode : Buf → ℕ → ℕ
entry_inode b o = u32 b o

abbrev pub rec_len : Buf → ℕ → ℕ
rec_len b o = u16 b (o + 4)

abbrev pub name_len : Buf → ℕ → ℕ
name_len b o = b (o + 6)

-- The bytes of an entry's name, and the string that `strncpy` to `tmp` and a NUL make of them.
abbrev pub raw_name : Buf → ℕ → Text
raw_name b o = text_at b (o + 8) (name_len b o)

abbrev pub entry_name : Buf → ℕ → Text
entry_name b o = c_str (raw_name b o)

abbrev pub dir_fuel : ℕ
dir_fuel = 1025

-- How the search of a block ends: at an entry, at one of length 0, or at the end of the block; or
-- the fuel is used up (lost).
pub data Look : Type 0 where
  found : ℕ → Look
  ended next lost : Look

-- The lengths are equal and `strncmp` finds no difference: the bytes are the same.
abbrev pub matches : Buf → ℕ → Text → Bool
matches b o name = (length name == name_len b o) && same_text name (raw_name b o)

unfoldable pub search_block : ℕ → Buf → ℕ → Text → Look
search_block zero buf j name = lost
search_block (suc fuel) buf j name =
    let rest = search_block fuel buf (j + rec_len buf j) name in
    if ltb j block_size
    then (if rec_len buf j == 0
        then ended
        else if matches buf j name
        then found (entry_inode buf j)
        else rest)
    else next

-- `n` direct blocks are left, from block `i` on.
unfoldable pub search_blocks : Image → Minode → Text → ℕ → ℕ → ℕ
search_blocks img parent name zero i = 0
search_blocks img parent name (suc n) i =
    let rest = search_blocks img parent name n (i + 1) in
    elim (search_block dir_fuel (get_block img parent.dev (i_block parent.inode i)) 0 name) [
      | found ino ↦ ino
      | ended ↦ 0
      | next ↦ rest
      | lost ↦ 0
    ]

unfoldable pub search_dir : Image → Minode → Text → ℕ
search_dir img parent name = search_blocks img parent name 12 0

-- `for (i = 0; i < 12; i++) if (i_block[i+1] == 0) break;`, with `n` rounds left.
unfoldable pub last_block : ℕ → ℕ → Buf → ℕ
last_block zero i inode = i
last_block (suc n) i inode =
    let rest = last_block n (i + 1) inode in if i_block inode (i + 1) == 0 then i else rest

-- How the walk to the last entry of a block ends.
pub data Walk : Type 0 where
  stop_at : ℕ → Walk
  broken off_end : Walk

unfoldable pub last_entry : ℕ → Buf → ℕ → Walk
last_entry zero buf len = off_end
last_entry (suc fuel) buf len =
    let rest = last_entry fuel buf (len + rec_len buf len) in
    if ltb (rec_len buf len + len) block_size
    then (if ltb (rec_len buf len) 1 then broken else rest)
    else stop_at len

-- `4 * ((11 + name_len) / 4)`
unfoldable pub ideal_len : ℕ → ℕ
ideal_len n = 4 * ((11 + n) / 4)

-- The four assignments to an entry; `name_len` has one byte.
unfoldable pub write_entry : Buf → ℕ → ℕ → Text → ℕ → Buf
write_entry b o ino name rec =
    let b1 = put_u32 b o ino in
    let b2 = put_u8 b1 (o + 6) (length name) in
    let b3 = put_text b2 (o + 8) (name_len b2 o) name in put_u16 b3 (o + 4) rec

-- The new entry behind the last one, which is cut down to its ideal length.
unfoldable pub append_entry : Buf → ℕ → ℕ → Text → Buf
append_entry buf len ino name =
    let idea = ideal_len (name_len buf len) in
    write_entry (put_u16 buf (len + 4) idea) (len + idea) ino name (block_size - (len + idea))

-- A new block for the entry.
unfoldable pub grow_dir : ℕ → ℕ → Text → ℕ → M (Unit {0})
grow_dir mip ino name i = do
  m ← gets (λ s. s.m_inodes mip)
  bno ← on_bitmap (search_overruns blocks m.dev) (balloc m.dev)
  set_minode mip (on_inode (set_i_block (i + 1) bno))
  m ← gets (λ s. s.m_inodes mip)
  buf ← gets (λ s. get_block s.image m.dev (i_block m.inode (i + 1)))
  set_minode mip (on_inode (λ b. set_i_size (i_size b + block_size) b))
  set_image
      (λ img. put_block img m.dev (i_block m.inode (i + 1)) (write_entry buf 0 ino name block_size))

-- The appended entry ends behind `buf`: 8 bytes, and those of its name, whose length has one byte.
abbrev overflows : Buf → ℕ → Text → Bool
overflows buf len name = ltb block_size (len + ideal_len (name_len buf len) + 8 + length name % 256)

-- An entry behind `buf` is written over the stack.
unfoldable pub insert_at : ℕ → ℕ → Text → ℕ → Buf → Walk → M (Unit {0})
insert_at mip ino name i buf broken = pure tt
insert_at mip ino name i buf off_end = λ s. out_of_fuel
insert_at mip ino name i buf (stop_at len) =
    if leb (ideal_len (name_len buf len)) (block_size - len)
    then (if overflows buf len name then stop else do
      m ← gets (λ s. s.m_inodes mip)
      set_image (λ img. put_block img m.dev (i_block m.inode i) (append_entry buf len ino name)))
    else grow_dir mip ino name i

unfoldable pub insert_entry : ℕ → ℕ → Text → M (Unit {0})
insert_entry mip ino name = do
  m ← gets (λ s. s.m_inodes mip)
  let i = last_block 12 0 m.inode
  buf ← gets (λ s. get_block s.image m.dev (i_block m.inode i))
  insert_at mip ino name i buf (last_entry dir_fuel buf 0)
