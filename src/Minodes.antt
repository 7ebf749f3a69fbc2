-- ===== src/Minodes.antt =====
-- src/util.c: the table of in-memory inodes, `iget` and `iput`, and the transfer of an inode from
-- and to its place in the inode table. Inode 0 is at no place: `get_inode` computes an address in
-- front of its buffer for it, so a transfer of it is a fault.
pub mod Inode
pub mod Transfer
pub mod Scan
pub mod Outcome
pub mod Unique
pub mod Reload
pub mod Settled
pub mod Settles
pub mod View
mod Tests
use cpts.Base.{
  ℕ, zero, suc, ◌+◌, ◌-◌, ◌*◌, ◌/◌, ◌%◌, Bool, true, false, ◌&&◌, Option, none, some, ltb, ◌==◌,
  if◌then◌else◌,
}
use cpts.Bytes.{Buf, copy_in, shift, trim}
use cpts.Disk.{Image, inode_size, get_group, get_block, put_block}
use cpts.Disk.Layout.{bg_inode_table}
use cpts.Sim.{Sim, Minode, update, nminodes}
use cpts.Sim.Monad.{M, Run, ok, fault, pure, stop, ◌>>=◌, ◌>>◌, gets, set_image, set_minode, when}

-- The block of inode `n + 1`, and its offset in that block: 1024 / 128 inodes to a block.
unfoldable pub inode_place : Image → ℕ → ℕ → ℕ × ℕ
inode_place img dev n = (n / 8 + bg_inode_table (get_group img dev), n % 8 * inode_size)

unfoldable pub load_inode : Image → ℕ → ℕ → Buf
unfolding inode_place
load_inode img dev n =
    let (blk, off) = inode_place img dev n in trim inode_size (shift (get_block img dev blk) off)

unfoldable pub store_inode : Image → ℕ → ℕ → Buf → Image
unfolding inode_place
store_inode img dev n inode =
    let (blk, off) = inode_place img dev n in
    put_block img dev blk (copy_in (get_block img dev blk) off inode_size inode)

unfoldable pub get_at : ℕ → ℕ → ℕ → M (Unit {0})
get_at mip dev zero = stop
get_at mip dev (suc n) = do
  b ← gets (λ s. load_inode s.image dev n)
  set_minode mip (λ m. record m { inode = b })

unfoldable pub put_at : Buf → ℕ → ℕ → M (Unit {0})
put_at b dev zero = stop
put_at b dev (suc n) = set_image (λ img. store_inode img dev n b)

unfoldable pub inode_get_block : ℕ → M (Unit {0})
unfolding get_at
inode_get_block mip = do m ← gets (λ s. s.m_inodes mip); get_at mip m.dev m.ino

unfoldable pub inode_put_block : ℕ → M (Unit {0})
unfolding put_at
inode_put_block mip = do m ← gets (λ s. s.m_inodes mip); put_at m.inode m.dev m.ino

-- The minode is in use for this inode.
abbrev pub holds : ℕ → ℕ → Minode → Bool
holds dev ino m = ltb 0 m.ref_count && ((m.dev == dev) && (m.ino == ino))

abbrev pub first_free : Option ℕ → ℕ → Minode → Option ℕ
first_free (some t) i m = some t
first_free none i m = if ltb 0 m.ref_count then none else some i

-- How the loop of `iget` ends: at the minode of the inode, or with `tmp`.
pub data Slot : Type 0 where
  hit : ℕ → Slot
  miss : Option ℕ → Slot

unfoldable pub scan : (ℕ → Minode) → ℕ → ℕ → ℕ → ℕ → Option ℕ → Slot
scan t dev ino zero i tmp = miss tmp
scan t dev ino (suc n) i tmp =
    let rest = scan t dev ino n (i + 1) (first_free tmp i (t i)) in
    if holds dev ino (t i) then hit i else rest

unfoldable pub open_minode : ℕ → ℕ → Minode → Minode
open_minode dev ino m = record m { mounted = false; dev = dev; ino = ino; ref_count = 1 }

unfoldable pub iget_at : ℕ → ℕ → Slot → M (Option ℕ)
unfolding open_minode
iget_at dev ino (hit i) = do
  set_minode i (λ m. record m { ref_count = m.ref_count + 1 })
  pure (some i)
iget_at dev ino (miss none) = pure none
iget_at dev ino (miss (some i)) = do
  set_minode i (open_minode dev ino)
  inode_get_block i
  pure (some i)

unfoldable pub iget : ℕ → ℕ → M (Option ℕ)
iget dev ino = do r ← gets (λ s. scan s.m_inodes dev ino nminodes 0 none); iget_at dev ino r

unfoldable pub close_minode : Minode → Minode
close_minode m = record m { ref_count = 0; ino = 0; dev = 0; mounted = false; mountptr = none }

-- The write back, and the release of the minode.
unfoldable pub iput_last : ℕ → M (Unit {0})
unfolding close_minode
iput_last mip = do
  m ← gets (λ s. s.m_inodes mip)
  when m.dirty (do inode_put_block mip; set_minode mip (λ m. record m { dirty = false }))
  set_minode mip close_minode

unfoldable pub iput : ℕ → M (Unit {0})
iput mip = do
  set_minode mip (λ m. record m { ref_count = m.ref_count - 1 })
  m ← gets (λ s. s.m_inodes mip)
  if ltb 0 m.ref_count then pure tt else iput_last mip
