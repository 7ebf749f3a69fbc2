-- ===== src/Minodes/Tests.antt =====
-- `iget` and `iput` on the sample image.
use cpts.Base.{◌+◌, ℕ, ◌≡◌, inr, refl, Option, some, arith}
use cpts.Bytes.{trim, u16, u32, put_u8, put_u16, put_u32, copy_in}
use cpts.Disk.{get_block, get_group, put_block, read_at, write_at, inode_size}
use cpts.Disk.Layout.{bg_inode_table}
use cpts.Sim.{Sim, Minode, update, no_minode}
use cpts.Sim.Monad.{ok}
use cpts.Sample.{sample_image, sample_disk, sample_sim}
use cpts.Minodes.{
  inode_place, load_inode, store_inode, iget, iput, scan, iget_at, open_minode, inode_get_block,
  get_at, iput_last, inode_put_block, put_at, close_minode,
}
use cpts.Minodes.Inode.{i_mode, i_block, i_size, set_i_size, on_inode, mark_dirty}
use cpts.Minodes.Transfer.{InTable, load-store_self, load-store_ne}
use cpts.Minodes.Outcome.{with_minode, loaded, Got, iget-Got, iget_at-miss}
use cpts.Minodes.Unique.{IsUnique, Released, iput-Released}
use cpts.Minodes.Reload.{iput-iget, iget-iput_saved}
use cpts.Minodes.View.{cached}

-- All that a run on the image looks through.
runs : ℕ
unfolding sample_image sample_disk get_block get_group put_block read_at write_at bg_inode_table
    trim u16 u32 put_u8 put_u16 put_u32 copy_in update inode_place load_inode store_inode iget iput
    scan iget_at open_minode inode_get_block get_at iput_last inode_put_block put_at close_minode
    i_mode i_block i_size set_i_size
runs = 0

-- The root inode is a directory in block 7.
root_mode : i_mode (load_inode sample_image 3 1) ≡ 0x41ED
unfolding runs
root_mode = refl

root_block : i_block (load_inode sample_image 3 1) 0 ≡ 7
unfolding runs
root_block = refl

in_table : InTable sample_image 3 1
unfolding runs
in_table = omega arith

load-store_self_example :
    load_inode (store_inode sample_image 3 1 (λ i. 7)) 3 1 ≡ trim inode_size (λ i. 7)
load-store_self_example = load-store_self sample_image 3 1 (λ i. 7) in_table

load-store_ne_example :
    load_inode (store_inode sample_image 3 1 (λ i. 7)) 3 2 ≡ load_inode sample_image 3 2
load-store_ne_example = load-store_ne sample_image 3 1 (λ i. 7) 3 2 in_table (inr (omega arith))

iget-Got_example :
    (r : Option ℕ) × (s' : Sim) × (iget 3 2 sample_sim ≡ ok r s') × Got 3 1 sample_sim r s'
iget-Got_example = iget-Got 3 1 sample_sim

-- The state with the root inode in minode 0.
abbrev root_sim : Sim
root_sim = with_minode sample_sim 0 (loaded sample_image 3 1 no_minode)

iget_root : iget 3 2 sample_sim ≡ ok (some 0) root_sim
unfolding iget scan
iget_root = iget_at-miss 3 1 0 sample_sim

sample-IsUnique : IsUnique sample_sim.m_inodes
sample-IsUnique i j p q li lj ed ei = absurd (omega arith)

-- The root inode, changed in memory.
abbrev changed : Minode
changed = mark_dirty (on_inode (set_i_size 77) (loaded sample_image 3 1 no_minode))

abbrev changed_sim : Sim
changed_sim = with_minode sample_sim 0 changed

changed-IsUnique : IsUnique changed_sim.m_inodes
unfolding update
changed-IsUnique i j p q li lj ed ei = ground arith

iput-Released_example :
    (s' : Sim) × (iput 0 changed_sim ≡ ok tt s')
    × Released 0 1 changed_sim s'
    × IsUnique s'.m_inodes
unfolding update
iput-Released_example = iput-Released 0 1 changed_sim (omega arith) changed-IsUnique refl

root-cached : cached root_sim.m_inodes 3 2 ≡ some 0
unfolding runs cached
root-cached = refl

iput-iget_example :
    (u : Sim) × (iget 3 2 root_sim ≡ ok (some 0) u)
    × ((u.m_inodes 0).ref_count ≡ (root_sim.m_inodes 0).ref_count + 1)
    × (iput 0 u ≡ ok tt root_sim)
iput-iget_example = iput-iget 3 1 0 root_sim root-cached

iget-iput_saved_example :
    (t : Sim) × (r : ℕ) × (v : Sim) × (iput 0 changed_sim ≡ ok tt t)
    × (iget (changed_sim.m_inodes 0).dev 2 t ≡ ok (some r) v)
    × ((v.m_inodes r).inode ≡ trim inode_size (changed_sim.m_inodes 0).inode)
unfolding update inode_place
iget-iput_saved_example =
    iget-iput_saved 0 1 changed_sim (omega arith) changed-IsUnique refl refl refl in_table
