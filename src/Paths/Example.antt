-- ===== src/Paths/Example.antt =====
-- The state of the sample image after the root has been mounted: the root directory is in minode 0,
-- which is the root, the mount point and the working directory.
use cpts.Base.{ℕ, zero, suc, ◌<◌, ◌≡◌, ◌≢◌, refl, true, some, ◌∷◌, arith, ap}
use cpts.Bytes.{trim, u16, u32, put_u8, put_u16, put_u32}
use cpts.Disk.{get_block, get_group, read_at}
use cpts.Disk.Layout.{bg_inode_table}
use cpts.Text.{Text, text_at, same_text}
use cpts.Sim.{Sim, Minode, no_minode, no_proc, no_mount}
use cpts.Sample.{sample_image, sample_disk, sample_sim}
use cpts.Minodes.{load_inode, inode_place}
use cpts.Minodes.Inode.{i_block, i_mode, has_type, dir_type}
use cpts.Minodes.Transfer.{InTable}
use cpts.Minodes.Outcome.{loaded}
use cpts.Minodes.Settled.{IsSettled, HasRoom}
use cpts.Dir.{search_dir, search_blocks, search_block}
use cpts.Paths.{dotdot, slash, mount_of, start_of, tokenize}
use cpts.Paths.Lookup.{disk_inode, disk_minode, lookup}
use cpts.Paths.Standing.{HasTop}
use cpts.Paths.Resolve.{StartsAt, path_ino}

runs : ℕ
unfolding sample_image sample_disk get_block get_group read_at bg_inode_table trim u16 u32 put_u8
    put_u16 put_u32 inode_place load_inode i_block text_at same_text search_dir search_blocks
    search_block has_type i_mode
runs = 0

abbrev shell_root : Minode
shell_root = record (loaded sample_image 3 1 no_minode) { ref_count = 3 }

abbrev shell_minodes : ℕ → Minode
shell_minodes zero = shell_root
shell_minodes (suc k) = no_minode

abbrev pub shell_sim : Sim
shell_sim = record sample_sim {
  m_inodes = shell_minodes;
  proc = λ i. record no_proc { cwd = some 0 };
  mounttab = λ i. record no_mount { dev = 3; mounted_inode = some 0 };
  root = some 0;
}

pub shell-IsSettled : IsSettled shell_sim
shell-IsSettled = record {
  clean = λ k lt. ground arith;
  number = λ k lt live. number k live;
  current = λ k n lt live e. current k n live e;
  unmounted = λ k lt live. ground arith;
}
  where
    number : (k : ℕ) → 0 < (shell_sim.m_inodes k).ref_count → (shell_sim.m_inodes k).ino ≢ 0
    number zero live e = omega (arith, e)
    number (suc k) live e = absurd (omega (arith, live))

    current :
        (k n : ℕ)
        → 0 < (shell_sim.m_inodes k).ref_count
        → (shell_sim.m_inodes k).ino ≡ suc n
        → (shell_sim.m_inodes k).inode ≡ load_inode sample_image (shell_sim.m_inodes k).dev n
    current zero n live e = ap (λ (x : ℕ). load_inode sample_image 3 x) (omega (arith, e))
    current (suc k) n live e = absurd (omega (arith, live))

pub shell-HasRoom : HasRoom shell_sim
shell-HasRoom = record { slot = 1; in_table = omega arith; unused = refl }

-- The path "/..".
abbrev pub up_path : Text
up_path = slash ∷ dotdot

pub shell-StartsAt : StartsAt shell_sim up_path 0
unfolding start_of
shell-StartsAt = record {
  cwd = 0;
  has_cwd = refl;
  start = refl;
  in_table = omega arith;
  live = omega arith;
}

pub parent_is : search_dir sample_image (disk_minode sample_image 3 2) dotdot ≡ 2
unfolding runs
parent_is = refl

pub shell-HasTop : HasTop shell_sim 3
unfolding mount_of
shell-HasTop = record {
  entry = 0;
  top = 0;
  entry_of = refl;
  mounted = refl;
  live = omega arith;
  dev_of = refl;
  ino_of = refl;
  parent = λ e. omega (arith, e, parent_is);
}

root_is_dir : has_type dir_type (disk_inode sample_image 3 2) ≡ true
unfolding runs
root_is_dir = refl

pub up_path_ino : path_ino shell_sim 0 up_path ≡ 2
unfolding tokenize lookup
up_path_ino = rw (root_is_dir, parent_is) refl

pub shell-InTable : InTable sample_image 3 1
unfolding runs
shell-InTable = omega arith
