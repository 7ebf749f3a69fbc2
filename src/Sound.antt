-- ===== src/Sound.antt =====
-- What holds of the simulator between two commands: every pointer is NULL or names an element of
-- its table, no inode is in memory twice, and the open files are counted.
pub mod Rules
pub mod Counts
pub mod Primitives
pub mod Reads
pub mod Minodes
pub mod Paths
pub mod Dir
pub mod Files
pub mod Descriptors
pub mod Closed
pub mod Opening
pub mod OpenFiles
pub mod Mounts
pub mod Print
pub mod Commands
pub mod Session
use cpts.Base.{
  ◌≢◌, ℕ, zero, suc, ◌+◌, ◌≤◌, ◌<◌, ◌≡◌, Option, none, some, ◌==◌, if◌then◌else◌, Bool, true, false,
}
use cpts.Sim.{Sim, Minode, Oft, Proc, Mount, nminodes, nmount, nproc, nfd, noft}

-- NULL, or an element of a table of `n`.
abbrev pub InTable : ℕ → Option ℕ → Type 0
InTable n none = Unit {0}
InTable n (some p) = p < n

-- No two minodes have the same inode number, other than 0, of the same device.
abbrev pub AreDistinct : (ℕ → Minode) → Type 0
AreDistinct t =
    (i j : ℕ)
    → i < nminodes
    → j < nminodes
    → (t i).ino ≢ 0
    → (t i).dev ≡ (t j).dev
    → (t i).ino ≡ (t j).ino
    → i ≡ j

-- 1 if a descriptor names entry `o`.
abbrev pub points : ℕ → Option ℕ → ℕ
points o none = 0
points o (some k) = if k == o then 1 else 0

-- The number of the first `n` descriptors that name entry `o`.
unfoldable pub fds_to : ℕ → (ℕ → Option ℕ) → ℕ → ℕ
fds_to o fd zero = 0
fds_to o fd (suc n) = fds_to o fd n + points o (fd n)

-- The number of the descriptors of the first `n` processes that name entry `o`.
unfoldable pub open_fds : ℕ → (ℕ → Proc) → ℕ → ℕ
open_fds o t zero = 0
open_fds o t (suc n) = open_fds o t n + fds_to o (t n).fd nfd

-- Every pointer is in its table, no inode is in memory twice, a minode without references has no
-- inode number, and an entry of the open file table counts the descriptors that name it, and has a
-- minode if there are any.
pub record IsSound (s : Sim) : Type 0 where
  pub descriptors : (i k : ℕ) → InTable noft ((s.proc i).fd k)
  pub directories : (i : ℕ) → InTable nminodes (s.proc i).cwd
  pub files : (o : ℕ) → InTable nminodes (s.oft o).inodeptr
  pub mount_points : (i : ℕ) → InTable nminodes (s.mounttab i).mounted_inode
  pub mounts : (p : ℕ) → InTable nmount (s.m_inodes p).mountptr
  pub top : InTable nminodes s.root
  pub running : s.running < nproc
  pub distinct : AreDistinct s.m_inodes
  pub reset : (p : ℕ) → (s.m_inodes p).ref_count ≡ 0 → (s.m_inodes p).ino ≡ 0
  pub counted : (o : ℕ) → (s.oft o).ref_count ≡ open_fds o s.proc nproc
  pub backed : (o : ℕ) → 0 < (s.oft o).ref_count → (s.oft o).inodeptr ≢ none
