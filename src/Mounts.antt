-- ===== src/Mounts.antt =====
-- The mount table: `mount` and `umount` of src/level3.c, `init` and `mount_root` of src/main.c, and
-- `my_quit` of src/command.c. `open` is a parameter: the descriptor that the system gives for a
-- file name, or none; the state's image holds the file's bytes under it. `close` changes nothing.
pub mod Quit
pub mod Boot
pub mod Rooted
mod Tests
use cpts.Base.{
  on_some, ℕ, zero, suc, ◌+◌, ℤ, pos, negsuc, Bool, true, false, not, ◌&&◌, Option, none, some, [],
  ◌∷◌, ltb, leb, ◌==◌, is_negative, if◌then◌else◌,
}
use cpts.Bytes.{Buf}
use cpts.Disk.{get_super, get_group}
use cpts.Disk.Layout.{
  s_magic, super_magic, s_blocks_count, s_inodes_count, bg_block_bitmap, bg_inode_bitmap,
  bg_inode_table,
}
use cpts.Text.{Text, length, same_text}
use cpts.Sim.{Sim, Minode, Mount, nmount, nminodes, nproc, root_inode, no_mount}
use cpts.Sim.Monad.{
  M, ok, pure, stop, deref, ◌>>=◌, ◌>>◌, gets, set_minode, set_mount, set_proc, when,
}
use cpts.Minodes.{iget, iput}
use cpts.Paths.{slash, getino}
use cpts.Files.Create.{file_mkdir}

-- The first entry with device 0, with `n` rounds left.
unfoldable pub mount_slot : (ℕ → Mount) → ℕ → ℕ → Option ℕ
mount_slot t zero i = none
mount_slot t (suc n) i =
    let rest = mount_slot t n (i + 1) in if (t i).dev == 0 then some i else rest

unfoldable pub alloc_mount : Sim → Option ℕ
unfolding mount_slot
alloc_mount s = mount_slot s.mounttab nmount 0

-- `strncpy(dst, s, 64)`, as far as the 64 bytes go.
abbrev take : ℕ → Text → Text
take zero s = []
take (suc n) [] = []
take (suc n) (x ∷ xs) = x ∷ take n xs

-- An entry's name that fills its 64 bytes has no NUL: `strcmp` with a name that starts with it goes
-- on behind them.
abbrev reads_on : Text → Text → Bool
reads_on known name = leb 64 (length known) && same_text (take 64 known) (take 64 name)

-- The first entry with the name, with `n` rounds left; an unused entry has the empty name.
unfoldable pub named_mount : Text → ℕ → ℕ → M (Option ℕ)
named_mount name zero i = pure none
named_mount name (suc n) i = do
  e ← gets (λ s. s.mounttab i)
  let rest = named_mount name n (i + 1)
  if reads_on e.name name then stop else if same_text e.name name then pure (some i) else rest

unfoldable pub get_mounted : Text → M (Option ℕ)
unfolding named_mount
get_mounted filesys = named_mount filesys nmount 0

-- Some minode has the device, and is not of its root.
unfoldable pub any_of_dev : (ℕ → Minode) → ℕ → ℕ → ℕ → Bool
any_of_dev t dev zero i = false
any_of_dev t dev (suc n) i =
    let rest = any_of_dev t dev n (i + 1) in
    if ((t i).dev == dev) && not ((t i).ino == 2) then true else rest

unfoldable pub is_mount_busy : Sim → ℕ → Bool
unfolding any_of_dev
is_mount_busy s dev = any_of_dev s.m_inodes dev nminodes 0

-- The entry of a mounted image.
unfoldable pub mount_entry : Buf → Buf → ℕ → ℕ → Text → Text → Mount
mount_entry s g fd p name mount_name = record {
  mounted_inode = some p;
  name = name;
  mount_name = mount_name;
  dev = fd;
  nblocks = s_blocks_count s;
  ninodes = s_inodes_count s;
  bmap = bg_block_bitmap g;
  imap = bg_inode_bitmap g;
  iblk = bg_inode_table g;
}

unfoldable pub attach : ℕ → ℕ → ℕ → Text → Text → M (Unit {0})
attach fd p md filesys path = do
  s ← gets (λ t. get_super t.image fd)
  g ← gets (λ t. get_group t.image fd)
  set_mount md (λ m. mount_entry s g fd p (take 64 filesys) (take 64 path))
  set_minode p (λ m. record m { mounted = true; mountptr = some md })

-- Behind the creation of the mount point.
unfoldable pub mount_at : ℕ → Text → Text → M (Unit {0})
unfolding attach
mount_at fd filesys path = do
  (dev, ino) ← getino path
  if ino == 0 then pure tt else do
    mip ← iget dev ino
    on_some mip (pure tt)
        (λ p. do md ← gets alloc_mount; on_some md (iput p) (λ i. attach fd p i filesys path))

abbrev is_absolute : Text → Bool
is_absolute [] = false
is_absolute (c ∷ cs) = c == slash

abbrev is_some : Option ℕ → Bool
is_some none = false
is_some (some p) = true

-- On a descriptor that is open.
unfoldable pub mount_image : ℕ → Text → Text → M (Unit {0})
unfolding mount_at
mount_image fd filesys path = do
  s ← gets (λ t. get_super t.image fd)
  if not (s_magic s == super_magic)
      then pure tt
      else do r ← file_mkdir path; if is_negative r then pure tt else mount_at fd filesys path

module _ (open_file : Text → Option ℕ) where
  unfoldable pub mount : Text → Text → M (Unit {0})
  unfolding mount_image
  mount filesys path = do
    known ← get_mounted filesys
    if not (is_absolute path)
        then pure tt
        else if is_some known
        then pure tt
        else on_some (open_file filesys) (pure tt) (λ fd. mount_image fd filesys path)

-- Every field of the entry is cleared.
unfoldable pub detach : ℕ → M (Unit {0})
detach md = do
  e ← gets (λ s. s.mounttab md)
  p ← deref e.mounted_inode
  iput p
  set_mount md (λ m. no_mount)

unfoldable pub umount : Text → M (Unit {0})
unfolding detach
umount filesys = do
  known ← get_mounted filesys
  on_some known (pure tt) (λ md. do
    e ← gets (λ s. s.mounttab md)
    busy ← gets (λ s. is_mount_busy s e.dev)
    if busy then pure tt else detach md)

-- The processes and minodes at the start; tables that `init` leaves alone are zero from the start.
unfoldable pub init : Sim → Sim
init s = record s {
  proc = λ i.
      if ltb i nproc
      then record (s.proc i) { uid = i; gid = i; pid = i + 1; cwd = none }
      else s.proc i;
  m_inodes = λ i. if ltb i nminodes then record (s.m_inodes i) { ref_count = 0 } else s.m_inodes i;
  root = none;
}

unfoldable pub set_proc_cwd : ℕ → ℕ → M (Unit {0})
set_proc_cwd fd i = do p ← iget fd root_inode; set_proc i (λ r. record r { cwd = p })

-- The first entry of the mount table, for a root inode that is loaded. `strcpy` copies the name into
-- 64 bytes: a longer name, with its NUL, is stored behind them, over the entry's other fields.
unfoldable pub root_entry : ℕ → Text → Option ℕ → Buf → Buf → M ℤ
unfolding mount_entry
root_entry fd rootname p s g = do
  r ← deref p
  if ltb 63 (length rootname) then stop else do
    set_mount 0 (λ m. mount_entry s g fd r rootname (slash ∷ []))
    set_minode r (λ m. record m { mounted = false; mountptr = some 0 })
    pure (pos 0)

-- The root inode is loaded for `root` and for each of the two processes.
unfoldable pub root_image : ℕ → Text → M ℤ
unfolding set_proc_cwd root_entry
root_image fd rootname = do
  p ← iget fd root_inode
  s ← gets (λ t. get_super t.image fd)
  g ← gets (λ t. get_group t.image fd)
  λ t. ok tt (record t { root = p })
  set_proc_cwd fd 0
  set_proc_cwd fd 1
  λ t. ok tt (record t { running = 0 })
  root_entry fd rootname p s g

module _ (open_file : Text → Option ℕ) where
  unfoldable pub mount_root : Text → M ℤ
  unfolding root_image
  mount_root rootname = on_some (open_file rootname) (pure (negsuc 0)) (λ fd. do
    s ← gets (λ t. get_super t.image fd)
    if s_magic s == super_magic then root_image fd rootname else pure (negsuc 1))

-- The loop of `my_quit`, with `n` rounds left: every minode in use is put as its last reference.
unfoldable pub put_all_minodes : ℕ → ℕ → M (Unit {0})
put_all_minodes zero i = pure tt
put_all_minodes (suc n) i = do
  m ← gets (λ s. s.m_inodes i)
  when (ltb 0 m.ref_count) (do set_minode i (λ m. record m { ref_count = 1 }); iput i)
  put_all_minodes n (i + 1)

unfoldable pub my_quit : M (Unit {0})
my_quit = put_all_minodes nminodes 0
