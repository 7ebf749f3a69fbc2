-- ===== src/Files/Delete.antt =====
-- `file_rmdir` and `file_unlink`.
use cpts.Base.{
  on_some, Option, none, some, ℕ, zero, suc, ◌+◌, ℤ, Bool, not, ◌&&◌, ltb, ◌==◌, if◌then◌else◌,
}
use cpts.Bytes.{Buf}
use cpts.Disk.{Image}
use cpts.Alloc.{inodes, bit_overruns, freed_block, idealloc}
use cpts.Text.{Text}
use cpts.Sim.{Sim, Minode}
use cpts.Sim.Monad.{M, pure, stop, when, ◌>>=◌, ◌>>◌, gets, on_bitmap, set_image}
use cpts.Minodes.{iget}
use cpts.Minodes.Inode.{
  i_block, i_links_count, set_i_links_count, set_i_atime, set_i_mtime, has_type, dir_type,
}
use cpts.Access.{has_perm}
use cpts.Dir.{search_dir}
use cpts.Dir.Remove.{remove_entry, dir_is_empty}
use cpts.Paths.{Args, running_proc, parseargs}
use cpts.Files.{failed, done, finish, finish_both, edit}
use cpts.Files.Blocks.{clear_blocks}

-- `for (i = 0; i < 12; i++) if (i_block[i] != 0) bdealloc(dev, i_block[i]);`, `n` rounds left.
unfoldable pub free_direct : ℕ → Buf → ℕ → ℕ → Image → Option Image
free_direct dev b zero i img = some img
free_direct dev b (suc n) i img =
    let bno = i_block b i in
    on_some (if bno == 0 then some img else freed_block dev bno img) none
      (λ img'. free_direct dev b n (i + 1) img')

-- `i_links_count--` in its 16 bits.
abbrev pub drop_link : Buf → Buf
drop_link b = set_i_links_count (i_links_count b + 65535) b

unfoldable pub rmdir_in : ℕ → Text → ℕ → M ℤ
rmdir_in p child c = do
  remove_entry p child
  m ← gets (λ s. s.m_inodes c)
  freed ← gets (λ s. free_direct m.dev m.inode 12 0 s.image)
  on_some freed stop (λ img'. set_image (λ img. img'))
  on_bitmap (bit_overruns inodes m.dev m.ino) (idealloc m.dev m.ino)
  now ← gets (λ s. s.clock)
  edit p (λ b. drop_link (set_i_mtime now (set_i_atime now b)))
  edit c (λ b. b)
  finish_both c p done

-- The checks of `file_rmdir` on the child.
unfoldable pub may_rmdir : Sim → Minode → Bool
may_rmdir s m =
    not m.mounted
    && (has_type dir_type m.inode
        && (has_perm (running_proc s) m.inode 2
            && (not (ltb 1 m.ref_count) && dir_is_empty s.image m)))

unfoldable pub rmdir_child : ℕ → Text → ℕ → M ℤ
unfolding rmdir_in
rmdir_child p child c = do
  m ← gets (λ s. s.m_inodes c)
  may ← gets (λ s. may_rmdir s m)
  if may then rmdir_in p child c else finish_both c p failed

unfoldable pub unlink_in : ℕ → Text → ℕ → M ℤ
unlink_in p child c = do
  remove_entry p child
  edit c drop_link
  m ← gets (λ s. s.m_inodes c)
  when (ltb (i_links_count m.inode) 1) (do
    clear_blocks c
    m ← gets (λ s. s.m_inodes c)
    on_bitmap (bit_overruns inodes m.dev m.ino) (idealloc m.dev m.ino)
    pure tt)
  edit p (λ b. b)
  edit c (λ b. b)
  finish_both p c done

-- The checks of `file_unlink` on the child.
unfoldable pub may_unlink : Sim → Minode → Bool
may_unlink s m = not (has_type dir_type m.inode) && has_perm (running_proc s) m.inode 2

unfoldable pub unlink_child : ℕ → Text → ℕ → M ℤ
unfolding unlink_in
unlink_child p child c = do
  m ← gets (λ s. s.m_inodes c)
  may ← gets (λ s. may_unlink s m)
  if may then unlink_in p child c else finish_both p c failed

-- The parent must be a directory with the child's name, which is loaded from the device that
-- `dev_of` selects; `act` then gets both minodes.
unfoldable pub child_of : (Args → Minode → ℕ) → (ℕ → Text → ℕ → M ℤ) → Text → M ℤ
child_of dev_of act path = do
  a ← parseargs path
  if a.ino == 0 then pure failed else do
    pmip ← iget a.dev a.ino
    on_some pmip (pure failed) (λ p. do
      m ← gets (λ s. s.m_inodes p)
      cino ← gets (λ s. search_dir s.image m a.child)
      if not (has_type dir_type m.inode)
          then finish p failed
          else if cino == 0
          then finish p failed
          else do
            cmip ← iget (dev_of a m) cino
            on_some cmip (finish p failed) (λ c. act p a.child c))

unfoldable pub file_rmdir : Text → M ℤ
unfolding child_of rmdir_child
file_rmdir path = child_of (λ a m. m.dev) rmdir_child path

unfoldable pub file_unlink : Text → M ℤ
unfolding child_of unlink_child
file_unlink path = child_of (λ a m. a.dev) unlink_child path
