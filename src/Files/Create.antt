-- ===== src/Files/Create.antt =====
-- `help_mknod`, `makedir`, `file_mkdir`, `file_creat`, `file_link` and `file_symlink`.
use cpts.Base.{on_some, ℕ, zero, suc, ◌+◌, ◌-◌, ℤ, not, [], ◌∷◌, leb, ◌==◌, if◌then◌else◌}
use cpts.Bytes.{Buf, zeros, within}
use cpts.Disk.{block_size, put_block}
use cpts.Alloc.{inodes, blocks, search_overruns, ialloc, balloc}
use cpts.Text.{Text, length, get_or}
use cpts.Sim.{Sim}
use cpts.Sim.Monad.{M, pure, deref, ◌>>=◌, ◌>>◌, gets, on_bitmap, set_image}
use cpts.Minodes.{iget, iput}
use cpts.Minodes.Inode.{
  i_links_count, set_i_mode, set_i_uid, set_i_size, set_i_atime, set_i_ctime, set_i_mtime,
  set_i_gid, set_i_links_count, set_i_blocks, set_i_block, has_type, dir_type, link_type,
}
use cpts.Dir.{write_entry, search_dir, insert_entry}
use cpts.Paths.{running_proc, getino, parseargs}
use cpts.Files.{failed, done, finish, finish_both, edit}

-- `for (i = 1; i < 15; i++) i_block[i] = 0;`, with `n` rounds left.
unfoldable pub zero_blocks : ℕ → ℕ → Buf → Buf
zero_blocks zero i b = b
zero_blocks (suc n) i b = zero_blocks n (i + 1) (set_i_block i 0 b)

-- The fields of a new inode. `mode` and the links have 16 bits.
unfoldable pub fresh_inode : Sim → (bno mode size links : ℕ) → Buf → Buf
unfolding zero_blocks
fresh_inode s bno mode size links b =
    let owner = running_proc s in
    let b1 = set_i_links_count links (set_i_size size (set_i_mode mode b)) in
    let b2 = set_i_gid owner.gid (set_i_uid owner.uid b1) in
    let b3 = set_i_mtime s.clock (set_i_atime s.clock (set_i_ctime s.clock b2)) in
    zero_blocks 14 1 (set_i_block 0 bno (set_i_blocks 2 b3))

unfoldable pub help_mknod : (dev ino bno mode size links : ℕ) → M (Unit {0})
unfolding fresh_inode
help_mknod dev ino bno mode size links = do
  mip ← deref (← iget dev ino)
  f ← gets (λ s. fresh_inode s bno mode size links)
  edit mip f
  iput mip

-- The block of a new directory: "." and "..".
unfoldable pub dot_entries : ℕ → ℕ → Buf
dot_entries ino parent =
    write_entry (write_entry zeros 0 ino (0x2E ∷ []) 12) 12 parent (0x2E ∷ 0x2E ∷ [])
      (block_size - 12)

unfoldable pub makedir : ℕ → Text → M (Unit {0})
makedir parent child = do
  p ← gets (λ s. s.m_inodes parent)
  ino ← on_bitmap (search_overruns inodes p.dev) (ialloc p.dev)
  bno ← on_bitmap (search_overruns blocks p.dev) (balloc p.dev)
  help_mknod p.dev ino bno 0x41ED block_size 2
  set_image (λ img. put_block img p.dev bno (dot_entries ino p.ino))
  insert_entry parent ino child

unfoldable pub mkdir_in : ℕ → Text → M ℤ
mkdir_in p child = do
  makedir p child
  now ← gets (λ s. s.clock)
  edit p (λ b. set_i_links_count (i_links_count b + 1) (set_i_atime now b))
  finish p done

-- The directory with the child's name must be there, and must not have that name yet.
unfoldable pub in_dir : (ℕ → Text → M ℤ) → ℕ → Text → M ℤ
in_dir make p child = do
  m ← gets (λ s. s.m_inodes p)
  taken ← gets (λ s. search_dir s.image m child)
  if not (has_type dir_type m.inode)
      then finish p failed
      else if not (taken == 0)
      then finish p failed
      else make p child

unfoldable pub file_mkdir : Text → M ℤ
unfolding mkdir_in in_dir
file_mkdir path = do
  a ← parseargs path
  if a.ino == 0
      then pure failed
      else do mip ← iget a.dev a.ino; on_some mip (pure failed) (λ p. in_dir mkdir_in p a.child)

-- A new inode with a blank block, entered into directory `p`: its number.
unfoldable pub new_file : ℕ → ℕ → Text → M ℕ
new_file mode p child = do
  m ← gets (λ s. s.m_inodes p)
  inum ← on_bitmap (search_overruns inodes m.dev) (ialloc m.dev)
  bnum ← on_bitmap (search_overruns blocks m.dev) (balloc m.dev)
  help_mknod m.dev inum bnum mode 0 1
  set_image (λ img. put_block img m.dev bnum zeros)
  insert_entry p inum child
  now ← gets (λ s. s.clock)
  edit p (set_i_atime now)
  pure inum

unfoldable pub creat_in : ℕ → Text → M ℤ
unfolding new_file
creat_in p child = do new_file 0x81A4 p child; finish p done

unfoldable pub file_creat : Text → M ℤ
unfolding creat_in in_dir
file_creat path = do
  a ← parseargs path
  if a.ino == 0
      then pure failed
      else do mip ← iget a.dev a.ino; on_some mip (pure failed) (λ p. in_dir creat_in p a.child)

unfoldable pub link_in : ℕ → ℕ → ℕ → Text → M ℤ
link_in src sino p child = do
  insert_entry p sino child
  edit src (λ b. set_i_links_count (i_links_count b + 1) b)
  edit p (λ b. b)
  finish_both src p done

-- `strncpy((char *)i_block, src, 60)`: the bytes of the text, and zeros behind them.
unfoldable pub put_link : Text → Buf → Buf
put_link src b i = if within 40 60 i then get_or src (i - 40) else b i

unfoldable pub symlink_in : Text → ℕ → ℕ → Text → M ℤ
unfolding new_file put_link
symlink_in src smip p child = do
  inum ← new_file 0xA1A4 p child
  m ← gets (λ s. s.m_inodes p)
  mip ← deref (← iget m.dev inum)
  edit mip (put_link src)
  iput mip
  finish_both smip p done

-- The target directory of a link: on the source's device, and without the name.
unfoldable pub target_in : ℕ → ℕ → Text → (ℕ → Text → M ℤ) → M ℤ
target_in smip sdev dst make = do
  a ← parseargs dst
  if a.ino == 0 then finish smip failed else if not (sdev == a.dev) then finish smip failed else do
    tmip ← iget a.dev a.ino
    on_some tmip (finish smip failed) (λ p. do
      m ← gets (λ s. s.m_inodes p)
      taken ← gets (λ s. search_dir s.image m a.child)
      if not (has_type dir_type m.inode)
          then finish_both smip p failed
          else if not (taken == 0)
          then finish_both smip p failed
          else make p a.child)

-- A hard link to anything but a directory.
unfoldable pub file_link : Text → Text → M ℤ
unfolding target_in link_in
file_link src dst = do
  (sdev, sino) ← getino src
  if sino == 0 then pure failed else do
    smip ← iget sdev sino
    on_some smip (pure failed) (λ q. do
      m ← gets (λ s. s.m_inodes q)
      if has_type dir_type m.inode then finish q failed else target_in q sdev dst (link_in q sino))

-- A symbolic link to anything but a symbolic link, with less than 60 bytes.
unfoldable pub file_symlink : Text → Text → M ℤ
unfolding target_in symlink_in
file_symlink src dst = if leb 60 (length src) then pure failed else do
  (sdev, sino) ← getino src
  if sino == 0 then pure failed else do
    smip ← iget sdev sino
    on_some smip (pure failed) (λ q. do
      m ← gets (λ s. s.m_inodes q)
      if has_type link_type m.inode
          then finish q failed
          else target_in q sdev dst (symlink_in src q))
