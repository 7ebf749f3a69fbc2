-- ===== src/Print.antt =====
-- The commands of src/level1.c, src/level2.c and src/level3.c that print: `shell_ls`, `shell_pwd`,
-- `shell_readlink`, `shell_stat`, `shell_pfd` and `print_mounttab`. Their results are the values
-- that they print, in order; the layout of the numbers and of the dates is left out.
use cpts.Base.{
  on_some, ℕ, zero, suc, ◌+◌, ◌^◌, Bool, true, false, not, Option, none, some, List, [], ◌∷◌, ◌++◌,
  ltb, leb, ◌||◌, ◌==◌, bit_and, if◌then◌else◌,
}
use cpts.Bytes.{Buf}
use cpts.Disk.{block_size, get_block}
use cpts.Text.{Text, length, same_text, text_at, c_str, codes, get_or}
use cpts.Sim.{Sim, Minode, nfd, nmount}
use cpts.Sim.Monad.{M, out_of_fuel, pure, stop, deref, ◌>>=◌, ◌>>◌, gets}
use cpts.Minodes.{iget, iput}
use cpts.Minodes.Inode.{
  i_mode, i_uid, i_gid, i_size, i_links_count, i_blocks, i_atime, i_ctime, i_mtime, i_block,
  has_type, dir_type, file_type, link_type,
}
use cpts.Dir.{
  Look, found, ended, next, lost, entry_inode, rec_len, entry_name, dir_fuel, search_dir,
}
use cpts.Paths.{slash, dotdot, running_proc, basename, getino, parseargs}

-- One line of `ls`.
pub record Line : Type 0 where
  pub kind : Text
  pub perms : Text
  pub links : ℕ
  pub uid : ℕ
  pub gid : ℕ
  pub size : ℕ
  pub mtime : ℕ
  pub name : Text
  pub target : Option Text

-- The character of the type; a type that is none of the three has none.
unfoldable pub kind_text : Buf → Text
kind_text ip =
    if has_type file_type ip
    then b'-' ∷ []
    else if has_type dir_type ip
    then b'd' ∷ []
    else if has_type link_type ip
    then b'l' ∷ []
    else []

abbrev perm_chars : Text
perm_chars = codes "xwrxwrxwr"

-- The loop over bits `n - 1` to 0 of the mode.
unfoldable pub perms_from : ℕ → ℕ → Text
perms_from mode zero = []
perms_from mode (suc i) =
    (if bit_and mode (2 ^ i) == 0 then b'-' else get_or perm_chars i) ∷ perms_from mode i

-- The string at `i_block`, up to its NUL.
unfoldable pub link_text : Buf → Text
link_text ip = c_str (text_at ip 40 88)

unfoldable pub line_of : Buf → Text → Line
unfolding kind_text perms_from link_text
line_of ip name = record {
  kind = kind_text ip;
  perms = perms_from (i_mode ip) 9;
  links = i_links_count ip;
  uid = i_uid ip;
  gid = i_gid ip;
  size = i_size ip;
  mtime = i_mtime ip;
  name = if has_type dir_type ip then name ++ slash ∷ [] else name;
  target = if has_type link_type ip then some (link_text ip) else none;
}

unfoldable pub print_dir_entry : ℕ → ℕ → Text → M (List Line)
unfolding line_of
print_dir_entry dev ino name = do
  mip ← iget dev ino
  on_some mip (pure [])
      (λ p. do line ← gets (λ s. line_of (s.m_inodes p).inode name); iput p; pure (line ∷ []))

-- The loop over the entries of a block, from offset `i` on.
unfoldable pub print_block : ℕ → ℕ → Buf → ℕ → M (List Line)
print_block zero dev buf i = λ s. out_of_fuel
print_block (suc fuel) dev buf i =
    let rest = print_block fuel dev buf (i + rec_len buf i) in
    if ltb i block_size
    then (if rec_len buf i == 0 then pure [] else do
      line ← print_dir_entry dev (entry_inode buf i) (entry_name buf i)
      lines ← rest
      pure (line ++ lines))
    else pure []

-- The first block of a directory.
abbrev first_block : Minode → Sim → Buf
first_block m s = get_block s.image m.dev (i_block m.inode 0)

unfoldable pub print_dir_entries : ℕ → M (List Line)
unfolding print_block
print_dir_entries p = do
  m ← gets (λ s. s.m_inodes p)
  buf ← gets (first_block m)
  print_block dir_fuel m.dev buf 0

-- The offset of the first entry that passes a test: an entry of length 0 ends the loop.
unfoldable pub first_entry : (Buf → ℕ → Bool) → ℕ → Buf → ℕ → Look
first_entry test zero buf i = lost
first_entry test (suc fuel) buf i =
    let rest = first_entry test fuel buf (i + rec_len buf i) in
    if ltb i block_size
    then (if rec_len buf i == 0 then ended else if test buf i then found i else rest)
    else next

abbrev found_at : Look → Option ℕ
found_at (found i) = some i
found_at ended = none
found_at next = none
found_at lost = none

unfoldable pub print_file_entry : ℕ → Text → M (List Line)
unfolding first_entry
print_file_entry p name = do
  m ← gets (λ s. s.m_inodes p)
  buf ← gets (first_block m)
  on_some (found_at (first_entry (λ b i. same_text (entry_name b i) name) dir_fuel buf 0)) (pure [])
      (λ i. print_dir_entry m.dev (entry_inode buf i) (entry_name buf i))

-- The name of the first entry with the inode number.
unfoldable pub name_in : ℕ → Buf → Text
unfolding first_entry
name_in ino buf =
    on_some (found_at (first_entry (λ b i. entry_inode b i == ino) dir_fuel buf 0)) ([])
      (λ i. entry_name buf i)

-- `p == root`
abbrev is_root : Option ℕ → Option ℕ → Bool
is_root none none = true
is_root none (some r) = false
is_root (some p) none = false
is_root (some p) (some r) = p == r

-- `help_pwd`: ".." is looked up from the working directory in every call.
unfoldable pub help_pwd : ℕ → Option ℕ → M Text
help_pwd zero mip = λ s. out_of_fuel
help_pwd (suc fuel) mip = do
  top ← gets (λ s. is_root mip s.root)
  if top then pure [] else do
    p ← deref mip
    (dev, ino) ← getino dotdot
    parent ← iget dev ino
    front ← help_pwd fuel parent
    q ← deref parent
    name ← gets (λ s. name_in (s.m_inodes p).ino (first_block (s.m_inodes q) s))
    iput q
    pure (front ++ slash ∷ name)

-- ".." is the same in every call, so that the recursion ends on its second level or not at all.
unfoldable pub shell_pwd : M Text
shell_pwd = do
  cwd ← gets (λ s. (running_proc s).cwd)
  top ← gets (λ s. is_root cwd s.root)
  if top then pure (slash ∷ []) else help_pwd 256 cwd

unfoldable pub put_empty : ℕ → M (List Line)
put_empty p = do iput p; pure []

-- A directory is listed by its entries, and anything else by its own.
unfoldable pub ls_child : ℕ → Text → ℕ → M (List Line)
unfolding print_dir_entries print_file_entry
ls_child p child c = do
  m ← gets (λ s. s.m_inodes c)
  lines ← if has_type dir_type m.inode then print_dir_entries c else print_file_entry p child
  iput p
  iput c
  pure lines

unfoldable pub ls_in : ℕ → ℕ → Text → M (List Line)
unfolding ls_child put_empty
ls_in dev p child = do
  m ← gets (λ s. s.m_inodes p)
  cino ← gets (λ s. search_dir s.image m child)
  if not (has_type dir_type m.inode)
      then put_empty p
      else if cino == 0
      then put_empty p
      else do cmip ← iget dev cino; on_some cmip (put_empty p) (λ c. ls_child p child c)

unfoldable pub shell_ls : Text → M (List Line)
unfolding ls_in
shell_ls path = do
  a ← parseargs path
  if a.ino == 0
      then pure []
      else do pmip ← iget a.dev a.ino; on_some pmip (pure []) (λ p. ls_in a.dev p a.child)

-- The text of a symbolic link; nothing for anything else.
unfoldable pub shell_readlink : Text → M (Option Text)
shell_readlink path = do
  (dev, ino) ← getino path
  if ino == 0 then pure none else do
    mip ← iget dev ino
    on_some mip (pure none) (λ p. do
      m ← gets (λ s. s.m_inodes p)
      iput p
      pure (if has_type link_type m.inode then some (link_text m.inode) else none))

-- What `stat` prints.
pub record Status : Type 0 where
  pub name : Text
  pub dev : ℕ
  pub ino : ℕ
  pub size : ℕ
  pub nblocks : ℕ
  pub links : ℕ
  pub mode : ℕ
  pub uid : ℕ
  pub gid : ℕ
  pub atime : ℕ
  pub mtime : ℕ
  pub ctime : ℕ

unfoldable pub status_of : Text → ℕ → ℕ → Buf → Status
status_of path dev ino ip = record {
  name = basename path;
  dev = dev;
  ino = ino;
  size = i_size ip;
  nblocks = i_blocks ip;
  links = i_links_count ip;
  mode = i_mode ip;
  uid = i_uid ip;
  gid = i_gid ip;
  atime = i_atime ip;
  mtime = i_mtime ip;
  ctime = i_ctime ip;
}

unfoldable pub shell_stat : Text → M (Option Status)
unfolding status_of
shell_stat path = do
  (dev, ino) ← getino path
  if ino == 0 then pure none else do
    mip ← iget dev ino
    on_some mip (pure none)
        (λ p. do m ← gets (λ s. s.m_inodes p); iput p; pure (some (status_of path dev ino m.inode)))

-- A line of `pfd`: the descriptor, its entry, and the device and number of its inode.
pub record OpenLine : Type 0 where
  pub fd : ℕ
  pub mode : ℕ
  pub offset : ℕ
  pub ref_count : ℕ
  pub dev : ℕ
  pub ino : ℕ

unfoldable pub open_line : ℕ → ℕ → M OpenLine
open_line fd o = do
  e ← gets (λ s. s.oft o)
  p ← deref e.inodeptr
  m ← gets (λ s. s.m_inodes p)
  pure (record {
    fd = fd;
    mode = e.mode;
    offset = e.offset;
    ref_count = e.ref_count;
    dev = m.dev;
    ino = m.ino;
  })

-- The loop of `shell_pfd`, with `n` rounds left.
unfoldable pub pfd_from : ℕ → ℕ → M (List OpenLine)
unfolding open_line
pfd_from zero i = pure []
pfd_from (suc n) i = do
  op ← gets (λ s. (running_proc s).fd i)
  on_some op (pfd_from n (i + 1))
      (λ o. do line ← open_line i o; lines ← pfd_from n (i + 1); pure (line ∷ lines))

unfoldable pub shell_pfd : M (List OpenLine)
shell_pfd = pfd_from nfd 0

-- The name fills its 64 bytes, so that no NUL ends it there.
abbrev is_unended : Text → Bool
is_unended name = leb 64 (length name)

-- A line of the mount table: the names and the device of an entry in use.
unfoldable pub mounts_from : ℕ → ℕ → M (List (Text × Text × ℕ))
mounts_from zero i = pure []
mounts_from (suc n) i = do
  e ← gets (λ s. s.mounttab i)
  let rest = mounts_from n (i + 1)
  if e.dev == 0
      then rest
      else if is_unended e.name || is_unended e.mount_name
      then stop
      else do lines ← rest; pure ((e.name, e.mount_name, e.dev) ∷ lines)

unfoldable pub print_mounttab : M (List (Text × Text × ℕ))
unfolding mounts_from
print_mounttab = mounts_from nmount 0
