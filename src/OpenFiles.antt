-- ===== src/OpenFiles.antt =====
-- src/level2.c: the open file table and the descriptors of a process. `file_open`, `file_close` and
-- `file_lseek`; descriptors, modes and positions are the 32 bits of an `int`.
pub mod Data
pub mod Copy
pub mod Reading
pub mod Concat
pub mod Copying
pub mod Storing
pub mod Overwrite
pub mod Slots
mod Tests
mod Runs
use cpts.Base.{
  on_some, ℕ, zero, suc, ◌+◌, ◌-◌, ℤ, pos, negsuc, Bool, true, false, not, ◌&&◌, ◌||◌, Option, none,
  some, ltb, leb, ◌==◌, if◌then◌else◌,
}
use cpts.Bytes.{Buf}
use cpts.Text.{Text}
use cpts.Sim.{Sim, Minode, Oft, Proc, nfd, noft, no_oft, update}
use cpts.Sim.Monad.{M, pure, deref, when, ◌>>=◌, ◌>>◌, gets, set_oft, set_proc, set_minode}
use cpts.Minodes.{iget, iput}
use cpts.Minodes.Inode.{i_size, set_i_atime, set_i_mtime, has_type, file_type}
use cpts.Paths.{running_proc, getino}
use cpts.Files.{failed, finish, edit}
use cpts.Files.Blocks.{clear_blocks}

-- `for (i = 0; i < NFD; i++) if (!running->fd[i]) return i;`, with `n` rounds left.
unfoldable pub free_fd : (ℕ → Option ℕ) → ℕ → ℕ → Option ℕ
free_fd fd zero i = none
free_fd fd (suc n) i = let rest = free_fd fd n (i + 1) in on_some (fd i) (some i) (λ p. rest)

unfoldable pub find_proc_fd : Sim → Option ℕ
find_proc_fd s = free_fd (running_proc s).fd nfd 0

-- The entry is in use for the inode number, on whatever device.
abbrev pub opens : (ℕ → Minode) → ℕ → Oft → Bool
opens t ino o = ltb 0 o.ref_count && on_some o.inodeptr false (λ p. (t p).ino == ino)

abbrev pub first_unused : Option ℕ → ℕ → Oft → Option ℕ
first_unused (some k) i o = some k
first_unused none i o = if ltb 0 o.ref_count then none else some i

-- The loop of `find_oft`, with `n` rounds left and `op` the first unused entry so far.
unfoldable pub oft_from : Sim → ℕ → ℕ → ℕ → Option ℕ → Option ℕ
oft_from s ino zero i op = op
oft_from s ino (suc n) i op =
    let rest = oft_from s ino n (i + 1) (first_unused op i (s.oft i)) in
    if opens s.m_inodes ino (s.oft i) then some i else rest

unfoldable pub find_oft : Sim → ℕ → Option ℕ
find_oft s ino = oft_from s ino noft 0 none

unfoldable pub set_fd : ℕ → Option ℕ → M (Unit {0})
set_fd fd v = do i ← gets (λ s. s.running); set_proc i (λ r. record r { fd = update r.fd fd v })

-- The label `success`.
unfoldable pub opened : ℕ → ℕ → M ℤ
unfolding set_fd
opened fd o = do
  set_oft o (λ e. record e { ref_count = e.ref_count + 1 })
  set_fd fd (some o)
  pure (pos fd)

-- The times of an open for reading, and of one for writing.
abbrev stamp : ℕ → ℕ → Buf → Buf
stamp mode now b = set_i_atime now (if mode == 0 then b else set_i_mtime now b)

-- The two `switch` statements and the assignments behind them.
unfoldable pub claim_oft : ℕ → ℕ → ℕ → M (Unit {0})
claim_oft mode p o = do
  when (mode == 1) (clear_blocks p)
  m ← gets (λ s. s.m_inodes p)
  set_oft o (λ e. record e { offset = if mode == 3 then i_size m.inode else 0 })
  now ← gets (λ s. s.clock)
  edit p (stamp mode now)
  set_oft o (λ e. record e { mode = mode; inodeptr = some p })

unfoldable pub open_with : ℕ → ℕ → ℕ → ℕ → M ℤ
unfolding claim_oft opened
open_with mode p fd o = do
  e ← gets (λ s. s.oft o)
  if ltb 0 mode && ltb 0 e.mode
      then finish p failed
      else if ltb 0 e.ref_count && ((mode == 0) && (e.mode == 0))
      then opened fd o
      else do claim_oft mode p o; opened fd o

-- `find_proc_fd` and `find_oft`: the slot of the process and of the table.
unfoldable pub slots : ℕ → Sim → Option (ℕ × ℕ)
slots ino s =
    on_some (find_proc_fd s) none (λ fd. on_some (find_oft s ino) none (λ o. some (fd, o)))

unfoldable pub file_open : Text → ℕ → M ℤ
unfolding open_with slots
file_open file mode = if ltb 3 mode then pure failed else do
  (dev, ino) ← getino file
  if ino == 0 then pure failed else do
    mip ← iget dev ino
    on_some mip (pure failed) (λ p. do
      m ← gets (λ s. s.m_inodes p)
      free ← gets (slots ino)
      if not (has_type file_type m.inode)
          then finish p failed
          else on_some free (finish p failed)
              (λ found. let (fd, o) = found in open_with mode p fd o))

-- The entry behind a descriptor, if the descriptor is in range and open.
unfoldable pub entry_of : ℕ → Sim → Option ℕ
entry_of fd s = if leb nfd fd then none else (running_proc s).fd fd

unfoldable pub close_entry : ℕ → M ℤ
close_entry o = do
  set_oft o (λ e. record e { ref_count = e.ref_count - 1 })
  e ← gets (λ s. s.oft o)
  if ltb 0 e.ref_count
      then pure (pos 1)
      else do p ← deref e.inodeptr; iput p; set_oft o (λ e. no_oft); pure (pos 0)

-- 0 when the last descriptor of the entry is closed, and 1 in every other case.
unfoldable pub file_close : ℕ → M ℤ
unfolding set_fd close_entry
file_close fd = do
  op ← gets (entry_of fd)
  on_some op (pure (pos 1)) (λ o. do set_fd fd none; close_entry o)

unfoldable pub lseek_in : ℕ → ℕ → M ℤ
lseek_in o pos' = do
  e ← gets (λ s. s.oft o)
  p ← deref e.inodeptr
  m ← gets (λ s. s.m_inodes p)
  if leb (i_size m.inode) pos'
      then pure failed
      else do set_oft o (λ e. record e { offset = pos' }); pure (pos e.offset)

-- The old position, or -1.
unfoldable pub file_lseek : ℕ → ℕ → M ℤ
unfolding lseek_in
file_lseek fd position = do
  op ← gets (entry_of fd)
  on_some op (pure failed) (λ o. lseek_in o position)
