-- ===== src/Paths.antt =====
-- Path names: `tokenize` and `getino` of src/util.c, `parseargs` of src/level1.c with the C
-- library's `dirname` and `basename`, and the working directory (`shell_cd`, `help_pwd`). A path
-- has less than 256 bytes, so that it fits the buffers.
pub mod Tokens
pub mod Lookup
pub mod Standing
pub mod Resolve
pub mod Moving
pub mod ChangeDir
pub mod Example
mod Tests
use mathlib.Core.List.{reverse}
use cpts.Base.{
  on_some, ℕ, zero, suc, ◌+◌, not, ◌&&◌, Option, none, some, List, [], ◌∷◌, ◌==◌, if◌then◌else◌,
}
use cpts.Text.{Text, same_text}
use cpts.Sim.{Sim, Minode, Proc, Mount, nmount}
use cpts.Sim.Monad.{M, pure, deref, ◌>>=◌, ◌>>◌, gets, set_minode, set_proc}
use cpts.Minodes.{iget, iput}
use cpts.Minodes.Inode.{has_type, dir_type}
use cpts.Dir.{search_dir}

abbrev pub slash : ℕ
slash = 0x2F

-- The token in `cur`, in reverse, if it is not empty.
abbrev flush : Text → List Text → List Text
flush [] ts = ts
flush (c ∷ cs) ts = reverse (c ∷ cs) ∷ ts

split_at : ℕ → Text → Text → List Text
split_at delim [] cur = flush cur []
split_at delim (c ∷ cs) cur =
    if c == delim then flush cur (split_at delim cs []) else split_at delim cs (c ∷ cur)

-- The runs of bytes between delimiters, as `strtok` gives them.
unfoldable pub tokenize : Text → ℕ → List Text
unfolding split_at
tokenize path delim = split_at delim path []

drop_slashes : Text → Text
drop_slashes [] = []
drop_slashes (c ∷ cs) = if c == slash then drop_slashes cs else c ∷ cs

-- The bytes in front of the first slash, and those from it on.
span_name : Text → Text × Text
span_name [] = ([], [])
span_name (c ∷ cs) = let (a, b) = span_name cs in if c == slash then ([], c ∷ cs) else (c ∷ a, b)

abbrev dot_text : Text
dot_text = 0x2E ∷ []

abbrev pub dotdot : Text
dotdot = 0x2E ∷ 0x2E ∷ []

-- On the path in reverse without its trailing slashes.
parent_of : Text × Text → Text
parent_of (base, []) = dot_text
parent_of (base, c ∷ cs) = elim (drop_slashes (c ∷ cs)) [
  | [] ↦ slash ∷ []
  | d ∷ ds ↦ reverse (d ∷ ds)
]

unfoldable pub dirname : Text → Text
unfolding drop_slashes span_name parent_of
dirname [] = dot_text
dirname (c ∷ cs) = elim (drop_slashes (reverse (c ∷ cs))) [
  | [] ↦ slash ∷ []
  | d ∷ ds ↦ parent_of (span_name (d ∷ ds))
]

unfoldable pub basename : Text → Text
unfolding drop_slashes span_name
basename [] = dot_text
basename (c ∷ cs) = elim (drop_slashes (reverse (c ∷ cs))) [
  | [] ↦ slash ∷ []
  | d ∷ ds ↦ reverse (span_name (d ∷ ds)).0
]

-- The running process.
abbrev pub running_proc : Sim → Proc
running_proc s = s.proc s.running

-- `for (i = 0; i < NMOUNT; i++) if (mounttab[i].dev == dev) break;`, with `n` rounds left. Behind
-- the table there is no entry to read.
unfoldable pub mount_of : (ℕ → Mount) → ℕ → ℕ → ℕ → Option ℕ
mount_of t dev zero i = none
mount_of t dev (suc n) i =
    let rest = mount_of t dev n (i + 1) in if (t i).dev == dev then some i else rest

-- A place on the way: `*dev`, `ino` and `mip`.
pub record Place : Type 0 where
  pub dev : ℕ
  pub ino : ℕ
  pub mip : Option ℕ

abbrev pub place : ℕ → ℕ → Option ℕ → Place
place dev ino mip = record { dev = dev; ino = ino; mip = mip }

-- From the root of a mounted image to the parent of its mount point.
unfoldable pub go_up : ℕ → M Place
go_up p = do
  m ← gets (λ s. s.m_inodes p)
  i ← deref (← gets (λ s. mount_of s.mounttab m.dev nmount 0))
  q ← deref (← gets (λ s. (s.mounttab i).mounted_inode))
  iput p
  x ← gets (λ s. s.m_inodes q)
  r ← deref (← iget x.dev x.ino)
  y ← gets (λ s. s.m_inodes r)
  ino ← gets (λ s. search_dir s.image y dotdot)
  iput r
  mip ← iget y.dev ino
  pure (place y.dev ino mip)

-- To the inode found in directory `p`, and into the image that is mounted there.
unfoldable pub go_down : ℕ → ℕ → ℕ → M Place
go_down p dev ino = do
  iput p
  r ← deref (← iget dev ino)
  y ← gets (λ s. s.m_inodes r)
  if y.mounted
      then (do
        i ← deref y.mountptr
        d ← gets (λ s. (s.mounttab i).dev)
        iput r
        mip ← iget d 2
        pure (place d 2 mip))
      else pure (place dev ino (some r))

unfoldable pub walk : List Text → Place → M Place
walk [] here = pure here
walk (t ∷ ts) here = do
  p ← deref here.mip
  m ← gets (λ s. s.m_inodes p)
  ino ← gets (λ s. search_dir s.image m t)
  if not (has_type dir_type m.inode)
      then pure here
      else if (m.ino == 2) && same_text t dotdot
      then (go_up p >>= walk ts)
      else if ino == 0
      then pure (place here.dev 0 here.mip)
      else (go_down p here.dev ino >>= walk ts)

abbrev pub iput_if : Option ℕ → M (Unit {0})
iput_if none = pure tt
iput_if (some p) = iput p

-- The pointer at which a path starts: `root` or the working directory.
unfoldable pub start_of : Text → Sim → Option ℕ
start_of [] s = (running_proc s).cwd
start_of (c ∷ cs) s = if c == slash then s.root else (running_proc s).cwd

-- From the minode at which a path starts.
unfoldable pub getino_at : Option ℕ → Minode → Text → M (ℕ × ℕ)
getino_at none m name = pure (m.dev, 0)
getino_at (some q) m name = do
  end ← walk (tokenize name slash) (place m.dev m.ino (some q))
  iput_if end.mip
  pure (end.dev, end.ino)

-- The device and inode number of a path; 0 stands for no inode.
unfoldable pub getino : Text → M (ℕ × ℕ)
unfolding getino_at
getino name = do
  deref (← gets (λ s. (running_proc s).cwd))
  p ← deref (← gets (start_of name))
  m ← gets (λ s. s.m_inodes p)
  mip ← iget m.dev m.ino
  getino_at mip m name

-- What `parseargs` stores and returns.
pub record Args : Type 0 where
  pub dev : ℕ
  pub ino : ℕ
  pub child : Text

unfoldable pub parseargs : Text → M Args
parseargs path =
    if same_text (dirname path) dot_text
    then (do
      p ← deref (← gets (λ s. (running_proc s).cwd))
      m ← gets (λ s. s.m_inodes p)
      pure (record { dev = m.dev; ino = m.ino; child = basename path }))
    else (do
      (dev, ino) ← getino (dirname path)
      pure (record { dev = dev; ino = ino; child = basename path }))

unfoldable pub set_cwd : Option ℕ → M (Unit {0})
set_cwd p = do i ← gets (λ s. s.running); set_proc i (λ r. record r { cwd = p })

unfoldable pub cd_to : ℕ → M (Unit {0})
unfolding set_cwd
cd_to p = do iput (← deref (← gets (λ s. (running_proc s).cwd))); set_cwd (some p)

-- `none` is `cd` with no path.
unfoldable pub shell_cd : Option Text → M (Unit {0})
unfolding set_cwd cd_to
shell_cd none = do
  iput (← deref (← gets (λ s. (running_proc s).cwd)))
  set_cwd (← gets (λ s. s.root))
  r ← deref (← gets (λ s. s.root))
  set_minode r (λ m. record m { ref_count = m.ref_count + 1 })
shell_cd (some path) = do
  (dev, ino) ← getino path
  if ino == 0 then pure tt else do
    mip ← iget dev ino
    on_some mip (pure tt) (λ p. do
      m ← gets (λ s. s.m_inodes p)
      if has_type dir_type m.inode then cd_to p else iput p)
