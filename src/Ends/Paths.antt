-- ===== src/Ends/Paths.antt =====
-- `iget`, `iput`, the walk along a path and `cd` end.
use cpts.Base.{ℕ, zero, suc, Option, none, some, List, [], ◌∷◌}
use cpts.Text.{Text}
use cpts.Sim.{Minode}
use cpts.Minodes.{
  Slot, hit, miss, get_at, put_at, inode_get_block, inode_put_block, iget_at, iget, iput_last, iput,
}
use cpts.Paths.{
  Place, go_up, go_down, walk, iput_if, getino_at, getino, parseargs, shell_cd, set_cwd, cd_to,
}
use cpts.Ends.Rules.{Ends, Ends-stop, steps}

get_at-Ends : (p dev ino : ℕ) → Ends (get_at p dev ino)
unfolding get_at
get_at-Ends p dev zero = Ends-stop
get_at-Ends p dev (suc n) = search steps

inode_get_block-Ends : (p : ℕ) → Ends (inode_get_block p)
unfolding inode_get_block
inode_get_block-Ends p = search (steps, get_at-Ends)

iget_at-Ends : (dev ino : ℕ) (r : Slot) → Ends (iget_at dev ino r)
unfolding iget_at
iget_at-Ends dev ino (hit k) = search steps
iget_at-Ends dev ino (miss none) = search steps
iget_at-Ends dev ino (miss (some k)) = search (steps, inode_get_block-Ends)

pub iget-Ends : (dev ino : ℕ) → Ends (iget dev ino)
unfolding iget
iget-Ends dev ino = search (steps, iget_at-Ends)

put_at-Ends : (b : ℕ → ℕ) (dev ino : ℕ) → Ends (put_at b dev ino)
unfolding put_at
put_at-Ends b dev zero = Ends-stop
put_at-Ends b dev (suc n) = search steps

inode_put_block-Ends : (p : ℕ) → Ends (inode_put_block p)
unfolding inode_put_block
inode_put_block-Ends p = search (steps, put_at-Ends)

iput_last-Ends : (p : ℕ) → Ends (iput_last p)
unfolding iput_last
iput_last-Ends p = search (steps, inode_put_block-Ends)

pub iput-Ends : (p : ℕ) → Ends (iput p)
unfolding iput
iput-Ends p = search (steps, iput_last-Ends)

pub ruleset minode_ends = (iget-Ends, iput-Ends)

go_up-Ends : (p : ℕ) → Ends (go_up p)
unfolding go_up
go_up-Ends p = search (steps, minode_ends) depth 24

go_down-Ends : (p dev ino : ℕ) → Ends (go_down p dev ino)
unfolding go_down
go_down-Ends p dev ino = search (steps, minode_ends) depth 24

walk-Ends : (ts : List Text) (here : Place) → Ends (walk ts here)
unfolding walk
walk-Ends [] here = search steps
walk-Ends (t ∷ ts) here =
    search (steps, minode_ends, go_up-Ends, go_down-Ends, walk-Ends ts) depth 24

iput_if-Ends : (o : Option ℕ) → Ends (iput_if o)
iput_if-Ends none = search steps
iput_if-Ends (some p) = iput-Ends p

getino_at-Ends : (mip : Option ℕ) (m : Minode) (name : Text) → Ends (getino_at mip m name)
unfolding getino_at
getino_at-Ends none m name = search steps
getino_at-Ends (some q) m name = search (steps, walk-Ends, iput_if-Ends) depth 24

pub getino-Ends : (name : Text) → Ends (getino name)
unfolding getino
getino-Ends name = search (steps, minode_ends, getino_at-Ends) depth 24

pub parseargs-Ends : (path : Text) → Ends (parseargs path)
unfolding parseargs
parseargs-Ends path = search (steps, getino-Ends) depth 24

pub ruleset path_ends = (iget-Ends, iput-Ends, getino-Ends, parseargs-Ends)

set_cwd-Ends : (p : Option ℕ) → Ends (set_cwd p)
unfolding set_cwd
set_cwd-Ends p = search steps

cd_to-Ends : (p : ℕ) → Ends (cd_to p)
unfolding cd_to
cd_to-Ends p = search (steps, minode_ends, set_cwd-Ends) depth 24

pub shell_cd-Ends : (path : Option Text) → Ends (shell_cd path)
unfolding shell_cd
shell_cd-Ends none = search (steps, minode_ends, set_cwd-Ends) depth 24
shell_cd-Ends (some path) = search (steps, path_ends, cd_to-Ends) depth 24
