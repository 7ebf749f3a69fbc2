-- ===== src/Sound/Paths.antt =====
-- The walk along a path and `cd` keep the state sound.
use cpts.Base.{ℕ, ◌<◌, Option, none, some, List, [], ◌∷◌, refl}
use cpts.Text.{Text}
use cpts.Sim.{Minode, nminodes}
use cpts.Sim.Monad.{M, set_proc, ◌>>=◌}
use cpts.Paths.{
  Place, place, go_up, go_down, walk, iput_if, getino_at, getino, parseargs, shell_cd, set_cwd,
  cd_to,
}
use cpts.Sound.{InTable}
use cpts.Sound.Rules.{Keeps, Any, Keeps-pure, Keeps-bind, control}
use cpts.Sound.Primitives.{writes, Keeps-set_proc}
use cpts.Sound.Reads.{reads, root-InTable, mounted_inode-InTable}
use cpts.Sound.Minodes.{minodes}

abbrev PlaceInTable : Place → Type 0
PlaceInTable here = InTable nminodes here.mip

go_up-Keeps : (p : ℕ) → Keeps PlaceInTable (go_up p)
unfolding go_up
go_up-Keeps p = search (minodes, reads, mounted_inode-InTable, control) depth 16

go_down-Keeps : (p dev ino : ℕ) → Keeps PlaceInTable (go_down p dev ino)
unfolding go_down
go_down-Keeps p dev ino = search (minodes, reads, control) depth 16

walk-Keeps : (ts : List Text) (here : Place) → PlaceInTable here → Keeps PlaceInTable (walk ts here)
unfolding walk
walk-Keeps [] here h = Keeps-pure here h
walk-Keeps (t ∷ ts) here h =
    search
      (
        minodes,
        reads,
        control,
        λ (p : ℕ). Keeps-bind _ (walk ts) (go_up-Keeps p) (walk-Keeps ts),
        λ (p dev ino : ℕ). Keeps-bind _ (walk ts) (go_down-Keeps p dev ino) (walk-Keeps ts),
      )
      depth 16

pub iput_if-Keeps : (o : Option ℕ) → Keeps Any (iput_if o)
iput_if-Keeps none = search control
iput_if-Keeps (some p) = search minodes

Keeps-walk :
    {B : Type 0} {R : B → Type 0} (ts : List Text) (here : Place) (f : Place → M B)
    → PlaceInTable here
    → ((end : Place) → Keeps R (f end))
    → Keeps R (walk ts here >>= f)
Keeps-walk ts here f h k = Keeps-bind _ f (walk-Keeps ts here h) (λ end q. k end)

getino_at-Keeps :
    (mip : Option ℕ) (m : Minode) (name : Text)
    → InTable nminodes mip
    → Keeps Any (getino_at mip m name)
unfolding getino_at
getino_at-Keeps none m name h = search control
getino_at-Keeps (some q) m name h =
    Keeps-walk _ (place m.dev m.ino (some q)) _ h (λ end. search (control, iput_if-Keeps) depth 9)

pub getino-Keeps : (name : Text) → Keeps Any (getino name)
unfolding getino
getino-Keeps name = search (minodes, reads, control, getino_at-Keeps) depth 16

pub parseargs-Keeps : (path : Text) → Keeps Any (parseargs path)
unfolding parseargs
parseargs-Keeps path = search (control, reads, getino-Keeps) depth 16

pub put_cwd-Keeps :
    (i : ℕ) (p : Option ℕ) → InTable nminodes p → Keeps Any (set_proc i (λ r. record r { cwd = p }))
put_cwd-Keeps i p h = Keeps-set_proc i (λ r. record r { cwd = p }) (λ r k. (k.0, h)) (λ r. refl)

set_cwd-Keeps : (p : Option ℕ) → InTable nminodes p → Keeps Any (set_cwd p)
unfolding set_cwd
set_cwd-Keeps p h = search (control, put_cwd-Keeps)

cd_to-Keeps : (p : ℕ) → p < nminodes → Keeps Any (cd_to p)
unfolding cd_to
cd_to-Keeps p h = search (control, reads, minodes, set_cwd-Keeps) depth 16

pub shell_cd-Keeps : (path : Option Text) → Keeps Any (shell_cd path)
unfolding shell_cd
shell_cd-Keeps none = search (minodes, reads, root-InTable, set_cwd-Keeps, control, writes) depth 16
shell_cd-Keeps (some path) = search (minodes, getino-Keeps, cd_to-Keeps, reads, control) depth 16
