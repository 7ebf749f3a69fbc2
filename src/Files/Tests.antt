-- ===== src/Files/Tests.antt =====
-- `creat` and `mkdir` of "/..", which the root directory has.
use cpts.Base.{◌≡◌, ◌≢◌, inr, refl, ◌∷◌, [], arith}
use cpts.Sim.{Sim}
use cpts.Sim.Monad.{ok}
use cpts.Text.{same_text}
use cpts.Minodes.Settled.{Restored}
use cpts.Dir.{search_dir}
use cpts.Paths.{slash, dotdot, dirname, basename, start_of, tokenize}
use cpts.Paths.Lookup.{disk_minode, lookup}
use cpts.Paths.Resolve.{StartsAt}
use cpts.Paths.Example.{shell_sim, up_path, parent_is, shell-IsSettled, shell-HasRoom, shell-HasTop}
use cpts.Files.{failed}
use cpts.Files.Create.{file_creat, file_mkdir}
use cpts.Files.Refused.{parent_ino, file_creat-refused}

dirname_up : dirname up_path ≡ slash ∷ []
unfolding dirname
dirname_up = refl

basename_up : basename up_path ≡ dotdot
unfolding basename
basename_up = refl

up-StartsAt : StartsAt shell_sim (dirname up_path) 0
unfolding start_of
up-StartsAt = record {
  cwd = 0;
  has_cwd = refl;
  start = rw dirname_up refl;
  in_table = omega arith;
  live = omega arith;
}

parent_of_up : parent_ino shell_sim 0 up_path ≡ 2
unfolding same_text tokenize lookup
parent_of_up = rw dirname_up refl

up-taken :
    search_dir shell_sim.image
      (disk_minode shell_sim.image 3 (parent_ino shell_sim 0 up_path))
      (basename up_path)
    ≢ 0
up-taken = rw (parent_of_up, basename_up) (λ e. omega (arith, e, parent_is))

file_creat-refused_example :
    (t : Sim) × (file_creat up_path shell_sim ≡ ok failed t)
    × (file_mkdir up_path shell_sim ≡ ok failed t)
    × Restored shell_sim t
file_creat-refused_example =
    file_creat-refused shell_sim up_path 0 shell-IsSettled shell-HasRoom up-StartsAt shell-HasTop
      (inr (inr up-taken))
