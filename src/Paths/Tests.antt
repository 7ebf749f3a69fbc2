-- ===== src/Paths/Tests.antt =====
-- Paths in names.
use cpts.Base.{refl, some, true, ◌⊎◌, ℕ, ◌≡◌, List, [], ◌∷◌, arith, subst}
use cpts.Text.{Text}
use cpts.Sim.{Sim}
use cpts.Sim.Monad.{ok}
use cpts.Minodes.Settled.{Restored}
use cpts.Paths.{slash, tokenize, getino}
use cpts.Paths.Tokens.{join_path, AreNames, tokenize-join_path}
use cpts.Paths.{shell_cd}
use cpts.Paths.Lookup.{disk_inode}
use cpts.Minodes.Inode.{has_type, dir_type}
use cpts.Paths.Moving.{MovedTo}
use cpts.Paths.ChangeDir.{NoDirectory, shell_cd-Moves}
use cpts.Paths.Resolve.{getino-lookup}
use cpts.Paths.Example.{
  shell_sim, up_path, shell-IsSettled, shell-HasRoom, shell-StartsAt, shell-HasTop, up_path_ino,
}

abbrev usr_bin : List Text
usr_bin = (0x75 ∷ 0x73 ∷ 0x72 ∷ []) ∷ (0x62 ∷ 0x69 ∷ 0x6E ∷ []) ∷ []

usr_bin-AreNames : AreNames slash usr_bin
usr_bin-AreNames = (
  (λ e. cc),
  (
    (omega arith, (omega arith, (omega arith, tt))),
    ((λ e. cc), ((omega arith, (omega arith, (omega arith, tt))), tt)),
  ),
)

tokenize-join_path_example :
    tokenize (0x2F ∷ 0x75 ∷ 0x73 ∷ 0x72 ∷ 0x2F ∷ 0x62 ∷ 0x69 ∷ 0x6E ∷ []) slash ≡ usr_bin
unfolding join_path
tokenize-join_path_example = tokenize-join_path slash usr_bin usr_bin-AreNames

-- "/.." is the root directory again.
getino-lookup_example : (t : Sim) × (getino up_path shell_sim ≡ ok (3, 2) t) × Restored shell_sim t
getino-lookup_example =
    subst (λ (n : ℕ). (t : Sim) × (getino up_path shell_sim ≡ ok (3, n) t) × Restored shell_sim t)
      up_path_ino
      (getino-lookup shell_sim up_path 0 shell-IsSettled shell-HasRoom shell-StartsAt shell-HasTop)

-- `cd /..`
shell_cd-Moves_example :
    (t : Sim) × (shell_cd (some up_path) shell_sim ≡ ok tt t)
    × ((NoDirectory shell_sim 3 2 × Restored shell_sim t)
        ⊎ ((has_type dir_type (disk_inode shell_sim.image 3 2) ≡ true)
            × (q : ℕ) × MovedTo shell_sim 3 2 q t))
shell_cd-Moves_example =
    subst
      (λ (n : ℕ).
        (t : Sim) × (shell_cd (some up_path) shell_sim ≡ ok tt t)
        × ((NoDirectory shell_sim 3 n × Restored shell_sim t)
            ⊎ ((has_type dir_type (disk_inode shell_sim.image 3 n) ≡ true)
                × (q : ℕ) × MovedTo shell_sim 3 n q t)))
      up_path_ino
      (shell_cd-Moves shell_sim up_path 0 shell-IsSettled shell-HasRoom shell-StartsAt shell-HasTop
        0 refl (omega arith) (omega arith))
