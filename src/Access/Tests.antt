-- ===== src/Access/Tests.antt =====
-- The permissions of a directory of mode 0755, for a process that does not own it.
use cpts.Base.{ℕ, ◌<◌, ◌≡◌, false, arith}
use cpts.Bytes.{Buf, IsBytes, zeros, u16, put_u16}
use cpts.Bytes.Fields.{put_u16-IsBytes}
use cpts.Sim.{Sim, Proc, no_proc}
use cpts.Minodes.Inode.{i_mode, i_uid, i_gid, has_type}
use cpts.Access.{has_perm}
use cpts.Access.Classes.{may, has_perm-may}
use cpts.Files.Attributes.{chmod_bits, file_chmod}
use cpts.Files.{done}
use cpts.Files.Edited.{Edited}
use cpts.Minodes.View.{node_of}
use cpts.Sample.{sample-IsImage}
use cpts.Sim.Monad.{ok}
use cpts.Access.Chmod.{file_chmod-may}
use cpts.Paths.Example.{
  shell_sim, up_path, shell-IsSettled, shell-HasRoom, shell-StartsAt, shell-HasTop, up_path_ino,
  shell-InTable,
}

abbrev dir_755 : Buf
dir_755 = put_u16 zeros 0 0x41ED

abbrev user : Proc
user = record no_proc { uid = 1; gid = 1 }

dir-IsBytes : IsBytes dir_755
dir-IsBytes = put_u16-IsBytes zeros 0 0x41ED λ i. omega arith

has_perm-may_example : has_perm user dir_755 2 ≡ false
unfolding i_mode i_uid i_gid put_u16 u16
has_perm-may_example = has_perm-may user dir_755 2 dir-IsBytes (omega arith)

-- `chmod 700 /..`
file_chmod-may_example :
    (v : Sim) × (file_chmod 0o700 up_path shell_sim ≡ ok done v)
    × Edited shell_sim 3 1 (chmod_bits 0o700) v
    × ((t : ℕ) → has_type t (node_of v 3 1) ≡ has_type t (node_of shell_sim 3 1))
    × ((r : Proc) (perm : ℕ)
        → perm < 8
        → has_perm r (node_of v 3 1) perm ≡ may r (node_of shell_sim 3 1) 0o700 perm)
file_chmod-may_example =
    file_chmod-may shell_sim up_path 0 0o700 1 shell-IsSettled shell-HasRoom shell-StartsAt
      shell-HasTop sample-IsImage up_path_ino shell-InTable (omega arith)
