-- ===== src/Access.antt =====
-- `has_perm` of src/util.c, and `pswitch` of src/level3.c: who may do what.
pub mod Modes
pub mod Classes
pub mod Chmod
mod Tests
use cpts.Base.{ℕ, ◌/◌, Bool, true, bit_and, leb, ◌==◌, if◌then◌else◌}
use cpts.Sim.{Proc, nproc}
use cpts.Sim.Monad.{M, ok, fault}
use cpts.Bytes.{Buf}
use cpts.Minodes.Inode.{i_mode, i_uid, i_gid}

-- The three permission bits that apply to a process with these ids.
unfoldable pub class_bits : ℕ → ℕ → Buf → ℕ
class_bits uid gid ip =
    if i_uid ip == uid
    then bit_and (i_mode ip) 0o700 / 64
    else if i_gid ip == gid
    then bit_and (i_mode ip) 0o070 / 8
    else bit_and (i_mode ip) 0o007

unfoldable pub has_perm : Proc → Buf → ℕ → Bool
unfolding class_bits
has_perm p ip perm = if p.uid == 0 then true else bit_and (class_bits p.uid p.gid ip) perm == perm

-- `if (uid >= NPROC)` on an `int` of 32 bits: a negative number names a process in front of the
-- table.
unfoldable pub pswitch : ℕ → M (Unit {0})
pswitch uid s =
    if leb 2147483648 uid
    then fault
    else if leb nproc uid
    then ok tt s
    else ok tt (record s { running = uid })
