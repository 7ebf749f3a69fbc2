-- ===== src/Files.antt =====
-- src/level1.c: the operations that create, remove and change files. Each returns its C result,
-- -1 or 0. `iput_if` stands for the `if (mip) iput(mip)` at the end of an operation.
pub mod Blocks
pub mod Create
pub mod Delete
pub mod Attributes
pub mod Edited
pub mod EditFound
pub mod ByPath
pub mod Refused
mod Tests
use cpts.Base.{true, ℕ, ℤ, pos, negsuc, Option, none, some}
use cpts.Bytes.{Buf}
use cpts.Sim.{Sim, Minode}
use cpts.Sim.Monad.{M, ◌>>=◌, ◌>>◌, pure, set_minode, gets}
use cpts.Minodes.{iput}

abbrev pub failed : ℤ
failed = negsuc 0

abbrev pub done : ℤ
done = pos 0

-- The result after the release of a minode.
abbrev pub finish : ℕ → ℤ → M ℤ
finish p r = do iput p; pure r

-- The release of both minodes at the end.
abbrev pub finish_both : ℕ → ℕ → ℤ → M ℤ
finish_both p q r = do iput p; finish q r

-- Assignments to the inode of a minode, which is dirty then.
abbrev pub edit : ℕ → (Buf → Buf) → M (Unit {0})
edit p f = set_minode p (λ m. record m { inode = f m.inode; dirty = true })
