-- ===== src/Files/Attributes.antt =====
-- `file_touch`, `file_chmod`, `file_chown` and `file_chgrp`; modes and ids are the 32 bits of an `int`.
use cpts.Base.{on_some, ◌&&◌, ℕ, ◌+◌, ℤ, bit_and, ltb, ◌==◌, if◌then◌else◌}
use cpts.Bytes.{Buf}
use cpts.Text.{Text}
use cpts.Sim.Monad.{M, pure, ◌>>=◌, ◌>>◌, gets}
use cpts.Minodes.{iget}
use cpts.Minodes.Inode.{i_mode, set_i_mode, set_i_uid, set_i_gid, set_i_atime, set_i_mtime}
use cpts.Paths.{getino}
use cpts.Files.{failed, done, finish, edit}
use cpts.Files.Create.{file_creat}

unfoldable pub edit_found : ℕ → ℕ → (Buf → Buf) → M ℤ
edit_found dev ino f = do
  mip ← iget dev ino
  on_some mip (pure failed) (λ p. do edit p f; finish p done)

unfoldable pub edit_path : Text → (Buf → Buf) → M ℤ
unfolding edit_found
edit_path path f = do
  (dev, ino) ← getino path
  if ino == 0 then pure failed else edit_found dev ino f

-- A file that is not there is created; the result is 0 then whether or not this succeeds.
unfoldable pub file_touch : Text → M ℤ
unfolding edit_found
file_touch path = do
  (dev, ino) ← getino path
  now ← gets (λ s. s.clock)
  if ino == 0
      then (do file_creat path; pure done)
      else edit_found dev ino (λ b. set_i_mtime now (set_i_atime now b))

-- The permission bits of the mode are replaced, and the type is kept.
unfoldable pub chmod_bits : ℕ → Buf → Buf
chmod_bits mode b =
    let b1 = set_i_mode (bit_and (i_mode b) 0xF000) b in set_i_mode (i_mode b1 + mode) b1

-- `if (mode > 0777)` on an `int` of 32 bits: a negative mode passes, and is added to the type.
unfoldable pub file_chmod : ℕ → Text → M ℤ
unfolding edit_path chmod_bits
file_chmod mode path =
    if ltb 0o777 mode && ltb mode 2147483648 then pure failed else edit_path path (chmod_bits mode)

unfoldable pub file_chown : ℕ → Text → M ℤ
unfolding edit_path
file_chown own path = edit_path path (set_i_uid own)

unfoldable pub file_chgrp : ℕ → Text → M ℤ
unfolding edit_path
file_chgrp grp path = edit_path path (set_i_gid grp)
