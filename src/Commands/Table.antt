-- ===== src/Commands/Table.antt =====
-- The table of commands of src/command.c.
use cpts.Base.{ℕ, ◌+◌, Option, none, some, List, [], ◌∷◌, if◌then◌else◌}
use cpts.Text.{Text, same_text, codes}

-- The functions of the table of commands.
pub data Command : Type 0 where
  quit ls cd pwd mkdir rmdir creat rm hard_link symlink readlink unlink stat touch chmod chown chgrp
        open_file close_file lseek pfd read write cat cp mv mount_image umount_image switch :
      Command

-- `commands[]`
abbrev pub commands : List (Text × Command)
commands =
    (codes "quit", quit)
    ∷ (codes "ls", ls)
    ∷ (codes "cd", cd)
    ∷ (codes "pwd", pwd)
    ∷ (codes "mkdir", mkdir)
    ∷ (codes "rmdir", rmdir)
    ∷ (codes "creat", creat)
    ∷ (codes "rm", rm)
    ∷ (codes "link", hard_link)
    ∷ (codes "symlink", symlink)
    ∷ (codes "readlink", readlink)
    ∷ (codes "unlink", unlink)
    ∷ (codes "stat", stat)
    ∷ (codes "touch", touch)
    ∷ (codes "chmod", chmod)
    ∷ (codes "chown", chown)
    ∷ (codes "chgrp", chgrp)
    ∷ (codes "open", open_file)
    ∷ (codes "close", close_file)
    ∷ (codes "lseek", lseek)
    ∷ (codes "pfd", pfd)
    ∷ (codes "read", read)
    ∷ (codes "write", write)
    ∷ (codes "cat", cat)
    ∷ (codes "cp", cp)
    ∷ (codes "mv", mv)
    ∷ (codes "mount", mount_image)
    ∷ (codes "umount", umount_image)
    ∷ (codes "switch", switch)
    ∷ []

-- The first entry with the name, and its index.
unfoldable pub find_command : Text → ℕ → List (Text × Command) → Option (ℕ × Command)
find_command name i [] = none
find_command name i ((n, c) ∷ rest) =
    if same_text name n then some (i, c) else find_command name (i + 1) rest
