-- ===== src/Sound/Files.antt =====
-- The operations of src/level1.c on files keep the state sound.
use cpts.Base.{ℕ, ℤ}
use cpts.Bytes.{Buf}
use cpts.Text.{Text}
use cpts.Sim.{Minode}
use cpts.Sim.Monad.{M}
use cpts.Files.Create.{
  help_mknod, makedir, mkdir_in, in_dir, file_mkdir, new_file, creat_in, file_creat, link_in,
  symlink_in, target_in, file_link, file_symlink,
}
use cpts.Paths.{Args}
use cpts.Files.Delete.{
  rmdir_in, rmdir_child, unlink_in, unlink_child, child_of, file_rmdir, file_unlink,
}
use cpts.Files.Attributes.{edit_found, edit_path, file_touch, file_chmod, file_chown, file_chgrp}
use cpts.Sound.Rules.{Keeps, Any, control}
use cpts.Sound.Primitives.{writes}
use cpts.Sound.Reads.{reads}
use cpts.Sound.Dir.{insert_entry-Keeps, remove_entry-Keeps, clear_blocks-Keeps}
use cpts.Sound.Minodes.{minodes}
use cpts.Sound.Paths.{getino-Keeps, parseargs-Keeps}

help_mknod-Keeps :
    (dev ino bno mode size links : ℕ) → Keeps Any (help_mknod dev ino bno mode size links)
unfolding help_mknod
help_mknod-Keeps dev ino bno mode size links = search (minodes, reads, writes, control) depth 24

makedir-Keeps : (p : ℕ) (child : Text) → Keeps Any (makedir p child)
unfolding makedir
makedir-Keeps p child =
    search (reads, writes, control, help_mknod-Keeps, insert_entry-Keeps) depth 24

mkdir_in-Keeps : (p : ℕ) (child : Text) → Keeps Any (mkdir_in p child)
unfolding mkdir_in
mkdir_in-Keeps p child = search (minodes, reads, writes, control, makedir-Keeps) depth 24

in_dir-Keeps :
    (make : ℕ → Text → M ℤ) (p : ℕ) (child : Text)
    → ((p : ℕ) (child : Text) → Keeps Any (make p child))
    → Keeps Any (in_dir make p child)
unfolding in_dir
in_dir-Keeps make p child k = search (minodes, reads, control, k) depth 24

pub file_mkdir-Keeps : (path : Text) → Keeps Any (file_mkdir path)
unfolding file_mkdir
file_mkdir-Keeps path =
    search (parseargs-Keeps, minodes, control, in_dir-Keeps, mkdir_in-Keeps) depth 24

new_file-Keeps : (mode p : ℕ) (child : Text) → Keeps Any (new_file mode p child)
unfolding new_file
new_file-Keeps mode p child =
    search (reads, writes, control, help_mknod-Keeps, insert_entry-Keeps) depth 24

creat_in-Keeps : (p : ℕ) (child : Text) → Keeps Any (creat_in p child)
unfolding creat_in
creat_in-Keeps p child = search (minodes, control, new_file-Keeps) depth 24

pub file_creat-Keeps : (path : Text) → Keeps Any (file_creat path)
unfolding file_creat
file_creat-Keeps path =
    search (parseargs-Keeps, minodes, control, in_dir-Keeps, creat_in-Keeps) depth 24

link_in-Keeps : (src sino p : ℕ) (child : Text) → Keeps Any (link_in src sino p child)
unfolding link_in
link_in-Keeps src sino p child =
    search (minodes, reads, writes, control, insert_entry-Keeps) depth 24

symlink_in-Keeps : (src : Text) (q p : ℕ) (child : Text) → Keeps Any (symlink_in src q p child)
unfolding symlink_in
symlink_in-Keeps src q p child = search (minodes, reads, writes, control, new_file-Keeps) depth 24

target_in-Keeps :
    (q sdev : ℕ) (dst : Text) (make : ℕ → Text → M ℤ)
    → ((p : ℕ) (child : Text) → Keeps Any (make p child))
    → Keeps Any (target_in q sdev dst make)
unfolding target_in
target_in-Keeps q sdev dst make k = search (parseargs-Keeps, minodes, reads, control, k) depth 24

pub file_link-Keeps : (src dst : Text) → Keeps Any (file_link src dst)
unfolding file_link
file_link-Keeps src dst =
    search (getino-Keeps, minodes, reads, control, target_in-Keeps, link_in-Keeps) depth 24

pub file_symlink-Keeps : (src dst : Text) → Keeps Any (file_symlink src dst)
unfolding file_symlink
file_symlink-Keeps src dst =
    search (getino-Keeps, minodes, reads, control, target_in-Keeps, symlink_in-Keeps) depth 24

rmdir_in-Keeps : (p : ℕ) (child : Text) (c : ℕ) → Keeps Any (rmdir_in p child c)
unfolding rmdir_in
rmdir_in-Keeps p child c = search (minodes, reads, writes, control, remove_entry-Keeps) depth 24

rmdir_child-Keeps : (p : ℕ) (child : Text) (c : ℕ) → Keeps Any (rmdir_child p child c)
unfolding rmdir_child
rmdir_child-Keeps p child c = search (minodes, reads, control, rmdir_in-Keeps) depth 24

unlink_in-Keeps : (p : ℕ) (child : Text) (c : ℕ) → Keeps Any (unlink_in p child c)
unfolding unlink_in
unlink_in-Keeps p child c =
    search (minodes, reads, writes, control, remove_entry-Keeps, clear_blocks-Keeps) depth 30

unlink_child-Keeps : (p : ℕ) (child : Text) (c : ℕ) → Keeps Any (unlink_child p child c)
unfolding unlink_child
unlink_child-Keeps p child c = search (minodes, reads, control, unlink_in-Keeps) depth 24

child_of-Keeps :
    (dev_of : Args → Minode → ℕ) (act : ℕ → Text → ℕ → M ℤ) (path : Text)
    → ((p : ℕ) (child : Text) (c : ℕ) → Keeps Any (act p child c))
    → Keeps Any (child_of dev_of act path)
unfolding child_of
child_of-Keeps dev_of act path k = search (parseargs-Keeps, minodes, reads, control, k) depth 24

pub file_rmdir-Keeps : (path : Text) → Keeps Any (file_rmdir path)
unfolding file_rmdir
file_rmdir-Keeps path = search (child_of-Keeps, rmdir_child-Keeps) depth 24

pub file_unlink-Keeps : (path : Text) → Keeps Any (file_unlink path)
unfolding file_unlink
file_unlink-Keeps path = search (child_of-Keeps, unlink_child-Keeps) depth 24

edit_found-Keeps : (dev ino : ℕ) (f : Buf → Buf) → Keeps Any (edit_found dev ino f)
unfolding edit_found
edit_found-Keeps dev ino f = search (minodes, writes, control) depth 24

edit_path-Keeps : (path : Text) (f : Buf → Buf) → Keeps Any (edit_path path f)
unfolding edit_path
edit_path-Keeps path f = search (getino-Keeps, control, edit_found-Keeps) depth 24

pub file_touch-Keeps : (path : Text) → Keeps Any (file_touch path)
unfolding file_touch
file_touch-Keeps path = search (getino-Keeps, control, file_creat-Keeps, edit_found-Keeps) depth 24

pub file_chmod-Keeps : (mode : ℕ) (path : Text) → Keeps Any (file_chmod mode path)
unfolding file_chmod
file_chmod-Keeps mode path = search (control, edit_path-Keeps) depth 24

pub file_chown-Keeps : (own : ℕ) (path : Text) → Keeps Any (file_chown own path)
unfolding file_chown
file_chown-Keeps own path = search edit_path-Keeps

pub file_chgrp-Keeps : (grp : ℕ) (path : Text) → Keeps Any (file_chgrp grp path)
unfolding file_chgrp
file_chgrp-Keeps grp path = search edit_path-Keeps
