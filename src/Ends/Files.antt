-- ===== src/Ends/Files.antt =====
-- The operations of src/level1.c that enter names and change inodes end.
use cpts.Base.{ℕ, zero, suc, ◌+◌, ◌-◌, ◌<◌, ◌≢◌, ℤ, Bool-cases, inl, inr, arith, ltb, refl}
use cpts.Bytes.{Buf}
use cpts.Text.{Text}
use cpts.Sim.Monad.{M}
use cpts.Dir.{
  Walk, stop_at, broken, off_end, rec_len, dir_fuel, last_entry, grow_dir, insert_at, insert_entry,
}
use cpts.Files.Blocks.{clear_blocks}
use cpts.Files.Create.{
  help_mknod, makedir, mkdir_in, in_dir, file_mkdir, new_file, creat_in, file_creat, link_in,
  symlink_in, target_in, file_link, file_symlink,
}
use cpts.Files.Attributes.{edit_found, edit_path, file_touch, file_chmod, file_chown, file_chgrp}
use cpts.Ends.Rules.{Ends, steps}
use cpts.Ends.Paths.{path_ends}

-- Every step of the walk to the last entry is a byte at least.
last_entry-ends :
    (fuel : ℕ) (buf : Buf) (len : ℕ) → 1024 - len < fuel → last_entry fuel buf len ≢ off_end
unfolding last_entry
last_entry-ends zero buf len lt e = omega (arith, lt)
last_entry-ends (suc fuel) buf len lt e = elim (Bool-cases (ltb (rec_len buf len + len) 1024)) [
  | inr here ↦ cc (rw here at e)
  | inl inside ↦ elim (Bool-cases (ltb (rec_len buf len) 1)) [
    | inl stuck ↦ cc (rw (inside, stuck) at e)
    | inr step ↦
        last_entry-ends fuel buf (len + rec_len buf len) (ground arith) (rw (inside, step) at e)
  ]
]

grow_dir-Ends : (mip ino : ℕ) (name : Text) (i : ℕ) → Ends (grow_dir mip ino name i)
unfolding grow_dir
grow_dir-Ends mip ino name i = search steps depth 24

insert_at-Ends :
    (mip ino : ℕ) (name : Text) (i : ℕ) (buf : Buf) (w : Walk)
    → w ≢ off_end
    → Ends (insert_at mip ino name i buf w)
unfolding insert_at
insert_at-Ends mip ino name i buf broken h = search steps
insert_at-Ends mip ino name i buf off_end h = absurd (h refl)
insert_at-Ends mip ino name i buf (stop_at len) h = search (steps, grow_dir-Ends) depth 24

dir_walk-ends : (buf : Buf) → last_entry dir_fuel buf 0 ≢ off_end
dir_walk-ends buf = last_entry-ends dir_fuel buf 0 (omega arith)

insert_entry-Ends : (mip ino : ℕ) (name : Text) → Ends (insert_entry mip ino name)
unfolding insert_entry
insert_entry-Ends mip ino name = search (steps, insert_at-Ends, dir_walk-ends) depth 24

pub clear_blocks-Ends : (mip : ℕ) → Ends (clear_blocks mip)
unfolding clear_blocks
clear_blocks-Ends mip = search steps depth 24

help_mknod-Ends : (dev ino bno mode size links : ℕ) → Ends (help_mknod dev ino bno mode size links)
unfolding help_mknod
help_mknod-Ends dev ino bno mode size links = search (path_ends, steps) depth 24

ruleset made = (help_mknod-Ends, insert_entry-Ends, path_ends, steps)

makedir-Ends : (p : ℕ) (child : Text) → Ends (makedir p child)
unfolding makedir
makedir-Ends p child = search made depth 24

mkdir_in-Ends : (p : ℕ) (child : Text) → Ends (mkdir_in p child)
unfolding mkdir_in
mkdir_in-Ends p child = search (made, makedir-Ends) depth 24

in_dir-Ends :
    (make : ℕ → Text → M ℤ) (p : ℕ) (child : Text)
    → ((p : ℕ) (child : Text) → Ends (make p child))
    → Ends (in_dir make p child)
unfolding in_dir
in_dir-Ends make p child k = search (made, k) depth 24

pub file_mkdir-Ends : (path : Text) → Ends (file_mkdir path)
unfolding file_mkdir
file_mkdir-Ends path = search (path_ends, steps, in_dir-Ends, mkdir_in-Ends) depth 24

new_file-Ends : (mode p : ℕ) (child : Text) → Ends (new_file mode p child)
unfolding new_file
new_file-Ends mode p child = search made depth 24

creat_in-Ends : (p : ℕ) (child : Text) → Ends (creat_in p child)
unfolding creat_in
creat_in-Ends p child = search (made, new_file-Ends) depth 24

pub file_creat-Ends : (path : Text) → Ends (file_creat path)
unfolding file_creat
file_creat-Ends path = search (path_ends, steps, in_dir-Ends, creat_in-Ends) depth 24

link_in-Ends : (src sino p : ℕ) (child : Text) → Ends (link_in src sino p child)
unfolding link_in
link_in-Ends src sino p child = search made depth 24

symlink_in-Ends : (src : Text) (q p : ℕ) (child : Text) → Ends (symlink_in src q p child)
unfolding symlink_in
symlink_in-Ends src q p child = search (made, new_file-Ends) depth 24

target_in-Ends :
    (q sdev : ℕ) (dst : Text) (make : ℕ → Text → M ℤ)
    → ((p : ℕ) (child : Text) → Ends (make p child))
    → Ends (target_in q sdev dst make)
unfolding target_in
target_in-Ends q sdev dst make k = search (path_ends, steps, k) depth 24

pub file_link-Ends : (src dst : Text) → Ends (file_link src dst)
unfolding file_link
file_link-Ends src dst = search (path_ends, steps, target_in-Ends, link_in-Ends) depth 24

pub file_symlink-Ends : (src dst : Text) → Ends (file_symlink src dst)
unfolding file_symlink
file_symlink-Ends src dst = search (path_ends, steps, target_in-Ends, symlink_in-Ends) depth 24

edit_found-Ends : (dev ino : ℕ) (f : Buf → Buf) → Ends (edit_found dev ino f)
unfolding edit_found
edit_found-Ends dev ino f = search (path_ends, steps) depth 24

edit_path-Ends : (path : Text) (f : Buf → Buf) → Ends (edit_path path f)
unfolding edit_path
edit_path-Ends path f = search (path_ends, steps, edit_found-Ends) depth 24

pub file_touch-Ends : (path : Text) → Ends (file_touch path)
unfolding file_touch
file_touch-Ends path = search (path_ends, steps, file_creat-Ends, edit_found-Ends) depth 24

pub file_chmod-Ends : (mode : ℕ) (path : Text) → Ends (file_chmod mode path)
unfolding file_chmod
file_chmod-Ends mode path = search (steps, edit_path-Ends) depth 24

pub file_chown-Ends : (own : ℕ) (path : Text) → Ends (file_chown own path)
unfolding file_chown
file_chown-Ends own path = search edit_path-Ends

pub file_chgrp-Ends : (grp : ℕ) (path : Text) → Ends (file_chgrp grp path)
unfolding file_chgrp
file_chgrp-Ends grp path = search edit_path-Ends
