-- ===== src/Sound/Print.antt =====
-- The commands that print keep the state sound.
use cpts.Base.{ℕ, zero, suc, Option}
use cpts.Bytes.{Buf}
use cpts.Text.{Text}
use cpts.Print.{
  print_dir_entry, print_block, print_dir_entries, print_file_entry, help_pwd, shell_pwd, put_empty,
  ls_child, ls_in, shell_ls, shell_readlink, shell_stat, open_line, pfd_from, shell_pfd,
  mounts_from, print_mounttab,
}
use cpts.Sim.{nmount}
use cpts.Sound.Rules.{Keeps, Any, control}
use cpts.Sound.Reads.{reads}
use cpts.Sound.Minodes.{minodes}
use cpts.Sound.Paths.{getino-Keeps, parseargs-Keeps}

print_dir_entry-Keeps : (dev ino : ℕ) (name : Text) → Keeps Any (print_dir_entry dev ino name)
unfolding print_dir_entry
print_dir_entry-Keeps dev ino name = search (minodes, control) depth 24

print_block-Keeps : (fuel dev : ℕ) (buf : Buf) (i : ℕ) → Keeps Any (print_block fuel dev buf i)
unfolding print_block
print_block-Keeps zero dev buf i = search control
print_block-Keeps (suc fuel) dev buf i =
    search (control, print_dir_entry-Keeps, print_block-Keeps fuel) depth 24

print_dir_entries-Keeps : (p : ℕ) → Keeps Any (print_dir_entries p)
unfolding print_dir_entries
print_dir_entries-Keeps p = search (control, print_block-Keeps) depth 24

print_file_entry-Keeps : (p : ℕ) (name : Text) → Keeps Any (print_file_entry p name)
unfolding print_file_entry
print_file_entry-Keeps p name = search (control, print_dir_entry-Keeps) depth 24

help_pwd-Keeps : (fuel : ℕ) (p : Option ℕ) → Keeps Any (help_pwd fuel p)
unfolding help_pwd
help_pwd-Keeps zero p = search control
help_pwd-Keeps (suc fuel) p =
    search (getino-Keeps, minodes, help_pwd-Keeps fuel, reads, control) depth 24

pub shell_pwd-Keeps : Keeps Any shell_pwd
unfolding shell_pwd
shell_pwd-Keeps = search (control, help_pwd-Keeps) depth 24

put_empty-Keeps : (p : ℕ) → Keeps Any (put_empty p)
unfolding put_empty
put_empty-Keeps p = search (minodes, control) depth 24

ls_child-Keeps : (p : ℕ) (child : Text) (c : ℕ) → Keeps Any (ls_child p child c)
unfolding ls_child
ls_child-Keeps p child c =
    search (minodes, control, print_dir_entries-Keeps, print_file_entry-Keeps) depth 24

ls_in-Keeps : (dev p : ℕ) (child : Text) → Keeps Any (ls_in dev p child)
unfolding ls_in
ls_in-Keeps dev p child = search (minodes, control, put_empty-Keeps, ls_child-Keeps) depth 24

pub shell_ls-Keeps : (path : Text) → Keeps Any (shell_ls path)
unfolding shell_ls
shell_ls-Keeps path = search (parseargs-Keeps, minodes, control, ls_in-Keeps) depth 24

pub shell_readlink-Keeps : (path : Text) → Keeps Any (shell_readlink path)
unfolding shell_readlink
shell_readlink-Keeps path = search (getino-Keeps, minodes, control) depth 24

pub shell_stat-Keeps : (path : Text) → Keeps Any (shell_stat path)
unfolding shell_stat
shell_stat-Keeps path = search (getino-Keeps, minodes, control) depth 24

open_line-Keeps : (fd o : ℕ) → Keeps Any (open_line fd o)
unfolding open_line
open_line-Keeps fd o = search (reads, control) depth 24

pfd_from-Keeps : (n i : ℕ) → Keeps Any (pfd_from n i)
unfolding pfd_from
pfd_from-Keeps zero i = search control
pfd_from-Keeps (suc n) i = search (control, open_line-Keeps, pfd_from-Keeps n) depth 24

pub shell_pfd-Keeps : Keeps Any shell_pfd
unfolding shell_pfd
shell_pfd-Keeps = pfd_from-Keeps _ 0

mounts_from-Keeps : (n i : ℕ) → Keeps Any (mounts_from n i)
unfolding mounts_from
mounts_from-Keeps zero i = search control
mounts_from-Keeps (suc n) i = search (mounts_from-Keeps n, control) depth 24

pub print_mounttab-Keeps : Keeps Any print_mounttab
unfolding print_mounttab
print_mounttab-Keeps = mounts_from-Keeps nmount 0
