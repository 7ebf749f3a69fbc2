-- ===== src/Ends/Print.antt =====
-- The commands that print end, but for `pwd`.
use cpts.Base.{ℕ, zero, suc, ◌+◌, ◌-◌, ◌<◌, [], ◌++◌, ltb, ◌==◌, Bool-cases, inl, inr, arith}
use cpts.Bytes.{Buf}
use cpts.Text.{Text}
use cpts.Sim.{nmount}
use cpts.Dir.{rec_len, dir_fuel, entry_inode, entry_name}
use cpts.Print.{
  print_dir_entry, print_block, print_dir_entries, print_file_entry, put_empty, ls_child, ls_in,
  shell_ls, shell_readlink, shell_stat, open_line, pfd_from, shell_pfd, mounts_from, print_mounttab,
}
use cpts.Ends.Rules.{Ends, Ends-bind, Ends-pure, steps}
use cpts.Ends.Paths.{path_ends}

print_dir_entry-Ends : (dev ino : ℕ) (name : Text) → Ends (print_dir_entry dev ino name)
unfolding print_dir_entry
print_dir_entry-Ends dev ino name = search (path_ends, steps) depth 24

-- Every round of the loop over a directory's block is a byte at least.
print_block-Ends :
    (fuel dev : ℕ) (buf : Buf) (i : ℕ) → 1024 - i < fuel → Ends (print_block fuel dev buf i)
unfolding print_block
print_block-Ends zero dev buf i lt = absurd (omega (arith, lt))
print_block-Ends (suc fuel) dev buf i lt = elim (Bool-cases (ltb i 1024)) [
  | inr out ↦ rw out (Ends-pure [])
  | inl inside ↦ elim (Bool-cases (rec_len buf i == 0)) [
    | inl stuck ↦ rw (inside, stuck) (Ends-pure [])
    | inr step ↦
        let rest = print_block-Ends fuel dev buf (i + rec_len buf i) (ground arith) in
        rw (inside, step)
          (Ends-bind _ _ (print_dir_entry-Ends dev (entry_inode buf i) (entry_name buf i))
            (λ line. Ends-bind _ _ rest (λ lines. Ends-pure (line ++ lines))))
  ]
]

first_offset : 1024 - 0 < dir_fuel
first_offset = omega arith

print_dir_entries-Ends : (p : ℕ) → Ends (print_dir_entries p)
unfolding print_dir_entries
print_dir_entries-Ends p = search (print_block-Ends, first_offset, steps) depth 24

print_file_entry-Ends : (p : ℕ) (name : Text) → Ends (print_file_entry p name)
unfolding print_file_entry
print_file_entry-Ends p name = search (print_dir_entry-Ends, steps) depth 24

put_empty-Ends : (p : ℕ) → Ends (put_empty p)
unfolding put_empty
put_empty-Ends p = search (path_ends, steps) depth 24

ls_child-Ends : (p : ℕ) (child : Text) (c : ℕ) → Ends (ls_child p child c)
unfolding ls_child
ls_child-Ends p child c =
    search (path_ends, print_dir_entries-Ends, print_file_entry-Ends, steps) depth 24

ls_in-Ends : (dev p : ℕ) (child : Text) → Ends (ls_in dev p child)
unfolding ls_in
ls_in-Ends dev p child = search (path_ends, put_empty-Ends, ls_child-Ends, steps) depth 24

pub shell_ls-Ends : (path : Text) → Ends (shell_ls path)
unfolding shell_ls
shell_ls-Ends path = search (path_ends, ls_in-Ends, steps) depth 24

pub shell_readlink-Ends : (path : Text) → Ends (shell_readlink path)
unfolding shell_readlink
shell_readlink-Ends path = search (path_ends, steps) depth 24

pub shell_stat-Ends : (path : Text) → Ends (shell_stat path)
unfolding shell_stat
shell_stat-Ends path = search (path_ends, steps) depth 24

open_line-Ends : (fd o : ℕ) → Ends (open_line fd o)
unfolding open_line
open_line-Ends fd o = search steps depth 24

pfd_from-Ends : (n i : ℕ) → Ends (pfd_from n i)
unfolding pfd_from
pfd_from-Ends zero i = search steps
pfd_from-Ends (suc n) i = search (open_line-Ends, pfd_from-Ends n, steps) depth 24

pub shell_pfd-Ends : Ends shell_pfd
unfolding shell_pfd
shell_pfd-Ends = pfd_from-Ends _ 0

mounts_from-Ends : (n i : ℕ) → Ends (mounts_from n i)
unfolding mounts_from
mounts_from-Ends zero i = search steps
mounts_from-Ends (suc n) i = search (steps, mounts_from-Ends n) depth 24

pub print_mounttab-Ends : Ends print_mounttab
unfolding print_mounttab
print_mounttab-Ends = mounts_from-Ends nmount 0
