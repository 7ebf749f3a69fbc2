-- ===== src/Commands/Tests.antt =====
-- Commands on the sample image.
use cpts.Base.{
  ℕ, not, Bool, ◌<◌, [], ℤ, pos, true, false, Option, some, List, [], ◌∷◌, ◌≡◌, ◌≢◌, refl, arith,
}
use cpts.Bytes.{Buf, put_u8, u16, put_u16, u32, put_u32, copy_in, trim}
use cpts.Disk.{read_at, write_at, get_super, get_group, get_block, put_super, put_group, put_block}
use cpts.Disk.Layout.{
  s_inodes_count, s_blocks_count, s_magic, bg_block_bitmap, bg_inode_bitmap, bg_inode_table,
}
use cpts.Alloc.{
  tst_bit, set_bit, clr_bit, first_clear, less_free, more_free, put_all, alloc, ialloc, balloc,
  dealloc, idealloc, bdealloc, search_overruns, bit_overruns, freed_block,
}
use cpts.Text.{same_text, text_at, c_str, put_text, strncpy}
use cpts.Sim.{update}
use cpts.Minodes.{
  inode_place, load_inode, store_inode, get_at, put_at, inode_get_block, inode_put_block, scan,
  open_minode, iget_at, iget, close_minode, iput_last, iput,
}
use cpts.Minodes.Inode.{
  i_mode, i_uid, i_size, i_atime, i_ctime, i_mtime, i_gid, i_links_count, i_blocks, i_block,
  set_i_mode, set_i_uid, set_i_size, set_i_atime, set_i_ctime, set_i_mtime, set_i_gid,
  set_i_links_count, set_i_blocks, set_i_block, has_type,
}
use cpts.Dir.{
  lost, dir_fuel, search_block, search_blocks, search_dir, last_block, last_entry, ideal_len,
  write_entry, append_entry, grow_dir, insert_at, insert_entry,
}
use cpts.Paths.{
  tokenize, dirname, basename, mount_of, go_up, go_down, walk, start_of, getino_at, getino,
  parseargs, set_cwd, cd_to, shell_cd,
}
use cpts.Files.Create.{
  zero_blocks, fresh_inode, help_mknod, dot_entries, makedir, mkdir_in, in_dir, file_mkdir,
  new_file, creat_in, file_creat, link_in, put_link, symlink_in, target_in, file_link, file_symlink,
}
use cpts.Mounts.{
  mount_slot, alloc_mount, named_mount, get_mounted, any_of_dev, is_mount_busy, mount_entry, attach,
  mount_at, mount_image, mount, detach, umount, init, set_proc_cwd, root_entry, root_image,
  mount_root, put_all_minodes, my_quit,
}
use cpts.Commands.{
  my_ls, my_cd, my_pwd, my_mkdir, my_creat, my_rmdir, my_rm, my_unlink, my_link, my_symlink,
  my_readlink, my_stat, my_touch, my_chmod, my_chown, my_chgrp, my_open, my_close, my_lseek, my_pfd,
  my_read, my_write, my_cat, my_cp, my_mv, my_umount, my_switch, my_mount, run,
}
use cpts.Commands.Scan.{skip_blanks, digits, magnitude, sign_of, scan_int}
use cpts.Commands.Table.{find_command}
use cpts.Commands.Execute.{run_tokens, execute, main_loop, main}
use cpts.Sample.{sample_sim, sample_disk, sample_image}
use cpts.Print.{
  kind_text, perms_from, link_text, line_of, print_dir_entry, print_block, print_dir_entries,
  first_entry, print_file_entry, name_in, help_pwd, shell_pwd, put_empty, ls_child, ls_in, shell_ls,
  shell_readlink, status_of, shell_stat, open_line, pfd_from, shell_pfd, mounts_from,
  print_mounttab,
}
use cpts.Files.Delete.{
  free_direct, rmdir_in, may_rmdir, rmdir_child, unlink_in, may_unlink, unlink_child, child_of,
  file_rmdir, file_unlink,
}
use cpts.Dir.Remove.{
  find_entry, copy_entry, move_entry, shift_entries, close_gap, drop_block, finish_shift, drop_last,
  remove_at, at_spot, remove_from, remove_entry, only_dots, blocks_empty, dir_is_empty,
}
use cpts.Files.Blocks.{clear_direct, clear_each, clear_indirect, clear_inode, clear_blocks}
use cpts.Access.{has_perm, class_bits}
use cpts.Sim.{Sim, no_minode, nminodes}
use cpts.Minodes.Inode.{on_inode, mark_dirty}
use cpts.Minodes.Outcome.{with_minode, loaded}
use cpts.Mounts.Quit.{Numbered, save_all}
use cpts.Commands.Outcome.{is_quit, execute-more, execute-quit}
use cpts.Sim.Monad.{Run, ok, fault, out_of_fuel}
use cpts.Text.{Text, codes}
use cpts.Commands.{Output, nothing, text, descriptor}
use cpts.Commands.Session.{at_start, Reachable, started, typed}
use cpts.Commands.Table.{ls}
use cpts.Ends.Commands.{run-ends}
use cpts.Sound.Closed.{Closed, file_close-Closed}
use cpts.OpenFiles.{
  free_fd, find_proc_fd, find_oft, oft_from, set_fd, opened, claim_oft, open_with, slots, file_open,
  entry_of, file_close,
}
use cpts.Sound.Session.{Reachable-IsSound}

-- All that a run on the image looks through.
runs : ℕ
unfolding search_overruns bit_overruns freed_block put_u8 u16 put_u16 u32 put_u32 copy_in trim
    read_at write_at get_super get_group get_block put_super put_group put_block s_inodes_count
    s_blocks_count s_magic bg_block_bitmap bg_inode_bitmap bg_inode_table tst_bit set_bit clr_bit
    first_clear less_free more_free put_all alloc ialloc balloc dealloc idealloc bdealloc same_text
    text_at c_str put_text strncpy update inode_place load_inode store_inode get_at put_at
    inode_get_block inode_put_block scan open_minode iget_at iget close_minode iput_last iput i_mode
    i_uid i_size i_atime i_ctime i_mtime i_gid i_links_count i_blocks i_block set_i_mode set_i_uid
    set_i_size set_i_atime set_i_ctime set_i_mtime set_i_gid set_i_links_count set_i_blocks
    set_i_block has_type search_block search_blocks search_dir last_block last_entry ideal_len
    write_entry append_entry grow_dir insert_at insert_entry tokenize dirname basename mount_of
    go_up go_down walk start_of getino_at getino parseargs set_cwd cd_to shell_cd zero_blocks
    fresh_inode help_mknod dot_entries makedir mkdir_in in_dir file_mkdir new_file creat_in
    file_creat link_in put_link symlink_in target_in file_link file_symlink mount_slot alloc_mount
    named_mount get_mounted any_of_dev is_mount_busy mount_entry attach mount_at mount_image mount
    detach umount init set_proc_cwd root_entry root_image mount_root put_all_minodes my_quit my_ls
    my_cd my_pwd my_mkdir my_creat my_rmdir my_rm my_unlink my_link my_symlink my_readlink my_stat
    my_touch my_chmod my_chown my_chgrp my_open my_close my_lseek my_pfd my_read my_write my_cat
    my_cp my_mv my_umount my_switch my_mount run skip_blanks digits magnitude sign_of scan_int
    find_command run_tokens execute main_loop main sample_disk sample_image kind_text perms_from
    link_text line_of print_dir_entry print_block print_dir_entries first_entry print_file_entry
    name_in help_pwd shell_pwd put_empty ls_child ls_in shell_ls shell_readlink status_of shell_stat
    open_line pfd_from shell_pfd mounts_from print_mounttab free_direct rmdir_in may_rmdir
    rmdir_child unlink_in may_unlink unlink_child child_of file_rmdir file_unlink find_entry
    copy_entry move_entry shift_entries close_gap drop_block finish_shift drop_last remove_at
    at_spot remove_from remove_entry only_dots blocks_empty dir_is_empty clear_direct clear_each
    clear_indirect clear_inode clear_blocks has_perm class_bits free_fd find_proc_fd find_oft
    oft_from set_fd opened claim_oft open_with slots file_open entry_of
runs = 0

abbrev state_of : {A : Type 0} → Run A → Sim
state_of (ok a s) = s
state_of fault = at_start sample_image 0
state_of out_of_fuel = at_start sample_image 0

-- `open` finds one file.
abbrev one_disk : Text → Option ℕ
one_disk name = some 3

abbrev mounted : Sim
mounted = state_of (mount_root one_disk (codes "disk") (init (at_start sample_image 1000)))

mounts_disk :
    mount_root one_disk (codes "disk") (init (at_start sample_image 1000)) ≡ ok (pos 0) mounted
unfolding runs
mounts_disk = refl

abbrev made : Sim
made = state_of (execute one_disk (codes "mkdir d") mounted)

makes_dir : execute one_disk (codes "mkdir d") mounted ≡ ok (nothing, true) made
unfolding runs
makes_dir = refl

mounted-Reachable : Reachable one_disk sample_image mounted
mounted-Reachable = started 1000 (codes "disk") 0 mounted mounts_disk

abbrev created : Sim
created = state_of (execute one_disk (codes "creat f") mounted)

creates : execute one_disk (codes "creat f") mounted ≡ ok (nothing, true) created
unfolding runs
creates = refl

abbrev open_sim : Sim
open_sim = state_of (execute one_disk (codes "open f 0") created)

opens_file : execute one_disk (codes "open f 0") created ≡ ok (descriptor 0, true) open_sim
unfolding runs
opens_file = refl

open_sim-Reachable : Reachable one_disk sample_image open_sim
open_sim-Reachable =
    typed created open_sim (codes "open f 0") (descriptor 0)
      (typed mounted created (codes "creat f") nothing mounted-Reachable creates) opens_file

names_entry : entry_of 0 open_sim ≡ some 0
unfolding runs
names_entry = refl

entry_minode : (open_sim.oft 0).inodeptr ≡ some 1
unfolding runs
entry_minode = refl

entry_ino : (open_sim.m_inodes 1).ino ≡ 12
unfolding runs
entry_ino = refl

file_close-Closed_example :
    (r : ℤ) × (t : Sim) × (file_close 0 open_sim ≡ ok r t) × Closed open_sim 0 0 r t
file_close-Closed_example =
    file_close-Closed open_sim 0 0 1 11
      (Reachable-IsSound one_disk sample_image open_sim open_sim-Reachable) names_entry entry_minode
      entry_ino

abbrev lines : List Text
lines =
    codes "mkdir d"
    ∷ codes "cd d"
    ∷ codes "pwd"
    ∷ codes "cd .."
    ∷ codes "rmdir d"
    ∷ codes "quit"
    ∷ []

abbrev session : Run (ℤ × List Output)
session = main one_disk (codes "disk") lines (at_start sample_image 1000)

-- What the lines show.
abbrev shown : ℤ × List Output
shown = (pos 0, nothing ∷ nothing ∷ text (codes "/d") ∷ nothing ∷ nothing ∷ nothing ∷ [])

execute-more_example : true ≡ not (is_quit (codes "mkdir d"))
execute-more_example = execute-more one_disk (codes "mkdir d") mounted made nothing true makes_dir

-- The root inode is in use, and changed.
abbrev changed_sim : Sim
changed_sim =
    with_minode sample_sim 0
      (mark_dirty (on_inode (set_i_size 77) (loaded sample_image 3 1 no_minode)))

changed-Numbered : Numbered changed_sim.m_inodes
unfolding update
changed-Numbered i live = ground arith

quit_tokens : tokenize (codes "quit now") b' ' ≡ codes "quit" ∷ codes "now" ∷ []
unfolding runs
quit_tokens = refl

execute-quit_example :
    (t : Sim) × (execute one_disk (codes "quit now") changed_sim ≡ ok (nothing, false) t)
    × ((t.image ≡ save_all changed_sim.m_inodes nminodes 0 sample_image)
        × (((i : ℕ) → i < nminodes → (t.m_inodes i).ref_count ≡ 0)
            × (t ≡ record changed_sim { image = t.image; m_inodes = t.m_inodes })))
execute-quit_example =
    execute-quit one_disk _ _ (codes "now" ∷ []) changed_sim quit_tokens (omega arith)
      changed-Numbered

run-ends_example :
    (run one_disk ls (codes "ls" ∷ []) mounted ≢ out_of_fuel)
    × ((buf : Buf) (name : Text) → search_block dir_fuel buf 0 name ≢ lost)
    × ((buf : Buf) (test : Buf → ℕ → Bool) → first_entry test dir_fuel buf 0 ≢ lost)
run-ends_example = run-ends one_disk ls (codes "ls" ∷ []) mounted refl
