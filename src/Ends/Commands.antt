-- ===== src/Ends/Commands.antt =====
-- The commands that end on every disk image.
use cpts.Base.{ℕ, ◌≡◌, ◌≢◌, Bool, true, false, Option, List, [], ◌∷◌, arith}
use cpts.Bytes.{Buf}
use cpts.Text.{Text}
use cpts.Sim.{Sim}
use cpts.Sim.Monad.{M, out_of_fuel}
use cpts.Dir.{lost, dir_fuel, search_block}
use cpts.Print.{first_entry}
use cpts.Ends.Searches.{search_block-ends, first_entry-ends}
use cpts.Commands.{
  Output, one_operand, two_operands, scanned, my_ls, my_cd, my_mkdir, my_creat, my_link, my_symlink,
  my_readlink, my_stat, my_touch, my_chmod, my_chown, my_chgrp, my_open, my_close, my_lseek, my_pfd,
  my_read, my_write, my_umount, my_switch, my_mount, run,
}
use cpts.Commands.Scan.{Scanned, matched, unmatched, undefined_value}
use cpts.Commands.Table.{
  Command, quit, ls, cd, pwd, mkdir, rmdir, creat, rm, hard_link, symlink, readlink, unlink, stat,
  touch, chmod, chown, chgrp, open_file, close_file, lseek, pfd, read, write, cat, cp, mv,
  mount_image, umount_image, switch,
}
use cpts.Ends.Rules.{Ends, Ends-pure, steps}
use cpts.Ends.Paths.{shell_cd-Ends}
use cpts.Ends.Files.{
  file_mkdir-Ends, file_creat-Ends, file_link-Ends, file_symlink-Ends, file_touch-Ends,
  file_chmod-Ends, file_chown-Ends, file_chgrp-Ends,
}
use cpts.Ends.Print.{
  shell_ls-Ends, shell_readlink-Ends, shell_stat-Ends, shell_pfd-Ends, print_mounttab-Ends,
}
use cpts.Ends.OpenFiles.{
  file_open-Ends, file_close-Ends, file_lseek-Ends, file_read-Ends, file_write-Ends, mount-Ends,
  umount-Ends, my_quit-Ends, pswitch-Ends,
}

module _ {f : Text → M Output} (k : (a : Text) → Ends (f a)) where
  Ends-one_operand : (argv : List Text) → Ends (one_operand f argv)
  Ends-one_operand [] = Ends-pure _
  Ends-one_operand (c ∷ []) = Ends-pure _
  Ends-one_operand (c ∷ a ∷ rest) = k a

module _ {f : Text → Text → M Output} (k : (a b : Text) → Ends (f a b)) where
  Ends-two_operands : (argv : List Text) → Ends (two_operands f argv)
  Ends-two_operands [] = Ends-pure _
  Ends-two_operands (c ∷ []) = Ends-pure _
  Ends-two_operands (c ∷ a ∷ []) = Ends-pure _
  Ends-two_operands (c ∷ a ∷ b ∷ rest) = k a b

Ends-scanned : (r : Scanned) (f : ℕ → M Output) → ((v : ℕ) → Ends (f v)) → Ends (scanned r f)
Ends-scanned (matched v) f k = k v
Ends-scanned unmatched f k = search steps
Ends-scanned undefined_value f k = search steps

ruleset operands = (Ends-one_operand, Ends-two_operands, Ends-scanned, steps)

my_ls-Ends : (argv : List Text) → Ends (my_ls argv)
unfolding my_ls
my_ls-Ends [] = search (shell_ls-Ends, steps)
my_ls-Ends (c ∷ []) = search (shell_ls-Ends, steps)
my_ls-Ends (c ∷ a ∷ rest) = search (shell_ls-Ends, steps)

my_cd-Ends : (argv : List Text) → Ends (my_cd argv)
unfolding my_cd
my_cd-Ends [] = search (shell_cd-Ends, steps)
my_cd-Ends (c ∷ []) = search (shell_cd-Ends, steps)
my_cd-Ends (c ∷ a ∷ rest) = search (shell_cd-Ends, steps)

-- The commands whose loops depend on more than the length of a block or of a table: `pwd`, the
-- ones that remove an entry, and the ones that read a whole file.
abbrev pub may_loop : Command → Bool
may_loop pwd = true
may_loop rmdir = true
may_loop rm = true
may_loop unlink = true
may_loop cat = true
may_loop cp = true
may_loop mv = true
may_loop _ = false

module _ (os_open : Text → Option ℕ) where
  my_mount-Ends : (argv : List Text) → Ends (my_mount os_open argv)
  unfolding my_mount
  my_mount-Ends [] = search (print_mounttab-Ends, steps)
  my_mount-Ends (c ∷ []) = search (print_mounttab-Ends, steps)
  my_mount-Ends (c ∷ a ∷ []) = search steps
  my_mount-Ends (c ∷ a ∷ b ∷ rest) = search (mount-Ends, steps)

  run-Ends : (c : Command) (argv : List Text) → may_loop c ≡ false → Ends (run os_open c argv)
  unfolding run my_mkdir my_creat my_link my_symlink my_readlink my_stat my_touch my_chmod my_chown
      my_chgrp my_open my_close my_lseek my_pfd my_read my_write my_umount my_switch
  run-Ends quit argv e = search (my_quit-Ends, steps)
  run-Ends ls argv e = my_ls-Ends argv
  run-Ends cd argv e = my_cd-Ends argv
  run-Ends pwd argv e = cc
  run-Ends mkdir argv e = search (operands, file_mkdir-Ends) depth 12
  run-Ends rmdir argv e = cc
  run-Ends creat argv e = search (operands, file_creat-Ends) depth 12
  run-Ends rm argv e = cc
  run-Ends hard_link argv e = search (operands, file_link-Ends) depth 12
  run-Ends symlink argv e = search (operands, file_symlink-Ends) depth 12
  run-Ends readlink argv e = search (operands, shell_readlink-Ends) depth 12
  run-Ends unlink argv e = cc
  run-Ends stat argv e = search (operands, shell_stat-Ends) depth 12
  run-Ends touch argv e = search (operands, file_touch-Ends) depth 12
  run-Ends chmod argv e = search (operands, file_chmod-Ends) depth 12
  run-Ends chown argv e = search (operands, file_chown-Ends) depth 12
  run-Ends chgrp argv e = search (operands, file_chgrp-Ends) depth 12
  run-Ends open_file argv e = search (operands, file_open-Ends) depth 12
  run-Ends close_file argv e = search (operands, file_close-Ends) depth 12
  run-Ends lseek argv e = search (operands, file_lseek-Ends) depth 12
  run-Ends pfd argv e = search (shell_pfd-Ends, steps)
  run-Ends read argv e = search (operands, file_read-Ends) depth 12
  run-Ends write argv e = search (operands, file_write-Ends) depth 12
  run-Ends cat argv e = cc
  run-Ends cp argv e = cc
  run-Ends mv argv e = cc
  run-Ends mount_image argv e = my_mount-Ends argv
  run-Ends umount_image argv e = search (operands, umount-Ends) depth 12
  run-Ends switch argv e = search (operands, pswitch-Ends) depth 12

  -- Every command but `pwd`, `rmdir`, `rm`, `unlink`, `cat`, `cp` and `mv` ends, with whatever
  -- operands, in whatever state and on whatever disk images, also damaged ones: its loops and walks
  -- do not go on, and if it does not return, that is by a use of memory that C does not define. The
  -- searches of a block for a name, and for an entry that passes a test, whose answers the commands
  -- use, do not use up their fuel on any block.
  pub run-ends :
      (c : Command) (argv : List Text) (s : Sim)
      → may_loop c ≡ false
      → (run os_open c argv s ≢ out_of_fuel)
        × ((buf : Buf) (name : Text) → search_block dir_fuel buf 0 name ≢ lost)
        × ((buf : Buf) (test : Buf → ℕ → Bool) → first_entry test dir_fuel buf 0 ≢ lost)
  run-ends c argv s e = (
    (run-Ends c argv e).at s,
    λ buf name. search_block-ends dir_fuel buf 0 name (omega arith),
    λ buf test. first_entry-ends test dir_fuel buf 0 (omega arith),
  )
