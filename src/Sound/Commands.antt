-- ===== src/Sound/Commands.antt =====
-- Every command of src/command.c keeps the state sound, and so does every line that `execute` gets.
use cpts.Base.{ℕ, Option, List, [], ◌∷◌}
use cpts.Text.{Text}
use cpts.Sim.Monad.{M}
use cpts.Commands.{
  Output, one_operand, two_operands, scanned, my_ls, my_cd, my_pwd, my_mkdir, my_creat, my_rmdir,
  my_rm, my_unlink, my_link, my_symlink, my_readlink, my_stat, my_touch, my_chmod, my_chown,
  my_chgrp, my_open, my_close, my_lseek, my_pfd, my_read, my_write, my_cat, my_cp, my_mv, my_umount,
  my_switch, my_mount, run,
}
use cpts.Commands.Scan.{Scanned, matched, unmatched, undefined_value}
use cpts.Commands.Table.{
  Command, quit, ls, cd, pwd, mkdir, rmdir, creat, rm, hard_link, symlink, readlink, unlink, stat,
  touch, chmod, chown, chgrp, open_file, close_file, lseek, pfd, read, write, cat, cp, mv,
  mount_image, umount_image, switch,
}
use cpts.Commands.Execute.{run_tokens, execute}
use cpts.Paths.{tokenize}
use cpts.Sound.Rules.{Keeps, Any, control}
use cpts.Sound.Paths.{shell_cd-Keeps}
use cpts.Sound.Files.{
  file_mkdir-Keeps, file_creat-Keeps, file_link-Keeps, file_symlink-Keeps, file_rmdir-Keeps,
  file_unlink-Keeps, file_touch-Keeps, file_chmod-Keeps, file_chown-Keeps, file_chgrp-Keeps,
}
use cpts.Sound.Opening.{file_open-Keeps}
use cpts.Sound.Descriptors.{file_close-Keeps}
use cpts.Sound.OpenFiles.{
  file_lseek-Keeps, file_read-Keeps, file_write-Keeps, shell_cat-Keeps, file_cp-Keeps,
  file_mv-Keeps,
}
use cpts.Sound.Mounts.{mount-Keeps, umount-Keeps, my_quit-Keeps, pswitch-Keeps}
use cpts.Sound.Print.{
  shell_pwd-Keeps, shell_ls-Keeps, shell_readlink-Keeps, shell_stat-Keeps, print_mounttab-Keeps,
  shell_pfd-Keeps,
}

module _ {f : Text → M Output} (k : (a : Text) → Keeps Any (f a)) where
  Keeps-one_operand : (argv : List Text) → Keeps Any (one_operand f argv)
  Keeps-one_operand [] = search control
  Keeps-one_operand (c ∷ []) = search control
  Keeps-one_operand (c ∷ a ∷ rest) = k a

module _ {f : Text → Text → M Output} (k : (a b : Text) → Keeps Any (f a b)) where
  Keeps-two_operands : (argv : List Text) → Keeps Any (two_operands f argv)
  Keeps-two_operands [] = search control
  Keeps-two_operands (c ∷ []) = search control
  Keeps-two_operands (c ∷ a ∷ []) = search control
  Keeps-two_operands (c ∷ a ∷ b ∷ rest) = k a b

Keeps-scanned :
    (r : Scanned) (f : ℕ → M Output) → ((v : ℕ) → Keeps Any (f v)) → Keeps Any (scanned r f)
Keeps-scanned (matched v) f k = k v
Keeps-scanned unmatched f k = search control
Keeps-scanned undefined_value f k = search control

ruleset operands = (Keeps-one_operand, Keeps-two_operands, Keeps-scanned, control)

-- The commands with operands of their own kind.
my_ls-Keeps : (argv : List Text) → Keeps Any (my_ls argv)
unfolding my_ls
my_ls-Keeps [] = search (shell_ls-Keeps, control)
my_ls-Keeps (c ∷ []) = search (shell_ls-Keeps, control)
my_ls-Keeps (c ∷ a ∷ rest) = search (shell_ls-Keeps, control)

my_cd-Keeps : (argv : List Text) → Keeps Any (my_cd argv)
unfolding my_cd
my_cd-Keeps [] = search (shell_cd-Keeps, control)
my_cd-Keeps (c ∷ []) = search (shell_cd-Keeps, control)
my_cd-Keeps (c ∷ a ∷ rest) = search (shell_cd-Keeps, control)

module _ (os_open : Text → Option ℕ) where
  my_mount-Keeps : (argv : List Text) → Keeps Any (my_mount os_open argv)
  unfolding my_mount
  my_mount-Keeps [] = search (print_mounttab-Keeps, control)
  my_mount-Keeps (c ∷ []) = search (print_mounttab-Keeps, control)
  my_mount-Keeps (c ∷ a ∷ []) = search control
  my_mount-Keeps (c ∷ a ∷ b ∷ rest) = search (mount-Keeps, control)

  pub run-Keeps : (c : Command) (argv : List Text) → Keeps Any (run os_open c argv)
  unfolding run my_pwd my_mkdir my_creat my_rmdir my_rm my_unlink my_link my_symlink my_readlink
      my_stat my_touch my_chmod my_chown my_chgrp my_open my_close my_lseek my_pfd my_read my_write
      my_cat my_cp my_mv my_umount my_switch
  run-Keeps quit argv = search (my_quit-Keeps, control)
  run-Keeps ls argv = my_ls-Keeps argv
  run-Keeps cd argv = my_cd-Keeps argv
  run-Keeps pwd argv = search (shell_pwd-Keeps, control)
  run-Keeps mkdir argv = search (operands, file_mkdir-Keeps) depth 12
  run-Keeps rmdir argv = search (operands, file_rmdir-Keeps) depth 12
  run-Keeps creat argv = search (operands, file_creat-Keeps) depth 12
  run-Keeps rm argv = search (operands, file_unlink-Keeps) depth 12
  run-Keeps hard_link argv = search (operands, file_link-Keeps) depth 12
  run-Keeps symlink argv = search (operands, file_symlink-Keeps) depth 12
  run-Keeps readlink argv = search (operands, shell_readlink-Keeps) depth 12
  run-Keeps unlink argv = search (operands, file_unlink-Keeps) depth 12
  run-Keeps stat argv = search (operands, shell_stat-Keeps) depth 12
  run-Keeps touch argv = search (operands, file_touch-Keeps) depth 12
  run-Keeps chmod argv = search (operands, file_chmod-Keeps) depth 12
  run-Keeps chown argv = search (operands, file_chown-Keeps) depth 12
  run-Keeps chgrp argv = search (operands, file_chgrp-Keeps) depth 12
  run-Keeps open_file argv = search (operands, file_open-Keeps) depth 12
  run-Keeps close_file argv = search (operands, file_close-Keeps) depth 12
  run-Keeps lseek argv = search (operands, file_lseek-Keeps) depth 12
  run-Keeps pfd argv = search (shell_pfd-Keeps, control)
  run-Keeps read argv = search (operands, file_read-Keeps) depth 12
  run-Keeps write argv = search (operands, file_write-Keeps) depth 12
  run-Keeps cat argv = search (operands, shell_cat-Keeps) depth 12
  run-Keeps cp argv = search (operands, file_cp-Keeps) depth 12
  run-Keeps mv argv = search (operands, file_mv-Keeps) depth 12
  run-Keeps mount_image argv = my_mount-Keeps argv
  run-Keeps umount_image argv = search (operands, umount-Keeps) depth 12
  run-Keeps switch argv = search (operands, pswitch-Keeps) depth 12

  run_tokens-Keeps : (ts : List Text) → Keeps Any (run_tokens os_open ts)
  unfolding run_tokens
  run_tokens-Keeps [] = search control
  run_tokens-Keeps (name ∷ rest) = search (run-Keeps, control) depth 12

  pub execute-Keeps : (line : Text) → Keeps Any (execute os_open line)
  unfolding execute
  execute-Keeps [] = search control
  execute-Keeps (c ∷ cs) = run_tokens-Keeps (tokenize (c ∷ cs) b' ')
