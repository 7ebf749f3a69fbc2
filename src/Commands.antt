-- ===== src/Commands.antt =====
-- src/command.c: the commands, `execute`, and the main loop of src/main.c. A command gets the
-- tokens of its line. Its result is what it shows; messages are left out. `open` is a parameter.
pub mod Scan
pub mod Table
pub mod Execute
pub mod Session
pub mod Outcome
mod Tests
use cpts.Base.{
  ℕ, zero, suc, ◌+◌, ℤ, pos, negsuc, Bool, true, false, not, ◌&&◌, Option, none, some, List, [],
  ◌∷◌, ltb, leb, ◌==◌, is_negative, if◌then◌else◌,
}
use cpts.Text.{Text, length, same_text, codes}
use cpts.Sim.{Sim}
use cpts.Sim.Monad.{M, stop, out_of_fuel, pure, ◌>>=◌, ◌>>◌, gets}
use cpts.Access.{pswitch}
use cpts.Paths.{tokenize, shell_cd}
use cpts.Files.Create.{file_mkdir, file_creat, file_link, file_symlink}
use cpts.Files.Delete.{file_rmdir, file_unlink}
use cpts.Files.Attributes.{file_touch, file_chmod, file_chown, file_chgrp}
use cpts.OpenFiles.{file_open, file_close, file_lseek}
use cpts.OpenFiles.Data.{file_read, file_write}
use cpts.OpenFiles.Copy.{shell_cat, file_cp, file_mv}
use cpts.Mounts.{mount, umount, init, mount_root, my_quit}
use cpts.Print.{
  Line, Status, OpenLine, shell_ls, shell_pwd, shell_readlink, shell_stat, shell_pfd,
  print_mounttab,
}
use cpts.Commands.Table.{
  Command, quit, ls, cd, pwd, mkdir, rmdir, creat, rm, hard_link, symlink, readlink, unlink, stat,
  touch, chmod, chown, chgrp, open_file, close_file, lseek, pfd, read, write, cat, cp, mv,
  mount_image, umount_image, switch,
}
use cpts.Commands.Scan.{Scanned, matched, unmatched, undefined_value, scan_u, scan_o, scan_d}

-- What a command shows, behind the messages of the functions that it calls.
pub data Output : Type 0 where
  nothing missing_operand invalid_input closed : Output
  descriptor previous : ℕ → Output
  bytes_read : Text → ℤ → Output
  bytes_written : ℤ → Output
  text : Text → Output
  listing : List Line → Output
  link : Option Text → Output
  status : Option Status → Output
  descriptors : List OpenLine → Output
  mounts : List (Text × Text × ℕ) → Output

-- A command that shows nothing itself.
abbrev quiet : {A : Type 0} → M A → M Output
quiet m = do m; pure nothing

-- `if (argc < 2) … else f(argv[1])`, and the same with two operands.
abbrev pub one_operand : (Text → M Output) → List Text → M Output
one_operand f (cmd ∷ a ∷ rest) = f a
one_operand f _ = pure missing_operand

abbrev pub two_operands : (Text → Text → M Output) → List Text → M Output
two_operands f (cmd ∷ a ∷ b ∷ rest) = f a b
two_operands f _ = pure missing_operand

-- `if (sscanf(…) < 1) … else f(value)`
abbrev pub scanned : Scanned → (ℕ → M Output) → M Output
scanned (matched v) f = f v
scanned unmatched f = pure invalid_input
scanned undefined_value f = stop

unfoldable pub my_ls : List Text → M Output
my_ls (cmd ∷ a ∷ rest) = do lines ← shell_ls a; pure (listing lines)
my_ls _ = do lines ← shell_ls (codes "."); pure (listing lines)

unfoldable pub my_cd : List Text → M Output
my_cd (cmd ∷ a ∷ rest) = quiet (shell_cd (some a))
my_cd _ = quiet (shell_cd none)

unfoldable pub my_pwd : List Text → M Output
my_pwd argv = do path ← shell_pwd; pure (text path)

unfoldable pub my_mkdir : List Text → M Output
my_mkdir argv = one_operand (λ a. quiet (file_mkdir a)) argv

unfoldable pub my_creat : List Text → M Output
my_creat argv = one_operand (λ a. quiet (file_creat a)) argv

unfoldable pub my_rmdir : List Text → M Output
my_rmdir argv = one_operand (λ a. quiet (file_rmdir a)) argv

unfoldable pub my_rm : List Text → M Output
my_rm argv = one_operand (λ a. quiet (file_unlink a)) argv

unfoldable pub my_unlink : List Text → M Output
my_unlink argv = one_operand (λ a. quiet (file_unlink a)) argv

unfoldable pub my_link : List Text → M Output
my_link argv = two_operands (λ a b. quiet (file_link a b)) argv

unfoldable pub my_symlink : List Text → M Output
my_symlink argv = two_operands (λ a b. quiet (file_symlink a b)) argv

unfoldable pub my_readlink : List Text → M Output
my_readlink argv = one_operand (λ a. do target ← shell_readlink a; pure (link target)) argv

unfoldable pub my_stat : List Text → M Output
my_stat argv = one_operand (λ a. do st ← shell_stat a; pure (status st)) argv

unfoldable pub my_touch : List Text → M Output
my_touch argv = one_operand (λ a. quiet (file_touch a)) argv

unfoldable pub my_chmod : List Text → M Output
my_chmod argv = two_operands (λ a b. scanned (scan_o a) (λ mode. quiet (file_chmod mode b))) argv

unfoldable pub my_chown : List Text → M Output
my_chown argv = two_operands (λ a b. scanned (scan_d a) (λ own. quiet (file_chown own b))) argv

unfoldable pub my_chgrp : List Text → M Output
my_chgrp argv = two_operands (λ a b. scanned (scan_d a) (λ grp. quiet (file_chgrp grp b))) argv

abbrev shown_fd : ℤ → Output
shown_fd (pos fd) = descriptor fd
shown_fd (negsuc n) = nothing

unfoldable pub my_open : List Text → M Output
my_open argv =
    two_operands (λ a b. scanned (scan_u b) (λ mode. do fd ← file_open a mode; pure (shown_fd fd)))
      argv

abbrev shown_close : ℤ → Output
shown_close (pos zero) = closed
shown_close _ = nothing

unfoldable pub my_close : List Text → M Output
my_close argv =
    one_operand (λ a. scanned (scan_u a) (λ fd. do r ← file_close fd; pure (shown_close r))) argv

abbrev shown_offset : ℤ → Output
shown_offset (pos off) = previous off
shown_offset (negsuc n) = nothing

unfoldable pub my_lseek : List Text → M Output
my_lseek argv =
    two_operands
      (λ a b.
        scanned (scan_u a)
          (λ fd. scanned (scan_u b) (λ at. do off ← file_lseek fd at; pure (shown_offset off))))
      argv

unfoldable pub my_pfd : List Text → M Output
my_pfd argv = do lines ← shell_pfd; pure (descriptors lines)

-- `char buf[bytes]` has no meaning for a length that is not positive.
abbrev is_length : ℕ → Bool
is_length n = ltb 0 n && ltb n 2147483648

unfoldable pub my_read : List Text → M Output
my_read argv =
    two_operands
      (λ a b. scanned (scan_u a) (λ fd. scanned (scan_u b) (λ n.
        if is_length n
        then (do (count, out) ← file_read fd n; pure (bytes_read out count))
        else stop)))
      argv

unfoldable pub my_write : List Text → M Output
my_write argv =
    two_operands (λ a b. scanned (scan_u a) (λ fd. do n ← file_write fd b; pure (bytes_written n)))
      argv

unfoldable pub my_cat : List Text → M Output
my_cat argv = one_operand (λ a. do out ← shell_cat a; pure (text out)) argv

unfoldable pub my_cp : List Text → M Output
my_cp argv = two_operands (λ a b. quiet (file_cp a b)) argv

unfoldable pub my_mv : List Text → M Output
my_mv argv = two_operands (λ a b. quiet (file_mv a b)) argv

unfoldable pub my_umount : List Text → M Output
my_umount argv = one_operand (λ a. quiet (umount a)) argv

unfoldable pub my_switch : List Text → M Output
my_switch argv = one_operand (λ a. scanned (scan_u a) (λ uid. quiet (pswitch uid))) argv

module _ (os_open : Text → Option ℕ) where
  -- With one operand missing, the mount table is shown.
  unfoldable pub my_mount : List Text → M Output
  my_mount (cmd ∷ a ∷ b ∷ rest) = quiet (mount os_open a b)
  my_mount (cmd ∷ a ∷ []) = pure missing_operand
  my_mount _ = do lines ← print_mounttab; pure (mounts lines)

  unfoldable pub run : Command → List Text → M Output
  run quit argv = quiet my_quit
  run ls argv = my_ls argv
  run cd argv = my_cd argv
  run pwd argv = my_pwd argv
  run mkdir argv = my_mkdir argv
  run rmdir argv = my_rmdir argv
  run creat argv = my_creat argv
  run rm argv = my_rm argv
  run hard_link argv = my_link argv
  run symlink argv = my_symlink argv
  run readlink argv = my_readlink argv
  run unlink argv = my_unlink argv
  run stat argv = my_stat argv
  run touch argv = my_touch argv
  run chmod argv = my_chmod argv
  run chown argv = my_chown argv
  run chgrp argv = my_chgrp argv
  run open_file argv = my_open argv
  run close_file argv = my_close argv
  run lseek argv = my_lseek argv
  run pfd argv = my_pfd argv
  run read argv = my_read argv
  run write argv = my_write argv
  run cat argv = my_cat argv
  run cp argv = my_cp argv
  run mv argv = my_mv argv
  run mount_image argv = my_mount argv
  run umount_image argv = my_umount argv
  run switch argv = my_switch argv
