-- ===== src/Ends/OpenFiles.antt =====
-- The operations on open files, the mounts, and `my_quit` end.
use cpts.Base.{
  ℕ, zero, suc, ◌+◌, ◌≡◌, ◌≢◌, Option, none, some, on_some, leb, Bool-cases, inl, inr, arith, refl,
  ◌∙◌, sym,
}
use cpts.Bytes.{Buf}
use cpts.Disk.{Image}
use cpts.Text.{Text, length}
use cpts.Sim.{Sim, nmount, nproc, nminodes}
use cpts.Sim.Monad.{M, Run, out_of_fuel, gets, ◌>>=◌}
use cpts.Access.{pswitch}
use cpts.OpenFiles.{
  set_fd, opened, claim_oft, open_with, file_open, close_entry, file_close, lseek_in, file_lseek,
}
use cpts.OpenFiles.Data.{
  Written, read_loop, read_in, file_read, finish_write, write_loop, write_in, file_write,
}
use cpts.OpenFiles.Reading.{read_loop-file_text}
use cpts.OpenFiles.Copying.{write_loop-ends}
use cpts.Mounts.{
  named_mount, get_mounted, attach, mount_at, mount_image, mount, detach, umount, put_all_minodes,
  my_quit,
}
use cpts.Ends.Rules.{Ends, steps}
use cpts.Ends.Paths.{path_ends, iput-Ends}
use cpts.Ends.Files.{clear_blocks-Ends, file_mkdir-Ends}

set_fd-Ends : (fd : ℕ) (v : Option ℕ) → Ends (set_fd fd v)
unfolding set_fd
set_fd-Ends fd v = search steps

opened-Ends : (fd o : ℕ) → Ends (opened fd o)
unfolding opened
opened-Ends fd o = search (steps, set_fd-Ends) depth 24

claim_oft-Ends : (mode p o : ℕ) → Ends (claim_oft mode p o)
unfolding claim_oft
claim_oft-Ends mode p o = search (steps, clear_blocks-Ends) depth 24

open_with-Ends : (mode p fd o : ℕ) → Ends (open_with mode p fd o)
unfolding open_with
open_with-Ends mode p fd o = search (path_ends, steps, opened-Ends, claim_oft-Ends) depth 24

pub file_open-Ends : (file : Text) (mode : ℕ) → Ends (file_open file mode)
unfolding file_open
file_open-Ends file mode = search (path_ends, steps, open_with-Ends) depth 24

close_entry-Ends : (o : ℕ) → Ends (close_entry o)
unfolding close_entry
close_entry-Ends o = search (path_ends, steps) depth 24

pub file_close-Ends : (fd : ℕ) → Ends (file_close fd)
unfolding file_close
file_close-Ends fd = search (steps, set_fd-Ends, close_entry-Ends) depth 24

lseek_in-Ends : (o at : ℕ) → Ends (lseek_in o at)
unfolding lseek_in
lseek_in-Ends o at = search steps depth 24

pub file_lseek-Ends : (fd at : ℕ) → Ends (file_lseek fd at)
unfolding file_lseek
file_lseek-Ends fd at = search (steps, lseek_in-Ends) depth 24

-- A loop that ends within its fuel, and what is done with its result.
Ends-loop :
    {A B : Type 0} (f : Sim → Option B) (k : B → M A)
    → ((s : Sim) → f s ≢ none)
    → ((b : B) → Ends (k b))
    → Ends (gets f >>= λ got. on_some got (λ s. out_of_fuel) k)
Ends-loop {A} {B} f k some_end kk = record { at = λ s. go s (f s) (some_end s) }
  where
    go :
        (s : Sim) (r : Option B)
        → r ≢ none
        → ◌≢◌ {A = Run A} (on_some r (λ s. out_of_fuel) k s) out_of_fuel
    go s none h e = h refl
    go s (some b) h e = (kk b).at s e

read_loop-ends :
    (img : Image) (dev : ℕ) (ip : Buf) (offset n bytes : ℕ)
    → read_loop (n + 1) img dev ip offset n bytes ≢ none
read_loop-ends img dev ip offset n bytes e =
    some_none (sym (read_loop-file_text img dev ip (n + 1) offset n bytes (omega arith)) ∙ e)
  where
    some_none : {t : Text} → ¬ (some t ≡ none)
    some_none h = cc

read_in-Ends : (o n : ℕ) → Ends (read_in o n)
unfolding read_in
read_in-Ends o n = search (Ends-loop, read_loop-ends, steps) depth 24

pub file_read-Ends : (fd n : ℕ) → Ends (file_read fd n)
unfolding file_read
file_read-Ends fd n = search (steps, read_in-Ends) depth 24

write_loop-some : (dev : ℕ) (b : Text) (w : Written) → write_loop (length b + 1) dev b w ≢ none
write_loop-some dev b w e =
    let (v, run, end) = write_loop-ends (length b + 1) dev b w (omega arith) in
    some_none (sym run ∙ e)
  where
    some_none : {v : Written} → ¬ (some v ≡ none)
    some_none h = cc

finish_write-Ends : (o p : ℕ) (b : Text) (w : Written) → Ends (finish_write o p b w)
unfolding finish_write
finish_write-Ends o p b w = search steps depth 24

write_in-Ends : (o : ℕ) (b : Text) → Ends (write_in o b)
unfolding write_in
write_in-Ends o b = search (Ends-loop, write_loop-some, finish_write-Ends, steps) depth 24

pub file_write-Ends : (fd : ℕ) (b : Text) → Ends (file_write fd b)
unfolding file_write
file_write-Ends fd b = search (steps, write_in-Ends) depth 24

detach-Ends : (md : ℕ) → Ends (detach md)
unfolding detach
detach-Ends md = search (path_ends, steps) depth 24

named_mount-Ends : (name : Text) (n i : ℕ) → Ends (named_mount name n i)
unfolding named_mount
named_mount-Ends name zero i = search steps
named_mount-Ends name (suc n) i = search (steps, named_mount-Ends name n) depth 24

get_mounted-Ends : (filesys : Text) → Ends (get_mounted filesys)
unfolding get_mounted
get_mounted-Ends filesys = named_mount-Ends filesys nmount 0

pub umount-Ends : (filesys : Text) → Ends (umount filesys)
unfolding umount
umount-Ends filesys = search (steps, get_mounted-Ends, detach-Ends) depth 24

attach-Ends : (fd p md : ℕ) (filesys path : Text) → Ends (attach fd p md filesys path)
unfolding attach
attach-Ends fd p md filesys path = search steps depth 24

mount_at-Ends : (fd : ℕ) (filesys path : Text) → Ends (mount_at fd filesys path)
unfolding mount_at
mount_at-Ends fd filesys path = search (path_ends, steps, attach-Ends) depth 24

mount_image-Ends : (fd : ℕ) (filesys path : Text) → Ends (mount_image fd filesys path)
unfolding mount_image
mount_image-Ends fd filesys path = search (steps, file_mkdir-Ends, mount_at-Ends) depth 24

pub mount-Ends :
    (os_open : Text → Option ℕ) (filesys path : Text) → Ends (mount os_open filesys path)
unfolding mount
mount-Ends os_open filesys path = search (steps, get_mounted-Ends, mount_image-Ends) depth 24

put_all_minodes-Ends : (n i : ℕ) → Ends (put_all_minodes n i)
unfolding put_all_minodes
put_all_minodes-Ends zero i = search steps
put_all_minodes-Ends (suc n) i = search (steps, iput-Ends, put_all_minodes-Ends n) depth 24

pub my_quit-Ends : Ends my_quit
unfolding my_quit
my_quit-Ends = put_all_minodes-Ends nminodes 0

pub pswitch-Ends : (uid : ℕ) → Ends (pswitch uid)
unfolding pswitch
pswitch-Ends uid = record {
  at = λ s e. elim (Bool-cases (leb 2147483648 uid)) [
    | inl below ↦ (cc (rw below at e))
    | inr k ↦ elim (Bool-cases (leb nproc uid)) [
      | inl above ↦ cc (rw (k, above) at e)
      | inr fits ↦ cc (rw (k, fits) at e)
    ]
  ];
}
