-- ===== src/Sound/OpenFiles.antt =====
-- The operations of src/level2.c on open files keep the state sound.
use cpts.Base.{ℕ, zero, suc, ℤ, pos, negsuc, leb, Option, Bool-cases, inl, inr}
use cpts.Text.{Text}
use cpts.Sim.{Sim, nfd, noft}
use cpts.Sim.Monad.{M, gets, ◌>>=◌}
use cpts.OpenFiles.{entry_of, lseek_in, file_lseek}
use cpts.OpenFiles.Data.{Written, read_in, file_read, finish_write, write_in, file_write}
use cpts.OpenFiles.Copy.{
  cat_loop, cat_open, shell_cat, copy_loop, cp_to, ensure, cp_from, file_cp, make_way, put_there,
  file_mv,
}
use cpts.Sound.{InTable, IsSound}
use cpts.Sound.Rules.{Keeps, Any, control}
use cpts.Sound.Primitives.{writes}
use cpts.Sound.Reads.{reads, Keeps-load}
use cpts.Sound.Opening.{file_open-Keeps}
use cpts.Sound.Descriptors.{file_close-Keeps}
use cpts.Sound.Paths.{getino-Keeps}
use cpts.Sound.Files.{file_creat-Keeps, file_link-Keeps, file_unlink-Keeps}

entry_of-InTable : (fd : ℕ) (s : Sim) → IsSound s → InTable noft (entry_of fd s)
unfolding entry_of
entry_of-InTable fd s h = elim (Bool-cases (leb nfd fd)) [
  | inl out ↦ rw out tt
  | inr fits ↦ rw fits (h.descriptors s.running fd)
]

Keeps-entry_of :
    {B : Type 0} {R : B → Type 0} (fd : ℕ) (f : Option ℕ → M B)
    → ((o : Option ℕ) → InTable noft o → Keeps R (f o))
    → Keeps R (gets (entry_of fd) >>= f)
Keeps-entry_of fd f k = Keeps-load noft (entry_of fd) f (entry_of-InTable fd) k

lseek_in-Keeps : (o at : ℕ) → Keeps Any (lseek_in o at)
unfolding lseek_in
lseek_in-Keeps o at = search (reads, writes, control) depth 24

pub file_lseek-Keeps : (fd at : ℕ) → Keeps Any (file_lseek fd at)
unfolding file_lseek
file_lseek-Keeps fd at = search (Keeps-entry_of, control, lseek_in-Keeps) depth 24

read_in-Keeps : (o n : ℕ) → Keeps Any (read_in o n)
unfolding read_in
read_in-Keeps o n = search (reads, writes, control) depth 24

pub file_read-Keeps : (fd n : ℕ) → Keeps Any (file_read fd n)
unfolding file_read
file_read-Keeps fd n = search (Keeps-entry_of, control, read_in-Keeps) depth 24

finish_write-Keeps : (o p : ℕ) (s : Text) (w : Written) → Keeps Any (finish_write o p s w)
unfolding finish_write
finish_write-Keeps o p s w = search (writes, control) depth 24

write_in-Keeps : (o : ℕ) (s : Text) → Keeps Any (write_in o s)
unfolding write_in
write_in-Keeps o s = search (reads, control, finish_write-Keeps) depth 24

pub file_write-Keeps : (fd : ℕ) (s : Text) → Keeps Any (file_write fd s)
unfolding file_write
file_write-Keeps fd s = search (Keeps-entry_of, control, write_in-Keeps) depth 24

cat_loop-Keeps : (fuel fd : ℕ) → Keeps Any (cat_loop fuel fd)
unfolding cat_loop
cat_loop-Keeps zero fd = search control
cat_loop-Keeps (suc fuel) fd = search (file_read-Keeps, cat_loop-Keeps fuel, control) depth 24

cat_open-Keeps : (r : ℤ) → Keeps Any (cat_open r)
unfolding cat_open
cat_open-Keeps (negsuc n) = search control
cat_open-Keeps (pos fd) = search (cat_loop-Keeps, file_close-Keeps, control) depth 24

pub shell_cat-Keeps : (path : Text) → Keeps Any (shell_cat path)
unfolding shell_cat
shell_cat-Keeps path = search (file_open-Keeps, cat_open-Keeps, control) depth 24

copy_loop-Keeps : (fuel fd gd : ℕ) → Keeps Any (copy_loop fuel fd gd)
unfolding copy_loop
copy_loop-Keeps zero fd gd = search control
copy_loop-Keeps (suc fuel) fd gd =
    search (file_read-Keeps, file_write-Keeps, copy_loop-Keeps fuel, control) depth 24

cp_to-Keeps : (fd : ℕ) (r : ℤ) → Keeps Any (cp_to fd r)
unfolding cp_to
cp_to-Keeps fd (negsuc n) = search (file_close-Keeps, control) depth 24
cp_to-Keeps fd (pos gd) = search (copy_loop-Keeps, file_close-Keeps, control) depth 24

ensure-Keeps : (dst : Text) → Keeps Any (ensure dst)
unfolding ensure
ensure-Keeps dst = search (getino-Keeps, file_creat-Keeps, control) depth 24

cp_from-Keeps : (dst : Text) (r : ℤ) → Keeps Any (cp_from dst r)
unfolding cp_from
cp_from-Keeps dst (negsuc n) = search control
cp_from-Keeps dst (pos fd) =
    search (ensure-Keeps, file_open-Keeps, file_close-Keeps, cp_to-Keeps, control) depth 24

pub file_cp-Keeps : (src dst : Text) → Keeps Any (file_cp src dst)
unfolding file_cp
file_cp-Keeps src dst = search (file_open-Keeps, cp_from-Keeps, control) depth 24

make_way-Keeps : (dino : ℕ) (dst : Text) → Keeps Any (make_way dino dst)
unfolding make_way
make_way-Keeps dino dst = search (file_unlink-Keeps, control) depth 24

put_there-Keeps : (sdev ddev : ℕ) (src dst : Text) → Keeps Any (put_there sdev ddev src dst)
unfolding put_there
put_there-Keeps sdev ddev src dst = search (file_link-Keeps, file_cp-Keeps, control) depth 24

pub file_mv-Keeps : (src dst : Text) → Keeps Any (file_mv src dst)
unfolding file_mv
file_mv-Keeps src dst =
    search (getino-Keeps, make_way-Keeps, put_there-Keeps, file_unlink-Keeps, control) depth 24
