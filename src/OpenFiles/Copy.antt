-- ===== src/OpenFiles/Copy.antt =====
-- `shell_cat`, `file_cp` and `file_mv` of src/level2.c. Every round of their loops reads a byte at
-- least, and a file has less than 2 ^ 32 bytes: so many rounds are the fuel.
use cpts.Base.{ℕ, zero, suc, ◌^◌, ℤ, pos, negsuc, [], ◌∷◌, ◌++◌, ◌==◌, is_negative, if◌then◌else◌}
use cpts.Disk.{block_size}
use cpts.Text.{Text, length}
use cpts.Sim.Monad.{M, out_of_fuel, pure, ◌>>=◌, ◌>>◌}
use cpts.Paths.{getino}
use cpts.Files.{failed, done}
use cpts.Files.Create.{file_creat, file_link}
use cpts.Files.Delete.{file_unlink}
use cpts.OpenFiles.{file_open, file_close}
use cpts.OpenFiles.Data.{file_read, file_write}

abbrev pub loop_fuel : ℕ
loop_fuel = 2 ^ 32

-- A newline is printed with a carriage return.
unfoldable pub crlf : Text → Text
crlf [] = []
crlf (c ∷ cs) = if c == 0x0A then 0x0D ∷ 0x0A ∷ crlf cs else c ∷ crlf cs

-- What the loop of `shell_cat` prints.
unfoldable pub cat_loop : ℕ → ℕ → M Text
cat_loop zero fd = λ s. out_of_fuel
cat_loop (suc fuel) fd = do
  (n, bytes) ← file_read fd block_size
  if length bytes == 0 then pure [] else do rest ← cat_loop fuel fd; pure (crlf bytes ++ rest)

unfoldable pub cat_open : ℤ → M Text
cat_open (negsuc n) = pure []
cat_open (pos fd) = do out ← cat_loop loop_fuel fd; file_close fd; pure out

unfoldable pub shell_cat : Text → M Text
unfolding cat_open
shell_cat path = do fd ← file_open path 0; cat_open fd

unfoldable pub copy_loop : ℕ → ℕ → ℕ → M (Unit {0})
copy_loop zero fd gd = λ s. out_of_fuel
copy_loop (suc fuel) fd gd = do
  (n, bytes) ← file_read fd block_size
  if length bytes == 0 then pure tt else do file_write gd bytes; copy_loop fuel fd gd

-- The copy, between the descriptors of both files, and what is closed behind it.
unfoldable pub cp_to : ℕ → ℤ → M ℤ
cp_to fd (negsuc n) = do file_close fd; pure failed
cp_to fd (pos gd) = do copy_loop loop_fuel fd gd; file_close fd; file_close gd; pure done

-- Creates the target if it is not there: -1 if that fails.
unfoldable pub ensure : Text → M ℤ
ensure dst = do (dev, ino) ← getino dst; if ino == 0 then file_creat dst else pure done

unfoldable pub cp_from : Text → ℤ → M ℤ
unfolding cp_to ensure
cp_from dst (negsuc n) = pure failed
cp_from dst (pos fd) = do
  r ← ensure dst
  if is_negative r then (do file_close fd; pure failed) else (do gd ← file_open dst 1; cp_to fd gd)

unfoldable pub file_cp : Text → Text → M ℤ
unfolding cp_from
file_cp src dst = do fd ← file_open src 0; cp_from dst fd

-- Removes what stands at the target: -1 if that fails.
unfoldable pub make_way : ℕ → Text → M ℤ
make_way dino dst = if dino == 0 then pure done else file_unlink dst

-- A hard link on one device, and a copy from one to another.
unfoldable pub put_there : ℕ → ℕ → Text → Text → M ℤ
put_there sdev ddev src dst = if sdev == ddev then file_link src dst else file_cp src dst

unfoldable pub file_mv : Text → Text → M ℤ
unfolding make_way put_there
file_mv src dst = do
  (sdev, sino) ← getino src
  if sino == 0 then pure failed else do
    (ddev, dino) ← getino dst
    way ← make_way dino dst
    if is_negative way then pure failed else do
      put ← put_there sdev ddev src dst
      if is_negative put then pure failed else do
        gone ← file_unlink src
        if is_negative gone then (do file_unlink dst; pure failed) else pure done
