-- ===== src/OpenFiles/Copying.antt =====
-- `file_write` and the loop of `file_cp` end.
use cpts.Base.{
  ℕ, zero, suc, ◌+◌, ◌-◌, ◌%◌, ◌≤◌, ◌<◌, ◌≡◌, ◌≢◌, inl, inr, pos, true, false, some, [], ◌∷◌, ◌==◌,
  min, leb, arith, refl, ◌∙◌, Bool-cases,
}
use cpts.Disk.{block_size}
use cpts.Text.{Text, length}
use cpts.Sim.{Sim, nfd, update}
use cpts.Sim.Monad.{ok}
use cpts.Minodes.Inode.{i_size}
use cpts.Paths.{running_proc}
use cpts.OpenFiles.{entry_of}
use cpts.OpenFiles.Data.{
  Written, drop, file_limit, overruns, write_round, write_loop, write_in, finish_write, file_write,
}
use cpts.OpenFiles.Concat.{IsReading}

pub length-drop : (n : ℕ) (s : Text) → length (drop n s) ≡ length s - n
length-drop zero s = omega arith
length-drop (suc n) [] = omega arith
length-drop (suc n) (x ∷ xs) = omega (arith, length-drop n xs)

write_round-offset :
    (dev remain : ℕ) (s : Text) (w : Written)
    → (write_round dev remain s w).offset ≡ w.offset + remain
unfolding write_round
write_round-offset dev remain s w = refl

-- With more rounds than bytes, the loop of `file_write` ends behind the last byte.
pub write_loop-ends :
    (fuel dev : ℕ) (s : Text) (w : Written)
    → length s < fuel
    → (v : Written) × (write_loop fuel dev s w ≡ some v) × (v.offset ≡ w.offset + length s)
unfolding write_loop
write_loop-ends zero dev s w lt = absurd (omega arith)
write_loop-ends (suc fuel) dev s w lt = elim (Bool-cases (length s == 0)) [
  | inl e ↦ (w, rw e refl, ground arith)
  | inr e ↦
      let k = min (block_size - w.offset % block_size) (length s) in
      let some_bytes : 0 < k = ground arith in
      let (v, run, end) =
        write_loop-ends fuel dev (drop k s) (write_round dev k s w)
          (rw (length-drop k s) (omega arith)) in
      (v, rw e run, end ∙ rw (write_round-offset dev k s w, length-drop k s) (omega arith))
]

-- Descriptor `fd` is open for writing, with entry `o` and minode `p`.
pub record IsWriting (s : Sim) (fd o p : ℕ) : Type 0 where
  pub in_range : fd < nfd
  pub is_open : (running_proc s).fd fd ≡ some o
  pub writes : (s.oft o).mode ≢ 0
  pub points : (s.oft o).inodeptr ≡ some p

-- Where the loop of a write starts.
abbrev pub unwritten : Sim → ℕ → ℕ → Written
unwritten s o p = record {
  inode = (s.m_inodes p).inode;
  image = s.image;
  offset = (s.oft o).offset;
}

-- The state behind a write.
abbrev pub written_to : Sim → ℕ → ℕ → Written → Sim
written_to s o p w = record s {
  image = w.image;
  m_inodes = update s.m_inodes p (record (s.m_inodes p) { inode = w.inode; dirty = true });
  oft = update s.oft o (record (s.oft o) { offset = w.offset });
}

-- `file_write` on a descriptor that is open for writing, of bytes that the blocks of the file reach,
-- returns the number of its bytes: the
-- position moves behind them, the minode of the file is dirty, and nothing else changes but the
-- disk and the inode.
pub file_write-ends :
    (s : Sim) (fd o p : ℕ) (b : Text)
    → IsWriting s fd o p
    → (s.oft o).offset + length b ≤ file_limit
    → (w : Written) × (file_write fd b s ≡ ok (pos (length b)) (written_to s o p w))
      × (w.offset ≡ (s.oft o).offset + length b)
      × (write_loop (length b + 1) (s.m_inodes p).dev b (unwritten s o p) ≡ some w)
unfolding file_write entry_of write_in finish_write
file_write-ends s fd o p b h reach =
    let (w, run, end) =
      write_loop-ends (length b + 1) (s.m_inodes p).dev b (unwritten s o p) (omega arith) in
    (w, rw (in_range, h.is_open, may, fits, h.points, run) (rw h.points), end, run)
  where
    in_range : leb nfd fd ≡ false
    in_range = ground (arith, h.in_range)

    may : ((s.oft o).mode == 0) ≡ false
    may = ground (arith, h.writes)

    fits : overruns (s.oft o).offset (length b) ≡ false
    fits = ground (arith, reach)

-- How far a copy is: the reading entry at its position, and the writing one.
abbrev left : Sim → ℕ → ℕ → ℕ
left s o p = i_size (s.m_inodes p).inode - (s.oft o).offset

-- What is left by the copy of the rest of a file.
record Copied (s t : Sim) (fd gd o p q r : ℕ) : Type 0 where
  pub reading : IsReading t fd o p
  pub writing : IsWriting t gd q r
  pub at_end : (t.oft o).offset ≡ (s.oft o).offset + left s o p
  pub moved : (t.oft q).offset ≡ (s.oft q).offset + left s o p
  pub source : t.m_inodes p ≡ s.m_inodes p
