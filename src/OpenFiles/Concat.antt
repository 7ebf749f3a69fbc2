-- ===== src/OpenFiles/Concat.antt =====
-- The loop of `shell_cat` ends, and prints the rest of the file.
use cpts.Base.{
  ◌≤◌, ℕ, zero, suc, ◌+◌, ◌-◌, ◌<◌, ◌≡◌, ◌⊎◌, inl, inr, pos, some, [], ◌∷◌, ◌++◌, ◌==◌, min, arith,
  refl, ap, subst, ◌∙◌, Bool-cases,
}
use cpts.Disk.{block_size}
use cpts.Text.{Text}
use cpts.Sim.{Sim, Oft, nfd, update, update_self, update-update, update_id}
use cpts.Sim.Monad.{ok}
use cpts.Minodes.Inode.{i_size}
use cpts.Paths.{running_proc}
use cpts.OpenFiles.Data.{file_limit, file_read}
use cpts.OpenFiles.Copy.{crlf, loop_fuel, cat_loop}
use cpts.OpenFiles.Reading.{file_text, file_text-append, length-file_text, file_read-readable}

pub crlf-append : (s t : Text) → crlf (s ++ t) ≡ crlf s ++ crlf t
unfolding crlf
crlf-append [] t = refl
crlf-append (c ∷ cs) t = elim (Bool-cases (c == 0x0A)) [
  | inl e ↦ rw (e, crlf-append cs t)
  | inr e ↦ rw (e, crlf-append cs t)
]

-- The state with entry `o` at position `i`.
abbrev pub at_offset : Sim → ℕ → ℕ → Sim
at_offset s o i = record s { oft = update s.oft o (record (s.oft o) { offset = i }) }

-- Descriptor `fd` is open for reading, with entry `o` and minode `p`, and the file has as many bytes
-- at most as its blocks reach.
pub record IsReading (s : Sim) (fd o p : ℕ) : Type 0 where
  pub in_range : fd < nfd
  pub is_open : (running_proc s).fd fd ≡ some o
  pub reads : ((s.oft o).mode ≡ 0) ⊎ ((s.oft o).mode ≡ 2)
  pub points : (s.oft o).inodeptr ≡ some p
  pub small : i_size (s.m_inodes p).inode ≤ file_limit

module _ (s : Sim) (fd o p : ℕ) (h : IsReading s fd o p) where
  abbrev size : ℕ
  size = i_size (s.m_inodes p).inode

  abbrev bytes : ℕ → ℕ → Text
  bytes i n = file_text s.image (s.m_inodes p).dev (s.m_inodes p).inode i n

  pub file_read-at_offset :
      (n i : ℕ)
      → n < 2147483648
      → i < 2147483648
      → file_read fd n (at_offset s o i)
        ≡ ok
            (pos (min n (size - i)), bytes i (min n (size - i)))
            (at_offset s o (i + min n (size - i)))
  file_read-at_offset n i asked low =
      file_read-readable (at_offset s o i) fd n o p h.in_range h.is_open (rw update_self h.reads)
        (rw update_self h.points) (rw update_self (record { sized = h.small; placed = low })) asked
      ∙ rw (update_self, update-update)

  cat_loop-at_offset :
      (fuel i : ℕ)
      → size - i < fuel
      → i < 2147483648
      → cat_loop fuel fd (at_offset s o i)
        ≡ ok (crlf (bytes i (size - i))) (at_offset s o (i + (size - i)))
  unfolding cat_loop crlf file_text
  cat_loop-at_offset zero i lt low = absurd (omega arith)
  cat_loop-at_offset (suc fuel) i lt low = elim (Bool-cases (chunk == 0)) [
    | inl e ↦
        let z : size - i ≡ 0 = ground arith in
        rw (file_read-at_offset block_size i (omega arith) low, z)
    | inr e ↦ rw (
      file_read-at_offset block_size i (omega arith) low,
      length-file_text s.image (s.m_inodes p).dev (s.m_inodes p).inode i chunk,
      e,
      cat_loop-at_offset fuel (i + chunk) (ground arith) next,
      ← crlf-append (bytes i chunk) (bytes (i + chunk) (size - (i + chunk))),
      file_text-append s.image (s.m_inodes p).dev (s.m_inodes p).inode i chunk (size - (i + chunk)),
      parts,
      ends,
    )
  ]
    where
      chunk : ℕ
      chunk = min block_size (size - i)

      next : i + chunk < 2147483648
      next = let small = h.small in ground (arith, small, low)

      parts : chunk + (size - (i + chunk)) ≡ size - i
      parts = ground arith

      ends : i + chunk + (size - (i + chunk)) ≡ i + (size - i)
      ends = ground arith

  -- The loop of `shell_cat` on a descriptor that is open for reading ends within its fuel, whatever
  -- blocks the file has: it prints the bytes from the position to the end of the file, each newline
  -- with a carriage return, the position moves to the end, and nothing else changes. The file has as
  -- many bytes at most as its blocks reach, 67383296, and the position is below 2 ^ 31.
  pub cat_loop-crlf :
      (s.oft o).offset < 2147483648
      → cat_loop loop_fuel fd s
        ≡ ok
            (crlf (bytes (s.oft o).offset (size - (s.oft o).offset)))
            (at_offset s o ((s.oft o).offset + (size - (s.oft o).offset)))
  cat_loop-crlf low =
      subst
        (λ t.
          cat_loop loop_fuel fd t
          ≡ ok (crlf (bytes (s.oft o).offset (size - (s.oft o).offset)))
              (at_offset s o ((s.oft o).offset + (size - (s.oft o).offset))))
        same
        (cat_loop-at_offset loop_fuel (s.oft o).offset (let small = h.small in omega (arith, small))
          low)
    where
      same : at_offset s o (s.oft o).offset ≡ s
      same = ap (λ (f : ℕ → Oft). record s { oft = f }) (update_id s.oft o)
