-- ===== src/OpenFiles/Reading.antt =====
-- `file_read` reads the bytes of the file from the position on.
use cpts.Base.{
  ℕ, zero, suc, ◌+◌, ◌-◌, ◌*◌, ◌/◌, ◌%◌, ◌≤◌, ◌<◌, ◌≡◌, true, ◌⊎◌, inl, inr, pos, false, not, ◌&&◌,
  some, [], ◌∷◌, ◌++◌, ◌==◌, ltb, leb, min, arith, refl, ap, ◌∙◌, Bool-cases,
}
use cpts.Bytes.{Buf}
use cpts.Disk.{Image, block_size, get_block}
use cpts.Text.{Text, length, text_at}
use cpts.Sim.{Sim, nfd, update, update_self, update-update}
use cpts.Sim.Monad.{ok}
use cpts.Minodes.Inode.{i_size}
use cpts.Paths.{running_proc}
use cpts.OpenFiles.{entry_of, file_lseek}
use cpts.OpenFiles.Data.{block_of, file_limit, overruns, bytes_left, read_loop, file_read}

-- Byte `i` of a file, and its `n` bytes from `i` on.
abbrev pub file_byte : Image → ℕ → Buf → ℕ → ℕ
file_byte img dev ip i = get_block img dev (block_of img dev ip (i / block_size)) (i % block_size)

unfoldable pub file_text : Image → ℕ → Buf → ℕ → ℕ → Text
file_text img dev ip i zero = []
file_text img dev ip i (suc n) = file_byte img dev ip i ∷ file_text img dev ip (i + 1) n

-- The bytes of one round of `file_read`: some, and no more than are wanted or left in the block.
abbrev round_bytes : ℕ → ℕ → ℕ → ℕ
round_bytes offset n bytes = min (min (block_size - offset % block_size) n) bytes

round_bytes-bounds :
    (offset n bytes : ℕ)
    → 0 < n
    → 0 < bytes
    → (0 < round_bytes offset n bytes)
      × ((offset % block_size + round_bytes offset n bytes ≤ block_size)
          × (min n bytes
              ≡ round_bytes offset n bytes
                + min (n - round_bytes offset n bytes) (bytes - round_bytes offset n bytes)))
round_bytes-bounds offset n bytes h k = omega arith

module _ (img : Image) (dev : ℕ) (ip : Buf) where
  pub file_text-append :
      (i m n : ℕ)
      → file_text img dev ip i m ++ file_text img dev ip (i + m) n ≡ file_text img dev ip i (m + n)
  unfolding file_text
  file_text-append i zero n =
      let here : i + 0 ≡ i = omega arith in let all : 0 + n ≡ n = omega arith in rw (here, all)
  file_text-append i (suc m) n =
      let same : i + suc m ≡ i + 1 + m = omega arith in
      let sum : suc m + n ≡ suc (m + n) = omega arith in
      rw (same, sum) (ap (λ t. file_byte img dev ip i ∷ t) (file_text-append (i + 1) m n))

  -- Bytes `k` to `k + n` of block `q`.
  block_bytes :
      (q k n : ℕ)
      → k + n ≤ block_size
      → text_at (get_block img dev (block_of img dev ip q)) k n
        ≡ file_text img dev ip (q * block_size + k) n
  unfolding file_text text_at
  block_bytes q k zero h = refl
  block_bytes q k (suc n) h =
      let blk : (q * block_size + k) / block_size ≡ q = omega (arith, h) in
      let off : (q * block_size + k) % block_size ≡ k = omega (arith, h) in
      let up : q * block_size + k + 1 ≡ q * block_size + (k + 1) = omega arith in
      rw (blk, off, up)
        (ap (λ t. get_block img dev (block_of img dev ip q) k ∷ t)
          (block_bytes q (k + 1) n (omega (arith, h))))

  block-file_text :
      (i n : ℕ)
      → i % block_size + n ≤ block_size
      → text_at (get_block img dev (block_of img dev ip (i / block_size))) (i % block_size) n
        ≡ file_text img dev ip i n
  block-file_text i n h =
      let whole : i / block_size * block_size + i % block_size ≡ i = omega arith in
      block_bytes (i / block_size) (i % block_size) n h ∙ ap (λ j. file_text img dev ip j n) whole

  pub length-file_text : (i n : ℕ) → length (file_text img dev ip i n) ≡ n
  unfolding file_text
  length-file_text i zero = refl
  length-file_text i (suc n) = ap suc (length-file_text (i + 1) n)

  -- The loop of `file_read` with enough fuel.
  pub read_loop-file_text :
      (fuel offset n bytes : ℕ)
      → n < fuel
      → read_loop fuel img dev ip offset n bytes ≡ some (file_text img dev ip offset (min n bytes))
  unfolding read_loop file_text
  read_loop-file_text zero offset n bytes h = absurd (omega arith)
  read_loop-file_text (suc fuel) offset n bytes h = elim (Bool-cases (ltb 0 n && ltb 0 bytes)) [
    | inl more ↦
        let len = round_bytes offset n bytes in
        let wanted : (0 < n) × (0 < bytes) = ground arith in
        let bounds = round_bytes-bounds offset n bytes wanted.0 wanted.1 in
        rw (
          more,
          read_loop-file_text fuel (offset + len) (n - len) (bytes - len)
              (omega (arith, bounds.0, h)),
          block-file_text offset len bounds.1.0,
          file_text-append offset len,
          bounds.1.1,
        )
    | inr none_left ↦ let z : min n bytes ≡ 0 = ground arith in rw (none_left, z)
  ]

-- A position and a size that the blocks of a file reach.
pub record Reaches (size at : ℕ) : Type 0 where
  pub sized : size ≤ file_limit
  pub placed : at < 2147483648

pub bytes_left_lem : (size at : ℕ) → Reaches size at → bytes_left size at ≡ size - at
unfolding bytes_left
bytes_left_lem size at h = let small = h.sized in let low = h.placed in ground (arith, small, low)

no_overrun : (size at n : ℕ) → Reaches size at → overruns at (min n (size - at)) ≡ false
no_overrun size at n h = let small = h.sized in ground (arith, small)

-- How many of `n` bytes stand between the position of an open file and its end.
abbrev pub readable : Sim → ℕ → ℕ → ℕ → ℕ
readable s o p n = min n (i_size (s.m_inodes p).inode - (s.oft o).offset)

-- `file_read` of a descriptor that is open for reading, with entry `o` and minode `p`: it returns
-- the bytes of the file from the position on, `n` of them or as many as the file has left, and
-- their number; the position moves behind them, and nothing else changes. The file has as many
-- bytes at most as its blocks reach, 67383296, and `n` and the position are below 2 ^ 31.
pub file_read-readable :
    (s : Sim) (fd n o p : ℕ)
    → fd < nfd
    → (running_proc s).fd fd ≡ some o
    → ((s.oft o).mode ≡ 0) ⊎ ((s.oft o).mode ≡ 2)
    → (s.oft o).inodeptr ≡ some p
    → Reaches (i_size (s.m_inodes p).inode) (s.oft o).offset
    → n < 2147483648
    → file_read fd n s
      ≡ ok
          (
            pos (readable s o p n),
            file_text s.image
                (s.m_inodes p).dev
                (s.m_inodes p).inode
                (s.oft o).offset
                (readable s o p n),
          )
          (record s {
            oft =
                update s.oft o (record (s.oft o) { offset = (s.oft o).offset + readable s o p n });
          })
unfolding file_read entry_of
file_read-readable s fd n o p range is_open reads ptr reach asked =
    rw
      (
        in_range,
        is_open,
        may,
        ptr,
        not_negative,
        bytes_left_lem (i_size (s.m_inodes p).inode) (s.oft o).offset reach,
        no_overrun (i_size (s.m_inodes p).inode) (s.oft o).offset n reach,
        read_loop-file_text s.image (s.m_inodes p).dev (s.m_inodes p).inode (n + 1) (s.oft o).offset
            n (i_size (s.m_inodes p).inode - (s.oft o).offset) (omega arith),
        length-file_text s.image (s.m_inodes p).dev (s.m_inodes p).inode (s.oft o).offset
            (readable s o p n),
      )
      (rw ptr)
  where
    in_range : leb nfd fd ≡ false
    in_range = ground arith

    not_negative : ltb n 2147483648 ≡ true
    not_negative = ground (arith, asked)

    may : (not ((s.oft o).mode == 0) && not ((s.oft o).mode == 2)) ≡ false
    may = ground (arith, reads)

-- A `file_lseek` within a file that is open for reading and a `file_read` after it return the old
-- position and the bytes from the new one on, and the position moves behind those. The file has as
-- many bytes at most as its blocks reach, 67383296, and `n` is below 2 ^ 31.
pub file_lseek-file_read :
    (s : Sim) (fd n o p at : ℕ)
    → fd < nfd
    → (running_proc s).fd fd ≡ some o
    → ((s.oft o).mode ≡ 0) ⊎ ((s.oft o).mode ≡ 2)
    → (s.oft o).inodeptr ≡ some p
    → at < i_size (s.m_inodes p).inode
    → i_size (s.m_inodes p).inode ≤ file_limit
    → n < 2147483648
    → (t : Sim) × (file_lseek fd at s ≡ ok (pos (s.oft o).offset) t)
      × (file_read fd n t
          ≡ ok
              (
                pos (min n (i_size (s.m_inodes p).inode - at)),
                file_text s.image
                    (s.m_inodes p).dev
                    (s.m_inodes p).inode
                    at
                    (min n (i_size (s.m_inodes p).inode - at)),
              )
              (record s {
                oft =
                    update s.oft o
                      (record (s.oft o) { offset = at + min n (i_size (s.m_inodes p).inode - at) });
              }))
unfolding file_lseek entry_of
file_lseek-file_read s fd n o p at range is_open reads ptr inside small asked = (
  moved,
  rw (in_range, is_open, ptr, below) (rw ptr),
  file_read-readable moved fd n o p range is_open (rw update_self reads) (rw update_self ptr)
        (rw update_self (record { sized = small; placed = omega (arith, inside, small) })) asked
      ∙ rw (update_self, update-update),
)
  where
    in_range : leb nfd fd ≡ false
    in_range = ground arith

    below : leb (i_size (s.m_inodes p).inode) at ≡ false
    below = ground arith

    moved : Sim
    moved = record s { oft = update s.oft o (record (s.oft o) { offset = at }) }
