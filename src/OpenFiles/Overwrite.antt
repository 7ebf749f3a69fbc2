-- ===== src/OpenFiles/Overwrite.antt =====
-- `file_write` within the blocks of a file is an assignment to its bytes.
use cpts.Base.{
  ℕ, zero, suc, ◌+◌, ◌-◌, ◌*◌, ◌/◌, ◌%◌, ◌≤◌, ◌<◌, ◌≡◌, pos, true, false, some, [], ◌∷◌, ◌==◌, min,
  max, arith, refl, ◌∙◌, ap, Bool-cases, inl, inr, if◌then◌else◌, subst,
}
use cpts.Bytes.{within}
use cpts.Disk.{block_size}
use cpts.Text.{Text, length, get_or}
use cpts.Sim.{Sim, update_self}
use cpts.Sim.Monad.{ok}
use cpts.Minodes.Inode.{i_size}
use cpts.OpenFiles.Data.{Written, drop, file_limit, write_loop, file_read, file_write}
use cpts.OpenFiles.{file_lseek}
use cpts.OpenFiles.Reading.{file_byte, file_text, file_lseek-file_read}
use cpts.OpenFiles.Copying.{IsWriting, unwritten, written_to, file_write-ends, length-drop}
use cpts.OpenFiles.Storing.{
  IsMapped, stored, i_size-grown, IsMapped-grown, write_round-stored, file_byte-stored,
}

-- The bytes of `b` in place of those from `off` on.
abbrev pub overwrite : (ℕ → ℕ) → ℕ → Text → ℕ → ℕ
overwrite c off b i = if within off (length b) i then get_or b (i - off) else c i

get_or-drop : (n : ℕ) (b : Text) (i j : ℕ) → j ≡ n + i → get_or (drop n b) i ≡ get_or b j
get_or-drop zero b i j e = let same : j ≡ i = omega arith in rw same
get_or-drop (suc n) [] i j e = refl
get_or-drop (suc n) (x ∷ xs) i zero e = absurd (omega arith)
get_or-drop (suc n) (x ∷ xs) i (suc j) e = get_or-drop n xs i j (omega arith)

-- A round of `n` bytes and the rounds behind it.
overwrite-round :
    (c d : ℕ) (off n : ℕ) (b : Text) (i : ℕ)
    → n ≤ length b
    → d ≡ (if within off n i then get_or b (i - off) else c)
    → (if within (off + n) (length (drop n b)) i then get_or (drop n b) (i - (off + n)) else d)
      ≡ (if within off (length b) i then get_or b (i - off) else c)
overwrite-round c d off n b i le e = elim (Bool-cases (within (off + n) (length (drop n b)) i)) [
  | inl later ↦
      rw (later, get_or-drop n b (i - (off + n)) (i - off) (ground (arith, later)))
        (ground (arith, later, length-drop n b))
  | inr other ↦ rw (other, e) (ground (arith, other, length-drop n b))
]

-- What the loop of `file_write` leaves: the bytes of the first `count` blocks, and the size.
record Stored (dev count : ℕ) (b : Text) (w v : Written) : Type 0 where
  pub size : i_size v.inode ≡ max (i_size w.inode) (w.offset + length b)
  pub content :
      (i : ℕ)
      → i < count * block_size
      → file_byte v.image dev v.inode i ≡ overwrite (file_byte w.image dev w.inode) w.offset b i

Stored-none :
    (dev count : ℕ) (b : Text) (w : Written)
    → length b ≡ 0
    → w.offset ≤ i_size w.inode
    → Stored dev count b w w
Stored-none dev count b w z inside = record {
  size = rw z (omega (arith, inside));
  content = λ i lt. let out : within w.offset (length b) i ≡ false = ground arith in rw out refl;
}

-- A round, and the rounds behind it.
Stored-round :
    (dev count n : ℕ) (b : Text) (w v : Written)
    → IsMapped w.inode count
    → 0 < length b
    → n ≤ length b
    → w.offset % block_size + n ≤ block_size
    → w.offset + length b ≤ count * block_size
    → Stored dev count (drop n b) (stored dev n b w) v
    → Stored dev count b w v
Stored-round dev count n b w v m some_bytes le block fits later = record {
  size = later.size ∙ rw (i_size-grown (w.offset + n) w.inode small, length-drop n b) (omega arith);
  content = λ i lt.
      later.content i lt
      ∙ overwrite-round (file_byte w.image dev w.inode i) _ w.offset n b i le
          (file_byte-stored dev n b w count i m lt (omega arith) block);
}
  where
    small : w.offset + n < 4294967296
    small = omega (arith, m.direct, fits, le)

write_loop-Stored :
    (fuel dev count : ℕ) (b : Text) (w v : Written)
    → IsMapped w.inode count
    → w.offset + length b ≤ count * block_size
    → w.offset ≤ i_size w.inode
    → write_loop fuel dev b w ≡ some v
    → Stored dev count b w v
unfolding write_loop
write_loop-Stored zero dev count b w v m fits inside e = absurd (cc)
write_loop-Stored (suc fuel) dev count b w v m fits inside e = elim (Bool-cases (length b == 0)) [
  | inl none_left ↦ done (ground arith) (rw none_left at e)
  | inr more ↦
      let live : 0 < length b = ground arith in
      let at : w.offset / block_size < count = omega (arith, live, fits) in
      let round =
        write_round-stored dev n b w (omega (arith, at, m.direct))
          (m.there (w.offset / block_size) at) in
      Stored-round dev count n b w v m live (omega arith) (omega arith) fits (
        write_loop-Stored fuel dev count (drop n b) (stored dev n b w) v
          (IsMapped-grown (w.offset + n) w.inode count m)
          (rw (length-drop n b) (omega (arith, fits)))
          (rw (i_size-grown (w.offset + n) w.inode (omega (arith, fits, m.direct))) (omega arith))
          (rw (more, round) at e))
]
  where
    n : ℕ
    n = min (block_size - w.offset % block_size) (length b)

    done : length b ≡ 0 → some w ≡ some v → Stored dev count b w v
    done z e =
        let same : w ≡ v = cc in
        subst (Stored dev count b w) same (Stored-none dev count b w z inside)

-- The bytes of the file of a minode.
abbrev pub content : Sim → ℕ → ℕ → ℕ
content s p i = file_byte s.image (s.m_inodes p).dev (s.m_inodes p).inode i

-- What a write has done to the file of `p`, seen as its bytes, its size and a position.
pub record Overwritten (s t : Sim) (fd o p : ℕ) (b : Text) (count : ℕ) : Type 0 where
  pub writing : IsWriting t fd o p
  pub size :
      i_size (t.m_inodes p).inode ≡ max (i_size (s.m_inodes p).inode) ((s.oft o).offset + length b)
  pub position : (t.oft o).offset ≡ (s.oft o).offset + length b
  pub mode : (t.oft o).mode ≡ (s.oft o).mode
  pub bytes :
      (i : ℕ)
      → i < count * block_size
      → content t p i ≡ overwrite (content s p) (s.oft o).offset b i

-- `file_write` at a position within the file, into blocks that the file has already, is an
-- assignment to the file's bytes: where the first `count` of the direct blocks are there and
-- different, and the write ends within them, it returns the number of its bytes; these stand in the
-- file from the position on, every other byte of those blocks is as it was, the size has grown to
-- the end of the write if that is behind the old end, and the position has moved behind the write.
pub file_write-Overwritten :
    (s : Sim) (fd o p count : ℕ) (b : Text)
    → IsWriting s fd o p
    → IsMapped (s.m_inodes p).inode count
    → (s.oft o).offset + length b ≤ count * block_size
    → (s.oft o).offset ≤ i_size (s.m_inodes p).inode
    → (t : Sim) × (file_write fd b s ≡ ok (pos (length b)) t) × Overwritten s t fd o p b count
file_write-Overwritten s fd o p count b h m fits inside =
    let direct = m.direct in
    let (w, run, end, loop) = file_write-ends s fd o p b h (omega (arith, fits, direct)) in
    let done =
      write_loop-Stored (length b + 1) (s.m_inodes p).dev count b (unwritten s o p) w m fits inside
        loop in
    (
      written_to s o p w,
      run,
      record {
        writing = record {
          in_range = h.in_range;
          is_open = h.is_open;
          writes = rw update_self h.writes;
          points = rw update_self h.points;
        };
        size = rw update_self done.size;
        position = rw update_self end;
        mode = rw update_self refl;
        bytes = λ i lt. rw update_self (done.content i lt);
      },
    )

-- Bytes that agree with a text are the text.
file_text-agrees :
    (s : Sim) (p at : ℕ) (b : Text)
    → ((i : ℕ) → i < length b → content s p (at + i) ≡ get_or b i)
    → file_text s.image (s.m_inodes p).dev (s.m_inodes p).inode at (length b) ≡ b
unfolding file_text
file_text-agrees s p at [] h = refl
file_text-agrees s p at (x ∷ xs) h =
    ap (λ c. c ∷ file_text s.image (s.m_inodes p).dev (s.m_inodes p).inode (at + 1) (length xs))
      (subst (λ j. content s p j ≡ x) first (h 0 (omega arith)))
    ∙ ap (λ t. x ∷ t)
        (file_text-agrees s p (at + 1) xs (λ i lt.
          subst (λ j. content s p j ≡ get_or xs i) (next i) (h (suc i) (omega (arith, lt)))))
  where
    first : at + 0 ≡ at
    first = omega arith

    next : (i : ℕ) → at + suc i ≡ at + 1 + i
    next i = omega arith

-- What is written to a file that is open for reading and writing is read back from where it was
-- written: `file_write`, `file_lseek` to the old position and `file_read` of as many bytes all
-- return, and the last one returns the bytes of the first. The write is of one byte at least, at a
-- position within the file, and ends within the first `count` direct blocks, which the file has
-- already and which are different; the file has as many bytes at most as its blocks reach, 67383296.
pub file_read-file_write :
    (s : Sim) (fd o p count : ℕ) (b : Text)
    → IsWriting s fd o p
    → (s.oft o).mode ≡ 2
    → IsMapped (s.m_inodes p).inode count
    → 0 < length b
    → (s.oft o).offset + length b ≤ count * block_size
    → (s.oft o).offset ≤ i_size (s.m_inodes p).inode
    → i_size (s.m_inodes p).inode ≤ file_limit
    → (t u v : Sim) × (file_write fd b s ≡ ok (pos (length b)) t)
      × (file_lseek fd (s.oft o).offset t ≡ ok (pos ((s.oft o).offset + length b)) u)
      × (file_read fd (length b) u ≡ ok (pos (length b), b) v)
file_read-file_write s fd o p count b h mode m live fits inside small =
    let direct = m.direct in
    let (t, run, w) = file_write-Overwritten s fd o p count b h m fits inside in
    let at = (s.oft o).offset in
    let room : at + length b ≤ i_size (t.m_inodes p).inode = rw w.size (omega arith) in
    let (u, seeks, reads) =
      file_lseek-file_read t fd (length b) o p at h.in_range w.writing.is_open (inr (w.mode ∙ mode))
        w.writing.points (omega (arith, room, live))
        (rw w.size (omega (arith, small, fits, direct))) (omega (arith, small, fits, direct)) in
    let all : min (length b) (i_size (t.m_inodes p).inode - at) ≡ length b = omega (arith, room) in
    let same =
      file_text-agrees t p at b
        (λ i lt. w.bytes (at + i) (omega (arith, lt, fits)) ∙ wrote at i lt) in
    (t, u, _, run, (rw w.position at seeks), (rw (all, same) at reads))
  where
    wrote : (at i : ℕ) → i < length b → overwrite (content s p) at b (at + i) ≡ get_or b i
    wrote at i lt =
        let in_it : within at (length b) (at + i) ≡ true = ground arith in
        let back : at + i - at ≡ i = omega arith in rw (in_it, back)
