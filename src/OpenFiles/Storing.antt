-- ===== src/OpenFiles/Storing.antt =====
-- One round of `file_write` in a block that the file has already.
use cpts.Base.{
  ℕ, ◌+◌, ◌-◌, ◌*◌, ◌/◌, ◌%◌, ◌≤◌, ◌<◌, ◌≡◌, ◌≢◌, inl, inr, true, false, ◌==◌, ltb, max, arith,
  refl, Bool-cases, if◌then◌else◌,
}
use native.Mathlib.Decide.{ℕ_discrete}
use cpts.Bytes.{Buf, u32, trim, within}
use cpts.Bytes.Fields.{u32-put_u32_self, u32-put_u32-Apart}
use cpts.Disk.{Image, block_size, get_block, put_block}
use cpts.Disk.Laws.{get_block-put_block_self, get_block-put_block_ne}
use cpts.Text.{Text, get_or, put_text}
use cpts.Minodes.Inode.{i_block, i_size, set_i_size}
use cpts.OpenFiles.Data.{Written, block_of, get_bno, place_block, write_round}
use cpts.OpenFiles.Reading.{file_byte}

-- The first `count` blocks of the file are there, and they are different.
pub record IsMapped (ip : Buf) (count : ℕ) : Type 0 where
  pub direct : count ≤ 12
  pub there : (k : ℕ) → k < count → i_block ip k ≢ 0
  pub apart : (j k : ℕ) → j < count → k < count → i_block ip j ≡ i_block ip k → j ≡ k

-- The inode with a size of `end` at least.
abbrev pub grown : ℕ → Buf → Buf
grown end ip = if ltb (i_size ip) end then set_i_size end ip else ip

i_block-grown : (end : ℕ) (ip : Buf) (k : ℕ) → i_block (grown end ip) k ≡ i_block ip k
unfolding i_block set_i_size
i_block-grown end ip k = elim (Bool-cases (ltb (i_size ip) end)) [
  | inl e ↦ rw e (u32-put_u32-Apart ip 4 (40 + 4 * k) end (inl (omega arith)))
  | inr e ↦ rw e refl
]

pub i_size-grown :
    (end : ℕ) (ip : Buf) → end < 4294967296 → i_size (grown end ip) ≡ max (i_size ip) end
unfolding i_size set_i_size
i_size-grown end ip lt = elim (Bool-cases (ltb (u32 ip 4) end)) [
  | inl e ↦ rw (e, u32-put_u32_self) (ground arith)
  | inr e ↦ rw e (ground arith)
]

pub IsMapped-grown :
    (end : ℕ) (ip : Buf) (count : ℕ) → IsMapped ip count → IsMapped (grown end ip) count
IsMapped-grown end ip count m = record {
  direct = m.direct;
  there = λ k lt. rw (i_block-grown end ip k) (m.there k lt);
  apart =
      λ j k lj lk e. m.apart j k lj lk (rw (i_block-grown end ip j, i_block-grown end ip k) at e);
}

block_of-direct :
    (img : Image) (dev : ℕ) (ip : Buf) (k : ℕ) → k < 12 → block_of img dev ip k ≡ i_block ip k
unfolding block_of
block_of-direct img dev ip k lt = let e : ltb k 12 ≡ true = ground arith in rw e refl

-- The block that a round writes to is that of its position.
place_block-there :
    (dev k : ℕ) (ip : Buf) (img : Image)
    → k < 12
    → i_block ip k ≢ 0
    → place_block dev k ip img ≡ (i_block ip k, ip, img)
unfolding place_block get_bno i_block
place_block-there dev k ip img lt live = rw (direct, used) refl
  where
    direct : ltb k 12 ≡ true
    direct = ground arith

    used : (u32 ip (40 + 4 * k) == 0) ≡ false
    used = ground arith

-- What a round does.
abbrev pub stored : ℕ → ℕ → Text → Written → Written
stored dev n s w =
    let blk = i_block w.inode (w.offset / block_size) in
    record {
      inode = grown (w.offset + n) w.inode;
      image =
          put_block w.image dev blk
            (put_text (get_block w.image dev blk) (w.offset % block_size) n s);
      offset = w.offset + n;
    }

pub write_round-stored :
    (dev n : ℕ) (s : Text) (w : Written)
    → w.offset / block_size < 12
    → i_block w.inode (w.offset / block_size) ≢ 0
    → write_round dev n s w ≡ stored dev n s w
unfolding write_round
write_round-stored dev n s w lt live =
    rw (place_block-there dev (w.offset / block_size) w.inode w.image lt live) refl

module _ (dev n : ℕ) (s : Text) (w : Written) where
  -- The inode, the block and the image behind a round.
  abbrev ip : Buf
  ip = w.inode

  abbrev lbk : ℕ
  lbk = w.offset / block_size

  -- A byte of the block that is written to, and of another one.
  byte-here :
      (i : ℕ)
      → w.offset % block_size + n ≤ block_size
      → i / block_size ≡ lbk
      → get_block (stored dev n s w).image dev (i_block ip lbk) (i % block_size) ≡ (
          if within w.offset n i
          then get_or s (i - w.offset)
          else get_block w.image dev (i_block ip lbk) (i % block_size))
  unfolding put_text trim
  byte-here i fits e = rw get_block-put_block_self (ground (arith, shifted))
    where
      shifted : i % block_size - w.offset % block_size ≡ i - w.offset
      shifted = omega (arith, e)

  byte-there :
      (i : ℕ)
      → w.offset % block_size + n ≤ block_size
      → i / block_size ≢ lbk
      → i_block ip (i / block_size) ≢ i_block ip lbk
      → get_block (stored dev n s w).image dev (i_block ip (i / block_size)) (i % block_size) ≡ (
          if within w.offset n i
          then get_or s (i - w.offset)
          else get_block w.image dev (i_block ip (i / block_size)) (i % block_size))
  byte-there i fits ne apart =
      rw
        (
          get_block-put_block_ne w.image dev (i_block ip lbk) _ dev (i_block ip (i / block_size))
              (inr apart),
          outside,
        )
        refl
    where
      outside : within w.offset n i ≡ false
      outside = ground (arith, ne, fits)

  pub file_byte-stored :
      (count i : ℕ)
      → IsMapped ip count
      → i < count * block_size
      → w.offset < count * block_size
      → w.offset % block_size + n ≤ block_size
      → file_byte (stored dev n s w).image dev (stored dev n s w).inode i
        ≡ (if within w.offset n i then get_or s (i - w.offset) else file_byte w.image dev ip i)
  file_byte-stored count i m inside start fits =
      rw
        (
          block_of-direct (stored dev n s w).image dev (stored dev n s w).inode (i / block_size) lt,
          i_block-grown (w.offset + n) ip (i / block_size),
          block_of-direct w.image dev ip (i / block_size) lt,
        )
        (elim (ℕ_discrete (i / block_size) lbk) [
          | yes e ↦ rw e (byte-here i fits e)
          | no ne ↦
              byte-there i fits ne
                (λ z. ne (m.apart (i / block_size) lbk (omega arith) (omega arith) z))
        ])
    where
      lt : i / block_size < 12
      lt = omega (arith, m.direct, inside)
