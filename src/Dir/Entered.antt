-- ===== src/Dir/Entered.antt =====
-- The whole of `insert_entry` on a directory whose last block is a list of entries.
use cpts.Base.{
  ℕ, ◌+◌, ◌-◌, ◌%◌, ◌≤◌, ◌<◌, ◌≡◌, ◌≢◌, ◌⊎◌, true, false, ltb, List, [], ◌∷◌, ◌++◌, leb, arith,
  refl, ap, ◌∙◌, sym,
}
use cpts.Bytes.{Buf, IsBytes, trim}
use cpts.Disk.{block_size, get_block, put_block}
use cpts.Disk.Laws.{IsImage, get_block-put_block_self, get_block-put_block_ne, get_block-IsBytes}
use cpts.Text.{Text, length}
use cpts.Sim.{Sim, Minode}
use cpts.Sim.Monad.{ok, fault}
use cpts.Minodes.Inode.{i_block}
use cpts.Dir.{name_len, append_entry, ideal_len, dir_fuel, last_block, insert_at, insert_entry}
use cpts.Dir.Listing.{Entry, Chain}
use cpts.Dir.Frame.{Agree, Chain-Agree, Chain-split, offset_of}
use cpts.Dir.Search.{length-text_at}
use cpts.Dir.Insert.{last_entry-stop, entry, append_entry-Chain}

-- The block that `insert_entry` looks at.
abbrev pub tail_block : Sim → ℕ → ℕ
tail_block s mip = i_block (s.m_inodes mip).inode (last_block 12 0 (s.m_inodes mip).inode)

abbrev pub tail_buf : Sim → ℕ → Buf
tail_buf s mip = get_block s.image (s.m_inodes mip).dev (tail_block s mip)

-- Where the last entry would end, cut down to its name.
abbrev pub used_bytes : Sim → ℕ → List Entry → Entry → ℕ
used_bytes s mip es last = offset_of (tail_buf s mip) 0 es + ideal_len (length last.name)

-- After the insertion: the entries of the block, and nothing else changed.
pub record Entered (s : Sim) (mip : ℕ) (es : List Entry) (s' : Sim) : Type 0 where
  pub entries : Chain (get_block s'.image (s.m_inodes mip).dev (tail_block s mip)) 0 block_size es
  pub other_blocks :
      (d b : ℕ)
      → (d ≢ (s.m_inodes mip).dev) ⊎ (b ≢ tail_block s mip)
      → get_block s'.image d b ≡ get_block s.image d b
  pub rest : s' ≡ record s { image = s'.image }

pub trim-Agree : (b : Buf) → Agree b (trim block_size b) 0 block_size
unfolding trim
trim-Agree b i p q = ground arith

module _ (s : Sim) (mip ino : ℕ) (name : Text) (es : List Entry) (last : Entry)
    (bytes : IsImage s.image) (chain : Chain (tail_buf s mip) 0 block_size (es ++ last ∷ [])) where
  m : Minode
  m = s.m_inodes mip

  b : Buf
  b = tail_buf s mip

  len : ℕ
  unfolding b
  len = offset_of b 0 es

  b-IsBytes : IsBytes b
  unfolding b m
  b-IsBytes = get_block-IsBytes s.image (s.m_inodes mip).dev (tail_block s mip) bytes

  parts : Chain b 0 len es × Chain b len block_size (last ∷ [])
  unfolding len b
  parts = Chain-split b 0 block_size es (last ∷ []) chain

  last_len : name_len b len ≡ length last.name
  last_len = sym (length-text_at b (len + 8) (name_len b len)) ∙ ap length parts.1.0.name

  -- The walk ends at the last entry, which leaves room for its own name: the entry is appended.
  appended : Sim
  unfolding b len m
  appended = record s {
    image = put_block s.image m.dev (tail_block s mip) (append_entry b len ino name);
  }

  runs :
      length name < 256
      → len + ideal_len (length last.name) + 8 + length name ≤ block_size
      → insert_entry mip ino name s ≡ ok tt appended
  unfolding insert_entry insert_at appended m b len put_block
  runs short fits =
      rw (last_entry-stop dir_fuel b 0 es last (omega arith) chain, enough, within) refl
    where
      enough : leb (ideal_len (name_len b len)) (block_size - len) ≡ true
      enough = rw last_len (ground (arith, fits))

      within : ltb block_size (len + ideal_len (name_len b len) + 8 + length name % 256) ≡ false
      within = rw last_len (ground (arith, short, fits))

  read_back :
      (fs : List Entry)
      → Chain (append_entry b len ino name) 0 block_size fs
      → Entered s mip fs appended
  unfolding appended m b
  read_back fs c = record {
    entries =
        rw get_block-put_block_self
          (Chain-Agree (append_entry b len ino name) _ 0 block_size fs (trim-Agree _) c);
    other_blocks = λ d k h. get_block-put_block_ne s.image m.dev _ _ d k h;
    rest = refl;
  }

  room_at :
      used_bytes s mip es last + 8 + length name ≤ block_size
      → len + ideal_len (length last.name) + 8 + length name ≤ block_size
  unfolding len b
  room_at room = room

  appended-Entered :
      length name < 256
      → ino < 4294967296
      → used_bytes s mip es last + 8 + length name ≤ block_size
      → (s' : Sim) × (insert_entry mip ino name s ≡ ok tt s')
        × Entered s mip (es ++ last ∷ entry ino name ∷ []) s'
  appended-Entered short small room = (
    appended,
    runs short (room_at room),
    read_back _ (
        append_entry-Chain b len ino name es last parts.0 parts.1.0 parts.1.1 (b-IsBytes (len + 6))
          short small (rw last_len (room_at room))),
  )

  overrun :
      length name < 256
      → used_bytes s mip es last ≤ block_size
      → block_size < used_bytes s mip es last + 8 + length name
      → insert_entry mip ino name s ≡ fault
  unfolding insert_entry insert_at m b len
  overrun short fits long =
      rw (last_entry-stop dir_fuel b 0 es last (omega arith) chain, enough, over) refl
    where
      enough : leb (ideal_len (name_len b len)) (block_size - len) ≡ true
      enough = rw last_len (ground (arith, fits))

      over : ltb block_size (len + ideal_len (name_len b len) + 8 + length name % 256) ≡ true
      over = rw last_len (ground (arith, short, long))

-- `insert_entry` of a name of less than 256 bytes and a number of 32 bits, on a directory whose
-- last block is the list of entries `es` and `last`, where the new entry fits behind the name of
-- `last`: the call returns, the block then lists the entries as before and the new one behind
-- them, and no other block and no other part of the state changes. The image consists of bytes.
pub insert_entry-Entered :
    (s : Sim) (mip ino : ℕ) (name : Text) (es : List Entry) (last : Entry)
    → IsImage s.image
    → Chain (tail_buf s mip) 0 block_size (es ++ last ∷ [])
    → length name < 256
    → ino < 4294967296
    → used_bytes s mip es last + 8 + length name ≤ block_size
    → (s' : Sim) × (insert_entry mip ino name s ≡ ok tt s')
      × Entered s mip (es ++ last ∷ entry ino name ∷ []) s'
insert_entry-Entered s mip ino name es last bytes chain short small room =
    appended-Entered s mip ino name es last bytes chain short small room

-- `insert_entry` of a name of less than 256 bytes, on a directory whose last block is the list of
-- entries `es` and `last`, where the name of `last` ends inside the block, but the new entry does
-- not fit behind it: the call faults, since the entry is stored behind the end of the buffer. It
-- neither takes a new block nor refuses the name. The image consists of bytes.
pub insert_entry-overflow :
    (s : Sim) (mip ino : ℕ) (name : Text) (es : List Entry) (last : Entry)
    → IsImage s.image
    → Chain (tail_buf s mip) 0 block_size (es ++ last ∷ [])
    → length name < 256
    → used_bytes s mip es last ≤ block_size
    → block_size < used_bytes s mip es last + 8 + length name
    → insert_entry mip ino name s ≡ fault
insert_entry-overflow s mip ino name es last bytes chain short fits long =
    overrun s mip ino name es last bytes chain short fits long
