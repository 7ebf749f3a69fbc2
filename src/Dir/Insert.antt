-- ===== src/Dir/Insert.antt =====
-- `insert_entry` appends an entry where the last block has room, and loses it where it has none.
use cpts.Base.{
  ℕ, zero, suc, ◌+◌, ◌-◌, ◌≤◌, ◌<◌, ◌≡◌, true, false, List, [], ◌∷◌, ◌++◌, ltb, arith, ◌∙◌,
}
use cpts.Bytes.{Buf, put_u16}
use cpts.Bytes.Fields.{u16-put_u16_self}
use cpts.Disk.{block_size}
use cpts.Text.{Text, length}
use cpts.Dir.{rec_len, name_len, append_entry, ideal_len, stop_at, last_entry}
use cpts.Dir.Listing.{Entry, IsEntry, Chain}
use cpts.Dir.Frame.{
  Agree, u16-Agree, u32-Agree, text_at-Agree, Chain-Agree, Chain-append, offset_of,
  write_entry-inode, write_entry-rec_len, write_entry-name_len, write_entry-name, write_entry-Agree,
}

-- The walk ends at the last entry.
pub last_entry-stop :
    (fuel : ℕ) (b : Buf) (j : ℕ) (es : List Entry) (e : Entry)
    → block_size < fuel + j
    → Chain b j block_size (es ++ e ∷ [])
    → last_entry fuel b j ≡ stop_at (offset_of b j es)
unfolding last_entry offset_of
last_entry-stop zero b j [] e h c = absurd (omega (arith, c.0.inside))
last_entry-stop zero b j (f ∷ es) e h c = absurd (omega (arith, c.0.inside))
last_entry-stop (suc fuel) b j [] e h c = rw at_end
  where
    at_end : ltb (rec_len b j + j) block_size ≡ false
    at_end = ground (arith, c.1)
last_entry-stop (suc fuel) b j (f ∷ es) e h (x, r) =
    rw (more, long) (last_entry-stop fuel b (j + rec_len b j) es e (omega (arith, x.holds_name)) r)
  where
    after : (k : ℕ) (gs : List Entry) → Chain b k block_size (gs ++ e ∷ []) → k < block_size
    after k [] (y, z) = omega (arith, y.inside, y.holds_name)
    after k (g ∷ gs) (y, z) = omega (arith, y.inside, y.holds_name)

    more : ltb (rec_len b j + j) block_size ≡ true
    more = ground (arith, after (j + rec_len b j) es r)

    long : ltb (rec_len b j) 1 ≡ false
    long = ground (arith, x.holds_name)

-- What the last entry keeps of its bytes.
pub ideal_len_bounds : (n : ℕ) → (8 + n ≤ ideal_len n) × (ideal_len n ≤ 11 + n)
unfolding ideal_len
ideal_len_bounds n = omega arith

-- The new entry of `insert_entry`.
abbrev pub entry : ℕ → Text → Entry
entry ino name = record { ino = ino; name = name }

module _ (b : Buf) (len ino : ℕ) (name : Text) (es : List Entry) (last : Entry)
    (before : Chain b 0 len es) (here : IsEntry b len block_size last)
    (fills : len + rec_len b len ≡ block_size) (bytes : name_len b len < 256)
    (short : length name < 256) (small : ino < 4294967296)
    (room : len + ideal_len (name_len b len) + 8 + length name ≤ block_size) where
  idea : ℕ
  idea = ideal_len (name_len b len)

  cut : Buf
  cut = put_u16 b (len + 4) idea

  new : Buf
  new = append_entry b len ino name

  idea_le : (8 + name_len b len ≤ idea) × (idea ≤ 11 + name_len b len)
  unfolding idea
  idea_le = ideal_len_bounds (name_len b len)

  room' : len + idea + 8 + length name ≤ block_size
  unfolding idea
  room' = room

  cut_kept : (i : ℕ) → i < len + idea → new i ≡ cut i
  unfolding new cut idea append_entry
  cut_kept i p =
      write_entry-Agree (put_u16 b (len + 4) (ideal_len (name_len b len)))
        (len + ideal_len (name_len b len)) ino name _ short _ (omega arith) i p

  front_kept : Agree b new 0 len
  unfolding cut put_u16
  front_kept i p q = cut_kept i (omega arith) ∙ ground arith

  number_kept : Agree b new len (len + 4)
  unfolding cut put_u16
  number_kept i p q = cut_kept i (omega (arith, idea_le)) ∙ ground arith

  name_kept : Agree b new (len + 6) (len + idea)
  unfolding cut put_u16
  name_kept i p q = cut_kept i q ∙ ground arith

  last_rec_len : rec_len new len ≡ idea
  unfolding cut
  last_rec_len =
      u16-Agree cut new (len + 4) 0 (len + idea) (λ i p q. cut_kept i q) (omega arith)
        (omega (arith, idea_le))
      ∙ u16-put_u16_self b (len + 4) idea
      ∙ omega (arith, idea_le)

  last_name_len : name_len new len ≡ name_len b len
  last_name_len = name_kept (len + 6) (omega arith) (omega (arith, idea_le))

  last_kept : IsEntry new len block_size last
  last_kept = record {
    ino = u32-Agree b new len len (len + 4) number_kept (omega arith) (omega arith) ∙ here.ino;
    name = rw last_name_len (
        text_at-Agree b new (len + 8) (name_len b len) (len + 6) (len + idea) name_kept
          (omega arith) (omega (arith, idea_le))
        ∙ here.name);
    holds_name = rw (last_name_len, last_rec_len) (omega (arith, idea_le));
    inside = rw last_rec_len (omega (arith, room'));
  }

  added_rec_len : rec_len new (len + idea) ≡ block_size - (len + idea)
  unfolding new idea append_entry
  added_rec_len = write_entry-rec_len _ _ ino name _ short ∙ omega (arith, room)

  added : IsEntry new (len + idea) block_size (entry ino name)
  unfolding new idea append_entry
  added = record {
    ino = write_entry-inode _ _ ino name _ short ∙ omega arith;
    name = write_entry-name _ _ ino name _ short;
    holds_name =
        rw
          (
            write_entry-name_len (put_u16 b (len + 4) (ideal_len (name_len b len)))
                (len + ideal_len (name_len b len)) ino name
                (block_size - (len + ideal_len (name_len b len))) short,
            added_rec_len,
          )
          (omega (arith, room));
    inside = rw added_rec_len (omega (arith, room));
  }

  pub append_entry-Chain :
      Chain (append_entry b len ino name) 0 block_size (es ++ last ∷ entry ino name ∷ [])
  unfolding new
  append_entry-Chain =
      Chain-append _ 0 len block_size es _ (Chain-Agree b _ 0 len es front_kept before)
        (last_kept, rw last_rec_len (added, rw added_rec_len (omega (arith, room'))))
