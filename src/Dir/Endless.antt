-- ===== src/Dir/Endless.antt =====
-- `remove_entry` on a block with an entry of length 0.
use cpts.Base.{
  ℕ, zero, suc, ◌+◌, ◌<◌, ◌≡◌, ◌≢◌, false, true, ltb, ◌==◌, List, [], ◌∷◌, arith, refl, ◌∙◌,
}
use cpts.Bytes.{Buf}
use cpts.Disk.{block_size}
use cpts.Text.{Text, same_text}
use cpts.Sim.{Sim}
use cpts.Sim.Monad.{out_of_fuel}
use cpts.Minodes.Inode.{i_block}
use cpts.Dir.{rec_len, entry_name, dir_fuel}
use cpts.Dir.Listing.{Entry, IsEntry, Chain}
use cpts.Dir.Remove.{endless, find_entry, at_spot, remove_from, remove_entry}
use cpts.Dir.Removed.{NoneNamed, first_buf, find_entry-pass}

-- The entry at `len` has length 0, and another name.
pub record IsStuck (b : Buf) (len : ℕ) (name : Text) : Type 0 where
  pub inside : len < block_size
  pub no_length : rec_len b len ≡ 0
  pub other_name : same_text (entry_name b len) name ≡ false

find_entry-endless :
    (fuel : ℕ) (b : Buf) (j len pre : ℕ) (name : Text) (es : List Entry)
    → Chain b j len es
    → NoneNamed name es
    → IsStuck b len name
    → find_entry fuel b j pre name ≡ endless
unfolding find_entry
find_entry-endless zero b j len pre name es c none h = refl
find_entry-endless (suc fuel) b j len pre name [] c none h = rw (
  c,
  before,
  h.other_name,
  find_entry-endless fuel b (len + rec_len b len) len (rec_len b len) name [] stays tt h,
)
  where
    before : ltb len block_size ≡ true
    before = ground (arith, h.inside)

    stays : len + rec_len b len ≡ len
    stays = rw h.no_length (omega arith)
find_entry-endless (suc fuel) b j len pre name (e ∷ es) c none h =
    find_entry-pass fuel b j pre name e whole none.0
    ∙ find_entry-endless fuel b (j + rec_len b j) len (rec_len b j) name es c.1 none.1 h
  where
    whole : IsEntry b j block_size e
    whole = record {
      ino = c.0.ino;
      name = c.0.name;
      holds_name = c.0.holds_name;
      inside = omega (arith, c.0.inside, h.inside);
    }

-- `remove_entry` does not end on a directory whose first block has an entry of length 0 behind
-- entries of other names, and another name itself: the loop over the block stays at that entry.
pub remove_entry-endless :
    (s : Sim) (mip len : ℕ) (name : Text) (es : List Entry)
    → i_block (s.m_inodes mip).inode 0 ≢ 0
    → Chain (first_buf s mip) 0 len es
    → NoneNamed name es
    → IsStuck (first_buf s mip) len name
    → remove_entry mip name s ≡ out_of_fuel
unfolding remove_entry remove_from at_spot
remove_entry-endless s mip len name es live c none h =
    rw (used, find_entry-endless dir_fuel (first_buf s mip) 0 len 0 name es c none h)
  where
    used : (i_block (s.m_inodes mip).inode 0 == 0) ≡ false
    used = ground (arith, live)
