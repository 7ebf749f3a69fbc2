-- ===== src/Dir/Undo.antt =====
-- `remove_entry` undoes `insert_entry`.
use cpts.Base.{ℕ, ◌+◌, ◌≤◌, ◌<◌, ◌≡◌, true, List, [], ◌∷◌, ◌++◌, ap, ◌∙◌, sym}
use cpts.Disk.{block_size}
use cpts.Disk.Laws.{IsImage}
use cpts.Text.{Text, length, same_text, c_str}
use cpts.Sim.{Sim, update_self}
use cpts.Sim.Monad.{ok}
use cpts.Minodes.Inode.{mark_dirty}
use cpts.Dir.{insert_entry}
use cpts.Dir.Listing.{Entry, Chain}
use cpts.Dir.Insert.{entry}
use cpts.Dir.Entered.{tail_buf, used_bytes, insert_entry-Entered}
use cpts.Dir.Lookup.{HasOneBlock, tail-first}
use cpts.Dir.Remove.{remove_entry}
use cpts.Dir.Removed.{NoneNamed, first_buf, Removed, remove_entry-Removed}

-- The first block of the directory in the state after a removal.
Removed-Chain :
    (s s' : Sim) (mip : ℕ) (es : List Entry)
    → Removed s mip es s'
    → Chain (first_buf s' mip) 0 block_size es
Removed-Chain s s' mip es r =
    let dirty : s'.m_inodes mip ≡ mark_dirty (s.m_inodes mip) =
      ap (λ (u : Sim). u.m_inodes mip) r.rest ∙ update_self s.m_inodes mip _ in
    rw dirty r.entries

-- `insert_entry` of a new name of less than 256 bytes without NUL and a number of 32 bits, into a
-- directory of one block with room for it, on an image of bytes, and `remove_entry` of the name
-- after it return, and the block lists the entries that it listed at first.
pub remove_entry-insert_entry :
    (s : Sim) (mip ino : ℕ) (name : Text) (es : List Entry) (last : Entry)
    → IsImage s.image
    → HasOneBlock s mip
    → Chain (tail_buf s mip) 0 block_size (es ++ last ∷ [])
    → length name < 256
    → ino < 4294967296
    → used_bytes s mip es last + 8 + length name ≤ block_size
    → NoneNamed name (es ++ last ∷ [])
    → same_text (c_str name) name ≡ true
    → (s' : Sim) × (s'' : Sim) × (insert_entry mip ino name s ≡ ok tt s')
      × (remove_entry mip name s' ≡ ok tt s'')
      × Chain (first_buf s'' mip) 0 block_size (es ++ last ∷ [])
remove_entry-insert_entry s mip ino name es last bytes one chain short small room new no_nul =
    let (s', run, entered) =
      insert_entry-Entered s mip ino name es last bytes chain short small room in
    let same : s'.m_inodes mip ≡ s.m_inodes mip = ap (λ (u : Sim). u.m_inodes mip) entered.rest in
    let listed : Chain (first_buf s' mip) 0 block_size (es ++ last ∷ entry ino name ∷ []) =
      rw (same, sym (tail-first s mip one)) entered.entries in
    let (s'', run', removed) =
      remove_entry-Removed s' mip name es last (entry ino name) (rw same one.first) listed new
        no_nul in
    (s', s'', run, run', Removed-Chain s' s'' mip (es ++ last ∷ []) removed)
