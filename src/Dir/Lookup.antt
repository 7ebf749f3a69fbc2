-- ===== src/Dir/Lookup.antt =====
-- `search` after `insert_entry`, on a directory of one block.
use mathlib.Core.List.{append-nil, append_assoc}
use cpts.Base.{
  ℕ, ◌+◌, ◌≤◌, ◌<◌, ◌≡◌, ◌≢◌, inl, inr, true, false, List, [], ◌∷◌, ◌++◌, if◌then◌else◌, arith,
  refl, ap, ◌∙◌, sym, Bool-cases,
}
use cpts.Disk.{block_size, get_block}
use cpts.Disk.Laws.{IsImage}
use cpts.Text.{Text, length, same_text}
use cpts.Sim.{Sim}
use cpts.Sim.Monad.{ok}
use cpts.Minodes.Inode.{i_block}
use cpts.Dir.{rec_len, search_dir, last_block, insert_entry}
use cpts.Dir.Listing.{Entry, Chain, first_named, has_name}
use cpts.Dir.Search.{first_named-append, search_dir-first_named}
use cpts.Dir.Insert.{entry}
use cpts.Dir.Entered.{tail_block, tail_buf, used_bytes, Entered, insert_entry-Entered}

same_text_refl : (t : Text) → same_text t t ≡ true
unfolding same_text
same_text_refl [] = refl
same_text_refl (x ∷ xs) = ground (arith, same_text_refl xs)

-- A directory whose second block is missing, so that block 0 is read for it, which starts with
-- zeros.
pub record HasOneBlock (s : Sim) (mip : ℕ) : Type 0 where
  pub first : i_block (s.m_inodes mip).inode 0 ≢ 0
  pub second : i_block (s.m_inodes mip).inode 1 ≡ 0
  pub boot : rec_len (get_block s.image (s.m_inodes mip).dev 0) 0 ≡ 0

module _ (s : Sim) (mip : ℕ) (one : HasOneBlock s mip) where
  pub tail-first : tail_block s mip ≡ i_block (s.m_inodes mip).inode 0
  unfolding last_block
  tail-first = rw one.second

  -- With these entries in its block.
  search_one :
      (s' : Sim) (es : List Entry) (t : Text)
      → Chain (get_block s'.image (s.m_inodes mip).dev (tail_block s mip)) 0 block_size es
      → rec_len (get_block s'.image (s.m_inodes mip).dev 0) 0 ≡ 0
      → search_dir s'.image (s.m_inodes mip) t ≡ first_named t es
  search_one s' es t chain boot =
      search_dir-first_named s'.image (s.m_inodes mip) t (es ∷ [])
        (rw (sym tail-first) chain, inr (rw one.second boot))
      ∙ ap (first_named t) (append-nil es)

  -- After the insertion of `new` behind the entries `es`.
  search_dir-Entered :
      (s' : Sim) (es : List Entry) (new : Entry) (t : Text)
      → Entered s mip (es ++ new ∷ []) s'
      → search_dir s'.image (s'.m_inodes mip) t
        ≡ (if has_name t es then first_named t es else first_named t (new ∷ []))
  search_dir-Entered s' es new t entered =
      ap (λ m. search_dir s'.image m t) same
      ∙ search_one s' (es ++ new ∷ []) t entered.entries
          (rw (entered.other_blocks (s.m_inodes mip).dev 0 (inr outside)) one.boot)
      ∙ first_named-append t es (new ∷ [])
    where
      same : s'.m_inodes mip ≡ s.m_inodes mip
      same = ap (λ (u : Sim). u.m_inodes mip) entered.rest

      outside : 0 ≢ tail_block s mip
      outside e = one.first (sym tail-first ∙ sym e)

-- A name that no entry has is not found.
has_name-absent : (t : Text) (es : List Entry) → has_name t es ≡ false → first_named t es ≡ 0
unfolding has_name first_named
has_name-absent t [] h = refl
has_name-absent t (e ∷ es) h = ground (arith, has_name-absent t es)

-- After `insert_entry` of a name of less than 256 bytes and a number of 32 bits into a directory of
-- one block with room for it, on an image of bytes, `search` gives the new inode number for the
-- name, which the directory did not have before, and for every other name what it gave before. Block 0
-- of the device, which `search` reads for a missing block, starts with an entry of length 0.
pub search_dir-insert_entry :
    (s : Sim) (mip ino : ℕ) (name : Text) (es : List Entry) (last : Entry)
    → IsImage s.image
    → HasOneBlock s mip
    → Chain (tail_buf s mip) 0 block_size (es ++ last ∷ [])
    → length name < 256
    → ino < 4294967296
    → used_bytes s mip es last + 8 + length name ≤ block_size
    → has_name name (es ++ last ∷ []) ≡ false
    → (s' : Sim) × (insert_entry mip ino name s ≡ ok tt s')
      × ((search_dir s'.image (s'.m_inodes mip) name ≡ ino)
          × ((t : Text)
              → same_text t name ≡ false
              → search_dir s'.image (s'.m_inodes mip) t ≡ search_dir s.image (s.m_inodes mip) t))
unfolding first_named
search_dir-insert_entry s mip ino name es last bytes one chain short small room new =
    let (s', run, entered) =
      insert_entry-Entered s mip ino name es last bytes chain short small room in
    (s', run, (found s' entered, others s' entered))
  where
    after :
        (s' : Sim) (t : Text)
        → Entered s mip (es ++ last ∷ entry ino name ∷ []) s'
        → search_dir s'.image (s'.m_inodes mip) t ≡ (
            if has_name t (es ++ last ∷ [])
            then first_named t (es ++ last ∷ [])
            else first_named t (entry ino name ∷ []))
    after s' t entered =
        search_dir-Entered s mip one s' (es ++ last ∷ []) (entry ino name) t
          (rw (append_assoc es (last ∷ []) (entry ino name ∷ [])) entered)

    found :
        (s' : Sim)
        → Entered s mip (es ++ last ∷ entry ino name ∷ []) s'
        → search_dir s'.image (s'.m_inodes mip) name ≡ ino
    found s' entered = after s' name entered ∙ rw (new, first_named, same_text_refl name)

    others :
        (s' : Sim)
        → Entered s mip (es ++ last ∷ entry ino name ∷ []) s'
        → (t : Text) → same_text t name ≡ false
        → search_dir s'.image (s'.m_inodes mip) t ≡ search_dir s.image (s.m_inodes mip) t
    others s' entered t ne =
        after s' t entered
        ∙ elim (Bool-cases (has_name t (es ++ last ∷ []))) [
          | inl has ↦ rw has
          | inr hasnt ↦ rw (hasnt, ne, has_name-absent t (es ++ last ∷ []) hasnt)
        ]
        ∙ sym (search_one s mip one s (es ++ last ∷ []) t chain one.boot)
