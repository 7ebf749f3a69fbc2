-- ===== src/Dir/Listing.antt =====
-- The abstract view of a directory: the list of its entries.
use cpts.Base.{
  ℕ, zero, suc, ◌+◌, ◌≤◌, ◌≡◌, ◌⊎◌, Bool, true, false, List, [], ◌∷◌, ◌++◌, if◌then◌else◌,
}
use cpts.Bytes.{Buf}
use cpts.Disk.{Image, block_size, get_block}
use cpts.Text.{Text, same_text}
use cpts.Minodes.Inode.{i_block}
use cpts.Dir.{entry_inode, rec_len, name_len, raw_name}

pub record Entry : Type 0 where
  pub ino : ℕ
  pub name : Text

-- The entry at `j` stands for `e`, holds its name, and ends at `end` at most.
pub record IsEntry (b : Buf) (j end : ℕ) (e : Entry) : Type 0 where
  pub ino : entry_inode b j ≡ e.ino
  pub name : raw_name b j ≡ e.name
  pub holds_name : 8 + name_len b j ≤ rec_len b j
  pub inside : j + rec_len b j ≤ end

-- From offset `j` to `end` stand the entries `es`.
abbrev pub Chain : Buf → ℕ → ℕ → List Entry → Type 0
Chain b j end [] = j ≡ end
Chain b j end (e ∷ es) = IsEntry b j end e × Chain b (j + rec_len b j) end es

-- The inode number of the first entry with the name, 0 if there is none.
unfoldable pub first_named : Text → List Entry → ℕ
first_named name [] = 0
first_named name (e ∷ es) =
    let rest = first_named name es in if same_text name e.name then e.ino else rest

unfoldable pub has_name : Text → List Entry → Bool
has_name name [] = false
has_name name (e ∷ es) = let rest = has_name name es in if same_text name e.name then true else rest

-- From block `i` of the inode on, with `n` direct blocks left, stand the blocks of `ess`, and an
-- entry of length 0 in front of all other blocks.
abbrev pub Listed : Image → ℕ → Buf → ℕ → ℕ → List (List Entry) → Type 0
Listed img dev inode n i [] = (n ≡ 0) ⊎ (rec_len (get_block img dev (i_block inode i)) 0 ≡ 0)
Listed img dev inode zero i (es ∷ ess) = ⊥
Listed img dev inode (suc n) i (es ∷ ess) =
    Chain (get_block img dev (i_block inode i)) 0 block_size es × Listed img dev inode n (i + 1) ess

abbrev pub concat : List (List Entry) → List Entry
concat [] = []
concat (es ∷ ess) = es ++ concat ess
