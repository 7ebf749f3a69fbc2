-- ===== src/Dir/Search.antt =====
-- `search` finds the first entry of a name.
use cpts.Base.{
  ℕ, zero, suc, ◌+◌, ◌<◌, ◌≡◌, inl, inr, true, false, List, [], ◌∷◌, ◌++◌, ◌==◌, ltb, if◌then◌else◌,
  arith, refl, Bool-cases, ap, ◌∙◌,
}
use cpts.Bytes.{Buf}
use cpts.Disk.{Image, block_size, get_block}
use cpts.Text.{Text, length, same_text, text_at}
use cpts.Sim.{Minode}
use cpts.Minodes.Inode.{i_block}
use cpts.Dir.{
  Look, found, ended, next, rec_len, name_len, raw_name, matches, search_block, search_blocks,
  search_dir, dir_fuel,
}
use cpts.Dir.Listing.{Entry, Chain, first_named, has_name, Listed, concat}

pub length-text_at : (b : Buf) (o n : ℕ) → length (text_at b o n) ≡ n
unfolding text_at
length-text_at b o zero = refl
length-text_at b o (suc n) = ap suc (length-text_at b (o + 1) n)

same_text-length : (s t : Text) → same_text s t ≡ true → length s ≡ length t
unfolding same_text
same_text-length [] [] e = refl
same_text-length [] (y ∷ ys) e = cc
same_text-length (x ∷ xs) [] e = cc
same_text-length (x ∷ xs) (y ∷ ys) e = ap suc (same_text-length xs ys (ground arith))

-- The test on the lengths adds nothing.
pub matches-same_text :
    (b : Buf) (o : ℕ) (name : Text) → matches b o name ≡ same_text name (raw_name b o)
matches-same_text b o name = elim (Bool-cases (same_text name (raw_name b o))) [
  | inl y ↦
      let e : length name ≡ name_len b o =
        same_text-length name (raw_name b o) y ∙ length-text_at b (o + 8) (name_len b o) in
      ground arith
  | inr n ↦ ground arith
]

-- What the loop over one block says, from the block's entries.
abbrev look : Text → List Entry → Look
look name es = if has_name name es then found (first_named name es) else next

search_block-look :
    (fuel : ℕ) (b : Buf) (j : ℕ) (name : Text) (es : List Entry)
    → block_size < fuel + j
    → Chain b j block_size es
    → search_block fuel b j name ≡ look name es
unfolding search_block first_named has_name
search_block-look zero b j name [] h c = absurd (omega arith)
search_block-look zero b j name (e ∷ es) h c = absurd (omega (arith, c.0.inside))
search_block-look (suc fuel) b j name [] h c = ground arith
search_block-look (suc fuel) b j name (e ∷ es) h c =
    rw (inside, long, matches-same_text b j name, c.0.name)
      (elim (Bool-cases (same_text name e.name)) [
        | inl hit ↦ rw (hit, c.0.ino)
        | inr miss ↦
            rw miss (
              search_block-look fuel b (j + rec_len b j) name es (omega (arith, c.0.holds_name))
                c.1)
      ])
  where
    inside : ltb j block_size ≡ true
    inside = ground (arith, c.0.inside, c.0.holds_name)

    long : (rec_len b j == 0) ≡ false
    long = ground (arith, c.0.holds_name)

-- An entry of length 0 at the start of a block ends the search.
search_block-ended :
    (b : Buf) (name : Text) → rec_len b 0 ≡ 0 → search_block dir_fuel b 0 name ≡ ended
unfolding search_block
search_block-ended b name e = rw e

pub first_named-append :
    (name : Text) (es fs : List Entry)
    → first_named name (es ++ fs)
      ≡ (if has_name name es then first_named name es else first_named name fs)
unfolding first_named has_name
first_named-append name [] fs = refl
first_named-append name (e ∷ es) fs = ground (arith, first_named-append name es fs)

search_blocks-first_named :
    (img : Image) (m : Minode) (name : Text) (n i : ℕ) (ess : List (List Entry))
    → Listed img m.dev m.inode n i ess
    → search_blocks img m name n i ≡ first_named name (concat ess)
unfolding search_blocks first_named
search_blocks-first_named img m name zero i [] l = refl
search_blocks-first_named img m name (suc n) i [] (inl z) = absurd (omega arith)
search_blocks-first_named img m name (suc n) i [] (inr e) =
    rw (search_block-ended _ name e, search_blocks)
search_blocks-first_named img m name zero i (es ∷ ess) l = absurd l
search_blocks-first_named img m name (suc n) i (es ∷ ess) (c, l) =
    rw
      (
        search_block-look dir_fuel (get_block img m.dev (i_block m.inode i)) 0 name es (omega arith)
            c,
        search_blocks,
        first_named-append name es (concat ess),
      )
      (elim (Bool-cases (has_name name es)) [
        | inl hit ↦ rw hit
        | inr miss ↦ rw miss (search_blocks-first_named img m name n (i + 1) ess l)
      ])

-- On a directory whose blocks are lists of entries, up to one that starts with an entry of length 0
-- or to the last of the 12 direct blocks, `search` returns the inode number of the first entry with
-- the name, and 0 if no entry has it. For a block that is missing, block 0 of the device is the one
-- that starts so.
pub search_dir-first_named :
    (img : Image) (m : Minode) (name : Text) (ess : List (List Entry))
    → Listed img m.dev m.inode 12 0 ess
    → search_dir img m name ≡ first_named name (concat ess)
unfolding search_dir
search_dir-first_named img m name ess l = search_blocks-first_named img m name 12 0 ess l
