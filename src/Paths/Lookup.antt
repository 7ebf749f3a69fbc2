-- ===== src/Paths/Lookup.antt =====
-- The look-up of a path on the disk, which `getino` is compared with.
use cpts.Base.{
  ℕ, zero, suc, ◌+◌, ◌-◌, ◌≡◌, refl, sym, ◌∙◌, ap, true, false, ◌==◌, List, [], ◌∷◌, arith,
  if◌then◌else◌,
}
use cpts.Bytes.{Buf}
use cpts.Disk.{Image, get_block}
use cpts.Text.{Text, same_text}
use cpts.Sim.{Minode, no_minode}
use cpts.Minodes.{load_inode}
use cpts.Minodes.Inode.{has_type, dir_type, i_block}
use cpts.Minodes.Outcome.{loaded}
use cpts.Dir.{search_blocks, search_block, search_dir, Look, found, ended, next, lost, dir_fuel}

-- The inode with a number as the disk has it, and a minode of it.
abbrev pub disk_inode : Image → ℕ → ℕ → Buf
disk_inode img dev ino = load_inode img dev (ino - 1)

abbrev pub disk_minode : Image → ℕ → ℕ → Minode
disk_minode img dev ino = loaded img dev (ino - 1) no_minode

-- The inode number that the names lead to from inode `ino`, 0 if a name is not there. What is not a
-- directory ends the path.
unfoldable pub lookup : Image → ℕ → List Text → ℕ → ℕ
lookup img dev [] ino = ino
lookup img dev (t ∷ ts) ino =
    let c = search_dir img (disk_minode img dev ino) t in
    let rest = lookup img dev ts c in
    if has_type dir_type (disk_inode img dev ino) then (if c == 0 then 0 else rest) else ino

-- What `search` does behind the scan of a block.
abbrev behind : Look → ℕ → ℕ
behind r rest = elim r [ found ino ↦ ino | ended ↦ 0 | next ↦ rest | lost ↦ 0 ]

search_blocks-step :
    (img : Image) (m : Minode) (name : Text) (n i : ℕ)
    → search_blocks img m name (suc n) i
      ≡ behind
          (search_block dir_fuel (get_block img m.dev (i_block m.inode i)) 0 name)
          (search_blocks img m name n (i + 1))
unfolding search_blocks
search_blocks-step img m name n i = refl

pub same_text-eq : (s t : Text) → same_text s t ≡ true → s ≡ t
unfolding same_text
same_text-eq [] [] e = refl
same_text-eq [] (y ∷ ys) e = cc
same_text-eq (x ∷ xs) [] e = cc
same_text-eq (x ∷ xs) (y ∷ ys) e =
    let same : x ≡ y = ground arith in
    let rest = same_text-eq xs ys (ground arith) in rw (same, rest) refl

-- `search` depends on the device and the inode only.
search_blocks-same :
    (img : Image) (m m' : Minode) (name : Text) (n i : ℕ)
    → m.dev ≡ m'.dev
    → m.inode ≡ m'.inode
    → search_blocks img m name n i ≡ search_blocks img m' name n i
search_blocks-same img m m' name zero i ed ei = unfold search_blocks in refl
search_blocks-same img m m' name (suc n) i ed ei =
    search_blocks-step img m name n i
    ∙ ap
        (λ (r : ℕ).
          behind (search_block dir_fuel (get_block img m.dev (i_block m.inode i)) 0 name) r)
        (search_blocks-same img m m' name n (i + 1) ed ei)
    ∙ ap
        (λ (d : ℕ).
          behind (search_block dir_fuel (get_block img d (i_block m.inode i)) 0 name)
            (search_blocks img m' name n (i + 1)))
        ed
    ∙ ap
        (λ (b : Buf).
          behind (search_block dir_fuel (get_block img m'.dev (i_block b i)) 0 name)
            (search_blocks img m' name n (i + 1)))
        ei
    ∙ sym (search_blocks-step img m' name n i)

pub search_dir-same :
    (img : Image) (m m' : Minode) (name : Text)
    → m.dev ≡ m'.dev
    → m.inode ≡ m'.inode
    → search_dir img m name ≡ search_dir img m' name
unfolding search_dir
search_dir-same img m m' name ed ei = search_blocks-same img m m' name 12 0 ed ei

-- And those of `lookup`.
module _ (img : Image) (dev : ℕ) (t : Text) (ts : List Text) (ino : ℕ) where
  pub lookup-file :
      has_type dir_type (disk_inode img dev ino) ≡ false → lookup img dev (t ∷ ts) ino ≡ ino
  unfolding lookup
  lookup-file e = rw e refl

  pub lookup-dir :
      (c : ℕ)
      → has_type dir_type (disk_inode img dev ino) ≡ true
      → search_dir img (disk_minode img dev ino) t ≡ c
      → lookup img dev (t ∷ ts) ino ≡ (if c == 0 then 0 else lookup img dev ts c)
  unfolding lookup
  lookup-dir c e f = rw (e, f) refl
