-- ===== src/Alloc/Contract.antt =====
-- What allocation and deallocation promise over the abstract view.
use cpts.Base.{
  ℕ, suc, ◌+◌, ◌%◌, ◌≤◌, ◌<◌, ◌≡◌, ◌≢◌, ◌⊎◌, inl, inr, refl, sym, ◌∙◌, Bool, true, false, arith,
  ◌==◌, leb, ℤ, pos, negsuc, Bool-cases, Option-cases,
}
use native.Mathlib.Numerals.{add-one}
use cpts.Bytes.{Buf}
use cpts.Disk.{Image, get_super, get_block}
use cpts.Disk.Laws.{get_block-IsBytes}
use cpts.Alloc.{
  Kind, inodes, blocks, table, tst_bit, set_bit, clr_bit, first_clear, less_free, more_free, alloc,
  search_overruns, bit_overruns, dealloc, ialloc, balloc, idealloc, bdealloc,
}
use cpts.Alloc.Bitmap.{
  taken, taken-set_bit_self, taken-set_bit_ne, taken-clr_bit_self, taken-clr_bit_ne,
  set_bit-IsBytes, clr_bit-IsBytes,
}
use cpts.Alloc.Find.{first_clear-some, first_clear-none}
use cpts.Alloc.View.{bitmap_block, count, super_free, group_free, used, IsExt2}
use cpts.Alloc.Update.{
  updated, block-updated, count-updated, super_free-updated, group_free-updated, used-updated_self,
  used-updated_ne, updated-IsExt2,
}
use cpts.Alloc.Frame.{Outside, super-kept, group-kept}

-- From `img` to `img'` the item of bit `i` became `now`, and nothing else changed but the free counts
-- of its kind: no other bit of the bitmaps, no other byte of the superblock or of the block that
-- holds the descriptor, and no other block.
pub record Changed (k : Kind) (dev : ℕ) (img img' : Image) (i : ℕ) (now : Bool) : Type 0 where
  pub bit : used k dev img' i ≡ now
  pub others : (j : ℕ) → j < 8192 → j ≢ i → used k dev img' j ≡ used k dev img j
  pub other_kind : (l : Kind) → l ≢ k → (j : ℕ) → used l dev img' j ≡ used l dev img j
  pub counts : (l : Kind) → count l dev img' ≡ count l dev img
  pub elsewhere :
      (d b : ℕ)
      → (d ≢ dev) ⊎ ((b ≢ 1) × (b ≢ 2) × (b ≢ bitmap_block k dev img))
      → get_block img' d b ≡ get_block img d b
  pub super :
      (o : ℕ) → Outside (table k).super_free_at 4 o → get_super img' dev o ≡ get_super img dev o
  pub group :
      (o : ℕ) → Outside (table k).group_free_at 2 o → get_block img' dev 2 o ≡ get_block img dev 2 o
  pub ext2 : IsExt2 dev img'

-- The free counts in the superblock and in the descriptor, modulo the width of each.
abbrev pub FreeCounts : Kind → ℕ → Image → ℕ → ℕ → Type 0
FreeCounts k dev img v w =
    (super_free k dev img ≡ v % 4294967296) × (group_free k dev img ≡ w % 65536)

abbrev pub AllUsed : Kind → ℕ → Image → ℕ → Type 0
AllUsed k dev img n = (i : ℕ) → i < n → used k dev img i ≡ true

-- A successful allocation of bit `i`.
pub record Allocated (k : Kind) (dev : ℕ) (img : Image) (r : ℕ × Image) (i : ℕ) : Type 0 where
  pub number : r.0 ≡ i + 1
  pub in_range : i < count k dev img
  pub was_free : used k dev img i ≡ false
  pub lowest : AllUsed k dev img i
  pub changed : Changed k dev img r.1 i true
  pub free : FreeCounts k dev r.1 (super_free k dev img + 4294967295) (group_free k dev img + 65535)

abbrev pub Allocates : Kind → ℕ → Image → ℕ × Image → Type 0
Allocates k dev img r =
    ((r ≡ (0, img)) × AllUsed k dev img (count k dev img)) ⊎ ((i : ℕ) × Allocated k dev img r i)

pub record Freed (k : Kind) (dev i : ℕ) (img : Image) (r : ℤ × Image) : Type 0 where
  pub code : r.0 ≡ pos 0
  pub in_range : i < count k dev img
  pub was_used : used k dev img i ≡ true
  pub changed : Changed k dev img r.1 i false
  pub free : FreeCounts k dev r.1 (super_free k dev img + 1) (group_free k dev img + 1)

-- The three outcomes of freeing the item of bit `i`.
abbrev pub Deallocates : Kind → ℕ → ℕ → Image → ℤ × Image → Type 0
Deallocates k dev i img r =
    ((count k dev img ≤ i) × (r ≡ (negsuc 0, img)))
    ⊎ ((i < count k dev img) × (used k dev img i ≡ false) × (r ≡ (negsuc 1, img)))
    ⊎ Freed k dev i img r

module _ (k : Kind) (dev : ℕ) (img : Image) (ext : IsExt2 dev img) where
  bitmap-IsBytes : (i : ℕ) → get_block img dev (bitmap_block k dev img) i < 256
  bitmap-IsBytes = get_block-IsBytes img dev _ ext.bytes

  free-updated : (bmap : Buf) (v w : ℕ) → FreeCounts k dev (updated k dev img bmap v w) v w
  free-updated bmap v w =
      ground
        (arith, super_free-updated k dev img bmap v w k, group_free-updated k dev img bmap v w k)

  set-Changed :
      (v w i : ℕ)
      → i < 8192
      → Changed k dev img
          (updated k dev img (set_bit (get_block img dev (bitmap_block k dev img)) i) v w)
          i
          true
  unfolding used
  set-Changed v w i lt = record {
    bit = used-updated_self k dev img _ v w ext i lt ∙ taken-set_bit_self _ i bitmap-IsBytes;
    others = λ j p ne.
        used-updated_self k dev img _ v w ext j p
        ∙ taken-set_bit_ne _ i j bitmap-IsBytes (λ e. ne (sym e));
    other_kind = λ l ne j. used-updated_ne k dev img _ v w ext l ne j;
    counts = λ l. count-updated k dev img _ v w l;
    elsewhere = λ d b h. block-updated k dev img _ v w d b h;
    super = λ o out. super-kept k dev img _ v w o out;
    group = λ o out. group-kept k dev img _ v w (ext.not_group k) o out;
    ext2 = updated-IsExt2 k dev img _ v w ext (set_bit-IsBytes _ i bitmap-IsBytes);
  }

  clr-Changed :
      (v w i : ℕ)
      → i < 8192
      → Changed k dev img
          (updated k dev img (clr_bit (get_block img dev (bitmap_block k dev img)) i) v w)
          i
          false
  unfolding used
  clr-Changed v w i lt = record {
    bit = used-updated_self k dev img _ v w ext i lt ∙ taken-clr_bit_self _ i bitmap-IsBytes;
    others = λ j p ne.
        used-updated_self k dev img _ v w ext j p
        ∙ taken-clr_bit_ne _ i j bitmap-IsBytes (λ e. ne (sym e));
    other_kind = λ l ne j. used-updated_ne k dev img _ v w ext l ne j;
    counts = λ l. count-updated k dev img _ v w l;
    elsewhere = λ d b h. block-updated k dev img _ v w d b h;
    super = λ o out. super-kept k dev img _ v w o out;
    group = λ o out. group-kept k dev img _ v w (ext.not_group k) o out;
    ext2 = updated-IsExt2 k dev img _ v w ext (clr_bit-IsBytes _ i bitmap-IsBytes);
  }

  pub alloc-Allocates : Allocates k dev img (alloc (table k) dev img)
  unfolding alloc less_free bitmap_block count super_free group_free used
  alloc-Allocates =
      elim (Option-cases
        (first_clear (count k dev img) 0 (get_block img dev (bitmap_block k dev img)))) [
          | inl e ↦
              inl (rw (e, alloc), λ i p. first_clear-none _ 0 _ e i (omega arith) (omega arith))
          | inr (i, e) ↦
              let found = first_clear-some _ 0 _ i e in
              let lt : i < 8192 = omega (arith, found.1, ext.fits k) in
              inr (
                i,
                rw (e, alloc)
                    (record {
                      number = refl;
                      in_range = omega (arith, found.1);
                      was_free = found.2;
                      lowest = λ j p. found.3 j (omega arith) p;
                      changed = set-Changed _ _ i lt;
                      free = free-updated _ _ _;
                    }),
              )
        ]

  pub dealloc-Deallocates : (i : ℕ) → Deallocates k dev i img (dealloc (table k) dev (suc i) img)
  unfolding dealloc more_free bitmap_block count super_free group_free used taken
  dealloc-Deallocates i = elim (Bool-cases (leb (count k dev img) i)) [
    | inl out ↦ inl (ground arith, rw out)
    | inr inside ↦
        let lt : i < count k dev img = ground arith in
        elim (Bool-cases (tst_bit (get_block img dev (bitmap_block k dev img)) i == 0)) [
          | inl c ↦ inr (inl (lt, ground arith, rw (inside, c)))
          | inr s ↦ inr (
              inr (
                rw (inside, s)
                  (record {
                    code = refl;
                    in_range = lt;
                    was_used = rw s;
                    changed = clr-Changed _ _ i (omega (arith, ext.fits k));
                    free = free-updated _ _ _;
                  })))
        ]
  ]

-- A bitmap that fits into its block is not left.
module _ (k : Kind) (dev : ℕ) (img : Image) (ext : IsExt2 dev img) where
  search_inside : search_overruns k dev img ≡ false
  unfolding search_overruns count
  search_inside = let fits = ext.fits k in ground (arith, fits)

  bit_inside : (i : ℕ) → bit_overruns k dev (suc i) img ≡ false
  unfolding bit_overruns count
  bit_inside i = let fits = ext.fits k in ground (arith, fits)

-- `ialloc` returns the lowest free inode number, marks it and lowers both free counts of inodes by
-- one (modulo 2^32 and 2^16), or returns 0, changes nothing and every inode is taken; no other bit
-- of the bitmaps, byte of the superblock or of block 2, or block changes. The search stays inside
-- the array of the bitmap. The image consists of bytes, the device's bitmaps are blocks of their
-- own, not 1 or 2, and the counts of inodes and of blocks are at most 8192, the bits of a block.
pub ialloc-Allocates :
    (dev : ℕ) (img : Image)
    → IsExt2 dev img
    → (search_overruns inodes dev img ≡ false) × Allocates inodes dev img (ialloc dev img)
unfolding ialloc
ialloc-Allocates dev img ext =
    (search_inside inodes dev img ext, alloc-Allocates inodes dev img ext)

-- `balloc` returns the lowest free block number, marks it and lowers both free counts of blocks by
-- one (modulo 2^32 and 2^16), or returns 0, changes nothing and every block is taken; no other bit
-- of the bitmaps, byte of the superblock or of block 2, or block changes. The search stays inside
-- the array of the bitmap. The image consists of bytes, the device's bitmaps are blocks of their
-- own, not 1 or 2, and the counts of inodes and of blocks are at most 8192, the bits of a block.
pub balloc-Allocates :
    (dev : ℕ) (img : Image)
    → IsExt2 dev img
    → (search_overruns blocks dev img ≡ false) × Allocates blocks dev img (balloc dev img)
unfolding balloc
balloc-Allocates dev img ext =
    (search_inside blocks dev img ext, alloc-Allocates blocks dev img ext)

-- `idealloc` of a number from 1 on returns -1 and changes nothing beyond the inode count, -2 and
-- changes nothing for a free inode, and otherwise 0, with that inode's bit cleared and both free
-- counts of inodes raised by one (modulo 2^32 and 2^16); no other bit of the bitmaps, byte of the
-- superblock or of block 2, or block changes. The bit is inside the array of the bitmap. The image
-- consists of bytes, the device's bitmaps are blocks of their own, not 1 or 2, and the counts of
-- inodes and of blocks are at most 8192, the bits of a block.
pub idealloc-Deallocates :
    (dev i : ℕ) (img : Image)
    → IsExt2 dev img
    → (bit_overruns inodes dev (i + 1) img ≡ false)
      × Deallocates inodes dev i img (idealloc dev (i + 1) img)
unfolding idealloc
idealloc-Deallocates dev i img ext =
    rw add-one (bit_inside inodes dev img ext i, dealloc-Deallocates inodes dev img ext i)

-- `bdealloc` does the same for blocks.
bdealloc-Deallocates :
    (dev i : ℕ) (img : Image)
    → IsExt2 dev img
    → Deallocates blocks dev i img (bdealloc dev (i + 1) img)
unfolding bdealloc
bdealloc-Deallocates dev i img ext = rw add-one (dealloc-Deallocates blocks dev img ext i)
