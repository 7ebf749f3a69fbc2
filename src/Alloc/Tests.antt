-- ===== src/Alloc/Tests.antt =====
-- src/alloc_dealloc.c on the sample image.
use cpts.Base.{false, ℕ, ◌+◌, ◌≡◌, refl, true, List, [], ◌∷◌, arith, negsuc}
use cpts.Disk.{get_super, get_group, get_block, put_super, put_group, put_block, read_at, write_at}
use cpts.Bytes.{u16, u32, put_u8, put_u16, put_u32}
use cpts.Sample.{sample_image, sample_disk, sample-IsExt2}
use cpts.Alloc.{
  search_overruns, bit_overruns, inodes, blocks, tst_bit, set_bit, clr_bit, first_clear, less_free,
  more_free, put_all, alloc, dealloc, ialloc, balloc, idealloc, bdealloc,
}
use cpts.Alloc.Bitmap.{taken}
use cpts.Alloc.View.{bitmap_block, used}
use cpts.Alloc.Contract.{
  Allocates, Deallocates, ialloc-Allocates, balloc-Allocates, idealloc-Deallocates,
}
use cpts.Alloc.Traces.{Op, take, give, NeverIssued, held-NeverIssued, Restores, idealloc-ialloc}

-- All that a run on the image looks through.
runs : ℕ
unfolding sample_image sample_disk get_super get_group get_block put_super put_group put_block
    read_at write_at u16 u32 put_u8 put_u16 put_u32 tst_bit set_bit clr_bit first_clear less_free
    more_free put_all alloc dealloc ialloc balloc idealloc bdealloc taken bitmap_block used
runs = 0

ialloc_twelve : (ialloc 3 sample_image).0 ≡ 12
unfolding runs
ialloc_twelve = refl

ialloc_twice : (ialloc 3 (ialloc 3 sample_image).1).0 ≡ 13
unfolding runs
ialloc_twice = refl

balloc_nine : (balloc 3 sample_image).0 ≡ 9
unfolding runs
balloc_nine = refl

-- Inode 12 is free, 17 is out of range, and 3 is taken.
idealloc_free : (idealloc 3 12 sample_image).0 ≡ negsuc 1
unfolding runs
idealloc_free = refl

idealloc_range : (idealloc 3 17 sample_image).0 ≡ negsuc 0
unfolding runs
idealloc_range = refl

idealloc_three : (ialloc 3 (idealloc 3 3 sample_image).1).0 ≡ 3
unfolding runs
idealloc_three = refl

first_used : used inodes 3 sample_image 0 ≡ true
unfolding runs
first_used = refl

ialloc_ok : ialloc 3 sample_image ≡ (12, (ialloc 3 sample_image).1)
ialloc_ok = λ i. (ialloc_twelve i, (ialloc 3 sample_image).1)

balloc_ok : balloc 3 sample_image ≡ (9, (balloc 3 sample_image).1)
balloc_ok = λ i. (balloc_nine i, (balloc 3 sample_image).1)

ialloc-Allocates_example :
    (search_overruns inodes 3 sample_image ≡ false)
    × Allocates inodes 3 sample_image (ialloc 3 sample_image)
ialloc-Allocates_example = ialloc-Allocates 3 sample_image sample-IsExt2

balloc-Allocates_example :
    (search_overruns blocks 3 sample_image ≡ false)
    × Allocates blocks 3 sample_image (balloc 3 sample_image)
balloc-Allocates_example = balloc-Allocates 3 sample_image sample-IsExt2

idealloc-Deallocates_example :
    (bit_overruns inodes 3 (2 + 1) sample_image ≡ false)
    × Deallocates inodes 3 2 sample_image (idealloc 3 (2 + 1) sample_image)
idealloc-Deallocates_example = idealloc-Deallocates 3 2 sample_image sample-IsExt2

idealloc-ialloc_example : Restores inodes 3 sample_image (idealloc 3 12 (ialloc 3 sample_image).1)
idealloc-ialloc_example =
    idealloc-ialloc 3 sample_image (ialloc 3 sample_image).1 11 sample-IsExt2 ialloc_ok

abbrev calls : List Op
calls = take inodes ∷ give inodes 2 ∷ take inodes ∷ take blocks ∷ []

held-NeverIssued_example : NeverIssued inodes 0 3 calls sample_image
held-NeverIssued_example =
    held-NeverIssued inodes 0 3 calls sample_image sample-IsExt2 (omega arith) first_used
      (λ e. cc, (λ e. ground arith, (λ e. cc, (λ e. cc, tt))))
