-- ===== src/Alloc/Update.antt =====
-- What the three writes at the end of an allocation or deallocation change.
use cpts.Base.{ℕ, ◌%◌, ◌<◌, ◌≡◌, ◌≢◌, ◌⊎◌, inl, inr, refl, sym, ◌∙◌, arith}
use cpts.Bytes.{Buf, IsBytes, u16, put_u16, u32, put_u32, trim}
use cpts.Bytes.Fields.{
  u16-put_u16_self, u16-put_u16-Apart, u32-put_u32_self, u32-put_u32-Apart, u32-put_u16-Apart,
  u16-trim, u32-trim, put_u16-IsBytes, put_u32-IsBytes,
}
use cpts.Disk.{Image, get_super, get_group, get_block}
use cpts.Disk.Laws.{
  get_super-put_super, get_group-put_super, get_group-put_group, get_block-put_super,
  get_block-put_group, get_block-put_block_self, get_block-put_block_ne, put_super-IsImage,
  put_group-IsImage, put_block-IsImage, get_super-IsBytes, get_group-IsBytes,
}
use cpts.Alloc.{Kind, inodes, blocks, table, put_all, tst_bit}
use cpts.Alloc.Bitmap.{taken}
use cpts.Alloc.View.{bitmap_block, count, super_free, group_free, used, IsExt2}

taken-trim : (b : Buf) (i : ℕ) → i < 8192 → taken (trim 1024 b) i ≡ taken b i
unfolding taken tst_bit trim
taken-trim b i lt = ground arith

bitmaps_ne :
    {dev : ℕ} {img : Image} (j k : Kind)
    → IsExt2 dev img
    → j ≢ k
    → bitmap_block j dev img ≢ bitmap_block k dev img
bitmaps_ne inodes inodes ext ne = absurd (ne refl)
bitmaps_ne inodes blocks ext ne = ext.distinct
bitmaps_ne blocks inodes ext ne = λ e. ext.distinct (sym e)
bitmaps_ne blocks blocks ext ne = absurd (ne refl)

-- The image after the writes of `bmap` and of the free counts `v` and `w`.
abbrev pub updated : Kind → ℕ → Image → Buf → ℕ → ℕ → Image
updated k dev img bmap v w = put_all img dev (bitmap_block k dev img) bmap (
  put_u32 (get_super img dev) (table k).super_free_at v,
  put_u16 (get_group img dev) (table k).group_free_at w,
)

module _ (k : Kind) (dev : ℕ) (img : Image) (bmap : Buf) (v w : ℕ) where
  super-updated :
      get_super (updated k dev img bmap v w) dev
      ≡ trim 1024 (put_u32 (get_super img dev) (table k).super_free_at v)
  unfolding put_all
  super-updated = get_super-put_super _ dev _

  group-updated :
      get_group (updated k dev img bmap v w) dev
      ≡ trim 32 (put_u16 (get_group img dev) (table k).group_free_at w)
  unfolding put_all
  group-updated = get_group-put_super _ dev _ dev ∙ get_group-put_group _ dev _

  -- No block but the superblock, the descriptor's block and the bitmap changes.
  pub block-updated :
      (d b : ℕ)
      → (d ≢ dev) ⊎ ((b ≢ 1) × (b ≢ 2) × (b ≢ bitmap_block k dev img))
      → get_block (updated k dev img bmap v w) d b ≡ get_block img d b
  unfolding put_all
  block-updated d b h =
      get_block-put_super _ dev _ d b (ground arith)
      ∙ get_block-put_group _ dev _ d b (ground arith)
      ∙ get_block-put_block_ne img dev _ bmap d b (ground arith)

  pub count-updated : (j : Kind) → count j dev (updated k dev img bmap v w) ≡ count j dev img
  unfolding count
  count-updated j = rw super-updated (go k j)
    where
      go :
          (k j : Kind)
          → u32
              (trim 1024 (put_u32 (get_super img dev) (table k).super_free_at v))
              (table j).count_at
            ≡ u32 (get_super img dev) (table j).count_at
      go inodes inodes = u32-trim 1024 _ 0 (omega arith) ∙ u32-put_u32-Apart _ _ _ _ (omega arith)
      go inodes blocks = u32-trim 1024 _ 4 (omega arith) ∙ u32-put_u32-Apart _ _ _ _ (omega arith)
      go blocks inodes = u32-trim 1024 _ 0 (omega arith) ∙ u32-put_u32-Apart _ _ _ _ (omega arith)
      go blocks blocks = u32-trim 1024 _ 4 (omega arith) ∙ u32-put_u32-Apart _ _ _ _ (omega arith)

  pub bitmap_block-updated :
      (j : Kind) → bitmap_block j dev (updated k dev img bmap v w) ≡ bitmap_block j dev img
  unfolding bitmap_block
  bitmap_block-updated j = rw group-updated (go k j)
    where
      go :
          (k j : Kind)
          → u32
              (trim 32 (put_u16 (get_group img dev) (table k).group_free_at w))
              (table j).bitmap_at
            ≡ u32 (get_group img dev) (table j).bitmap_at
      go inodes inodes = u32-trim 32 _ 4 (omega arith) ∙ u32-put_u16-Apart _ _ _ _ (omega arith)
      go inodes blocks = u32-trim 32 _ 0 (omega arith) ∙ u32-put_u16-Apart _ _ _ _ (omega arith)
      go blocks inodes = u32-trim 32 _ 4 (omega arith) ∙ u32-put_u16-Apart _ _ _ _ (omega arith)
      go blocks blocks = u32-trim 32 _ 0 (omega arith) ∙ u32-put_u16-Apart _ _ _ _ (omega arith)

  pub super_free-updated :
      (j : Kind)
      → ((j ≡ k) × (super_free j dev (updated k dev img bmap v w) ≡ v % 4294967296))
        ⊎ ((j ≢ k) × (super_free j dev (updated k dev img bmap v w) ≡ super_free j dev img))
  unfolding super_free
  super_free-updated j = rw super-updated (go k j)
    where
      go :
          (k j : Kind)
          → ((j ≡ k)
              × (u32
                    (trim 1024 (put_u32 (get_super img dev) (table k).super_free_at v))
                    (table j).super_free_at
                  ≡ v % 4294967296))
            ⊎ ((j ≢ k)
                × (u32
                      (trim 1024 (put_u32 (get_super img dev) (table k).super_free_at v))
                      (table j).super_free_at
                    ≡ u32 (get_super img dev) (table j).super_free_at))
      go inodes inodes = inl (refl, u32-trim 1024 _ 16 (omega arith) ∙ u32-put_u32_self _ _ _)
      go inodes blocks =
          inr (λ e. cc, u32-trim 1024 _ 12 (omega arith) ∙ u32-put_u32-Apart _ _ _ _ (omega arith))
      go blocks inodes =
          inr (λ e. cc, u32-trim 1024 _ 16 (omega arith) ∙ u32-put_u32-Apart _ _ _ _ (omega arith))
      go blocks blocks = inl (refl, u32-trim 1024 _ 12 (omega arith) ∙ u32-put_u32_self _ _ _)

  pub group_free-updated :
      (j : Kind)
      → ((j ≡ k) × (group_free j dev (updated k dev img bmap v w) ≡ w % 65536))
        ⊎ ((j ≢ k) × (group_free j dev (updated k dev img bmap v w) ≡ group_free j dev img))
  unfolding group_free
  group_free-updated j = rw group-updated (go k j)
    where
      go :
          (k j : Kind)
          → ((j ≡ k)
              × (u16
                    (trim 32 (put_u16 (get_group img dev) (table k).group_free_at w))
                    (table j).group_free_at
                  ≡ w % 65536))
            ⊎ ((j ≢ k)
                × (u16
                      (trim 32 (put_u16 (get_group img dev) (table k).group_free_at w))
                      (table j).group_free_at
                    ≡ u16 (get_group img dev) (table j).group_free_at))
      go inodes inodes = inl (refl, u16-trim 32 _ 14 (omega arith) ∙ u16-put_u16_self _ _ _)
      go inodes blocks =
          inr (λ e. cc, u16-trim 32 _ 12 (omega arith) ∙ u16-put_u16-Apart _ _ _ _ (omega arith))
      go blocks inodes =
          inr (λ e. cc, u16-trim 32 _ 14 (omega arith) ∙ u16-put_u16-Apart _ _ _ _ (omega arith))
      go blocks blocks = inl (refl, u16-trim 32 _ 12 (omega arith) ∙ u16-put_u16_self _ _ _)

module _ (k : Kind) (dev : ℕ) (img : Image) (bmap : Buf) (v w : ℕ) (ext : IsExt2 dev img) where
  -- The bitmap reads back as the one written.
  pub used-updated_self :
      (i : ℕ) → i < 8192 → used k dev (updated k dev img bmap v w) i ≡ taken bmap i
  unfolding used put_all
  used-updated_self i lt =
      rw
        (
          bitmap_block-updated k dev img bmap v w k,
          get_block-put_super _ dev _ dev _ (inr (ext.not_super k)),
          get_block-put_group _ dev _ dev _ (inr (ext.not_group k)),
          get_block-put_block_self,
        )
        (taken-trim bmap i lt)

  -- The other bitmap does not change.
  pub used-updated_ne :
      (j : Kind) → j ≢ k → (i : ℕ) → used j dev (updated k dev img bmap v w) i ≡ used j dev img i
  unfolding used
  used-updated_ne j ne i = rw (
    bitmap_block-updated k dev img bmap v w j,
    block-updated k dev img bmap v w dev _
        (inr (ext.not_super j, ext.not_group j, bitmaps_ne j k ext ne)),
  )

  pub updated-IsExt2 : IsBytes bmap → IsExt2 dev (updated k dev img bmap v w)
  unfolding put_all
  updated-IsExt2 hb = record {
    bytes =
        put_super-IsImage _ dev _
          (put_group-IsImage _ dev _ (put_block-IsImage img dev _ bmap ext.bytes hb)
            (put_u16-IsBytes _ _ _ (get_group-IsBytes img dev ext.bytes)))
          (put_u32-IsBytes _ _ _ (get_super-IsBytes img dev ext.bytes));
    not_super = λ j. rw (bitmap_block-updated k dev img bmap v w j) (ext.not_super j);
    not_group = λ j. rw (bitmap_block-updated k dev img bmap v w j) (ext.not_group j);
    distinct =
        rw
          (
            bitmap_block-updated k dev img bmap v w inodes,
            bitmap_block-updated k dev img bmap v w blocks,
          )
          ext.distinct;
    fits = λ j. rw (count-updated k dev img bmap v w j) (ext.fits j);
  }
