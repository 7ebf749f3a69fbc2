-- ===== src/Alloc/Frame.antt =====
-- The bytes of the superblock and of the descriptor's block that an allocation or deallocation
-- leaves alone: all but the free counts of its kind.
use cpts.Base.{ℕ, ◌+◌, ◌≤◌, ◌<◌, ◌≡◌, ◌≢◌, ◌⊎◌, inr, ap, sym, ◌∙◌, arith}
use cpts.Bytes.{Buf, trim, put_u16, put_u32}
use cpts.Disk.{Image, get_super, get_group, get_block, put_group, put_block, read_at, write_at}
use cpts.Disk.Laws.{
  get_super-put_super, get_block-put_super, get_block-put_block_ne, get_group-put_block,
}
use cpts.Alloc.{Kind, inodes, blocks, table, put_all}
use cpts.Alloc.View.{bitmap_block}
use cpts.Alloc.Update.{updated}

-- Byte `o` is not one of the `n` bytes from `at` on.
abbrev pub Outside : ℕ → ℕ → ℕ → Type 0
Outside at n o = (o < at) ⊎ (at + n ≤ o)

super_bytes :
    (img : Image) (dev at v o : ℕ)
    → Outside at 4 o
    → trim 1024 (put_u32 (get_super img dev) at v) o ≡ get_super img dev o
unfolding trim put_u32 get_super read_at
super_bytes img dev at v o out = ground arith

group_bytes :
    (img : Image) (dev at v o : ℕ)
    → at + 2 ≤ 32
    → Outside at 2 o
    → get_block (put_group img dev (put_u16 (get_group img dev) at v)) dev 2 o
      ≡ get_block img dev 2 o
unfolding get_block put_group get_group read_at write_at put_u16
group_bytes img dev at v o fits out = ground arith

module _ (k : Kind) (dev : ℕ) (img : Image) (bmap : Buf) (v w : ℕ) where
  pub super-kept :
      (o : ℕ)
      → Outside (table k).super_free_at 4 o
      → get_super (updated k dev img bmap v w) dev o ≡ get_super img dev o
  unfolding put_all
  super-kept o out = rw get_super-put_super (super_bytes img dev _ v o out)

  group_fits : (k : Kind) → (table k).group_free_at + 2 ≤ 32
  group_fits inodes = omega arith
  group_fits blocks = omega arith

  pub group-kept :
      bitmap_block k dev img ≢ 2
      → (o : ℕ) → Outside (table k).group_free_at 2 o
      → get_block (updated k dev img bmap v w) dev 2 o ≡ get_block img dev 2 o
  unfolding put_all
  group-kept apart o out =
      ap (λ (b : Buf). b o) (get_block-put_super _ dev _ dev 2 (inr (omega arith)))
      ∙ ap (λ (b : Buf). b o)
          (ap
            (λ (g : Buf).
              get_block
                (put_group (put_block img dev (bitmap_block k dev img) bmap) dev
                  (put_u16 g (table k).group_free_at w))
                dev 2)
            (sym (get_group-put_block img dev _ bmap dev (inr apart))))
      ∙ group_bytes (put_block img dev (bitmap_block k dev img) bmap) dev (table k).group_free_at w
          o (group_fits k) out
      ∙ ap (λ (b : Buf). b o)
          (get_block-put_block_ne img dev _ bmap dev 2 (inr (λ e. apart (sym e))))
