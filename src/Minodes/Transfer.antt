-- ===== src/Minodes/Transfer.antt =====
-- Inodes written to their place in the inode table and read back.
use cpts.Base.{ℕ, ◌+◌, ◌-◌, ◌*◌, ◌/◌, ◌%◌, ◌<◌, ◌≡◌, ◌≢◌, ◌⊎◌, inl, inr, fun_ext, arith}
use native.Mathlib.Decide.{ℕ_discrete}
use cpts.Bytes.{Buf, copy_in, shift, trim}
use cpts.Disk.{Image, inode_size, get_group, get_block}
use cpts.Disk.Layout.{bg_inode_table}
use cpts.Disk.Laws.{get_block-put_block_self, get_block-put_block_ne, get_group-put_block}
use cpts.Minodes.{inode_place, load_inode, store_inode}

copied_self :
    (b : Buf) (off : ℕ) (inode : Buf)
    → off + 128 < 1025
    → trim 128 (shift (trim 1024 (copy_in b off 128 inode)) off) ≡ trim 128 inode
unfolding trim copy_in
copied_self b off inode h = fun_ext λ i. ground (arith, back i)
  where
    back : (i : ℕ) → off + i - off ≡ i
    back i = omega arith

copied_apart :
    (b : Buf) (off p : ℕ) (inode : Buf)
    → (off + 128 < p + 1) ⊎ (p + 128 < off + 1)
    → p + 128 < 1025
    → trim 128 (shift (trim 1024 (copy_in b off 128 inode)) p) ≡ trim 128 (shift b p)
unfolding trim copy_in
copied_apart b off p inode h k = fun_ext λ i. ground arith

-- The inode's block is not the group descriptor's.
abbrev pub InTable : Image → ℕ → ℕ → Type 0
InTable img dev n = (inode_place img dev n).0 ≢ 2

-- The inode table stays where it is.
pub table-store_inode :
    (img : Image) (dev n : ℕ) (inode : Buf) (d : ℕ)
    → InTable img dev n
    → get_group (store_inode img dev n inode) d ≡ get_group img d
unfolding store_inode inode_place
table-store_inode img dev n inode d h = get_group-put_block img dev _ _ d (inr h)

-- An inode that is written to the inode table reads back with the same 128 bytes.
pub load-store_self :
    (img : Image) (dev n : ℕ) (inode : Buf)
    → InTable img dev n
    → load_inode (store_inode img dev n inode) dev n ≡ trim inode_size inode
unfolding load_inode store_inode trim
load-store_self img dev n inode h =
    rw (table-store_inode img dev n inode dev h, store_inode, get_block-put_block_self)
      (copied_self _ (n % 8 * 128) inode (omega arith))

block_ne :
    (img : Image) (dev n : ℕ) (inode : Buf) (d b : ℕ)
    → (d ≢ dev) ⊎ (b ≢ n / 8 + bg_inode_table (get_group img dev))
    → get_block (store_inode img dev n inode) d b ≡ get_block img d b
unfolding store_inode
block_ne img dev n inode d b h = get_block-put_block_ne img dev _ _ d b h

block_self :
    (img : Image) (dev n m : ℕ) (inode : Buf)
    → InTable img dev n
    → m / 8 ≡ n / 8
    → m % 8 ≢ n % 8
    → load_inode (store_inode img dev n inode) dev m ≡ load_inode img dev m
unfolding load_inode store_inode trim
block_self img dev n m inode h e ne =
    rw (table-store_inode img dev n inode dev h, e, get_block-put_block_self)
      (copied_apart _ (n % 8 * 128) (m % 8 * 128) inode (omega arith) (omega arith))

load_ne :
    (img : Image) (dev n : ℕ) (inode : Buf) (d m : ℕ)
    → InTable img dev n
    → (d ≢ dev)
      ⊎ (m / 8 + bg_inode_table (get_group img d) ≢ n / 8 + bg_inode_table (get_group img dev))
    → load_inode (store_inode img dev n inode) d m ≡ load_inode img d m
unfolding load_inode
load_ne img dev n inode d m h ne =
    rw (table-store_inode img dev n inode d h, block_ne img dev n inode d _ ne)

-- Writing an inode back changes no other inode of any device, when its place is not in the block of
-- the group descriptor.
pub load-store_ne :
    (img : Image) (dev n : ℕ) (inode : Buf) (d m : ℕ)
    → InTable img dev n
    → (d ≢ dev) ⊎ (m ≢ n)
    → load_inode (store_inode img dev n inode) d m ≡ load_inode img d m
load-store_ne img dev n inode d m h (inl ne) = load_ne img dev n inode d m h (inl ne)
load-store_ne img dev n inode d m h (inr ne) = elim (ℕ_discrete d dev) [
  | no other ↦ load_ne img dev n inode d m h (inl other)
  | yes same ↦ elim (ℕ_discrete (m / 8) (n / 8)) [
    | yes e ↦ rw same (block_self img dev n m inode h e (λ r. ne (omega arith)))
    | no apart ↦ rw same (load_ne img dev n inode dev m h (inr (omega arith)))
  ]
]
