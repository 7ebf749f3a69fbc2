-- ===== src/Sample.antt =====
-- A small disk image, on device 3: 16 inodes and 16 blocks, of which 11 and 8 are taken, with the
-- inode table from block 5 on and the root directory's block 7.
use cpts.Base.{ℕ, sym, ap, ◌∙◌, ◌≤◌, ◌≡◌, ◌≢◌, refl, none, arith, if◌then◌else◌, ◌==◌}
use cpts.Bytes.{Buf, IsBytes, zeros, put_u8, put_u16, put_u32, u32}
use cpts.Bytes.Fields.{put_u8-IsBytes, put_u16-IsBytes, put_u32-IsBytes}
use cpts.Disk.{Image, get_super, get_group, read_at}
use cpts.Disk.Laws.{IsImage}
use cpts.Sim.{Sim, no_proc, no_mount, no_minode, no_oft}
use cpts.Alloc.{Kind, inodes, blocks}
use cpts.Alloc.View.{bitmap_block, count, IsExt2}

abbrev pub sample_super : Buf
sample_super =
    put_u16 (put_u32 (put_u32 (put_u32 (put_u32 zeros 1024 16) 1028 16) 1036 8) 1040 5) 1080 0xEF53

abbrev pub sample_group : Buf
sample_group =
    put_u16 (put_u16 (put_u32 (put_u32 (put_u32 sample_super 2048 3) 2052 4) 2056 5) 2060 8) 2062 5

abbrev pub sample_bitmaps : Buf
sample_bitmaps = put_u16 (put_u16 sample_group 3072 0x00ff) 4096 0x07ff

-- The root inode: a directory of mode 0755 and 1024 bytes, with two links, in block 7.
abbrev pub sample_inodes : Buf
sample_inodes =
    put_u32 (put_u16 (put_u32 (put_u16 sample_bitmaps 5248 0x41ED) 5252 1024) 5274 2) 5288 7

-- "." and "..", both inode 2.
abbrev pub sample_root : Buf
sample_root =
    put_u16
      (put_u8
        (put_u8
          (put_u16
            (put_u32
              (put_u8 (put_u8 (put_u16 (put_u32 sample_inodes 7168 2) 7172 12) 7174 1) 7176 0x2E)
              7180 2)
            7184 1012)
          7186 2)
        7188 0x2E)
      7188 0x2E2E

unfoldable pub sample_disk : Buf
sample_disk = sample_root

unfoldable pub sample_image : Image
sample_image dev i = if dev == 3 then sample_disk i else 0

zeros-IsBytes : IsBytes zeros
zeros-IsBytes i = omega arith

bitmaps-IsBytes : IsBytes sample_bitmaps
bitmaps-IsBytes = put_u16-IsBytes _ _ _ (
    put_u16-IsBytes _ _ _ (
      put_u16-IsBytes _ _ _ (
        put_u16-IsBytes _ _ _ (
          put_u32-IsBytes _ _ _ (
            put_u32-IsBytes _ _ _ (
              put_u32-IsBytes _ _ _ (
                put_u16-IsBytes _ _ _ (
                  put_u32-IsBytes _ _ _ (
                    put_u32-IsBytes _ _ _
                      (put_u32-IsBytes _ _ _ (put_u32-IsBytes _ _ _ zeros-IsBytes)))))))))))

disk-IsBytes : IsBytes sample_disk
unfolding sample_disk
disk-IsBytes = put_u16-IsBytes _ _ _ (
    put_u8-IsBytes _ _ _ (
      put_u8-IsBytes _ _ _ (
        put_u16-IsBytes _ _ _ (
          put_u32-IsBytes _ _ _ (
            put_u8-IsBytes _ _ _ (
              put_u8-IsBytes _ _ _ (
                put_u16-IsBytes _ _ _ (
                  put_u32-IsBytes _ _ _ (
                    put_u32-IsBytes _ _ _ (
                      put_u16-IsBytes _ _ _
                        (put_u32-IsBytes _ _ _ (put_u16-IsBytes _ _ _ bitmaps-IsBytes))))))))))))

pub sample-IsImage : IsImage sample_image
unfolding sample_image
sample-IsImage dev i = ground (arith, disk-IsBytes i)

abbrev reads : Kind → ℕ × ℕ
reads k = (bitmap_block k 3 sample_image, count k 3 sample_image)

inodes_at : reads inodes ≡ (4, 16)
unfolding sample_image sample_disk bitmap_block count get_super get_group read_at u32 put_u8 put_u16
    put_u32
inodes_at = refl

blocks_at : reads blocks ≡ (3, 16)
unfolding sample_image sample_disk bitmap_block count get_super get_group read_at u32 put_u8 put_u16
    put_u32
blocks_at = refl

all_kinds : (P : ℕ × ℕ → Type 0) → P (4, 16) → P (3, 16) → (k : Kind) → P (reads k)
all_kinds P p q inodes = rw inodes_at p
all_kinds P p q blocks = rw blocks_at q

pub sample-IsExt2 : IsExt2 3 sample_image
sample-IsExt2 = record {
  bytes = sample-IsImage;
  not_super = all_kinds (λ p. p.0 ≢ 1) (omega arith) (omega arith);
  not_group = all_kinds (λ p. p.0 ≢ 2) (omega arith) (omega arith);
  distinct =
      λ e. four (sym (ap (λ (p : ℕ × ℕ). p.0) inodes_at) ∙ e ∙ ap (λ (p : ℕ × ℕ). p.0) blocks_at);
  fits = all_kinds (λ p. p.1 ≤ 8192) (omega arith) (omega arith);
}
  where
    four : ¬ (◌≡◌ {A = ℕ} 4 3)
    four e = omega arith

-- The simulator before any inode is in memory, with the image on device 3.
abbrev pub sample_sim : Sim
sample_sim = record {
  image = sample_image;
  proc = λ i. no_proc;
  mounttab = λ i. no_mount;
  m_inodes = λ i. no_minode;
  oft = λ i. no_oft;
  root = none;
  running = 0;
  clock = 1000;
}
