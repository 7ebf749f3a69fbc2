-- ===== src/OpenFiles/Tests.antt =====
-- Open files on the sample image: its root directory's block is read as if it were a file's.
use cpts.Base.{ℕ, ◌≡◌, inl, some, pos, [], ◌∷◌, refl, arith}
use cpts.Bytes.{trim, u16, u32, put_u8, put_u16, put_u32}
use cpts.Disk.{get_block, get_group, read_at}
use cpts.Disk.Layout.{bg_inode_table}
use cpts.Sim.{Sim, Oft, no_minode, no_proc, update}
use cpts.Sim.Monad.{ok}
use cpts.Sample.{sample_image, sample_disk, sample_sim}
use cpts.Minodes.{load_inode, inode_place}
use cpts.Minodes.Inode.{i_block, i_size}
use cpts.Minodes.Outcome.{with_minode, loaded}
use cpts.OpenFiles.{file_lseek, oft_from, find_oft}
use cpts.OpenFiles.Slots.{FoundOft, find_oft-FoundOft}
use cpts.OpenFiles.Data.{block_of, file_read}
use cpts.OpenFiles.Reading.{file_text, file_read-readable, file_lseek-file_read}

runs : ℕ
unfolding sample_image sample_disk get_block get_group read_at bg_inode_table trim u16 u32 put_u8
    put_u16 put_u32 inode_place load_inode i_block i_size update block_of file_text
runs = 0

abbrev reader : Oft
reader = record { inodeptr = some 0; mode = 0; ref_count = 1; offset = 0 }

-- Descriptor 0 of process 0 is entry 0, at position `at` of the root inode.
abbrev open_at : ℕ → Sim
open_at at = record (with_minode sample_sim 0 (loaded sample_image 3 1 no_minode)) {
  proc = λ i. record no_proc { fd = λ k. some 0 };
  oft = λ i. record reader { offset = at };
}

size_1024 : i_size ((open_at 0).m_inodes 0).inode ≡ 1024
unfolding runs
size_1024 = refl

file_read-readable_example :
    file_read 0 9 (open_at 0)
    ≡ ok
        (pos 9, 2 ∷ 0 ∷ 0 ∷ 0 ∷ 12 ∷ 0 ∷ 1 ∷ 0 ∷ 0x2E ∷ [])
        (record (open_at 0) { oft = update (open_at 0).oft 0 (record reader { offset = 9 }) })
unfolding runs
file_read-readable_example =
    file_read-readable (open_at 0) 0 9 0 0 (omega arith) refl (inl refl) refl
      (record { sized = omega (arith, size_1024); placed = omega arith }) (omega arith)

file_lseek-file_read_example :
    (t : Sim) × (file_lseek 0 1020 (open_at 8) ≡ ok (pos 8) t)
    × (file_read 0 9 t
        ≡ ok
            (pos 4, 0 ∷ 0 ∷ 0 ∷ 0 ∷ [])
            (record (open_at 8) {
              oft = update (open_at 8).oft 0 (record reader { offset = 1024 });
            }))
unfolding runs
file_lseek-file_read_example =
    file_lseek-file_read (open_at 8) 0 9 0 0 1020 (omega arith) refl (inl refl) refl
      (omega (arith, size_1024)) (omega (arith, size_1024)) (omega arith)

find_oft-FoundOft_example : FoundOft (open_at 0) 2 (some 0)
unfolding runs find_oft oft_from
find_oft-FoundOft_example = find_oft-FoundOft (open_at 0) 2
