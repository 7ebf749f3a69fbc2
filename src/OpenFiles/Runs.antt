-- ===== src/OpenFiles/Runs.antt =====
-- Reading and writing whole files: the root directory's block as if it were a file's, and two files
-- in memory.
use cpts.Base.{ℕ, ◌≡◌, inl, some, pos, refl, arith}
use cpts.Bytes.{trim, u16, u32, put_u8, put_u16, put_u32, zeros}
use cpts.Disk.{get_block, get_group, read_at}
use cpts.Disk.Layout.{bg_inode_table}
use cpts.Text.{codes}
use cpts.Sim.{Sim, Oft, Minode, no_minode, no_proc, no_oft, update}
use cpts.Sim.Monad.{ok}
use cpts.Sample.{sample_image, sample_disk, sample_sim}
use cpts.Minodes.{load_inode, inode_place}
use cpts.Minodes.Inode.{i_block, i_size, set_i_size}
use cpts.Minodes.Outcome.{with_minode, loaded}
use cpts.OpenFiles.{file_lseek}
use cpts.OpenFiles.Data.{file_read, file_write}
use cpts.OpenFiles.Copy.{crlf, loop_fuel, cat_loop}
use cpts.OpenFiles.Reading.{file_text}
use cpts.OpenFiles.Concat.{IsReading, at_offset, cat_loop-crlf}
use cpts.OpenFiles.Copying.{IsWriting}
use cpts.OpenFiles.Storing.{IsMapped}
use cpts.OpenFiles.Overwrite.{Overwritten, file_write-Overwritten, file_read-file_write}

runs : ℕ
unfolding sample_image sample_disk get_block get_group read_at bg_inode_table trim u16 u32 put_u8
    put_u16 put_u32 inode_place load_inode i_block i_size update
runs = 0

-- Descriptor 0 of process 0 is entry 0, open for reading and writing behind byte 8 of the root inode.
abbrev editor : Oft
editor = record { inodeptr = some 0; mode = 2; ref_count = 1; offset = 8 }

abbrev editing : Sim
editing = record (with_minode sample_sim 0 (loaded sample_image 3 1 no_minode)) {
  proc = λ i. record no_proc { fd = λ k. some 0 };
  oft = λ i. editor;
}

editing-IsWriting : IsWriting editing 0 0 0
unfolding runs
editing-IsWriting = record {
  in_range = omega arith;
  is_open = refl;
  writes = λ e. omega (arith, e);
  points = refl;
}

first_block : i_block (editing.m_inodes 0).inode 0 ≡ 7
unfolding runs
first_block = refl

editing_size : i_size (editing.m_inodes 0).inode ≡ 1024
unfolding runs
editing_size = refl

editing-IsMapped : IsMapped (editing.m_inodes 0).inode 1
editing-IsMapped = record {
  direct = omega arith;
  there = λ k lt. (let z : k ≡ 0 = omega arith in rw (z, first_block) (λ e. omega (arith, e)));
  apart = λ j k lj lk e. omega arith;
}

file_write-Overwritten_example :
    (t : Sim) × (file_write 0 (codes "hello") editing ≡ ok (pos 5) t)
    × Overwritten editing t 0 0 0 (codes "hello") 1
file_write-Overwritten_example =
    file_write-Overwritten editing 0 0 0 1 (codes "hello") editing-IsWriting editing-IsMapped
      (omega arith) (omega (arith, editing_size))

file_read-file_write_example :
    (t u v : Sim) × (file_write 0 (codes "hello") editing ≡ ok (pos 5) t)
    × (file_lseek 0 8 t ≡ ok (pos 13) u)
    × (file_read 0 5 u ≡ ok (pos 5, codes "hello") v)
file_read-file_write_example =
    file_read-file_write editing 0 0 0 1 (codes "hello") editing-IsWriting refl editing-IsMapped
      (omega arith) (omega arith) (omega (arith, editing_size)) (omega (arith, editing_size))

-- Two files: minode 0 with 2000 bytes, open for reading as descriptor 0 with entry 0, and minode 1,
-- open for writing as descriptor 1 with entry 1.
abbrev long_file : Minode
long_file = record no_minode { inode = set_i_size 2000 zeros; dev = 3; ino = 11; ref_count = 1 }

abbrev copying : Sim
copying = record sample_sim {
  m_inodes = λ i. long_file;
  proc = λ i. record no_proc { fd = λ k. some k };
  oft = λ i. record no_oft { inodeptr = some i; mode = i; ref_count = 1 };
}

long_size : i_size long_file.inode ≡ 2000
unfolding runs set_i_size
long_size = refl

copying-IsReading : IsReading copying 0 0 0
copying-IsReading = record {
  in_range = omega arith;
  is_open = refl;
  reads = inl refl;
  points = refl;
  small = omega (arith, long_size);
}

cat_loop-crlf_example :
    cat_loop loop_fuel 0 copying
    ≡ ok (crlf (file_text sample_image 3 long_file.inode 0 2000)) (at_offset copying 0 2000)
unfolding runs set_i_size
cat_loop-crlf_example = cat_loop-crlf copying 0 0 0 copying-IsReading (omega arith)
