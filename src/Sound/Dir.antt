-- ===== src/Sound/Dir.antt =====
-- The changes of directories and of data blocks keep the state sound.
use cpts.Base.{ℕ, zero, suc}
use cpts.Bytes.{Buf}
use cpts.Text.{Text}
use cpts.Sim.Monad.{M}
use cpts.Dir.{Walk, stop_at, broken, off_end, grow_dir, insert_at, insert_entry}
use cpts.Dir.Remove.{
  Spot, spot, absent, endless, at_spot, Shifted, shifted, gave_up, no_end, drop_block, finish_shift,
  drop_last, remove_at, remove_from, remove_entry,
}
use cpts.Files.Blocks.{clear_blocks}
use cpts.Sound.Rules.{Keeps, Any, control}
use cpts.Sound.Primitives.{writes}
use cpts.Sound.Reads.{reads}

grow_dir-Keeps : (mip ino : ℕ) (name : Text) (i : ℕ) → Keeps Any (grow_dir mip ino name i)
unfolding grow_dir
grow_dir-Keeps mip ino name i = search (reads, writes, control) depth 24

insert_at-Keeps :
    (mip ino : ℕ) (name : Text) (i : ℕ) (buf : Buf) (w : Walk)
    → Keeps Any (insert_at mip ino name i buf w)
unfolding insert_at
insert_at-Keeps mip ino name i buf broken = search control
insert_at-Keeps mip ino name i buf off_end = search control
insert_at-Keeps mip ino name i buf (stop_at len) =
    search (reads, writes, control, grow_dir-Keeps) depth 24

pub insert_entry-Keeps : (mip ino : ℕ) (name : Text) → Keeps Any (insert_entry mip ino name)
unfolding insert_entry
insert_entry-Keeps mip ino name = search (reads, control, insert_at-Keeps) depth 24

drop_block-Keeps : (mip i : ℕ) → Keeps Any (drop_block mip i)
unfolding drop_block
drop_block-Keeps mip i = search (reads, writes, control) depth 24

finish_shift-Keeps : (mip i : ℕ) (r : Shifted) → Keeps Any (finish_shift mip i r)
unfolding finish_shift
finish_shift-Keeps mip i gave_up = search control
finish_shift-Keeps mip i no_end = search control
finish_shift-Keeps mip i (shifted buf) = search (reads, writes, control) depth 24

drop_last-Keeps : (mip i : ℕ) (buf : Buf) (len pre : ℕ) → Keeps Any (drop_last mip i buf len pre)
unfolding drop_last
drop_last-Keeps mip i buf len pre = search (reads, writes, control) depth 24

remove_at-Keeps : (mip i : ℕ) (buf : Buf) (len pre : ℕ) → Keeps Any (remove_at mip i buf len pre)
unfolding remove_at
remove_at-Keeps mip i buf len pre =
    search (control, drop_block-Keeps, drop_last-Keeps, finish_shift-Keeps) depth 24

at_spot-Keeps :
    (mip i : ℕ) (buf : Buf) (r : Spot) (rest : M (Unit {0}))
    → Keeps Any rest
    → Keeps Any (at_spot mip i buf r rest)
unfolding at_spot
at_spot-Keeps mip i buf (spot len pre) rest k = remove_at-Keeps mip i buf len pre
at_spot-Keeps mip i buf absent rest k = k
at_spot-Keeps mip i buf endless rest k = search control

remove_from-Keeps : (n i mip : ℕ) (name : Text) → Keeps Any (remove_from n i mip name)
unfolding remove_from
remove_from-Keeps zero i mip name = search control
remove_from-Keeps (suc n) i mip name =
    search (reads, control, at_spot-Keeps, remove_from-Keeps n) depth 24

pub remove_entry-Keeps : (mip : ℕ) (name : Text) → Keeps Any (remove_entry mip name)
unfolding remove_entry
remove_entry-Keeps mip name = remove_from-Keeps 12 0 mip name

pub clear_blocks-Keeps : (mip : ℕ) → Keeps Any (clear_blocks mip)
unfolding clear_blocks
clear_blocks-Keeps mip = search (reads, writes, control) depth 24
