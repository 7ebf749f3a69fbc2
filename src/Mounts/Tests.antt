-- ===== src/Mounts/Tests.antt =====
-- `my_quit` with the root inode changed in memory.
use cpts.Base.{Option, some, pos, true, ◌==◌, refl, ℕ, ◌<◌, ◌≡◌, arith}
use cpts.Sim.{Sim, no_minode, nminodes, update}
use cpts.Sim.Monad.{ok}
use cpts.Bytes.{u16, u32, put_u8, put_u16, put_u32}
use cpts.Disk.{get_super, read_at}
use cpts.Disk.Layout.{s_magic, super_magic}
use cpts.Text.{Text, codes}
use cpts.Paths.{getino, tokenize, slash}
use cpts.Paths.Lookup.{lookup}
use cpts.Paths.Example.{parent_is}
use cpts.Minodes.Settled.{Restored}
use cpts.Commands.Session.{at_start}
use cpts.Mounts.Rooted.{mount_root-getino}
use cpts.Sample.{sample_disk, sample_image, sample_sim}
use cpts.Minodes.Inode.{set_i_size, on_inode, mark_dirty}
use cpts.Minodes.Outcome.{with_minode, loaded}
use cpts.Mounts.{my_quit, init, mount_root}
use cpts.Mounts.Quit.{save_all, Numbered, my_quit-save_all}

abbrev changed_sim : Sim
changed_sim =
    with_minode sample_sim 0
      (mark_dirty (on_inode (set_i_size 77) (loaded sample_image 3 1 no_minode)))

changed-Numbered : Numbered changed_sim.m_inodes
unfolding update
changed-Numbered i live = ground arith

my_quit-save_all_example :
    (s' : Sim) × (my_quit changed_sim ≡ ok tt s')
    × ((s'.image ≡ save_all changed_sim.m_inodes nminodes 0 sample_image)
        × (((i : ℕ) → i < nminodes → (s'.m_inodes i).ref_count ≡ 0)
            × (s' ≡ record changed_sim { image = s'.image; m_inodes = s'.m_inodes })))
my_quit-save_all_example = my_quit-save_all changed_sim changed-Numbered

-- `open` finds one file.
abbrev one_disk : Text → Option ℕ
one_disk name = some 3

has_magic : (s_magic (get_super sample_image 3) == super_magic) ≡ true
unfolding sample_image sample_disk get_super read_at u16 u32 put_u8 put_u16 put_u32 s_magic
has_magic = refl

mount_root-getino_example :
    (s : Sim) × (mount_root one_disk (codes "disk") (init (at_start sample_image 1000))
      ≡ ok (pos 0) s)
    × ((path : Text)
        → (t : Sim) × (getino path s ≡ ok (3, lookup sample_image 3 (tokenize path slash) 2) t)
          × Restored s t)
mount_root-getino_example =
    mount_root-getino sample_image 1000 3 (codes "disk") one_disk (omega arith) refl has_magic
      (λ e. omega (arith, e, parent_is))
