-- ===== src/Sound/Mounts.antt =====
-- `mount`, `umount`, `init`, `mount_root`, `my_quit` and `pswitch` keep the state sound.
use cpts.Base.{
  ℕ, zero, suc, ◌+◌, ◌≤◌, ◌<◌, leb, ◌==◌, Option, refl, Bool-cases, inl, inr, arith, subst,
}
use cpts.Bytes.{Buf}
use cpts.Text.{Text}
use cpts.Sim.{Sim, Mount, nmount, nminodes, nproc}
use cpts.Sim.Monad.{ok-value, fault-ok, M, ok, gets, set_minode, ◌>>=◌}
use cpts.Access.{pswitch}
use cpts.Mounts.{
  mount_entry, mount_slot, alloc_mount, named_mount, get_mounted, attach, mount_at, mount_image,
  mount, detach, umount, set_proc_cwd, root_entry, root_image, mount_root, put_all_minodes, my_quit,
}
use cpts.Sound.{InTable, IsSound}
use cpts.Sound.Rules.{Keeps, Any, control}
use cpts.Sound.Primitives.{writes, Keeps-change, Keeps-set_minode}
use cpts.Sound.Reads.{reads, Keeps-load}
use cpts.Sound.Minodes.{minodes, iput-Keeps}
use cpts.Sound.Paths.{put_cwd-Keeps, getino-Keeps}
use cpts.Sound.Files.{file_mkdir-Keeps}

mount_slot-InTable : (t : ℕ → Mount) (n i top : ℕ) → n + i ≤ top → InTable top (mount_slot t n i)
unfolding mount_slot
mount_slot-InTable t zero i top h = tt
mount_slot-InTable t (suc n) i top h = elim (Bool-cases ((t i).dev == 0)) [
  | inl free ↦ rw free (omega arith)
  | inr taken ↦ rw taken (mount_slot-InTable t n (i + 1) top (omega arith))
]

alloc_mount-InTable : (s : Sim) → IsSound s → InTable nmount (alloc_mount s)
unfolding alloc_mount
alloc_mount-InTable s h = mount_slot-InTable s.mounttab nmount 0 nmount (omega arith)

attach-Keeps :
    (fd p md : ℕ) (filesys path : Text)
    → p < nminodes
    → md < nmount
    → Keeps Any (attach fd p md filesys path)
unfolding attach mount_entry
attach-Keeps fd p md filesys path hp hm = search (reads, writes, control) depth 24

Keeps-alloc_mount :
    {B : Type 0} {R : B → Type 0} (f : Option ℕ → M B)
    → ((o : Option ℕ) → InTable nmount o → Keeps R (f o))
    → Keeps R (gets alloc_mount >>= f)
Keeps-alloc_mount f k = Keeps-load nmount alloc_mount f alloc_mount-InTable k

mount_at-Keeps : (fd : ℕ) (filesys path : Text) → Keeps Any (mount_at fd filesys path)
unfolding mount_at
mount_at-Keeps fd filesys path =
    search (getino-Keeps, minodes, Keeps-alloc_mount, control, attach-Keeps) depth 24

named_mount-Keeps : (name : Text) (n i : ℕ) → Keeps Any (named_mount name n i)
unfolding named_mount
named_mount-Keeps name zero i = search control
named_mount-Keeps name (suc n) i = search (named_mount-Keeps name n, control) depth 24

get_mounted-Keeps : (filesys : Text) → Keeps Any (get_mounted filesys)
unfolding get_mounted
get_mounted-Keeps filesys = named_mount-Keeps filesys nmount 0

mount_image-Keeps : (fd : ℕ) (filesys path : Text) → Keeps Any (mount_image fd filesys path)
unfolding mount_image
mount_image-Keeps fd filesys path = search (file_mkdir-Keeps, mount_at-Keeps, control) depth 24

pub mount-Keeps :
    (os_open : Text → Option ℕ) (filesys path : Text) → Keeps Any (mount os_open filesys path)
unfolding mount
mount-Keeps os_open filesys path = search (get_mounted-Keeps, mount_image-Keeps, control) depth 24

detach-Keeps : (md : ℕ) → Keeps Any (detach md)
unfolding detach
detach-Keeps md = search (minodes, reads, writes, control) depth 24

pub umount-Keeps : (filesys : Text) → Keeps Any (umount filesys)
unfolding umount
umount-Keeps filesys = search (get_mounted-Keeps, control, detach-Keeps) depth 24

set_proc_cwd-Keeps : (fd i : ℕ) → Keeps Any (set_proc_cwd fd i)
unfolding set_proc_cwd
set_proc_cwd-Keeps fd i = search (minodes, put_cwd-Keeps, control) depth 24

-- Assignments to the variables `root` and `running`.
set_root-Keeps :
    (p : Option ℕ) → InTable nminodes p → Keeps Any (λ t. ok tt (record t { root = p }))
set_root-Keeps p i =
    Keeps-change (λ t. record t { root = p })
      (λ s h. record {
        descriptors = h.descriptors;
        directories = h.directories;
        files = h.files;
        mount_points = h.mount_points;
        mounts = h.mounts;
        top = i;
        running = h.running;
        distinct = h.distinct;
        reset = h.reset;
        counted = h.counted;
        backed = h.backed;
      })

set_running-Keeps : (i : ℕ) → i < nproc → Keeps Any (λ t. ok tt (record t { running = i }))
set_running-Keeps i lt =
    Keeps-change (λ t. record t { running = i })
      (λ s h. record {
        descriptors = h.descriptors;
        directories = h.directories;
        files = h.files;
        mount_points = h.mount_points;
        mounts = h.mounts;
        top = h.top;
        running = lt;
        distinct = h.distinct;
        reset = h.reset;
        counted = h.counted;
        backed = h.backed;
      })

first-process : 0 < nproc
first-process = omega arith

first-mount : 0 < nmount
first-mount = omega arith

root_entry-Keeps :
    (fd : ℕ) (rootname : Text) (p : Option ℕ) (s g : Buf)
    → InTable nminodes p
    → Keeps Any (root_entry fd rootname p s g)
unfolding root_entry mount_entry
root_entry-Keeps fd rootname p s g i = search (first-mount, reads, writes, control) depth 24

root_image-Keeps : (fd : ℕ) (rootname : Text) → Keeps Any (root_image fd rootname)
unfolding root_image
root_image-Keeps fd rootname =
    search
      (
        set_root-Keeps, set_running-Keeps, first-process, minodes, set_proc_cwd-Keeps,
        root_entry-Keeps, control,
      )
      depth 30

pub mount_root-Keeps :
    (os_open : Text → Option ℕ) (rootname : Text) → Keeps Any (mount_root os_open rootname)
unfolding mount_root
mount_root-Keeps os_open rootname = search (root_image-Keeps, control) depth 24

pub pswitch-Keeps : (uid : ℕ) → Keeps Any (pswitch uid)
unfolding pswitch
pswitch-Keeps uid = record {
  at = λ s h a t e. elim (Bool-cases (leb 2147483648 uid)) [
    | inl below ↦ absurd (fault-ok (rw below at e))
    | inr k ↦ elim (Bool-cases (leb nproc uid)) [
      | inl above ↦ (subst IsSound (ok-value tt a s t (rw (k, above) at e)).1 h, tt)
      | inr fits ↦ (set_running-Keeps uid (ground arith)).at s h a t (rw (k, fits) at e)
    ]
  ];
}

put_all_minodes-Keeps : (n i : ℕ) → Keeps Any (put_all_minodes n i)
unfolding put_all_minodes
put_all_minodes-Keeps zero i = search control
put_all_minodes-Keeps (suc n) i =
    search (control, last_reference, iput-Keeps, put_all_minodes-Keeps n) depth 24
  where
    last_reference : (i : ℕ) → Keeps Any (set_minode i (λ m. record m { ref_count = 1 }))
    last_reference i =
        Keeps-set_minode i (λ m. record m { ref_count = 1 }) (λ m k. k) (λ m. refl) (λ m. refl)
          (λ m z. absurd (omega (arith, z)))

pub my_quit-Keeps : Keeps Any my_quit
unfolding my_quit
my_quit-Keeps = put_all_minodes-Keeps nminodes 0
