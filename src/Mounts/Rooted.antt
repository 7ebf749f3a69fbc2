-- ===== src/Mounts/Rooted.antt =====
-- Paths after `mount_root`: its state is settled, and every path starts at the root inode.
use cpts.Base.{
  ℕ, ◌≡◌, ◌≢◌, ◌<◌, inl, inr, refl, sym, ◌∙◌, ap, true, false, Bool-cases, ltb, ◌==◌, pos, Option,
  some, [], ◌∷◌, arith,
}
use cpts.Disk.{Image, get_super}
use cpts.Disk.Layout.{s_magic, super_magic}
use cpts.Text.{Text, length}
use cpts.Sim.{Sim, Minode, nminodes, update}
use cpts.Sim.Monad.{ok}
use cpts.Minodes.{load_inode}
use cpts.Minodes.Settled.{IsSettled, HasRoom, Restored}
use cpts.Minodes.Settles.{Settles, unused-Settles, Settles-IsSettled}
use cpts.Dir.{search_dir}
use cpts.Paths.{dotdot, slash, start_of, getino, tokenize, mount_of}
use cpts.Paths.Lookup.{disk_minode, lookup}
use cpts.Paths.Standing.{HasTop}
use cpts.Paths.Resolve.{StartsAt, getino-lookup}
use cpts.Mounts.{init, mount_root, mount_entry}
use cpts.Sound.Primitives.{update-all}
use cpts.Commands.Session.{at_start}
use cpts.Mounts.Boot.{blank, root_minode, booted, root_image-booted}

module _ (img : Image) (now fd : ℕ) (name : Text) where
  abbrev blank0 : Sim
  blank0 = blank img now fd name

  abbrev root0 : Minode
  root0 = root_minode img now fd name

  abbrev state : Sim
  state = booted img now fd name

  blank-unused : (k : ℕ) → ((blank0.m_inodes k).ref_count ≡ 0) × ((blank0.m_inodes k).dirty ≡ false)
  unfolding init
  blank-unused k = elim (Bool-cases (ltb k nminodes)) [
    | inl e ↦ rw e (refl, refl)
    | inr e ↦ rw e (refl, refl)
  ]

  blank-Settles : (k : ℕ) → Settles img (blank0.m_inodes k)
  blank-Settles k =
      let (z, clean) = blank-unused k in unused-Settles img (blank0.m_inodes k) z clean

  root-Settles :
      (m : Minode)
      → m ≡ record root0 { ref_count = 3; mounted = false; mountptr = some 0 }
      → m.dirty ≡ false
      → Settles img m
  root-Settles m e clean = (
    clean,
    (λ live z. omega (arith, z, ap (λ (x : Minode). x.ino) e)),
    (λ n live i.
        (let one : n ≡ 1 = omega (arith, i, ap (λ (x : Minode). x.ino) e) in
          ap (λ (x : Minode). x.inode) e
          ∙ ap (λ (k : ℕ). load_inode img fd k) (sym one)
          ∙ ap (λ (d : ℕ). load_inode img d n) (sym (ap (λ (x : Minode). x.dev) e)))),
    (λ live. ap (λ (x : Minode). x.mounted) e),
  )

  booted-Settles : (k : ℕ) → Settles img (state.m_inodes k)
  booted-Settles =
      update-all (Settles img) blank0.m_inodes 0 _ blank-Settles
        (root-Settles _ refl (blank-Settles 0).0)

  -- No inode in memory has changed, and the second minode is unused.
  booted-IsSettled : IsSettled state
  unfolding init
  booted-IsSettled = Settles-IsSettled state (λ k lt. booted-Settles k)

  booted-HasRoom : HasRoom state
  unfolding init update
  booted-HasRoom = record { slot = 1; in_table = omega arith; unused = refl }

  -- Every path starts at the root inode.
  start_of-booted : (path : Text) → start_of path state ≡ some 0
  unfolding start_of update
  start_of-booted [] = refl
  start_of-booted (c ∷ cs) = elim (Bool-cases (c == slash)) [
    | inl e ↦ rw e refl
    | inr e ↦ rw e refl
  ]

  booted-StartsAt : (path : Text) → StartsAt state path 0
  unfolding update
  booted-StartsAt path = record {
    cwd = 0;
    has_cwd = refl;
    start = start_of-booted path;
    in_table = omega arith;
    live = omega arith;
  }

  booted-HasTop : search_dir img (disk_minode img fd 2) dotdot ≢ 0 → HasTop state fd
  unfolding mount_of mount_entry init update
  booted-HasTop parent = record {
    entry = 0;
    top = 0;
    entry_of = let e : (fd == fd) ≡ true = ground arith in rw e refl;
    mounted = refl;
    live = omega arith;
    dev_of = refl;
    ino_of = refl;
    parent = parent;
  }

  booted-image : state.image ≡ img
  unfolding init
  booted-image = refl

  mount_root-booted :
      (os_open : Text → Option ℕ)
      → length name < 64
      → os_open name ≡ some fd
      → (s_magic (get_super img fd) == super_magic) ≡ true
      → mount_root os_open name blank0 ≡ ok (pos 0) state
  unfolding mount_root init
  mount_root-booted os_open short opens magic =
      rw (opens, magic) (root_image-booted img now fd name short)

  -- When the device's name has fewer than 64 bytes, the device opens, has the magic number of ext2
  -- and its root directory has an entry "..",
  -- `mount_root` after `init` returns 0, and in the state that it leaves `getino` of every path
  -- returns, with the look-up of its names on the disk from the root inode as its result; every
  -- minode in use is as it was after `mount_root`, no minode has come into use, and the rest of the
  -- state is the same.
  pub mount_root-getino :
      (os_open : Text → Option ℕ)
      → length name < 64
      → os_open name ≡ some fd
      → (s_magic (get_super img fd) == super_magic) ≡ true
      → search_dir img (disk_minode img fd 2) dotdot ≢ 0
      → (s : Sim) × (mount_root os_open name (init (at_start img now)) ≡ ok (pos 0) s)
        × ((path : Text)
            → (t : Sim) × (getino path s ≡ ok (fd, lookup img fd (tokenize path slash) 2) t)
              × Restored s t)
  unfolding update init
  mount_root-getino os_open short opens magic parent = (
    state,
    mount_root-booted os_open short opens magic,
    λ path.
        getino-lookup state path 0 booted-IsSettled booted-HasRoom (booted-StartsAt path)
          (booted-HasTop parent),
  )
