-- ===== src/Mounts/Boot.antt =====
-- The state that `mount_root` leaves, after `init`.
use cpts.Base.{ℕ, ◌<◌, ◌≡◌, refl, ◌∙◌, true, false, pos, none, some, [], ◌∷◌, ltb, arith}
use cpts.Bytes.{Buf}
use cpts.Disk.{Image, get_super, get_group}
use cpts.Text.{Text, length}
use cpts.Sim.{Sim, Minode, nminodes, update, update_self, update-update}
use cpts.Sim.Monad.{ok}
use cpts.Minodes.{miss, scan, holds, iget, iget_at}
use cpts.Minodes.Outcome.{with_minode, loaded, referenced, iget_at-miss}
use cpts.Paths.{slash}
use cpts.Mounts.{init, set_proc_cwd, root_entry, root_image, mount_entry}
use cpts.Commands.Session.{at_start}

-- The first minode is unused, and the search for an inode that is not there ends at it.
scan_unused :
    (img : Image) (now fd : ℕ)
    → scan (init (at_start img now)).m_inodes fd 2 nminodes 0 none ≡ miss (some 0)
unfolding scan init
scan_unused img now fd = refl

module _ (s : Sim) (fd : ℕ) where
  iget_first :
      scan s.m_inodes fd 2 nminodes 0 none ≡ miss (some 0)
      → iget fd 2 s ≡ ok (some 0) (with_minode s 0 (loaded s.image fd 1 (s.m_inodes 0)))
  unfolding iget
  iget_first e = rw e (iget_at-miss fd 1 0 s)

  iget_again :
      holds fd 2 (s.m_inodes 0) ≡ true
      → iget fd 2 s ≡ ok (some 0) (with_minode s 0 (referenced (s.m_inodes 0)))
  unfolding iget iget_at scan
  iget_again e = rw e refl

abbrev pub with_cwd : Sim → ℕ → ℕ → Sim
with_cwd s i p = record s { proc = update s.proc i (record (s.proc i) { cwd = some p }) }

-- The steps of `mount_root` behind the tests.
root_image-run :
    (fd : ℕ) (name : Text) (s s1 s2 s3 : Sim)
    → iget fd 2 s ≡ ok (some 0) s1
    → iget fd 2 (record s1 { root = some 0 }) ≡ ok (some 0) s2
    → iget fd 2 (with_cwd s2 0 0) ≡ ok (some 0) s3
    → root_image fd name s
      ≡ root_entry fd name
          (some 0)
          (get_super s1.image fd)
          (get_group s1.image fd)
          (record (with_cwd s3 1 0) { running = 0 })
unfolding root_image set_proc_cwd
root_image-run fd name s s1 s2 s3 a b c = rw (a, b, c) refl

root_entry-run :
    (fd : ℕ) (name : Text) (b g : Buf) (s : Sim)
    → length name < 64
    → root_entry fd name (some 0) b g s
      ≡ ok (pos 0) (record s {
        mounttab = update s.mounttab 0 (mount_entry b g fd 0 name (slash ∷ []));
        m_inodes =
            update s.m_inodes 0 (record (s.m_inodes 0) { mounted = false; mountptr = some 0 });
      })
unfolding root_entry
root_entry-run fd name b g s short =
    let e : ltb 63 (length name) ≡ false = ground arith in rw e refl

-- Another reference to the minode that is first in the table.
again :
    (s : Sim) (fd : ℕ) (m : Minode)
    → holds fd 2 m ≡ true
    → iget fd 2 (with_minode s 0 m) ≡ ok (some 0) (with_minode s 0 (referenced m))
again s fd m h =
    iget_again (with_minode s 0 m) fd (rw update_self h) ∙ rw (update_self, update-update) refl

module _ (img : Image) (now fd : ℕ) (name : Text) where
  abbrev pub blank : Sim
  blank = init (at_start img now)

  abbrev pub root_minode : Minode
  root_minode = loaded img fd 1 (blank.m_inodes 0)

  -- The state that `mount_root` leaves.
  abbrev pub booted : Sim
  booted = record blank {
    m_inodes =
        update blank.m_inodes 0
          (record root_minode { ref_count = 3; mounted = false; mountptr = some 0 });
    proc = (with_cwd (with_cwd blank 0 0) 1 0).proc;
    mounttab =
        update blank.mounttab 0
          (mount_entry (get_super img fd) (get_group img fd) fd 0 name (slash ∷ []));
    root = some 0;
    running = 0;
  }

  found : (m : Minode) → m.dev ≡ fd → m.ino ≡ 2 → 0 < m.ref_count → holds fd 2 m ≡ true
  found m d i live = ground arith

  pub root_image-booted : length name < 64 → root_image fd name blank ≡ ok (pos 0) booted
  unfolding init
  root_image-booted short =
      root_image-run fd name blank (with_minode blank 0 root_minode)
        (with_minode (record blank { root = some 0 }) 0 (referenced root_minode))
        (with_minode (with_cwd (record blank { root = some 0 }) 0 0) 0
          (referenced (referenced root_minode)))
        (iget_first blank fd (scan_unused img now fd))
        (again (record blank { root = some 0 }) fd root_minode
          (found root_minode refl refl (omega arith)))
        (again (with_cwd (record blank { root = some 0 }) 0 0) fd (referenced root_minode)
          (found (referenced root_minode) refl refl (omega arith)))
      ∙ root_entry-run fd name _ _ _ short
      ∙ rw (update_self, update-update) refl
