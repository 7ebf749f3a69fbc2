-- ===== src/Sound/Session.antt =====
-- The state is sound throughout a run of the simulator.
use cpts.Base.{ℕ, ◌≡◌, Bool, true, Option, refl, ltb, arith, Bool-cases, inl, inr}
use cpts.Disk.{Image}
use cpts.Text.{Text}
use cpts.Sim.{Sim, nproc, nminodes}
use cpts.Sim.Monad.{ok}
use cpts.Mounts.{init}
use cpts.Commands.{Output}
use cpts.Commands.Execute.{execute}
use cpts.Commands.Session.{at_start, Reachable, started, later, typed}
use cpts.Sound.{IsSound, fds_to, open_fds}
use cpts.Sound.Mounts.{mount_root-Keeps}
use cpts.Sound.Commands.{execute-Keeps}

-- What `init` leaves.
init-IsSound : (img : Image) (now : ℕ) → IsSound (init (at_start img now))
unfolding init open_fds fds_to
init-IsSound img now = record {
  descriptors = λ i k. (elim (Bool-cases (ltb i nproc)) [ inl e ↦ rw e tt | inr e ↦ rw e tt ]);
  directories = λ i. (elim (Bool-cases (ltb i nproc)) [ inl e ↦ rw e tt | inr e ↦ rw e tt ]);
  files = λ o. tt;
  mount_points = λ i. tt;
  mounts = λ p. (elim (Bool-cases (ltb p nminodes)) [ inl e ↦ rw e tt | inr e ↦ rw e tt ]);
  top = tt;
  running = omega arith;
  distinct = λ i j hi hj live. absurd (live (unused i));
  reset = λ p z. unused p;
  counted = λ o. none_open o;
  backed = λ o live. absurd (omega (arith, live));
}
  where
    none_open : (o : ℕ) → 0 ≡ open_fds o (init (at_start img now)).proc nproc
    none_open o = refl

    unused : (p : ℕ) → ((init (at_start img now)).m_inodes p).ino ≡ 0
    unused p = elim (Bool-cases (ltb p nminodes)) [ inl e ↦ rw e refl | inr e ↦ rw e refl ]

clock-IsSound : (s : Sim) (now : ℕ) → IsSound s → IsSound (record s { clock = now })
clock-IsSound s now h = record {
  descriptors = h.descriptors;
  directories = h.directories;
  files = h.files;
  mount_points = h.mount_points;
  mounts = h.mounts;
  top = h.top;
  running = h.running;
  distinct = h.distinct;
  reset = h.reset;
  counted = h.counted;
  backed = h.backed;
}

module _ (os_open : Text → Option ℕ) where
  -- A line that is typed in a sound state leaves a sound state, if its command ends: whatever the
  -- disk images hold, every pointer of the state that is not NULL names an element of its table, the
  -- running process is one of the two, no inode is in two minodes, a minode without references has
  -- inode number 0, and the entries of the open file table count the descriptors that name them.
  pub execute-IsSound :
      (line : Text) (s t : Sim) (out : Output) (more : Bool)
      → IsSound s
      → execute os_open line s ≡ ok (out, more) t
      → IsSound t
  execute-IsSound line s t out more h e = ((execute-Keeps os_open line).at s h (out, more) t e).0

  pub Reachable-IsSound : (img : Image) (s : Sim) → Reachable os_open img s → IsSound s
  Reachable-IsSound img s (started now device n t e) =
      ((mount_root-Keeps os_open device).at _ (init-IsSound img now) _ s e).0
  Reachable-IsSound img s (later u now r) = clock-IsSound u now (Reachable-IsSound img u r)
  Reachable-IsSound img s (typed u t line out r e) =
      execute-IsSound line u s out true (Reachable-IsSound img u r) e
