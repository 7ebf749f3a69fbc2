-- ===== src/Commands/Session.antt =====
-- A run of the simulator as a sequence of steps: src/main.c up to its main loop, and then the
-- lines that are typed. Between two of them, time passes.
use cpts.Base.{ℕ, ℤ, Option, true, ◌≡◌}
use cpts.Disk.{Image}
use cpts.Text.{Text}
use cpts.Sim.{Sim, no_proc, no_mount, no_minode, no_oft}
use cpts.Sim.Monad.{ok}
use cpts.Mounts.{init, mount_root}
use cpts.Commands.{Output}
use cpts.Commands.Execute.{execute}

-- The static storage of the program at its start, with the images behind `open`.
abbrev pub at_start : Image → ℕ → Sim
at_start img now = record {
  image = img;
  proc = λ i. no_proc;
  mounttab = λ i. no_mount;
  m_inodes = λ i. no_minode;
  oft = λ i. no_oft;
  root = Option.none;
  running = 0;
  clock = now;
}

-- The states in which the simulator waits for a line.
pub data Reachable (os_open : Text → Option ℕ) (img : Image) : Sim → Type 0 where
  started :
      (now : ℕ) (device : Text) (n : ℕ) (t : Sim)
      → mount_root os_open device (init (at_start img now)) ≡ ok (ℤ.pos n) t
      → Reachable os_open img t
  later :
      (s : Sim) (now : ℕ)
      → Reachable os_open img s
      → Reachable os_open img (record s { clock = now })
  typed :
      (s t : Sim) (line : Text) (out : Output)
      → Reachable os_open img s
      → execute os_open line s ≡ ok (out, true) t
      → Reachable os_open img t
