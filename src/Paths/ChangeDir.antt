-- ===== src/Paths/ChangeDir.antt =====
-- `cd` to a path, on one device with nothing mounted below its root.
use cpts.Base.{ℕ, ◌<◌, ◌≡◌, ◌≢◌, ◌⊎◌, inl, inr, ◌∙◌, ap, true, false, Bool-cases, ◌==◌, some, arith}
use cpts.Bytes.{Buf}
use cpts.Text.{Text}
use cpts.Sim.{Sim, nminodes}
use cpts.Sim.Monad.{ok}
use cpts.Minodes.Inode.{has_type, dir_type}
use cpts.Minodes.Settled.{IsSettled, HasRoom, Restored}
use cpts.Paths.{running_proc, getino, shell_cd}
use cpts.Paths.Lookup.{disk_inode}
use cpts.Paths.Standing.{HasTop, Standing-inode, Standing-put, stand}
use cpts.Paths.Resolve.{StartsAt, path_ino, getino-lookup}
use cpts.Paths.Moving.{
  iput-put_down, moved, cd-nowhere, cd-file, cd-dir, MovedTo, Standing-rest, old-clean, put,
  moved-MovedTo,
}

-- Where `cd` leads nowhere.
abbrev pub NoDirectory : Sim → ℕ → ℕ → Type 0
NoDirectory s dev ino = (ino ≡ 0) ⊎ (has_type dir_type (disk_inode s.image dev ino) ≡ false)

module _ (s : Sim) (path : Text) (p : ℕ) (h : IsSettled s) (room : HasRoom s)
    (from : StartsAt s path p) (top : HasTop s (s.m_inodes p).dev) (c : ℕ)
    (at : (running_proc s).cwd ≡ some c) (lt : c < nminodes)
    (live : 0 < (s.m_inodes c).ref_count) where
  abbrev to : ℕ
  to = path_ino s p path

  abbrev on : ℕ
  on = (s.m_inodes p).dev

  -- How `cd` may end.
  abbrev Moves : Sim → Type 0
  Moves t =
      (NoDirectory s on to × Restored s t)
      ⊎ ((has_type dir_type (disk_inode s.image on to) ≡ true) × (q : ℕ) × MovedTo s on to q t)

  cd_from :
      (t : Sim)
      → getino path s ≡ ok (on, to) t
      → Restored s t
      → to ≢ 0
      → (u : Sim) × (shell_cd (some path) s ≡ ok tt u) × Moves u
  cd_from t run r some_ino =
      let (q, v, gets_it, w) = stand s t on to h room r some_ino in
      let same = ap (λ (b : Buf). has_type dir_type b) (Standing-inode s on to q v w) in
      elim (Bool-cases (has_type dir_type (disk_inode s.image on to))) [
        | inl dir ↦ (
          moved (put s on to q c v h w lt live) q,
          cd-dir path s t on to run q v some_ino gets_it _ c (same ∙ dir)
              (ap (λ (x : Sim). (running_proc x).cwd) (Standing-rest s on to q c v h w lt live)
                ∙ at)
              (iput-put_down c v (old-clean s on to q c v h w lt live)),
          inr (dir, q, moved-MovedTo s on to q c v h w lt live),
        )
        | inr file ↦
            let (u, puts, back) = Standing-put s h room on to q v w in
            (
              u,
              cd-file path s t on to run q v some_ino gets_it u (same ∙ file) puts,
              inl (inr file, back),
            )
      ]

  -- `cd` to a path on a device whose root is mounted and has an entry "..", with nothing mounted
  -- below it, when no inode in memory has changed since it was read, a minode is unused, and the
  -- minodes of the working directory and of the start of the path are in use: it returns. If the path
  -- leads on the disk to a directory, the running process has a minode in use with that directory's
  -- inode as its working directory, its other fields, the other process, the image, the mounts and
  -- the open files are as they were, and again no inode in memory has changed since it was read. If it
  -- leads to no inode or to what is not a directory, every minode in use and the rest of the state are
  -- as they were.
  pub shell_cd-Moves : (t : Sim) × (shell_cd (some path) s ≡ ok tt t) × Moves t
  shell_cd-Moves =
      let (t, run, r) = getino-lookup s path p h room from top in
      elim (Bool-cases (to == 0)) [
        | inl nowhere ↦
            let z : to ≡ 0 = ground arith in (t, cd-nowhere path s t on to run z, inl (inl z, r))
        | inr somewhere ↦ cd_from t run r (ground arith)
      ]
