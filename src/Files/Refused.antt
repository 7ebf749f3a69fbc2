-- ===== src/Files/Refused.antt =====
-- `creat` and `mkdir` where they cannot make a file.
use cpts.Base.{
  ℕ, ◌≡◌, ◌≢◌, ◌⊎◌, inl, inr, refl, ◌∙◌, ap, true, false, Bool-cases, ◌==◌, some, [], ◌∷◌, ℤ, arith,
  subst, if◌then◌else◌,
}
use cpts.Bytes.{Buf}
use cpts.Disk.{Image}
use cpts.Text.{Text, same_text}
use cpts.Sim.{Sim}
use cpts.Sim.Monad.{M, ok}
use cpts.Minodes.{iget, iput}
use cpts.Minodes.Inode.{has_type, dir_type}
use cpts.Minodes.Settled.{IsSettled, HasRoom, Restored, Restored-refl}
use cpts.Dir.{search_dir}
use cpts.Paths.{running_proc, dirname, basename, start_of, parseargs, Args, getino}
use cpts.Paths.Lookup.{disk_inode, disk_minode, same_text-eq}
use cpts.Paths.Standing.{HasTop, Standing, Standing-inode, Standing-search, Standing-put, stand}
use cpts.Paths.Resolve.{StartsAt, path_ino, getino-lookup}
use cpts.Files.{failed}
use cpts.Files.Create.{in_dir, mkdir_in, creat_in, file_mkdir, file_creat}

abbrev dot : Text
dot = 0x2E ∷ []

-- The number of the directory of a path, and what is stored for it.
abbrev pub parent_ino : Sim → ℕ → Text → ℕ
parent_ino s p path =
    if same_text (dirname path) dot then (s.m_inodes p).ino else path_ino s p (dirname path)

abbrev args_of : Sim → ℕ → Text → Args
args_of s p path = record {
  dev = (s.m_inodes p).dev;
  ino = parent_ino s p path;
  child = basename path;
}

-- Where no file can be made with the name: in no inode, in what is not a directory, and where the
-- name is there.
abbrev pub Refuses : Image → ℕ → ℕ → Text → Type 0
Refuses img dev ino name =
    (has_type dir_type (disk_inode img dev ino) ≡ false)
    ⊎ (search_dir img (disk_minode img dev ino) name ≢ 0)

in_dir-file :
    (make : ℕ → Text → M ℤ) (q : ℕ) (name : Text) (v t : Sim)
    → has_type dir_type (v.m_inodes q).inode ≡ false
    → iput q v ≡ ok tt t
    → in_dir make q name v ≡ ok failed t
unfolding in_dir
in_dir-file make q name v t file puts = rw (file, puts) refl

in_dir-taken :
    (make : ℕ → Text → M ℤ) (q : ℕ) (name : Text) (v t : Sim)
    → has_type dir_type (v.m_inodes q).inode ≡ true
    → (search_dir v.image (v.m_inodes q) name == 0) ≡ false
    → iput q v ≡ ok tt t
    → in_dir make q name v ≡ ok failed t
unfolding in_dir
in_dir-taken make q name v t dir taken puts = rw (dir, taken, puts) refl

module _ (s : Sim) (h : IsSettled s) (room : HasRoom s) (dev : ℕ) where
  -- The commands behind `iget` of the directory refuse, and put it back.
  in_dir-Refuses :
      (make : ℕ → Text → M ℤ) (ino q : ℕ) (name : Text) (v t : Sim)
      → Standing s dev ino q v
      → iput q v ≡ ok tt t
      → Refuses s.image dev ino name
      → in_dir make q name v ≡ ok failed t
  in_dir-Refuses make ino q name v t w puts (inl file) =
      in_dir-file make q name v t
        (ap (λ (b : Buf). has_type dir_type b) (Standing-inode s dev ino q v w) ∙ file) puts
  in_dir-Refuses make ino q name v t w puts (inr taken) =
      elim (Bool-cases (has_type dir_type (v.m_inodes q).inode)) [
        | inr file ↦ in_dir-file make q name v t file puts
        | inl dir ↦
            let found = Standing-search s dev ino q v name w in
            in_dir-taken make q name v t dir (ground (arith, found, taken)) puts
      ]

module _ (s : Sim) (path : Text) (p : ℕ) (h : IsSettled s) (room : HasRoom s)
    (from : StartsAt s (dirname path) p) (top : HasTop s (s.m_inodes p).dev) where
  parseargs-here : same_text (dirname path) dot ≡ true → parseargs path s ≡ ok (args_of s p path) s
  unfolding parseargs start_of
  parseargs-here here = rw (here, at_cwd) refl
    where
      at_cwd : (running_proc s).cwd ≡ some p
      at_cwd = subst (λ (x : Text). start_of x s ≡ some p) (same_text-eq _ _ here) from.start

  parseargs-there :
      (t : Sim)
      → same_text (dirname path) dot ≡ false
      → getino (dirname path) s ≡ ok ((s.m_inodes p).dev, path_ino s p (dirname path)) t
      → parseargs path s ≡ ok (args_of s p path) t
  unfolding parseargs
  parseargs-there t there e = rw (there, e) refl

  -- `parseargs` finds the directory of the path.
  parseargs-lookup : (t : Sim) × (parseargs path s ≡ ok (args_of s p path) t) × Restored s t
  parseargs-lookup = elim (Bool-cases (same_text (dirname path) dot)) [
    | inl here ↦ (s, parseargs-here here, Restored-refl s)
    | inr there ↦
        let (t, run, r) = getino-lookup s (dirname path) p h room from top in
        (t, parseargs-there t there run, r)
  ]

  -- The directory that was looked for is not there.
  creat-none :
      (t : Sim)
      → parseargs path s ≡ ok (args_of s p path) t
      → parent_ino s p path ≡ 0
      → (file_creat path s ≡ ok failed t) × (file_mkdir path s ≡ ok failed t)
  unfolding file_creat file_mkdir
  creat-none t run e =
      let z : (parent_ino s p path == 0) ≡ true = ground arith in
      (rw (run, z) refl, rw (run, z) refl)

  creat-in_dir :
      (t v u : Sim) (q : ℕ)
      → parseargs path s ≡ ok (args_of s p path) t
      → parent_ino s p path ≢ 0
      → iget (s.m_inodes p).dev (parent_ino s p path) t ≡ ok (some q) v
      → in_dir creat_in q (basename path) v ≡ ok failed u
      → in_dir mkdir_in q (basename path) v ≡ ok failed u
      → (file_creat path s ≡ ok failed u) × (file_mkdir path s ≡ ok failed u)
  unfolding file_creat file_mkdir
  creat-in_dir t v u q run ne gets_it creat_fails mkdir_fails =
      let nz : (parent_ino s p path == 0) ≡ false = ground arith in
      (rw (run, nz, gets_it, creat_fails) refl, rw (run, nz, gets_it, mkdir_fails) refl)

  -- `creat` and `mkdir` of a path whose directory is not there, or is no directory, or has the name
  -- already, on a device whose root is mounted and has an entry "..", with nothing mounted below it,
  -- when no inode in memory has changed since it was read, a minode is unused, and the process has a
  -- working directory and the minode at which the directory's path starts is in use: both return -1,
  -- and leave the disk, every minode in use and the rest of the state as they were.
  pub file_creat-refused :
      (parent_ino s p path ≡ 0)
        ⊎ Refuses s.image (s.m_inodes p).dev (parent_ino s p path) (basename path)
      → (t : Sim) × (file_creat path s ≡ ok failed t)
        × (file_mkdir path s ≡ ok failed t)
        × Restored s t
  file_creat-refused refused = elim (Bool-cases (parent_ino s p path == 0)) [
    | inl nowhere ↦
        let (t, run, r) = parseargs-lookup in
        let (creat, mkdir) = creat-none t run (ground arith) in (t, creat, mkdir, r)
    | inr somewhere ↦
        inside (ground arith)
          (elim refused [ inl z ↦ absurd (ground (arith, z, somewhere)) | inr r ↦ r ])
  ]
    where
      dev : ℕ
      dev = (s.m_inodes p).dev

      inside :
          parent_ino s p path ≢ 0
          → Refuses s.image dev (parent_ino s p path) (basename path)
          → (t : Sim) × (file_creat path s ≡ ok failed t)
            × (file_mkdir path s ≡ ok failed t)
            × Restored s t
      inside ne refuses =
          let (t, run, r) = parseargs-lookup in
          let (q, v, gets_it, there) = stand s t dev (parent_ino s p path) h room r ne in
          let (u, puts, back) = Standing-put s h room dev (parent_ino s p path) q v there in
          let fails = λ (make : ℕ → Text → M ℤ).
            in_dir-Refuses s h room dev make (parent_ino s p path) q (basename path) v u there puts
              refuses in
          let (creat, mkdir) =
            creat-in_dir t v u q run ne gets_it (fails creat_in) (fails mkdir_in) in
          (u, creat, mkdir, back)
