-- ===== src/Files/ByPath.antt =====
-- Changes of inodes by paths: `chmod`, `chown` and `chgrp` on one device.
use cpts.Base.{ℕ, suc, ◌≡◌, refl, sym, ◌∙◌, ap, false, ◌==◌, arith, subst}
use cpts.Bytes.{Buf}
use cpts.Disk.{Image}
use cpts.Text.{Text}
use cpts.Sim.{Sim}
use cpts.Sim.Monad.{ok}
use cpts.Minodes.Transfer.{InTable}
use cpts.Minodes.Settled.{IsSettled, HasRoom, Restored, Restored-HasRoom, Restored-image}
use cpts.Paths.{getino}
use cpts.Paths.Standing.{HasTop}
use cpts.Paths.Resolve.{StartsAt, path_ino, getino-lookup}
use cpts.Files.{failed, done}
use cpts.Files.Attributes.{edit_found, edit_path}
use cpts.Files.Edited.{Edited, Restored-Edited}
use cpts.Files.EditFound.{edit_found-Edited}

edit_path-run :
    (path : Text) (f : Buf → Buf) (s t v : Sim) (dev i : ℕ)
    → getino path s ≡ ok (dev, i) t
    → (i == 0) ≡ false
    → edit_found dev i f t ≡ ok done v
    → edit_path path f s ≡ ok done v
unfolding edit_path
edit_path-run path f s t v dev i a some_ino b = rw (a, some_ino, b) refl

edit_path-none :
    (path : Text) (f : Buf → Buf) (s t : Sim) (dev : ℕ)
    → getino path s ≡ ok (dev, 0) t
    → edit_path path f s ≡ ok failed t
unfolding edit_path
edit_path-none path f s t dev a = rw a refl

module _ (s : Sim) (path : Text) (p : ℕ) (f : Buf → Buf) (h : IsSettled s) (room : HasRoom s)
    (from : StartsAt s path p) (top : HasTop s (s.m_inodes p).dev) where
  -- On a path of the disk that leads to inode `n + 1`, a change of the inode by its path returns 0,
  -- and changes that inode only.
  pub edit_path-Edited :
      (n : ℕ)
      → path_ino s p path ≡ suc n
      → InTable s.image (s.m_inodes p).dev n
      → (v : Sim) × (edit_path path f s ≡ ok done v) × Edited s (s.m_inodes p).dev n f v
  edit_path-Edited n e table =
      let (t, runs, r) = getino-lookup s path p h room from top in
      let (v, edits, changed) =
        edit_found-Edited t (s.m_inodes p).dev n f (Restored-HasRoom s t r room) (
          subst (λ (img : Image). InTable img (s.m_inodes p).dev n) (sym (Restored-image s t r))
            table) in
      (
        v,
        edit_path-run path f s t v (s.m_inodes p).dev (suc n)
            (runs ∙ ap (λ (i : ℕ). ok ((s.m_inodes p).dev, i) t) e) (ground arith) edits,
        Restored-Edited s t v (s.m_inodes p).dev n f r changed,
      )

  -- On a path that leads nowhere it returns -1, and changes nothing.
  pub edit_path-lost :
      path_ino s p path ≡ 0 → (t : Sim) × (edit_path path f s ≡ ok failed t) × Restored s t
  edit_path-lost e =
      let (t, runs, r) = getino-lookup s path p h room from top in
      (
        t,
        edit_path-none path f s t (s.m_inodes p).dev
            (runs ∙ ap (λ (i : ℕ). ok ((s.m_inodes p).dev, i) t) e),
        r,
      )
