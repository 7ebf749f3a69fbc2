-- ===== src/Minodes/Settles.antt =====
-- What a settled state says of one minode, and the state while an inode is held.
use cpts.Base.{ℕ, suc, ◌<◌, ◌≡◌, ◌≢◌, sym, ◌∙◌, ap, false, arith, subst}
use native.Mathlib.Decide.{ℕ_discrete}
use cpts.Disk.{Image}
use cpts.Sim.{Sim, Minode, nminodes}
use cpts.Minodes.{load_inode}
use cpts.Minodes.Settled.{IsSettled, Held}

abbrev pub Settles : Image → Minode → Type 0
Settles img m =
    (m.dirty ≡ false)
    × (0 < m.ref_count → m.ino ≢ 0)
    × ((n : ℕ) → 0 < m.ref_count → m.ino ≡ suc n → m.inode ≡ load_inode img m.dev n)
    × (0 < m.ref_count → m.mounted ≡ false)

pub unused-Settles : (img : Image) (m : Minode) → m.ref_count ≡ 0 → m.dirty ≡ false → Settles img m
unused-Settles img m z clean = (
  clean,
  (λ live. absurd (omega (arith, live, z))),
  (λ n live. absurd (omega (arith, live, z))),
  (λ live. absurd (omega (arith, live, z))),
)

pub Settles-IsSettled :
    (s : Sim) → ((k : ℕ) → k < nminodes → Settles s.image (s.m_inodes k)) → IsSettled s
Settles-IsSettled s h = record {
  clean = λ k lt. (h k lt).0;
  number = λ k lt. (h k lt).1;
  current = λ k n lt live i. (h k lt).2 n live i;
  unmounted = λ k lt. (h k lt).3;
}

pub IsSettled-Settles :
    (s : Sim) → IsSettled s → (k : ℕ) → k < nminodes → Settles s.image (s.m_inodes k)
IsSettled-Settles s h k lt =
    (h.clean k lt, h.number k lt, (λ n live i. h.current k n lt live i), h.unmounted k lt)

-- The state stays settled while an inode is held.
pub Held-Settles :
    (s : Sim) (dev n p : ℕ) (u : Sim)
    → IsSettled s
    → Held s dev n p u
    → (k : ℕ) → k < nminodes
    → Settles u.image (u.m_inodes k)
Held-Settles s dev n p u h w k lt =
    subst (λ (img : Image). Settles img (u.m_inodes k)) (sym (ap (λ (x : Sim). x.image) w.rest))
      (elim (ℕ_discrete k p) [
        | yes here ↦ subst (λ (j : ℕ). Settles s.image (u.m_inodes j)) (sym here) held
        | no there ↦ subst (Settles s.image) (sym (w.others k there)) (IsSettled-Settles s h k lt)
      ])
  where
    held : Settles s.image (u.m_inodes p)
    held = (
      w.clean,
      (λ live z. omega (arith, z, w.ino_of)),
      (λ m live i.
          w.inode
          ∙ ap (λ (j : ℕ). load_inode s.image dev j) (omega (arith, i, w.ino_of))
          ∙ ap (λ (d : ℕ). load_inode s.image d m) (sym w.dev_of)),
      (λ live. w.unmounted),
    )
