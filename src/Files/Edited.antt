-- ===== src/Files/Edited.antt =====
-- A change of one inode, in terms of what `iget` finds.
use cpts.Base.{ℕ, suc, ◌≡◌, ◌≢◌, ◌⊎◌, inl, inr, refl, sym, ◌∙◌, ap, true, arith}
use native.Mathlib.Decide.{ℕ_discrete}
use cpts.Bytes.{Buf, trim}
use cpts.Disk.{Image, inode_size}
use cpts.Sim.{Sim, Minode, update, update_self, update_ne}
use cpts.Minodes.{holds, load_inode}
use cpts.Minodes.Settled.{Restored, Kept, Restored-image}
use cpts.Minodes.View.{node_of, node_of-same}

-- From `s` to `v`, inode `n + 1` of the device has changed by `f`, and nothing else has: no other
-- inode of any device, no reference count, and nothing but the minodes and the image.
pub record Edited (s : Sim) (dev n : ℕ) (f : Buf → Buf) (v : Sim) : Type 0 where
  pub self : trim inode_size (node_of v dev n) ≡ trim inode_size (f (node_of s dev n))
  pub others : (d m : ℕ) → (d ≢ dev) ⊎ (m ≢ n) → node_of v d m ≡ node_of s d m
  pub refs : (k : ℕ) → (v.m_inodes k).ref_count ≡ (s.m_inodes k).ref_count
  pub rest : v ≡ record s { m_inodes = v.m_inodes; image = v.image }

-- Another minode at `k` that is in use for the same inodes.
pub holds-update :
    (t : ℕ → Minode) (d i k j : ℕ) (m : Minode)
    → holds d i (t k) ≡ holds d i m
    → holds d i (t j) ≡ holds d i (update t k m j)
holds-update t d i k j m e = elim (ℕ_discrete j k) [
  | yes same ↦ rw (same, update_self) e
  | no ne ↦ rw (update_ne t k m j ne) refl
]

pub unused-holds :
    (d i : ℕ) (m m' : Minode) → m.ref_count ≡ 0 → m'.ref_count ≡ 0 → holds d i m ≡ holds d i m'
unused-holds d i m m' z z' = rw (z, z') refl

pub ref_count-update :
    (t : ℕ → Minode) (k j : ℕ) (m : Minode)
    → m.ref_count ≡ (t k).ref_count
    → (update t k m j).ref_count ≡ (t j).ref_count
ref_count-update t k j m e = elim (ℕ_discrete j k) [
  | yes same ↦ rw (same, update_self) e
  | no ne ↦ rw (update_ne t k m j ne) refl
]

-- A state that is restored shows the same inodes.
Restored-node_of : (s t : Sim) → Restored s t → (d m : ℕ) → node_of t d m ≡ node_of s d m
Restored-node_of s t r d m =
    node_of-same s t d m (λ k. same k (r.minodes k)) (λ k h. kept k (r.minodes k) h)
      (ap (λ (img : Image). load_inode img d m) (Restored-image s t r))
  where
    same :
        (k : ℕ)
        → Kept (s.m_inodes k) (t.m_inodes k)
        → holds d (suc m) (s.m_inodes k) ≡ holds d (suc m) (t.m_inodes k)
    same k (inl e) = rw e refl
    same k (inr z) = unused-holds d (suc m) (s.m_inodes k) (t.m_inodes k) z.0 z.1

    kept :
        (k : ℕ)
        → Kept (s.m_inodes k) (t.m_inodes k)
        → holds d (suc m) (s.m_inodes k) ≡ true
        → (t.m_inodes k).inode ≡ (s.m_inodes k).inode
    kept k (inl e) h = rw e refl
    kept k (inr z) h = let z0 = z.0 in absurd (ground (arith, z0))

pub Restored-Edited :
    (s t v : Sim) (dev n : ℕ) (f : Buf → Buf)
    → Restored s t
    → Edited t dev n f v
    → Edited s dev n f v
Restored-Edited s t v dev n f r e = record {
  self = e.self ∙ ap (λ (b : Buf). trim inode_size (f b)) (Restored-node_of s t r dev n);
  others = λ d m ne. e.others d m ne ∙ Restored-node_of s t r d m;
  refs = λ k. e.refs k ∙ same (s.m_inodes k) (t.m_inodes k) (r.minodes k);
  rest = e.rest ∙ ap (λ (x : Sim). record x { m_inodes = v.m_inodes; image = v.image }) r.rest;
}
  where
    same : (m m' : Minode) → Kept m m' → m'.ref_count ≡ m.ref_count
    same m m' (inl e) = ap (λ (x : Minode). x.ref_count) e
    same m m' (inr z) = z.1 ∙ sym z.0
