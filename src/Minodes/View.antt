-- ===== src/Minodes/View.antt =====
-- The inode of a number as `iget` finds it: in memory, or else on the disk.
use cpts.Base.{
  ℕ, zero, suc, ◌+◌, ◌<◌, ◌≡◌, inl, inr, refl, sym, ◌∙◌, ap, true, Option, none, some, arith,
  Bool-cases, if◌then◌else◌,
}
use cpts.Bytes.{Buf}
use cpts.Sim.{Sim, Minode, nminodes}
use cpts.Sim.Monad.{ok}
use cpts.Minodes.{Slot, hit, miss, scan, holds, first_free, load_inode, iget, iget_at}
use cpts.Minodes.Outcome.{with_minode, referenced, Cached}
use cpts.Minodes.Scan.{Absent, scan_hit, scan-Absent}

-- The minode that the loop of `iget` ends at.
abbrev pub hit_of : Slot → Option ℕ
hit_of (hit k) = some k
hit_of (miss r) = none

unfoldable pub cached : (ℕ → Minode) → ℕ → ℕ → Option ℕ
cached t dev ino = hit_of (scan t dev ino nminodes 0 none)

abbrev pub inode_at : Sim → ℕ → ℕ → Option ℕ → Buf
inode_at s dev n none = load_inode s.image dev n
inode_at s dev n (some k) = (s.m_inodes k).inode

-- Inode `n + 1` of a device.
abbrev pub node_of : Sim → ℕ → ℕ → Buf
node_of s dev n = inode_at s dev n (cached s.m_inodes dev (suc n))

hit_of-scan :
    (t : ℕ → Minode) (dev ino n i : ℕ) (tmp : Option ℕ)
    → hit_of (scan t dev ino (suc n) i tmp) ≡ (
        if holds dev ino (t i)
        then some i
        else hit_of (scan t dev ino n (i + 1) (first_free tmp i (t i))))
unfolding scan
hit_of-scan t dev ino n i tmp = elim (Bool-cases (holds dev ino (t i))) [
  | inl h ↦ rw h refl
  | inr m ↦ rw m refl
]

-- It depends on which minodes are in use for the inode.
scan-same :
    (t t' : ℕ → Minode) (dev ino n i : ℕ) (tmp tmp' : Option ℕ)
    → ((k : ℕ) → holds dev ino (t k) ≡ holds dev ino (t' k))
    → hit_of (scan t dev ino n i tmp) ≡ hit_of (scan t' dev ino n i tmp')
scan-same t t' dev ino zero i tmp tmp' h = unfold scan in refl
scan-same t t' dev ino (suc n) i tmp tmp' h =
    hit_of-scan t dev ino n i tmp
    ∙ rw
        (
          h i,
          scan-same t t' dev ino n (i + 1) (first_free tmp i (t i)) (first_free tmp' i (t' i)) h,
        )
        refl
    ∙ sym (hit_of-scan t' dev ino n i tmp')

pub cached-same :
    (t t' : ℕ → Minode) (dev ino : ℕ)
    → ((k : ℕ) → holds dev ino (t k) ≡ holds dev ino (t' k))
    → cached t dev ino ≡ cached t' dev ino
unfolding cached
cached-same t t' dev ino h = scan-same t t' dev ino nminodes 0 none none h

pub cached-hit :
    (t : ℕ → Minode) (dev ino k : ℕ)
    → cached t dev ino ≡ some k
    → (k < nminodes) × (holds dev ino (t k) ≡ true)
unfolding cached
cached-hit t dev ino k e = go (scan t dev ino nminodes 0 none) refl e
  where
    go :
        (r : Slot)
        → scan t dev ino nminodes 0 none ≡ r
        → hit_of r ≡ some k
        → (k < nminodes) × (holds dev ino (t k) ≡ true)
    go (miss r) e f = cc
    go (hit j) e f =
        let h = scan_hit t dev ino nminodes 0 none j e in
        let same : j ≡ k = ground arith in (omega (arith, h.1), rw (← same) h.2)

pub cached-none :
    (t : ℕ → Minode) (dev ino : ℕ) → cached t dev ino ≡ none → Absent t dev ino nminodes 0
unfolding cached
cached-none t dev ino e = go (scan t dev ino nminodes 0 none) refl e
  where
    go :
        (r : Slot)
        → scan t dev ino nminodes 0 none ≡ r
        → hit_of r ≡ none
        → Absent t dev ino nminodes 0
    go (miss r) e f = scan-Absent t dev ino nminodes 0 none r e
    go (hit j) e f = cc

-- What two states show of an inode is the same when the minodes in use for it are the same, each with
-- the same inode, and the disk has the same.
pub node_of-same :
    (s t : Sim) (dev n : ℕ)
    → ((k : ℕ) → holds dev (suc n) (s.m_inodes k) ≡ holds dev (suc n) (t.m_inodes k))
    → ((k : ℕ)
        → holds dev (suc n) (s.m_inodes k) ≡ true
        → (t.m_inodes k).inode ≡ (s.m_inodes k).inode)
    → load_inode t.image dev n ≡ load_inode s.image dev n
    → node_of t dev n ≡ node_of s dev n
node_of-same s t dev n h inode disk =
    ap (inode_at t dev n) (sym (cached-same s.m_inodes t.m_inodes dev (suc n) h))
    ∙ go (cached s.m_inodes dev (suc n)) refl
  where
    go :
        (c : Option ℕ) → cached s.m_inodes dev (suc n) ≡ c → inode_at t dev n c ≡ inode_at s dev n c
    go none e = disk
    go (some k) e = inode k (cached-hit s.m_inodes dev (suc n) k e).1

-- And `iget` finds it there.
pub iget-cached :
    (s : Sim) (dev n k : ℕ)
    → cached s.m_inodes dev (suc n) ≡ some k
    → (u : Sim) × (iget dev (suc n) s ≡ ok (some k) u) × Cached dev (suc n) s k u
unfolding cached iget iget_at
iget-cached s dev n k e =
    let h = cached-hit s.m_inodes dev (suc n) k e in
    (
      with_minode s k (referenced (s.m_inodes k)),
      go (scan s.m_inodes dev (suc n) nminodes 0 none) refl e,
      record { in_table = h.0; found = h.1; state = refl },
    )
  where
    go :
        (r : Slot)
        → scan s.m_inodes dev (suc n) nminodes 0 none ≡ r
        → hit_of r ≡ some k
        → iget dev (suc n) s ≡ ok (some k) (with_minode s k (referenced (s.m_inodes k)))
    go (miss r) e f = cc
    go (hit j) e f = let same : j ≡ k = ground arith in rw (e, same) refl
