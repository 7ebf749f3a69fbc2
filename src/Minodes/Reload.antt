-- ===== src/Minodes/Reload.antt =====
-- `iget` and `iput` undo one another.
use cpts.Base.{ℕ, suc, ◌+◌, refl, ◌<◌, ◌≡◌, ◌≢◌, inl, inr, ◌∙◌, true, Option, none, some, arith}
use native.Mathlib.Decide.{ℕ_discrete}
use cpts.Bytes.{trim}
use cpts.Disk.{inode_size}
use cpts.Sim.{Sim, Minode, update, update_self, update_ne, update-update, update_id, nminodes}
use cpts.Sim.Monad.{ok}
use cpts.Minodes.{holds, iget, iput, load_inode}
use cpts.Minodes.Transfer.{InTable, load-store_self}
use cpts.Minodes.Unique.{IsUnique}
use cpts.Minodes.Outcome.{
  with_minode, referenced, closed, counted, saved, Cached, Got, iget-Got, iput-shared, iput-last,
}
use cpts.Minodes.View.{cached, iget-cached}

-- The release of a reference that was added.
pub iput-Cached : (dev n k : ℕ) (s s' : Sim) → Cached dev (suc n) s k s' → iput k s' ≡ ok tt s
iput-Cached dev n k s s' c =
    rw c.state (iput-shared k (with_minode s k (referenced (s.m_inodes k))) more ∙ back)
  where
    live : 0 < (s.m_inodes k).ref_count
    live = ground (arith, c.found)

    more : 1 < (update s.m_inodes k (referenced (s.m_inodes k)) k).ref_count
    more = rw update_self (omega (arith, live))

    back :
        ok tt (
          with_minode
            (with_minode s k (referenced (s.m_inodes k)))
            k
            (counted (update s.m_inodes k (referenced (s.m_inodes k)) k)))
        ≡ ok tt s
    back = rw (update_self, update-update, undo) (rw (update_id s.m_inodes k))
      where
        undo : counted (referenced (s.m_inodes k)) ≡ s.m_inodes k
        undo = ground arith

-- `iget` of an inode that is in memory as minode `k` returns that minode, with one reference more,
-- and an `iput` of it next restores the state exactly.
pub iput-iget :
    (dev n k : ℕ) (s : Sim)
    → cached s.m_inodes dev (suc n) ≡ some k
    → (u : Sim) × (iget dev (suc n) s ≡ ok (some k) u)
      × ((u.m_inodes k).ref_count ≡ (s.m_inodes k).ref_count + 1)
      × (iput k u ≡ ok tt s)
iput-iget dev n k s e =
    let (u, run, c) = iget-cached s dev n k e in
    (u, run, rw (c.state, update_self) refl, iput-Cached dev n k s u c)

-- The last `iput` of a changed inode, and the `iget` of it as the very next call, return: the inode
-- is read back with the same 128 bytes. The in-memory inodes are unique, and the inode's place on the
-- disk is not in the block of the group descriptor.
pub iget-iput_saved :
    (k n : ℕ) (s : Sim)
    → k < nminodes
    → IsUnique s.m_inodes
    → (s.m_inodes k).ref_count ≡ 1
    → (s.m_inodes k).dirty ≡ true
    → (s.m_inodes k).ino ≡ suc n
    → InTable s.image (s.m_inodes k).dev n
    → (t : Sim) × (r : ℕ) × (v : Sim) × (iput k s ≡ ok tt t)
      × (iget (s.m_inodes k).dev (suc n) t ≡ ok (some r) v)
      × ((v.m_inodes r).inode ≡ trim inode_size (s.m_inodes k).inode)
iget-iput_saved k n s lt u once d e table = go (iget-Got m.dev n t)
  where
    m : Minode
    m = s.m_inodes k

    t : Sim
    t = record (with_minode s k (closed m)) { image = saved n m s.image }

    put : iput k s ≡ ok tt t
    put = iput-last k n s (omega arith) e

    free : (update s.m_inodes k (closed m) k).ref_count ≡ 0
    free = rw update_self

    stored : load_inode (saved n m s.image) m.dev n ≡ trim inode_size m.inode
    stored = rw d (load-store_self s.image m.dev n m.inode table)

    not_cached : (r : ℕ) (v : Sim) → ¬ Cached m.dev (suc n) t r v
    not_cached r v c = elim (ℕ_discrete r k) [
      | yes same ↦ gone (rw same at c.found)
      | no ne ↦ other ne (rw (update_ne s.m_inodes k (closed m) r ne) at c.found)
    ]
      where
        gone : ¬ (holds m.dev (suc n) (update s.m_inodes k (closed m) k) ≡ true)
        gone h = ground (arith, free)

        other : r ≢ k → ¬ (holds m.dev (suc n) (s.m_inodes r) ≡ true)
        other ne h =
            ne (u r k c.in_table lt (ground arith) (omega arith) (ground arith) (ground arith))

    go :
        (r : Option ℕ) × (v : Sim) × (iget m.dev (suc n) t ≡ ok r v) × Got m.dev n t r v
        → (t : Sim) × (r : ℕ) × (v : Sim) × (iput k s ≡ ok tt t)
          × (iget m.dev (suc n) t ≡ ok (some r) v)
          × ((v.m_inodes r).inode ≡ trim inode_size m.inode)
    go (none, v, run, full) =
        absurd (omega (arith, full.all_live k (omega arith) (omega arith), free))
    go (some r, v, run, inl c) = absurd (not_cached r v c)
    go (some r, v, run, inr l) = (t, r, v, put, run, rw (l.state, update_self) stored)
