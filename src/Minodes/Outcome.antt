-- ===== src/Minodes/Outcome.antt =====
-- How `iget` and `iput` end, on every path.
use cpts.Base.{
  ℕ, suc, ◌+◌, ◌-◌, ◌≤◌, ◌<◌, ◌≡◌, ◌⊎◌, inl, inr, refl, ◌∙◌, true, false, Option, none, some, ltb,
  if◌then◌else◌, arith, Bool-cases,
}
use cpts.Bytes.{Buf}
use cpts.Disk.{Image}
use cpts.Sim.{Sim, Minode, update, update_self, update-update, nminodes}
use cpts.Sim.Monad.{ok, fault}
use cpts.Minodes.{
  Slot, hit, miss, scan, holds, load_inode, store_inode, get_at, put_at, iget_at, iget, iput_last,
  iput, open_minode, close_minode, inode_get_block, inode_put_block,
}
use cpts.Minodes.Scan.{Absent, AllLive, scan_hit, scan-Absent, scan-Free}

-- The state with another minode at `k`.
abbrev pub with_minode : Sim → ℕ → Minode → Sim
with_minode s k m = record s { m_inodes = update s.m_inodes k m }

abbrev pub referenced : Minode → Minode
referenced m = record m { ref_count = m.ref_count + 1 }

-- A minode that has just been loaded with inode `n + 1`.
abbrev pub loaded : Image → ℕ → ℕ → Minode → Minode
loaded img dev n m = record m {
  inode = load_inode img dev n;
  dev = dev;
  ino = suc n;
  ref_count = 1;
  mounted = false;
}

-- The inode is in memory: its minode gets one more reference.
pub record Cached (dev ino : ℕ) (s : Sim) (k : ℕ) (s' : Sim) : Type 0 where
  pub in_table : k < nminodes
  pub found : holds dev ino (s.m_inodes k) ≡ true
  pub state : s' ≡ with_minode s k (referenced (s.m_inodes k))

-- It is not, and an unused minode is loaded with it.
pub record Loaded (dev n : ℕ) (s : Sim) (k : ℕ) (s' : Sim) : Type 0 where
  pub in_table : k < nminodes
  pub unused : (s.m_inodes k).ref_count ≡ 0
  pub absent : Absent s.m_inodes dev (suc n) nminodes 0
  pub state : s' ≡ with_minode s k (loaded s.image dev n (s.m_inodes k))

-- It is not, and no minode is unused.
pub record Full (dev ino : ℕ) (s s' : Sim) : Type 0 where
  pub absent : Absent s.m_inodes dev ino nminodes 0
  pub all_live : AllLive s.m_inodes nminodes 0
  pub state : s' ≡ s

abbrev pub Got : ℕ → ℕ → Sim → Option ℕ → Sim → Type 0
Got dev n s (some k) s' = Cached dev (suc n) s k s' ⊎ Loaded dev n s k s'
Got dev n s none s' = Full dev (suc n) s s'

inode_get_block_lem :
    (k n : ℕ) (s : Sim)
    → (s.m_inodes k).ino ≡ suc n
    → inode_get_block k s
      ≡ ok tt (
          with_minode s k
            (record (s.m_inodes k) { inode = load_inode s.image (s.m_inodes k).dev n }))
unfolding inode_get_block get_at
inode_get_block_lem k n s e = go (s.m_inodes k).ino e
  where
    go :
        (i : ℕ)
        → i ≡ suc n
        → get_at k (s.m_inodes k).dev i s
          ≡ ok tt (
              with_minode s k
                (record (s.m_inodes k) { inode = load_inode s.image (s.m_inodes k).dev n }))
    go i h = rw h

pub iget_at-miss :
    (dev n k : ℕ) (s : Sim)
    → iget_at dev (suc n) (miss (some k)) s
      ≡ ok (some k) (with_minode s k (loaded s.image dev n (s.m_inodes k)))
unfolding iget_at open_minode
iget_at-miss dev n k s = rw (got, update_self, update-update)
  where
    opened : Minode
    opened = open_minode dev (suc n) (s.m_inodes k)

    got :
        inode_get_block k (with_minode s k opened)
        ≡ ok tt (
            with_minode (with_minode s k opened) k (record (update s.m_inodes k opened k) {
              inode = load_inode s.image (update s.m_inodes k opened k).dev n;
            }))
    got = inode_get_block_lem k n (with_minode s k opened) (rw update_self)

-- `iget` of an inode number from 1 on returns: the minode in use for the inode, with one more
-- reference; or else an unused minode, with the inode read from the disk and one reference; or
-- NULL, with nothing changed, when every minode is in use for another inode.
pub iget-Got :
    (dev n : ℕ) (s : Sim)
    → (r : Option ℕ) × (s' : Sim) × (iget dev (suc n) s ≡ ok r s') × Got dev n s r s'
unfolding iget iget_at
iget-Got dev n s = go (scan s.m_inodes dev (suc n) nminodes 0 none) refl
  where
    go :
        (slot : Slot)
        → scan s.m_inodes dev (suc n) nminodes 0 none ≡ slot
        → (r : Option ℕ) × (s' : Sim) × (iget dev (suc n) s ≡ ok r s') × Got dev n s r s'
    go (hit k) e =
        let h = scan_hit _ _ _ _ _ _ _ e in
        (
          some k,
          with_minode s k (referenced (s.m_inodes k)),
          rw (e, iget),
          inl (record { in_table = omega (arith, h.1); found = h.2; state = refl }),
        )
    go (miss none) e = (
      none,
      s,
      rw (e, iget),
      record {
        absent = scan-Absent _ _ _ _ _ _ _ e;
        all_live = scan-Free _ _ _ _ _ _ _ e;
        state = refl;
      },
    )
    go (miss (some k)) e =
        let f = scan-Free _ _ _ _ _ _ _ e in
        (
          some k,
          with_minode s k (loaded s.image dev n (s.m_inodes k)),
          rw (e, iget) (iget_at-miss dev n k s),
          inr (record {
            in_table = omega (arith, f.1);
            unused = f.2;
            absent = scan-Absent _ _ _ _ _ _ _ e;
            state = refl;
          }),
        )

-- The state after the last reference to minode `k` is given up; a dirty inode goes to the disk.
abbrev pub saved : ℕ → Minode → Image → Image
saved n m img = if m.dirty then store_inode img m.dev n m.inode else img

abbrev pub closed : Minode → Minode
closed m = record m {
  mountptr = none;
  dev = 0;
  ino = 0;
  ref_count = 0;
  dirty = false;
  mounted = false;
}

-- `--mip->ref_count`
abbrev pub counted : Minode → Minode
counted m = record m { ref_count = m.ref_count - 1 }

-- With further references `iput` only counts one less.
pub iput-shared :
    (k : ℕ) (s : Sim)
    → 1 < (s.m_inodes k).ref_count
    → iput k s ≡ ok tt (with_minode s k (counted (s.m_inodes k)))
unfolding iput
iput-shared k s h = rw (update_self, more)
  where
    more : ltb 0 ((s.m_inodes k).ref_count - 1) ≡ true
    more = ground arith

put_at-suc :
    (b : Buf) (dev i n : ℕ) (s : Sim)
    → i ≡ suc n
    → put_at b dev i s ≡ ok tt (record s { image = store_inode s.image dev n b })
unfolding put_at
put_at-suc b dev i n s h = rw h

inode_put_block_lem :
    (k n : ℕ) (s : Sim) (m : Minode)
    → s.m_inodes k ≡ m
    → m.ino ≡ suc n
    → inode_put_block k s ≡ ok tt (record s { image = store_inode s.image m.dev n m.inode })
unfolding inode_put_block
inode_put_block_lem k n s m at e = rw at (put_at-suc m.inode m.dev m.ino n s e)

iput_last_lem :
    (k n : ℕ) (s : Sim) (m : Minode)
    → s.m_inodes k ≡ m
    → m.ino ≡ suc n
    → iput_last k s ≡ ok tt (record (with_minode s k (closed m)) { image = saved n m s.image })
unfolding iput_last close_minode
iput_last_lem k n s m at e = elim (Bool-cases m.dirty) [
  | inl d ↦ rw (at, d, inode_put_block_lem k n s m at e, update_self, update-update, at)
  | inr c ↦ rw (at, c, at) (ground arith)
]

-- The last `iput` writes a dirty inode to its place on the disk, and leaves the minode unused.
pub iput-last :
    (k n : ℕ) (s : Sim)
    → (s.m_inodes k).ref_count ≤ 1
    → (s.m_inodes k).ino ≡ suc n
    → iput k s
      ≡ ok tt (record (with_minode s k (closed (s.m_inodes k))) {
        image = saved n (s.m_inodes k) s.image;
      })
unfolding iput
iput-last k n s h e = rw (update_self, none_left) (last ∙ rw update-update)
  where
    none_left : ltb 0 ((s.m_inodes k).ref_count - 1) ≡ false
    none_left = ground arith

    last :
        iput_last k (with_minode s k (counted (s.m_inodes k)))
        ≡ ok tt
            (record (with_minode
              (with_minode s k (counted (s.m_inodes k)))
              k
              (closed (s.m_inodes k))) { image = saved n (s.m_inodes k) s.image })
    last = iput_last_lem k n _ (counted (s.m_inodes k)) (update_self _ k _) e

-- The last reference to an unchanged inode: nothing goes to the disk.
pub iput-clean :
    (k : ℕ) (s : Sim)
    → (s.m_inodes k).ref_count ≤ 1
    → (s.m_inodes k).dirty ≡ false
    → iput k s ≡ ok tt (with_minode s k (closed (s.m_inodes k)))
unfolding iput iput_last close_minode
iput-clean k s h e = rw (update_self, none_left) (rw (update_self, e, update-update, update_self))
  where
    none_left : ltb 0 ((s.m_inodes k).ref_count - 1) ≡ false
    none_left = ground arith

-- The last reference to a changed inode 0.
pub iput-fault :
    (k : ℕ) (s : Sim)
    → (s.m_inodes k).ref_count ≤ 1
    → (s.m_inodes k).dirty ≡ true
    → (s.m_inodes k).ino ≡ 0
    → iput k s ≡ fault
unfolding iput iput_last inode_put_block put_at
iput-fault k s h e i = rw (update_self, none_left) (rw (update_self, e, i))
  where
    none_left : ltb 0 ((s.m_inodes k).ref_count - 1) ≡ false
    none_left = ground arith
