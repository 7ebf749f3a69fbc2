-- ===== src/Minodes/Settled.antt =====
-- A state in which the inodes in memory are those of the disk, and an `iget` followed by an `iput`.
use cpts.Base.{
  ◌+◌, ℕ, suc, ◌<◌, ◌≡◌, ◌≢◌, ◌⊎◌, inl, inr, refl, sym, ◌∙◌, ap, true, false, Option, none, some,
  arith,
}
use native.Mathlib.Decide.{ℕ_discrete}
use cpts.Sim.{Sim, Minode, update_self, update_ne, update-update, nminodes}
use cpts.Sim.Monad.{ok}
use cpts.Minodes.{holds, load_inode, iget, iput}
use cpts.Minodes.Outcome.{with_minode, loaded, closed, Cached, Loaded, Got, iget-Got, iput-clean}
use cpts.Minodes.Reload.{iput-Cached}

-- No inode in memory has changed since it was read, and none is a mount point.
pub record IsSettled (s : Sim) : Type 0 where
  pub clean : (k : ℕ) → k < nminodes → (s.m_inodes k).dirty ≡ false
  pub number : (k : ℕ) → k < nminodes → 0 < (s.m_inodes k).ref_count → (s.m_inodes k).ino ≢ 0
  pub current :
      (k n : ℕ)
      → k < nminodes
      → 0 < (s.m_inodes k).ref_count
      → (s.m_inodes k).ino ≡ suc n
      → (s.m_inodes k).inode ≡ load_inode s.image (s.m_inodes k).dev n
  pub unmounted :
      (k : ℕ) → k < nminodes → 0 < (s.m_inodes k).ref_count → (s.m_inodes k).mounted ≡ false

-- A minode is unused.
pub record HasRoom (s : Sim) : Type 0 where
  pub slot : ℕ
  pub in_table : slot < nminodes
  pub unused : (s.m_inodes slot).ref_count ≡ 0

-- The same minode, or an unused one in place of an unused one.
abbrev pub Kept : Minode → Minode → Type 0
Kept m m' = (m' ≡ m) ⊎ ((m.ref_count ≡ 0) × (m'.ref_count ≡ 0) × (m'.dirty ≡ false))

-- The same state, but for what is in unused minodes.
pub record Restored (s t : Sim) : Type 0 where
  pub minodes : (k : ℕ) → Kept (s.m_inodes k) (t.m_inodes k)
  pub rest : t ≡ record s { m_inodes = t.m_inodes }

pub Restored-refl : (s : Sim) → Restored s s
Restored-refl s = record { minodes = λ k. inl refl; rest = refl }

Kept-trans : (l m n : Minode) → Kept l m → Kept m n → Kept l n
Kept-trans l m n (inl a) (inl b) = inl (b ∙ a)
Kept-trans l m n (inl a) (inr (z, z', d)) =
    inr (ap (λ (x : Minode). x.ref_count) (sym a) ∙ z, z', d)
Kept-trans l m n (inr (z, z', d)) (inl b) =
    inr (z, ap (λ (x : Minode). x.ref_count) b ∙ z', ap (λ (x : Minode). x.dirty) b ∙ d)
Kept-trans l m n (inr (z, z', d)) (inr (y, y', c)) = inr (z, y', c)

pub Restored-trans : (s t u : Sim) → Restored s t → Restored t u → Restored s u
Restored-trans s t u a b = record {
  minodes = λ k. Kept-trans _ _ _ (a.minodes k) (b.minodes k);
  rest = b.rest ∙ ap (λ (x : Sim). record x { m_inodes = u.m_inodes }) a.rest;
}

-- A minode that is in use is the same.
Restored-live :
    (s t : Sim) (k : ℕ) → Restored s t → 0 < (t.m_inodes k).ref_count → t.m_inodes k ≡ s.m_inodes k
Restored-live s t k r live = elim (r.minodes k) [
  | inl e ↦ e
  | inr z ↦ absurd (omega (arith, z.1, live))
]

pub Restored-same :
    (s t : Sim) (k : ℕ) → Restored s t → 0 < (s.m_inodes k).ref_count → t.m_inodes k ≡ s.m_inodes k
Restored-same s t k r live = elim (r.minodes k) [
  | inl e ↦ e
  | inr z ↦ absurd (omega (arith, z.0, live))
]

pub Restored-image : (s t : Sim) → Restored s t → t.image ≡ s.image
Restored-image s t r = ap (λ (x : Sim). x.image) r.rest

pub Restored-IsSettled : (s t : Sim) → Restored s t → IsSettled s → IsSettled t
Restored-IsSettled s t r h = record {
  clean = λ k lt. elim (r.minodes k) [
    | inl e ↦ ap (λ (x : Minode). x.dirty) e ∙ h.clean k lt
    | inr z ↦ z.2
  ];
  number = λ k lt live. (let e = Restored-live s t k r live in rw e (h.number k lt (rw e at live)));
  current = λ k n lt live i.
      (let e = Restored-live s t k r live in
        rw (e, Restored-image s t r) (h.current k n lt (rw e at live) (rw e at i)));
  unmounted =
      λ k lt live. (let e = Restored-live s t k r live in rw e (h.unmounted k lt (rw e at live)));
}

pub Restored-HasRoom : (s t : Sim) → Restored s t → HasRoom s → HasRoom t
Restored-HasRoom s t r h = record {
  slot = h.slot;
  in_table = h.in_table;
  unused = elim (r.minodes h.slot) [
    | inl e ↦ ap (λ (x : Minode). x.ref_count) e ∙ h.unused
    | inr z ↦ z.1
  ];
}

-- Between an `iget` of inode `n + 1`, which has found `p`, and the `iput` after it.
pub record Held (s : Sim) (dev n p : ℕ) (u : Sim) : Type 0 where
  pub in_table : p < nminodes
  pub got : iget dev (suc n) s ≡ ok (some p) u
  pub inode : (u.m_inodes p).inode ≡ load_inode s.image dev n
  pub dev_of : (u.m_inodes p).dev ≡ dev
  pub ino_of : (u.m_inodes p).ino ≡ suc n
  pub unmounted : (u.m_inodes p).mounted ≡ false
  pub clean : (u.m_inodes p).dirty ≡ false
  pub one_more : (u.m_inodes p).ref_count ≡ (s.m_inodes p).ref_count + 1
  pub others : (k : ℕ) → k ≢ p → u.m_inodes k ≡ s.m_inodes k
  pub rest : u ≡ record s { m_inodes = u.m_inodes }
  pub after : Sim
  pub put : iput p u ≡ ok tt after
  pub restored : Restored s after

-- What `holds` says.
pub holds-live :
    (dev ino : ℕ) (m : Minode)
    → holds dev ino m ≡ true
    → (0 < m.ref_count) × (m.dev ≡ dev) × (m.ino ≡ ino)
holds-live dev ino m e = ground arith

module _ (s : Sim) (h : IsSettled s) (dev n k : ℕ) (u : Sim)
    (got : iget dev (suc n) s ≡ ok (some k) u) where
  Cached-Held : Cached dev (suc n) s k u → Held s dev n k u
  Cached-Held c =
      let (live, ed, ei) = holds-live dev (suc n) (s.m_inodes k) c.found in
      let same = h.current k n c.in_table live ei in
      record {
        in_table = c.in_table;
        got = got;
        inode = rw (c.state, update_self) (rw ed at same);
        dev_of = rw (c.state, update_self) ed;
        ino_of = rw (c.state, update_self) ei;
        unmounted = rw (c.state, update_self) (h.unmounted k c.in_table live);
        clean = rw (c.state, update_self) (h.clean k c.in_table);
        one_more = rw (c.state, update_self) refl;
        others = λ j ne. rw c.state (update_ne s.m_inodes k _ j ne);
        rest = rw c.state refl;
        after = s;
        put = iput-Cached dev n k s u c;
        restored = Restored-refl s;
      }

  -- The state after the minode has been released again.
  abbrev released : Sim
  released = with_minode s k (closed (loaded s.image dev n (s.m_inodes k)))

  released-Restored : (s.m_inodes k).ref_count ≡ 0 → Restored s released
  released-Restored z = record {
    minodes = λ j. (elim (ℕ_discrete j k) [
      | yes e ↦ rw (e, update_self) (inr (z, refl, refl))
      | no ne ↦ rw (update_ne s.m_inodes k _ j ne) (inl refl)
    ]);
    rest = refl;
  }

  Loaded-Held : Loaded dev n s k u → Held s dev n k u
  Loaded-Held l =
      let put =
        iput-clean k u (rw (l.state, update_self) (omega arith))
          (rw (l.state, update_self) (h.clean k l.in_table)) in
      record {
        in_table = l.in_table;
        got = got;
        inode = rw (l.state, update_self) refl;
        dev_of = rw (l.state, update_self) refl;
        ino_of = rw (l.state, update_self) refl;
        unmounted = rw (l.state, update_self) refl;
        clean = rw (l.state, update_self) (h.clean k l.in_table);
        one_more = rw (l.state, update_self, l.unused) refl;
        others = λ j ne. rw l.state (update_ne s.m_inodes k _ j ne);
        rest = rw l.state refl;
        after = released;
        put = put ∙ rw (l.state, update_self, update-update) refl;
        restored = released-Restored l.unused;
      }

-- In such a state `iget` returns a minode with what the disk has, and an `iput` undoes it.
pub iget-Held :
    (s : Sim) → IsSettled s → HasRoom s → (dev n : ℕ) → (p : ℕ) × (u : Sim) × Held s dev n p u
iget-Held s h room dev n = go (iget-Got dev n s)
  where
    go :
        (r : Option ℕ) × (u : Sim) × (iget dev (suc n) s ≡ ok r u) × Got dev n s r u
        → (p : ℕ) × (u : Sim) × Held s dev n p u
    go (none, u, run, full) = absurd (
        omega (
          arith,
          full.all_live room.slot (omega arith) (omega (arith, room.in_table)),
          room.unused,
        ))
    go (some k, u, run, inl c) = (k, u, Cached-Held s h dev n k u run c)
    go (some k, u, run, inr l) = (k, u, Loaded-Held s h dev n k u run l)
