-- ===== src/Sound/Minodes.antt =====
-- `iget` and `iput` keep the state sound, and `iget` returns a pointer into its table.
use cpts.Base.{
  ◌∙◌, ◌≤◌, subst, Bool-cases, inl, inr, sym, ◌≢◌, ℕ, zero, suc, ◌<◌, ◌≡◌, ltb, true, Option, none,
  some, arith, refl,
}
use cpts.Sim.{Sim, Minode, nminodes, nmount}
use cpts.Sim.Monad.{ok-value, fault-ok, M, ok, pure, ◌>>=◌}
use cpts.Minodes.{Slot, hit, miss, scan, get_at, inode_get_block, open_minode, iget_at, iget, iput}
use cpts.Minodes.Scan.{scan_hit, scan-Free}
use cpts.Minodes.Scan.{Absent, scan-Absent}
use native.Mathlib.Decide.{ℕ_discrete}
use cpts.Sim.{update, update_self, update_ne}
use cpts.Minodes.Outcome.{
  with_minode, closed, counted, saved, iput-shared, iput-last, iput-clean, iput-fault,
}
use cpts.Sound.{AreDistinct, InTable, IsSound}
use cpts.Sound.Rules.{Keeps, Any, Keeps-pure, Keeps-stop, Keeps-bind, Keeps-then, Keeps-read}
use cpts.Sound.Primitives.{
  Keeps-set_image, update-all, Keeps-referenced, with_minode-IsSound, Keeps-set_minode,
}

SlotInTable : Slot → Type 0
SlotInTable (hit k) = k < nminodes
SlotInTable (miss r) = InTable nminodes r

scan-SlotInTable : (s : Sim) (dev ino : ℕ) → SlotInTable (scan s.m_inodes dev ino nminodes 0 none)
unfolding SlotInTable
scan-SlotInTable s dev ino = go (scan s.m_inodes dev ino nminodes 0 none) refl
  where
    go : (r : Slot) → scan s.m_inodes dev ino nminodes 0 none ≡ r → SlotInTable r
    go (hit k) e = omega (arith, scan_hit _ _ _ _ _ _ _ e)
    go (miss none) e = tt
    go (miss (some k)) e = omega (arith, scan-Free _ _ _ _ _ _ _ e)

get_at-Keeps : (p dev ino : ℕ) → Keeps Any (get_at p dev ino)
unfolding get_at
get_at-Keeps p dev zero = Keeps-stop
get_at-Keeps p dev (suc n) = search (Keeps-then, Keeps-read, Keeps-set_minode, refl)

inode_get_block-Keeps : (p : ℕ) → Keeps Any (inode_get_block p)
unfolding inode_get_block
inode_get_block-Keeps p = search (Keeps-then, Keeps-read, get_at-Keeps)

-- A minode that is not there, and that no other minode holds, is put in place of an unused one.
opened-AreDistinct :
    (t : ℕ → Minode) (k dev ino : ℕ)
    → AreDistinct t
    → ((p : ℕ) → (t p).ref_count ≡ 0 → (t p).ino ≡ 0)
    → Absent t dev ino nminodes 0
    → AreDistinct (update t k (open_minode dev ino (t k)))
unfolding open_minode
opened-AreDistinct t k dev ino d r away i j hi hj live sd si = elim (ℕ_discrete i k) [
  | yes ei ↦ elim (ℕ_discrete j k) [
    | yes ej ↦ ei ∙ sym ej
    | no nj ↦ absurd (
        taken j hj (rw (ei, update_self) at live) (rw (ei, update_self, update_ne t k _ j nj) at sd)
          (rw (ei, update_self, update_ne t k _ j nj) at si))
  ]
  | no ni ↦ elim (ℕ_discrete j k) [
    | yes ej ↦
        let same = rw (ej, update_self, update_ne t k _ i ni) at si in
        absurd (
          taken i hi (λ z. rw (update_ne t k _ i ni) at live (same ∙ z))
            (sym (rw (ej, update_self, update_ne t k _ i ni) at sd)) (sym same))
    | no nj ↦
        d i j hi hj (rw (update_ne t k _ i ni) at live)
          (rw (update_ne t k _ i ni, update_ne t k _ j nj) at sd)
          (rw (update_ne t k _ i ni, update_ne t k _ j nj) at si)
  ]
]
  where
    taken : (q : ℕ) → q < nminodes → ino ≢ 0 → dev ≡ (t q).dev → ino ≡ (t q).ino → ⊥
    taken q hq some_ino ed ei = elim (ℕ_discrete (t q).ref_count 0) [
      | yes z ↦ some_ino (ei ∙ r q z)
      | no nz ↦ ground (arith, away q (omega arith) (omega arith))
    ]

-- The state in which `iget` loads the inode.
opened-IsSound :
    (s : Sim) (k dev ino : ℕ)
    → IsSound s
    → Absent s.m_inodes dev ino nminodes 0
    → IsSound (record s { m_inodes = update s.m_inodes k (open_minode dev ino (s.m_inodes k)) })
unfolding open_minode
opened-IsSound s k dev ino h away = record {
  descriptors = h.descriptors;
  directories = h.directories;
  files = h.files;
  mount_points = h.mount_points;
  mounts =
      update-all (λ (m : Minode). InTable nmount m.mountptr) s.m_inodes k _ h.mounts (h.mounts k);
  top = h.top;
  running = h.running;
  distinct = opened-AreDistinct s.m_inodes k dev ino h.distinct h.reset away;
  reset =
      update-all (λ (m : Minode). m.ref_count ≡ 0 → m.ino ≡ 0) s.m_inodes k _ h.reset
        (λ z. absurd (omega (arith, z)));
  counted = h.counted;
  backed = h.backed;
}

iget_at-hit : (dev ino k : ℕ) → k < nminodes → Keeps (InTable nminodes) (iget_at dev ino (hit k))
unfolding iget_at
iget_at-hit dev ino k h = Keeps-then _ _ (Keeps-referenced k) (λ u. Keeps-pure (some k) h)

iget_at-loaded :
    (k : ℕ) → k < nminodes → Keeps (InTable nminodes) (inode_get_block k >>= λ u. pure (some k))
iget_at-loaded k h = Keeps-then _ _ (inode_get_block-Keeps k) (λ u. Keeps-pure (some k) h)

pub iget-Keeps : (dev ino : ℕ) → Keeps (InTable nminodes) (iget dev ino)
unfolding iget iget_at
iget-Keeps dev ino = record { at = λ s h a t e. go s h a t e _ refl }
  where
    go :
        (s : Sim)
        → IsSound s
        → (a : Option ℕ) (t : Sim) → iget dev ino s ≡ ok a t
        → (r : Slot) → scan s.m_inodes dev ino nminodes 0 none ≡ r
        → IsSound t × InTable nminodes a
    go s h a t e (hit k) f =
        (iget_at-hit dev ino k (omega (arith, scan_hit _ _ _ _ _ _ _ f))).at s h a t (rw f at e)
    go s h a t e (miss none) f =
        let v = ok-value none a s t (rw f at e) in
        (subst IsSound v.1 h, subst (InTable nminodes) v.0 tt)
    go s h a t e (miss (some k)) f =
        (iget_at-loaded k (omega (arith, scan-Free _ _ _ _ _ _ _ f))).at _
          (opened-IsSound s k dev ino h (scan-Absent _ _ _ _ _ _ _ f)) a t (rw f at e)

closed-AreDistinct :
    (t : ℕ → Minode) (k : ℕ) (m : Minode) → AreDistinct t → m.ino ≡ 0 → AreDistinct (update t k m)
closed-AreDistinct t k m d z i j hi hj live sd si = elim (ℕ_discrete i k) [
  | yes ei ↦ absurd ((rw (ei, update_self) at live) z)
  | no ni ↦ elim (ℕ_discrete j k) [
    | yes ej ↦ absurd (live (si ∙ rw (ej, update_self) z))
    | no nj ↦
        d i j hi hj (rw (update_ne t k m i ni) at live)
          (rw (update_ne t k m i ni, update_ne t k m j nj) at sd)
          (rw (update_ne t k m i ni, update_ne t k m j nj) at si)
  ]
]

-- The state in which `iput` has released the minode.
closed-IsSound : (s : Sim) (k : ℕ) → IsSound s → IsSound (with_minode s k (closed (s.m_inodes k)))
closed-IsSound s k h = record {
  descriptors = h.descriptors;
  directories = h.directories;
  files = h.files;
  mount_points = h.mount_points;
  mounts = update-all (λ (m : Minode). InTable nmount m.mountptr) s.m_inodes k _ h.mounts tt;
  top = h.top;
  running = h.running;
  distinct = closed-AreDistinct s.m_inodes k _ h.distinct refl;
  reset =
      update-all (λ (m : Minode). m.ref_count ≡ 0 → m.ino ≡ 0) s.m_inodes k _ h.reset (λ z. refl);
  counted = h.counted;
  backed = h.backed;
}

pub iput-Keeps : (p : ℕ) → Keeps Any (iput p)
iput-Keeps p = record {
  at = λ s h a t e. elim (Bool-cases (ltb 1 (s.m_inodes p).ref_count)) [
    | inl more ↦
        to s a t h
          (with_minode-IsSound s p (counted (s.m_inodes p)) h (h.mounts p)
            (refl, refl, λ z. absurd (ground (arith, z, more))))
          (sym (iput-shared p s (ground arith)) ∙ e)
    | inr last ↦ elim (Bool-cases (s.m_inodes p).dirty) [
      | inr clean ↦
          to s a t h (closed-IsSound s p h) (sym (iput-clean p s (ground arith) clean) ∙ e)
      | inl dirty ↦ write s h a t e (ground arith) dirty (s.m_inodes p).ino refl
    ]
  ];
}
  where
    to :
        (s : Sim) (a : Unit {0}) (t : Sim)
        → IsSound s
        → {u : Sim} → IsSound u
        → ok tt u ≡ ok a t
        → IsSound t × Any a
    to s a t h {u} k e = (subst IsSound (ok-value tt a u t e).1 k, tt)

    write :
        (s : Sim)
        → IsSound s
        → (a : Unit {0}) (t : Sim) → iput p s ≡ ok a t
        → (s.m_inodes p).ref_count ≤ 1
        → (s.m_inodes p).dirty ≡ true
        → (i : ℕ) → (s.m_inodes p).ino ≡ i
        → IsSound t × Any a
    write s h a t e le d zero z = absurd (fault-ok (sym (iput-fault p s le d z) ∙ e))
    write s h a t e le d (suc n) z =
        (Keeps-set_image (saved n (s.m_inodes p))).at _ (closed-IsSound s p h) a t
          (sym (iput-last p n s le z) ∙ e)

module _ {B : Type 0} {R : B → Type 0} where
  pub Keeps-iget :
      (dev ino : ℕ) (f : Option ℕ → M B)
      → ((o : Option ℕ) → InTable nminodes o → Keeps R (f o))
      → Keeps R (iget dev ino >>= f)
  Keeps-iget dev ino f k = Keeps-bind _ f (iget-Keeps dev ino) k

  pub Keeps-iput :
      (p : ℕ) (f : Unit {0} → M B) → ((u : Unit {0}) → Keeps R (f u)) → Keeps R (iput p >>= f)
  Keeps-iput p f k = Keeps-then _ f (iput-Keeps p) k

pub ruleset minodes = (Keeps-iget, Keeps-iput, iget-Keeps, iput-Keeps)
