-- ===== src/Minodes/Unique.antt =====
-- No inode is in memory twice.
use cpts.Base.{
  ◌⊎◌, ◌≤◌, ℕ, suc, ◌<◌, ◌≡◌, ◌≢◌, inl, inr, refl, sym, ◌∙◌, subst, true, Option, none, some, arith,
}
use native.Mathlib.Decide.{ℕ_discrete, dec_lt}
use cpts.Sim.{Sim, Minode, update, nminodes}
use cpts.Sim.Monad.{ok}
use cpts.Minodes.{holds, iget, iput}
use cpts.Minodes.Outcome.{
  with_minode, referenced, loaded, closed, counted, saved, Got, iget-Got, iput-shared, iput-last,
}

-- Two minodes in use are for different inodes.
abbrev pub IsUnique : (ℕ → Minode) → Type 0
IsUnique t =
    (i j : ℕ)
    → i < nminodes
    → j < nminodes
    → 0 < (t i).ref_count
    → 0 < (t j).ref_count
    → (t i).dev ≡ (t j).dev
    → (t i).ino ≡ (t j).ino
    → i ≡ j

-- A minode may stand at `k` if no other one is in use for its inode.
abbrev NoClash : (ℕ → Minode) → ℕ → Minode → Type 0
NoClash t k m =
    (j : ℕ)
    → j < nminodes
    → j ≢ k
    → 0 < (t j).ref_count
    → (t j).dev ≡ m.dev
    → (t j).ino ≡ m.ino
    → ¬ (0 < m.ref_count)

update-IsUnique :
    (t : ℕ → Minode) (k : ℕ) (m : Minode) → IsUnique t → NoClash t k m → IsUnique (update t k m)
unfolding update
update-IsUnique t k m u c i j p q li lj ed ei = elim (ℕ_discrete i k) [
  | yes a ↦ elim (ℕ_discrete j k) [
    | yes b ↦ a ∙ sym b
    | no b ↦ absurd (c j q b (ground arith) (ground arith) (ground arith) (ground arith))
  ]
  | no a ↦ elim (ℕ_discrete j k) [
    | yes b ↦ absurd (c i p a (ground arith) (ground arith) (ground arith) (ground arith))
    | no b ↦ u i j p q (ground arith) (ground arith) (ground arith) (ground arith)
  ]
]

-- The same inode in the same minode.
same-NoClash :
    (t : ℕ → Minode) (k : ℕ) (m : Minode)
    → k < nminodes
    → IsUnique t
    → m.dev ≡ (t k).dev
    → m.ino ≡ (t k).ino
    → 0 < (t k).ref_count
    → NoClash t k m
same-NoClash t k m p u ed ei l j q ne lj fd fi lm = ne (u j k q p lj l (fd ∙ ed) (fi ∙ ei))

-- `iget` keeps the in-memory inodes unique.
iget-IsUnique :
    (dev n : ℕ) (s s' : Sim) (r : Option ℕ)
    → IsUnique s.m_inodes
    → iget dev (suc n) s ≡ ok r s'
    → IsUnique s'.m_inodes
iget-IsUnique dev n s s' r u e =
    let (r0, s0, run, got) = iget-Got dev n s in
    let same : s0 ≡ s' = cc in subst (λ x. IsUnique x.m_inodes) same (go r0 s0 got)
  where
    go : (r : Option ℕ) (t : Sim) → Got dev n s r t → IsUnique t.m_inodes
    go none t f = rw f.state u
    go (some k) t (inl c) = rw c.state (
        update-IsUnique s.m_inodes k (referenced (s.m_inodes k)) u (
          same-NoClash s.m_inodes k (referenced (s.m_inodes k)) c.in_table u refl refl
            (ground (arith, c.found))))
    go (some k) t (inr l) = rw l.state (
        update-IsUnique s.m_inodes k (loaded s.image dev n (s.m_inodes k)) u
          λ j q ne lj fd fi lm. cc (held j lj fd fi, l.absent j (omega arith) (omega arith)))
      where
        held :
            (j : ℕ)
            → 0 < (s.m_inodes j).ref_count
            → (s.m_inodes j).dev ≡ dev
            → (s.m_inodes j).ino ≡ suc n
            → holds dev (suc n) (s.m_inodes j) ≡ true
        held j lj fd fi = ground arith

-- What the release of a reference leaves: one reference less; or, without another one, the closed
-- minode, and an image to which a changed inode is stored.
abbrev pub Released : ℕ → ℕ → Sim → Sim → Type 0
Released k n s s' =
    ((1 < (s.m_inodes k).ref_count) × (s' ≡ with_minode s k (counted (s.m_inodes k))))
    ⊎ (((s.m_inodes k).ref_count ≤ 1)
        × (s' ≡ record (with_minode s k (closed (s.m_inodes k))) {
          image = saved n (s.m_inodes k) s.image;
        }))

-- `iput` of a minode of a numbered inode returns. While there are further references, it only counts
-- one less; otherwise it stores the inode if it is dirty, and closes the minode; no other minode and
-- no other part of the state changes. Unique in-memory inodes stay so.
pub iput-Released :
    (k n : ℕ) (s : Sim)
    → k < nminodes
    → IsUnique s.m_inodes
    → (s.m_inodes k).ino ≡ suc n
    → (s' : Sim) × (iput k s ≡ ok tt s') × Released k n s s' × IsUnique s'.m_inodes
iput-Released k n s p u e = elim (dec_lt 1 (s.m_inodes k).ref_count) [
  | yes more ↦ (
    with_minode s k (counted (s.m_inodes k)),
    iput-shared k s more,
    inl (more, refl),
    update-IsUnique s.m_inodes k (counted (s.m_inodes k)) u
        (same-NoClash s.m_inodes k (counted (s.m_inodes k)) p u refl refl (omega arith)),
  )
  | no last ↦ (
    record (with_minode s k (closed (s.m_inodes k))) { image = saved n (s.m_inodes k) s.image },
    iput-last k n s (omega arith) e,
    inr (omega arith, refl),
    update-IsUnique s.m_inodes k (closed (s.m_inodes k)) u
        (λ j q ne lj fd fi lm. absurd (omega arith)),
  )
]
