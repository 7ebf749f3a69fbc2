-- ===== src/Sound/Closed.antt =====
-- What `close` does to an open descriptor, in terms of the descriptors that name the same entry.
use cpts.Base.{
  ℕ, suc, ◌+◌, ◌-◌, ◌<◌, ◌≡◌, ◌⊎◌, ℤ, pos, ltb, true, false, none, some, Bool-cases, inl, inr, refl,
  sym, ◌∙◌, ap, subst, arith,
}
use cpts.Sim.{Sim, Proc, no_oft, nfd, nproc, update, update_self}
use cpts.Sim.Monad.{ok}
use cpts.Minodes.{iput}
use cpts.Minodes.Outcome.{iput-shared, iput-last}
use cpts.Paths.{running_proc}
use cpts.OpenFiles.{entry_of, file_close}
use cpts.Sound.{IsSound, points, open_fds}
use cpts.Sound.Counts.{open_fds-fd}
use cpts.Sound.Descriptors.{
  linked, unlinked, release, close-shared, close-last, file_close-Keeps, entry_of-slot,
}

-- How an `iput` of a numbered inode ends, apart from minodes and image.
iput-rest :
    (p n : ℕ) (s : Sim)
    → (s.m_inodes p).ino ≡ suc n
    → (u : Sim) × (iput p s ≡ ok tt u) × (u ≡ record s { m_inodes = u.m_inodes; image = u.image })
iput-rest p n s e = elim (Bool-cases (ltb 1 (s.m_inodes p).ref_count)) [
  | inl more ↦ (_, iput-shared p s (ground arith), refl)
  | inr last ↦ (_, iput-last p n s (ground arith) e, refl)
]

release-run :
    (o p : ℕ) (s u : Sim)
    → iput p s ≡ ok tt u
    → release o p s ≡ ok (pos 0) (record u { oft = update u.oft o no_oft })
unfolding release
release-run o p s u e = rw e refl

-- The state after `close` of a descriptor that named entry `o`: it is empty, and one descriptor
-- less names the entry. If none is left, the result is 0 and the entry is blank; if one is, the
-- result is 1, and the entry has the same minode, mode and position.
pub record Closed (s : Sim) (fd o : ℕ) (r : ℤ) (t : Sim) : Type 0 where
  pub sound : IsSound t
  pub empty : (running_proc t).fd fd ≡ none
  pub one_less : open_fds o t.proc nproc + 1 ≡ open_fds o s.proc nproc
  pub entry :
      ((r ≡ pos 0) × (open_fds o t.proc nproc ≡ 0) × (t.oft o ≡ no_oft))
      ⊎ ((r ≡ pos 1)
          × (0 < open_fds o t.proc nproc)
          × (t.oft o ≡ record (s.oft o) { ref_count = open_fds o t.proc nproc }))

module _ (s : Sim) (fd o p n : ℕ) (h : IsSound s) (names : entry_of fd s ≡ some o)
    (at : (s.oft o).inodeptr ≡ some p) (numbered : (s.m_inodes p).ino ≡ suc n) where
  abbrev left : Sim
  left = linked s fd o none (unlinked (s.oft o))

  emptied : (t : Sim) → t.proc ≡ left.proc → t.running ≡ s.running → (running_proc t).fd fd ≡ none
  emptied t procs running =
      rw (running, procs, update_self) (update_self (running_proc s).fd fd none)

  slot : (fd < nfd) × ((running_proc s).fd fd ≡ some o)
  slot = entry_of-slot fd o s names

  fewer : open_fds o left.proc nproc + 1 ≡ open_fds o s.proc nproc
  fewer =
      let one : points o ((running_proc s).fd fd) ≡ 1 = rw slot.1 (ground arith) in
      let moved = open_fds-fd o s.proc nproc s.running fd none h.running slot.0 in
      omega (arith, one, moved)

  -- The count of the entry after its assignment.
  count : (s.oft o).ref_count - 1 ≡ open_fds o left.proc nproc
  count = let c = h.counted o in let f = fewer in omega (arith, c, f)

  shared :
      ltb 0 ((s.oft o).ref_count - 1) ≡ true
      → (r : ℤ) × (t : Sim) × (file_close fd s ≡ ok r t) × Closed s fd o r t
  shared more =
      let run = close-shared fd o s names more in
      (
        pos 1,
        left,
        run,
        record {
          sound = ((file_close-Keeps fd).at s h (pos 1) left run).0;
          empty = emptied left refl refl;
          one_less = fewer;
          entry = inr (
            refl,
            subst (λ (c : ℕ). 0 < c) count (ground arith),
            update_self s.oft o (unlinked (s.oft o))
                ∙ ap (λ (c : ℕ). record (s.oft o) { ref_count = c }) count,
          );
        },
      )

  last :
      ltb 0 ((s.oft o).ref_count - 1) ≡ false
      → (r : ℤ) × (t : Sim) × (file_close fd s ≡ ok r t) × Closed s fd o r t
  last none_left =
      let (u, puts, same) = iput-rest p n left numbered in
      let t : Sim = record u { oft = update u.oft o no_oft } in
      let run = close-last fd o s names p none_left at ∙ release-run o p left u puts in
      let procs : u.proc ≡ left.proc = ap (λ (x : Sim). x.proc) same in
      (
        pos 0,
        t,
        run,
        record {
          sound = ((file_close-Keeps fd).at s h (pos 0) t run).0;
          empty = emptied t procs (ap (λ (x : Sim). x.running) same);
          one_less = ap (λ (q : ℕ → Proc). open_fds o q nproc + 1) procs ∙ fewer;
          entry = inl (
            refl,
            ap (λ (q : ℕ → Proc). open_fds o q nproc) procs ∙ sym count ∙ ground arith,
            update_self u.oft o no_oft,
          );
        },
      )

  -- On a sound state, `close` of a descriptor that is open on a minode of a numbered inode returns:
  -- the descriptor is empty, and one less names its entry of the open file table. The result is 0,
  -- with a blank entry, if no descriptor names the entry any more, and 1 if one does, with the entry's
  -- minode, mode and position as they were and the number of its descriptors as its count; the state
  -- is sound.
  pub file_close-Closed : (r : ℤ) × (t : Sim) × (file_close fd s ≡ ok r t) × Closed s fd o r t
  file_close-Closed = elim (Bool-cases (ltb 0 ((s.oft o).ref_count - 1))) [
    | inl more ↦ shared more
    | inr none_left ↦ last none_left
  ]
