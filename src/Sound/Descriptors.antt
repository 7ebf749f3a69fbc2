-- ===== src/Sound/Descriptors.antt =====
-- A descriptor that is assigned together with its entry of the open file table, and `close`.
use cpts.Base.{
  ℕ, zero, suc, ◌+◌, ◌-◌, ◌≤◌, ◌<◌, ◌≡◌, ℤ, pos, leb, ltb, true, false, Option, none, some,
  Bool-cases, inl, inr, refl, sym, ◌∙◌, ap, subst, arith,
}
use native.Mathlib.Decide.{ℕ_discrete}
use cpts.Sim.{Sim, Oft, no_oft, nfd, noft, nproc, nminodes, update, update_self, update_ne}
use cpts.Sim.Monad.{
  and_then, ok-value, fault-ok, M, Run, ok, fault, out_of_fuel, pure, set_oft, ◌>>◌,
}
use cpts.Minodes.{iput}
use cpts.Minodes.Outcome.{iput-shared, iput-last, iput-clean, iput-fault}
use cpts.Paths.{running_proc}
use cpts.OpenFiles.{set_fd, entry_of, close_entry, file_close}
use cpts.Sound.{InTable, IsSound, points}
use cpts.Sound.Counts.{open_fds-fd, open_fds-some}
use cpts.Sound.Rules.{Keeps, Any}
use cpts.Sound.Primitives.{update-all, IsBacked, with_oft-IsSound, ProcInTable}
use cpts.Sound.Minodes.{iput-Keeps}

-- Another value of descriptor `fd` of the running process, and of entry `o`.
abbrev pub linked : Sim → ℕ → ℕ → Option ℕ → Oft → Sim
linked s fd o v e = record s {
  oft = update s.oft o e;
  proc = update s.proc s.running (record (running_proc s) { fd = update (running_proc s).fd fd v });
}

pub linked-IsSound :
    (s : Sim) (fd o : ℕ) (v : Option ℕ) (e : Oft)
    → IsSound s
    → fd < nfd
    → InTable noft v
    → InTable nminodes e.inodeptr
    → IsBacked e
    → ((j : ℕ)
        → (update s.oft o e j).ref_count + points j ((running_proc s).fd fd)
          ≡ (s.oft j).ref_count + points j v)
    → IsSound (linked s fd o v e)
linked-IsSound s fd o v e h lt iv ie b counts = record {
  descriptors = λ j. (all j).0;
  directories = λ j. (all j).1;
  files = update-all (λ (e : Oft). InTable nminodes e.inodeptr) s.oft o e h.files ie;
  mount_points = h.mount_points;
  mounts = h.mounts;
  top = h.top;
  running = h.running;
  distinct = h.distinct;
  reset = h.reset;
  counted = λ j.
      omega (arith, counts j, h.counted j, open_fds-fd j s.proc nproc s.running fd v h.running lt);
  backed = update-all IsBacked s.oft o e h.backed b;
}
  where
    all : (j : ℕ) → ProcInTable ((linked s fd o v e).proc j)
    all =
        update-all ProcInTable s.proc s.running _ (λ j. (h.descriptors j, h.directories j))
          (
            update-all (InTable noft) (running_proc s).fd fd v (h.descriptors s.running) iv,
            h.directories s.running,
          )

-- One descriptor more names the entry, and it counts one more.
pub opened_counts :
    (t : ℕ → Oft) (o j : ℕ) (e : Oft) (old : Option ℕ)
    → old ≡ none
    → e.ref_count ≡ (t o).ref_count + 1
    → (update t o e j).ref_count + points j old ≡ (t j).ref_count + points j (some o)
opened_counts t o j e old free one = elim (ℕ_discrete j o) [
  | yes here ↦ rw (here, free, update_self, one) (ground arith)
  | no there ↦ rw (free, update_ne t o e j there) (ground arith)
]

-- One less.
closed_counts :
    (t : ℕ → Oft) (o j : ℕ) (e : Oft) (old : Option ℕ)
    → old ≡ some o
    → e.ref_count + 1 ≡ (t o).ref_count
    → (update t o e j).ref_count + points j old ≡ (t j).ref_count + points j none
closed_counts t o j e old names one = elim (ℕ_discrete j o) [
  | yes here ↦ rw (here, names, update_self) (ground (arith, one))
  | no there ↦ rw (names, update_ne t o e j there) (ground arith)
]

-- `iput` does not touch the open files.
iput-oft : (p : ℕ) (s : Sim) (a : Unit {0}) (t : Sim) → iput p s ≡ ok a t → t.oft ≡ s.oft
iput-oft p s a t e = elim (Bool-cases (ltb 1 (s.m_inodes p).ref_count)) [
  | inl more ↦ from (sym (iput-shared p s (ground arith)) ∙ e) refl
  | inr last ↦ elim (Bool-cases (s.m_inodes p).dirty) [
    | inr clean ↦ from (sym (iput-clean p s (ground arith) clean) ∙ e) refl
    | inl dirty ↦ write (ground arith) dirty (s.m_inodes p).ino refl
  ]
]
  where
    from : {u : Sim} → ok tt u ≡ ok a t → u.oft ≡ s.oft → t.oft ≡ s.oft
    from {u} f same = ap (λ (x : Sim). x.oft) (sym (ok-value tt a u t f).1) ∙ same

    write :
        (s.m_inodes p).ref_count ≤ 1
        → (s.m_inodes p).dirty ≡ true
        → (i : ℕ) → (s.m_inodes p).ino ≡ i
        → t.oft ≡ s.oft
    write le d zero z = absurd (fault-ok (sym (iput-fault p s le d z) ∙ e))
    write le d (suc n) z = from (sym (iput-last p n s le z) ∙ e) refl

-- The end of `close_entry` for an entry that no descriptor names.
unfoldable pub release : ℕ → ℕ → M ℤ
release o p = do iput p; set_oft o (λ e. no_oft); pure (pos 0)

release-IsSound :
    (o p : ℕ) (s : Sim)
    → IsSound s
    → (s.oft o).ref_count ≡ 0
    → (a : ℤ) (t : Sim) → release o p s ≡ ok a t
    → IsSound t
unfolding release
release-IsSound o p s h z a t e = go (iput p s) refl e
  where
    go :
        (r : Run (Unit {0}))
        → iput p s ≡ r
        → (and_then r (λ _. set_oft o (λ e. no_oft) >> pure (pos 0))) ≡ ok a t
        → IsSound t
    go fault f e = absurd (fault-ok e)
    go out_of_fuel f e = absurd (cc)
    go (ok b u) f e =
        let same = iput-oft p s b u f in
        subst IsSound (ok-value _ _ _ _ e).1 (
          with_oft-IsSound u o no_oft ((iput-Keeps p).at s h b u f).0 tt
            (sym (ap (λ (x : ℕ → Oft). (x o).ref_count) same ∙ z))
            (λ live. absurd (omega (arith, live))))

-- The entry with one reference less.
abbrev pub unlinked : Oft → Oft
unlinked e = record e { ref_count = e.ref_count - 1 }

-- The branches of `close` of a descriptor that names `o`.
module _ (fd o : ℕ) (s : Sim) (names : entry_of fd s ≡ some o) where
  abbrev after : Sim
  after = linked s fd o none (unlinked (s.oft o))

  pub close-shared : ltb 0 ((s.oft o).ref_count - 1) ≡ true → file_close fd s ≡ ok (pos 1) after
  unfolding file_close set_fd close_entry
  close-shared more = rw (names, update_self, more) refl

  close-fault :
      ltb 0 ((s.oft o).ref_count - 1) ≡ false → (s.oft o).inodeptr ≡ none → file_close fd s ≡ fault
  unfolding file_close set_fd close_entry
  close-fault last null = rw (names, update_self, last, null) refl

  pub close-last :
      (p : ℕ)
      → ltb 0 ((s.oft o).ref_count - 1) ≡ false
      → (s.oft o).inodeptr ≡ some p
      → file_close fd s ≡ release o p after
  unfolding file_close set_fd close_entry release
  close-last p last at = rw (names, update_self, last, at) refl

  after-IsSound : IsSound s → fd < nfd → (running_proc s).fd fd ≡ some o → IsSound after
  after-IsSound h lt slot =
      let live = open_fds-some o s.proc nproc s.running fd h.running lt slot in
      let count = h.counted o in
      linked-IsSound s fd o none (unlinked (s.oft o)) h lt tt (h.files o)
        (λ more. h.backed o (omega (arith, more)))
        (λ j. closed_counts s.oft o j (unlinked (s.oft o)) _ slot (omega (arith, live, count)))

  close-IsSound :
      IsSound s
      → fd < nfd
      → (running_proc s).fd fd ≡ some o
      → (a : ℤ) (t : Sim) → file_close fd s ≡ ok a t
      → IsSound t
  close-IsSound h lt slot a t e =
      let sound = after-IsSound h lt slot in
      elim (Bool-cases (ltb 0 ((s.oft o).ref_count - 1))) [
        | inl more ↦ subst IsSound (ok-value _ _ _ _ (sym (close-shared more) ∙ e)).1 sound
        | inr last ↦ go last sound (s.oft o).inodeptr refl
      ]
    where
      go :
          ltb 0 ((s.oft o).ref_count - 1) ≡ false
          → IsSound after
          → (p : Option ℕ) → (s.oft o).inodeptr ≡ p
          → IsSound t
      go last sound none at = absurd (fault-ok (sym (close-fault last at) ∙ e))
      go last sound (some p) at =
          release-IsSound o p after sound (rw update_self (ground arith)) a t
            (sym (close-last p last at) ∙ e)

pub entry_of-slot :
    (fd o : ℕ) (s : Sim) → entry_of fd s ≡ some o → (fd < nfd) × ((running_proc s).fd fd ≡ some o)
unfolding entry_of
entry_of-slot fd o s e = elim (Bool-cases (leb nfd fd)) [
  | inl out ↦ absurd (cc (rw out at e))
  | inr fits ↦ (ground arith, rw fits at e)
]

close-none : (fd : ℕ) (s : Sim) → entry_of fd s ≡ none → file_close fd s ≡ ok (pos 1) s
unfolding file_close
close-none fd s e = rw e refl

pub file_close-Keeps : (fd : ℕ) → Keeps Any (file_close fd)
file_close-Keeps fd = record { at = λ s h a t e. (go s h a t e (entry_of fd s) refl, tt) }
  where
    go :
        (s : Sim)
        → IsSound s
        → (a : ℤ) (t : Sim) → file_close fd s ≡ ok a t
        → (r : Option ℕ) → entry_of fd s ≡ r
        → IsSound t
    go s h a t e none f = subst IsSound (ok-value _ _ _ _ (sym (close-none fd s f) ∙ e)).1 h
    go s h a t e (some o) f =
        let (lt, slot) = entry_of-slot fd o s f in close-IsSound fd o s f h lt slot a t e
