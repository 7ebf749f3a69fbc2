-- ===== src/Sound/Opening.antt =====
-- `open` keeps the state sound: a free descriptor gets an entry, which counts it.
use cpts.Base.{
  ℕ, zero, suc, ◌+◌, ◌<◌, ◌≡◌, ◌≢◌, ℤ, pos, ltb, Bool, true, false, not, ◌&&◌, ◌==◌, if◌then◌else◌,
  Option, none, some, on_some, Option-cases, ◌⊎◌, Bool-cases, inl, inr, refl, sym, ◌∙◌, ap, subst,
  arith,
}
use cpts.Text.{Text}
use cpts.Sim.{Sim, Oft, Proc, nfd, noft, nminodes, update, update_self}
use cpts.Sim.Monad.{ok-value, fault-ok, M, Run, ok, fault, out_of_fuel, gets, ◌>>=◌}
use cpts.Minodes.Inode.{has_type, file_type}
use cpts.Paths.{running_proc}
use cpts.Files.{failed, finish}
use cpts.Files.Blocks.{clear_inode, clear_blocks}
use cpts.OpenFiles.{
  free_fd, find_proc_fd, find_oft, set_fd, opened, claim_oft, open_with, slots, file_open,
}
use cpts.OpenFiles.Slots.{FoundOft, find_oft-FoundOft}
use cpts.Sound.{IsSound}
use cpts.Sound.Rules.{
  Keeps, Any, Keeps-if, Keeps-then, Keeps-read, Keeps-return, Keeps-pointer, control,
}
use cpts.Sound.Primitives.{writes}
use cpts.Sound.Reads.{reads}
use cpts.Sound.Minodes.{minodes, Keeps-iget}
use cpts.Sound.Paths.{getino-Keeps}
use cpts.Sound.Dir.{clear_blocks-Keeps}
use cpts.Sound.Descriptors.{linked, linked-IsSound, opened_counts}

free_fd_lem :
    (fd : ℕ → Option ℕ) (n i k : ℕ) → free_fd fd n i ≡ some k → (k < n + i) × (fd k ≡ none)
unfolding free_fd
free_fd_lem fd zero i k e = absurd (cc)
free_fd_lem fd (suc n) i k e = go (fd i) refl (free_fd_lem fd n (i + 1) k) e
  where
    go :
        (v : Option ℕ)
        → fd i ≡ v
        → (free_fd fd n (i + 1) ≡ some k → (k < n + (i + 1)) × (fd k ≡ none))
        → on_some v (some i) (λ p. free_fd fd n (i + 1)) ≡ some k
        → (k < suc n + i) × (fd k ≡ none)
    go none free rest e = let same : i ≡ k = ground arith in (omega (arith, same), rw (← same) free)
    go (some p) used rest e = let (lt, free) = rest e in (omega (arith, lt), free)

-- What `open` finds: a free descriptor of the running process, and an entry of the table.
record Slotted (s : Sim) (fd o : ℕ) : Type 0 where
  in_range : fd < nfd
  free : (running_proc s).fd fd ≡ none
  in_table : o < noft

-- Both of them, if there are both.
abbrev both : Option ℕ → Option ℕ → Option (ℕ × ℕ)
both f r = on_some f none (λ fd. on_some r none (λ o. some (fd, o)))

slots-Slotted : (ino fd o : ℕ) (s : Sim) → slots ino s ≡ some (fd, o) → Slotted s fd o
unfolding slots find_proc_fd
slots-Slotted ino fd o s e = go (find_proc_fd s) (find_oft s ino) refl (find_oft-FoundOft s ino) e
  where
    go :
        (f r : Option ℕ)
        → find_proc_fd s ≡ f
        → FoundOft s ino r
        → both f r ≡ some (fd, o)
        → Slotted s fd o
    go none r ef h e = absurd (cc)
    go (some k) none ef h e = absurd (cc)
    go (some k) (some j) ef h e =
        let here : k ≡ fd = cc in
        let there : j ≡ o = cc in
        let (lt, free) = free_fd_lem (running_proc s).fd nfd 0 k ef in
        record {
          in_range = omega (arith, lt, here);
          free = rw (← here) free;
          in_table = omega (arith, h.0, there);
        }

abbrev linked_to : Oft → Oft
linked_to e = record e { ref_count = e.ref_count + 1 }

opened-run :
    (fd o : ℕ) (s : Sim)
    → opened fd o s ≡ ok (pos fd) (linked s fd o (some o) (linked_to (s.oft o)))
unfolding opened set_fd
opened-run fd o s = refl

opened-IsSound :
    (fd o : ℕ) (s : Sim)
    → IsSound s
    → Slotted s fd o
    → (s.oft o).inodeptr ≢ none
    → (a : ℤ) (t : Sim) → opened fd o s ≡ ok a t
    → IsSound t
opened-IsSound fd o s h w some_minode a t e =
    subst IsSound (ok-value _ _ _ _ (sym (opened-run fd o s) ∙ e)).1 (
      linked-IsSound s fd o (some o) (linked_to (s.oft o)) h w.in_range w.in_table (h.files o)
        (λ live. some_minode) (λ j. opened_counts s.oft o j (linked_to (s.oft o)) _ w.free refl))

some_pointer : (p : ℕ) → ◌≢◌ {A = Option ℕ} (some p) none
some_pointer p e = cc

claim_oft-Keeps : (mode p o : ℕ) → p < nminodes → Keeps Any (claim_oft mode p o)
unfolding claim_oft
claim_oft-Keeps mode p o h =
    search (reads, writes, control, clear_blocks-Keeps, some_pointer) depth 24

-- The state at the end of a run.
abbrev final : Sim → Run (Unit {0}) → Sim
final s (ok a t) = t
final s fault = s
final s out_of_fuel = s

-- The assignments to an entry leave the descriptors as they are.
abbrev Claimed : ℕ → ℕ → ℕ → Sim → Sim → Type 0
Claimed mode p o s t =
    (claim_oft mode p o s ≡ ok tt t)
    × (t.proc ≡ s.proc)
    × (t.running ≡ s.running)
    × ((t.oft o).inodeptr ≡ some p)

-- They return, but for a number of a block behind the bitmap.
claim_oft-Claimed :
    (mode p o : ℕ) (s : Sim)
    → (claim_oft mode p o s ≡ fault) ⊎ Claimed mode p o s (final s (claim_oft mode p o s))
unfolding claim_oft clear_blocks
claim_oft-Claimed mode p o s = elim (Bool-cases (mode == 1)) [
  | inl truncates ↦
      elim (Option-cases (clear_inode (s.m_inodes p).dev ((s.m_inodes p).inode, s.image))) [
        | inl outside ↦ inl (rw (truncates, outside) refl)
        | inr (w, cleared) ↦ inr (rw (truncates, cleared) (refl, refl, refl, at _ _ refl))
      ]
  | inr keeps ↦ inr (rw keeps (refl, refl, refl, at _ _ refl))
]
  where
    at : (t : ℕ → Oft) (e : Oft) → e.inodeptr ≡ some p → (update t o e o).inodeptr ≡ some p
    at t e same = rw update_self same

-- The branches of `open` behind its search for a slot.
module _ (mode p fd o : ℕ) (s : Sim) (h : IsSound s) (w : Slotted s fd o) where
  open_new :
      p < nminodes
      → (a : ℤ) (t : Sim) → (claim_oft mode p o >>= λ u. opened fd o) s ≡ ok a t
      → IsSound t
  open_new lt a t e = elim (claim_oft-Claimed mode p o s) [
    | inl stops ↦ absurd (fault-ok (rw stops at e))
    | inr (run, procs, runs, at) ↦
        let u = final s (claim_oft mode p o s) in
        opened-IsSound fd o u ((claim_oft-Keeps mode p o lt).at s h tt u run).0
          (record {
            in_range = w.in_range;
            free =
                ap (λ (r : Proc). r.fd fd)
                  (ap (λ (f : ℕ → Proc). f u.running) procs ∙ ap s.proc runs)
                ∙ w.free;
            in_table = w.in_table;
          })
          (λ z. some_pointer p (sym at ∙ z)) a t (rw run at e)
  ]

  open_with-IsSound :
      p < nminodes → (a : ℤ) (t : Sim) → open_with mode p fd o s ≡ ok a t → IsSound t
  unfolding open_with
  open_with-IsSound lt a t e = elim (Bool-cases (ltb 0 mode && ltb 0 (s.oft o).mode)) [
    | inl busy ↦ (refused.at s h a t (rw busy at e)).0
    | inr free ↦
        elim (Bool-cases (ltb 0 (s.oft o).ref_count && ((mode == 0) && ((s.oft o).mode == 0)))) [
          | inl shared ↦
              opened-IsSound fd o s h w (h.backed o (ground arith)) a t (rw (free, shared) at e)
          | inr new ↦ open_new lt a t (rw (free, new) at e)
        ]
  ]
    where
      refused : Keeps Any (finish p failed)
      refused = search (minodes, control) depth 24

-- `open` from the search on, with `b` for a file that is not a regular one.
abbrev open_found : ℕ → ℕ → Bool → Option (ℕ × ℕ) → M ℤ
open_found mode p b free =
    if b
    then finish p failed
    else on_some free (finish p failed) (λ found. open_with mode p found.0 found.1)

open_found-Keeps :
    (mode p ino : ℕ) (b : Bool)
    → p < nminodes
    → Keeps Any (gets (slots ino) >>= λ free. open_found mode p b free)
open_found-Keeps mode p ino true lt = search (minodes, control) depth 24
open_found-Keeps mode p ino false lt = record {
  at = λ s h a t e. (go s h a t (slots ino s) refl e, tt);
}
  where
    go :
        (s : Sim)
        → IsSound s
        → (a : ℤ) (t : Sim) (r : Option (ℕ × ℕ)) → slots ino s ≡ r
        → on_some r (finish p failed) (λ found. open_with mode p found.0 found.1) s ≡ ok a t
        → IsSound t
    go s h a t none f e = (refused.at s h a t e).0
      where
        refused : Keeps Any (finish p failed)
        refused = search (minodes, control) depth 24
    go s h a t (some (fd, o)) f e =
        open_with-IsSound mode p fd o s h (slots-Slotted ino fd o s f) lt a t e

pub file_open-Keeps : (file : Text) (mode : ℕ) → Keeps Any (file_open file mode)
unfolding file_open
file_open-Keeps file mode = Keeps-if (ltb 3 mode) _ _ (Keeps-return failed) (
    Keeps-then _ _ (getino-Keeps file) (λ a. Keeps-if (a.1 == 0) _ _ (Keeps-return failed) (
      Keeps-iget a.0 a.1 _ (λ mip i. Keeps-pointer nminodes mip _ _ i (Keeps-return failed) (λ p lt.
        Keeps-then _ _ (Keeps-read (λ s. s.m_inodes p))
          (λ m. open_found-Keeps mode p a.1 (not (has_type file_type m.inode)) lt))))))
