-- ===== src/Mounts/Quit.antt =====
-- `my_quit` saves the inodes in memory.
use cpts.Base.{
  ℕ, zero, suc, ◌+◌, ◌-◌, ◌≤◌, ◌<◌, ◌≡◌, ◌≢◌, ◌⊎◌, inl, inr, ltb, if◌then◌else◌, arith, refl, ap,
  ◌∙◌, Bool-cases,
}
use native.Mathlib.Decide.{ℕ_discrete}
use cpts.Disk.{Image}
use cpts.Sim.{Sim, Minode, nminodes, update_self, update_ne, update-update}
use cpts.Sim.Monad.{ok}
use cpts.Minodes.{iput}
use cpts.Minodes.Outcome.{saved, closed, with_minode, iput-last}
use cpts.Mounts.{put_all_minodes, my_quit}

-- The image after the dirty ones of `n` minodes in use, from minode `i` on, are saved in order.
unfoldable pub save_all : (ℕ → Minode) → ℕ → ℕ → Image → Image
save_all t zero i img = img
save_all t (suc n) i img =
    save_all t n (i + 1) (if ltb 0 (t i).ref_count then saved ((t i).ino - 1) (t i) img else img)

-- A minode in use has an inode number.
abbrev pub Numbered : (ℕ → Minode) → Type 0
Numbered t = (i : ℕ) → 0 < (t i).ref_count → (t i).ino ≢ 0

-- All minodes from `i` on, `n` of them, are put: they are unused, and the others are the same.
record Put (n i : ℕ) (s s' : Sim) : Type 0 where
  unused : (j : ℕ) → i ≤ j → j < n + i → (s'.m_inodes j).ref_count ≡ 0
  same : (j : ℕ) → (j < i) ⊎ (n + i ≤ j) → s'.m_inodes j ≡ s.m_inodes j
  image : s'.image ≡ save_all s.m_inodes n i s.image
  rest : s' ≡ record s { image = s'.image; m_inodes = s'.m_inodes }

save_all-same :
    (t u : ℕ → Minode) (n i : ℕ) (img : Image)
    → ((j : ℕ) → i ≤ j → t j ≡ u j)
    → save_all t n i img ≡ save_all u n i img
unfolding save_all
save_all-same t u zero i img h = refl
save_all-same t u (suc n) i img h =
    rw (h i (omega arith)) (save_all-same t u n (i + 1) _ (λ j p. h j (omega arith)))

-- `my_quit` on one minode.
abbrev put_one : ℕ → Sim → Sim
put_one i s =
    if ltb 0 (s.m_inodes i).ref_count
    then record (with_minode s i (closed (s.m_inodes i))) {
      image = saved ((s.m_inodes i).ino - 1) (s.m_inodes i) s.image;
    }
    else s

abbrev as_last : Minode → Minode
as_last m = record m { ref_count = 1 }

iput-as_last :
    (i : ℕ) (s : Sim)
    → (s.m_inodes i).ino ≢ 0
    → iput i (with_minode s i (as_last (s.m_inodes i)))
      ≡ ok tt (record (with_minode s i (closed (s.m_inodes i))) {
        image = saved ((s.m_inodes i).ino - 1) (s.m_inodes i) s.image;
      })
iput-as_last i s h =
    iput-last i ((s.m_inodes i).ino - 1) (with_minode s i (as_last (s.m_inodes i)))
      (rw update_self (omega arith)) (rw update_self (omega (arith, h)))
    ∙ rw (update_self, update-update)

put_one-run :
    (n i : ℕ) (s : Sim)
    → Numbered s.m_inodes
    → put_all_minodes (suc n) i s ≡ put_all_minodes n (i + 1) (put_one i s)
unfolding put_all_minodes
put_one-run n i s h = elim (Bool-cases (ltb 0 (s.m_inodes i).ref_count)) [
  | inl used ↦ rw (used, iput-as_last i s (h i (ground arith)))
  | inr free ↦ rw free
]

-- The other minodes are left alone, and minode `i` is unused.
put_one-same : (i : ℕ) (s : Sim) (j : ℕ) → j ≢ i → (put_one i s).m_inodes j ≡ s.m_inodes j
put_one-same i s j ne = elim (Bool-cases (ltb 0 (s.m_inodes i).ref_count)) [
  | inl used ↦ rw used (update_ne s.m_inodes i _ j ne)
  | inr free ↦ rw free
]

put_one-unused : (i : ℕ) (s : Sim) → ((put_one i s).m_inodes i).ref_count ≡ 0
put_one-unused i s = elim (Bool-cases (ltb 0 (s.m_inodes i).ref_count)) [
  | inl used ↦ rw (used, update_self)
  | inr free ↦ rw free (ground arith)
]

put_one-Numbered : (i : ℕ) (s : Sim) → Numbered s.m_inodes → Numbered (put_one i s).m_inodes
put_one-Numbered i s h j live = elim (ℕ_discrete j i) [
  | yes here ↦ absurd (omega (arith, put_one-unused i s, rw here at live))
  | no there ↦ rw (put_one-same i s j there) (h j (rw (put_one-same i s j there) at live))
]

put_one-image :
    (i : ℕ) (s : Sim)
    → (put_one i s).image ≡ (
        if ltb 0 (s.m_inodes i).ref_count
        then saved ((s.m_inodes i).ino - 1) (s.m_inodes i) s.image
        else s.image)
put_one-image i s = elim (Bool-cases (ltb 0 (s.m_inodes i).ref_count)) [
  | inl used ↦ rw used
  | inr free ↦ rw free
]

put_one-rest :
    (i : ℕ) (s : Sim)
    → put_one i s ≡ record s { image = (put_one i s).image; m_inodes = (put_one i s).m_inodes }
put_one-rest i s = elim (Bool-cases (ltb 0 (s.m_inodes i).ref_count)) [
  | inl used ↦ rw used
  | inr free ↦ rw free
]

put_all_minodes-Put :
    (n i : ℕ) (s : Sim)
    → Numbered s.m_inodes
    → (s' : Sim) × (put_all_minodes n i s ≡ ok tt s') × Put n i s s'
unfolding put_all_minodes save_all
put_all_minodes-Put zero i s h = (
  s,
  refl,
  record { unused = λ j p q. absurd (omega arith); same = λ j p. refl; image = refl; rest = refl },
)
put_all_minodes-Put (suc n) i s h =
    let (t, run, put) = put_all_minodes-Put n (i + 1) (put_one i s) (put_one-Numbered i s h) in
    (
      t,
      put_one-run n i s h ∙ run,
      record {
        unused = λ j p q. elim (ℕ_discrete j i) [
          | yes here ↦ rw (put.same j (inl (omega arith)), here) (put_one-unused i s)
          | no there ↦ put.unused j (omega arith) (omega arith)
        ];
        same = λ j p. put.same j (outside j p) ∙ put_one-same i s j (omega (arith, p));
        image =
            put.image
            ∙ save_all-same (put_one i s).m_inodes s.m_inodes n (i + 1) _
                (λ j p. put_one-same i s j (omega arith))
            ∙ ap (save_all s.m_inodes n (i + 1)) (put_one-image i s);
        rest = put.rest ∙ rw (put_one-rest i s);
      },
    )
  where
    outside : (j : ℕ) → (j < i) ⊎ (suc n + i ≤ j) → (j < i + 1) ⊎ (n + (i + 1) ≤ j)
    outside j (inl low) = inl (omega arith)
    outside j (inr high) = inr (omega arith)

-- `my_quit` returns when every minode in use has an inode number: it writes the dirty ones in use
-- to the disk, in the order of the table, leaves every minode unused, and changes nothing but the
-- disk and the minodes.
pub my_quit-save_all :
    (s : Sim)
    → Numbered s.m_inodes
    → (s' : Sim) × (my_quit s ≡ ok tt s')
      × ((s'.image ≡ save_all s.m_inodes nminodes 0 s.image)
          × (((i : ℕ) → i < nminodes → (s'.m_inodes i).ref_count ≡ 0)
              × (s' ≡ record s { image = s'.image; m_inodes = s'.m_inodes })))
unfolding my_quit
my_quit-save_all s h =
    let (t, run, put) = put_all_minodes-Put nminodes 0 s h in
    (t, run, (put.image, (λ i p. put.unused i (omega arith) (omega arith), put.rest)))
