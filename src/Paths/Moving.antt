-- ===== src/Paths/Moving.antt =====
-- The steps of `cd`: the old working directory is put while the new one is held.
use cpts.Base.{
  subst, ℕ, ◌<◌, ◌≡◌, ◌≢◌, inl, inr, refl, sym, ◌∙◌, ap, true, false, Bool-cases, ltb, ◌==◌, some,
  arith, if◌then◌else◌,
}
use native.Mathlib.Decide.{ℕ_discrete}
use cpts.Text.{Text}
use cpts.Sim.{Sim, Minode, Proc, nminodes, update, update_self, update_ne}
use cpts.Sim.Monad.{ok}
use cpts.Minodes.{iget, iput}
use cpts.Minodes.Inode.{has_type, dir_type}
use cpts.Minodes.Outcome.{with_minode, counted, closed, iput-shared, iput-clean}
use cpts.Minodes.Settled.{IsSettled, Restored-same, Restored-IsSettled}
use cpts.Disk.{Image}
use cpts.Minodes.Settles.{
  Settles, unused-Settles, Settles-IsSettled, IsSettled-Settles, Held-Settles,
}
use cpts.Paths.{running_proc, getino, set_cwd, cd_to, shell_cd}
use cpts.Paths.Lookup.{disk_inode}
use cpts.Paths.Standing.{Standing, Standing-inode}

-- A minode that has not changed, after an `iput`.
abbrev pub put_down : Minode → Minode
put_down m = if ltb 1 m.ref_count then counted m else closed m

pub iput-put_down :
    (k : ℕ) (s : Sim)
    → (s.m_inodes k).dirty ≡ false
    → iput k s ≡ ok tt (with_minode s k (put_down (s.m_inodes k)))
iput-put_down k s clean = elim (Bool-cases (ltb 1 (s.m_inodes k).ref_count)) [
  | inl more ↦ rw more (iput-shared k s (ground arith))
  | inr last ↦ rw last (iput-clean k s (ground arith) clean)
]

put_down-Settles : (img : Image) (m : Minode) → Settles img m → Settles img (put_down m)
put_down-Settles img m (clean, number, current, unmounted) = elim (Bool-cases (ltb 1 m.ref_count)) [
  | inl more ↦
      let live : 0 < m.ref_count = ground arith in
      rw more (clean, (λ l. number live), (λ n l i. current n live i), (λ l. unmounted live))
  | inr last ↦ rw last (unused-Settles img (closed m) refl refl)
]

-- The steps of `cd`.
abbrev pub moved : Sim → ℕ → Sim
moved x q = record x { proc = update x.proc x.running (record (running_proc x) { cwd = some q }) }

module _ (path : Text) (s t : Sim) (dev ino : ℕ) (run : getino path s ≡ ok (dev, ino) t) where
  pub cd-nowhere : ino ≡ 0 → shell_cd (some path) s ≡ ok tt t
  unfolding shell_cd
  cd-nowhere z = let e : (ino == 0) ≡ true = ground arith in rw (run, e) refl

  module _ (q : ℕ) (v : Sim) (some_ino : ino ≢ 0) (gets_it : iget dev ino t ≡ ok (some q) v) where
    pub cd-file :
        (x : Sim)
        → has_type dir_type (v.m_inodes q).inode ≡ false
        → iput q v ≡ ok tt x
        → shell_cd (some path) s ≡ ok tt x
    unfolding shell_cd
    cd-file x file puts =
        let e : (ino == 0) ≡ false = ground arith in rw (run, e, gets_it, file, puts) refl

    pub cd-dir :
        (x : Sim) (c : ℕ)
        → has_type dir_type (v.m_inodes q).inode ≡ true
        → (running_proc v).cwd ≡ some c
        → iput c v ≡ ok tt x
        → shell_cd (some path) s ≡ ok tt (moved x q)
    unfolding shell_cd cd_to set_cwd
    cd-dir x c dir at puts =
        let e : (ino == 0) ≡ false = ground arith in rw (run, e, gets_it, dir, at, puts) refl

-- The working directory of the running process is in minode `q`, which has inode `ino` of the
-- device as the disk has it; no inode in memory has changed since it was read; the image, the mounts, the open files and the descriptors are as
-- they were.
pub record MovedTo (s : Sim) (dev ino : ℕ) (q : ℕ) (t : Sim) : Type 0 where
  pub cwd : (running_proc t).cwd ≡ some q
  pub in_table : q < nminodes
  pub live : 0 < (t.m_inodes q).ref_count
  pub dev_of : (t.m_inodes q).dev ≡ dev
  pub ino_of : (t.m_inodes q).ino ≡ ino
  pub inode : (t.m_inodes q).inode ≡ disk_inode s.image dev ino
  pub settled : IsSettled t
  pub rest : t ≡ record s {
    m_inodes = t.m_inodes;
    proc = update s.proc s.running (record (running_proc s) { cwd = some q });
  }

module _ (s : Sim) (dev ino q c : ℕ) (v : Sim) (h : IsSettled s) (w : Standing s dev ino q v)
    (lt : c < nminodes) (live : 0 < (s.m_inodes c).ref_count) where
  pub Standing-rest : v ≡ record s { m_inodes = v.m_inodes }
  Standing-rest = w.held.rest ∙ ap (λ (x : Sim). record x { m_inodes = v.m_inodes }) w.restored.rest

  -- The working directory's minode while the new one is held.
  old-others : c ≢ q → v.m_inodes c ≡ s.m_inodes c
  old-others ne = w.held.others c ne ∙ Restored-same s w.before c w.restored live

  pub old-clean : (v.m_inodes c).dirty ≡ false
  old-clean = elim (ℕ_discrete c q) [
    | yes same ↦ rw same w.held.clean
    | no ne ↦ ap (λ (m : Minode). m.dirty) (old-others ne) ∙ h.clean c lt
  ]

  abbrev pub put : Sim
  put = with_minode v c (put_down (v.m_inodes c))

  -- What it leaves of the new one, also where they are the same.
  Holds : Minode → Type 0
  Holds m =
      (0 < m.ref_count) × (m.dev ≡ dev) × (m.ino ≡ ino) × (m.inode ≡ disk_inode s.image dev ino)

  held-Holds : Holds (v.m_inodes q)
  unfolding Holds
  held-Holds =
      let more = w.held.one_more in
      (
        omega (arith, more),
        w.held.dev_of,
        w.held.ino_of ∙ sym w.is_number,
        Standing-inode s dev ino q v w,
      )

  put_down-Holds : (m : Minode) → 1 < m.ref_count → Holds m → Holds (put_down m)
  unfolding Holds
  put_down-Holds m more (one, d, i, b) =
      let e : ltb 1 m.ref_count ≡ true = ground arith in rw e (omega (arith, more), d, i, b)

  put-Holds : Holds (put.m_inodes q)
  put-Holds = elim (ℕ_discrete q c) [
    | yes same ↦ rw (sym same, update_self) (put_down-Holds (v.m_inodes q) (twice same) held-Holds)
    | no ne ↦ rw (update_ne v.m_inodes c _ q ne) held-Holds
  ]
    where
      twice : q ≡ c → 1 < (v.m_inodes q).ref_count
      twice same =
          let old : w.before.m_inodes c ≡ s.m_inodes c =
            Restored-same s w.before c w.restored live in
          let count : (w.before.m_inodes q).ref_count ≡ (s.m_inodes c).ref_count =
            ap (λ (k : ℕ). (w.before.m_inodes k).ref_count) same
            ∙ ap (λ (m : Minode). m.ref_count) old in
          let more = w.held.one_more in omega (arith, count, more, live)

  put-IsSettled : IsSettled put
  put-IsSettled = Settles-IsSettled put λ k below. (elim (ℕ_discrete k c) [
    | yes here ↦
        subst (Settles v.image) (sym (ap put.m_inodes here ∙ update_self v.m_inodes c _))
          (put_down-Settles v.image (v.m_inodes c) (held_settled c lt))
    | no there ↦
        subst (Settles v.image) (sym (update_ne v.m_inodes c _ k there)) (held_settled k below)
  ])
    where
      held_settled : (k : ℕ) → k < nminodes → Settles v.image (v.m_inodes k)
      held_settled =
          Held-Settles w.before dev w.number q v (Restored-IsSettled s w.before w.restored h) w.held

  pub moved-MovedTo : MovedTo s dev ino q (moved put q)
  unfolding Holds
  moved-MovedTo =
      let (one, d, i, b) = put-Holds in
      record {
        cwd = ap (λ (r : Proc). r.cwd) (update_self put.proc put.running _);
        in_table = w.held.in_table;
        live = one;
        dev_of = d;
        ino_of = i;
        inode = b;
        settled = Settles-IsSettled (moved put q) (IsSettled-Settles put put-IsSettled);
        rest = ap (λ (x : Sim). moved (with_minode x c (put_down (v.m_inodes c))) q) Standing-rest;
      }
