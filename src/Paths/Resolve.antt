-- ===== src/Paths/Resolve.antt =====
-- `getino` is the look-up of a path on the disk, on one device with nothing mounted below it.
use cpts.Base.{
  ℕ, ◌<◌, ◌≡◌, ◌≢◌, inl, inr, refl, sym, ◌∙◌, ap, true, false, Bool-cases, ◌&&◌, ◌==◌, some, List,
  [], ◌∷◌, arith, subst, if◌then◌else◌,
}
use cpts.Bytes.{Buf}
use cpts.Text.{Text, same_text}
use cpts.Sim.{Sim, nminodes}
use cpts.Sim.Monad.{Run, ok}
use cpts.Minodes.{iget, iput}
use cpts.Minodes.Inode.{has_type, dir_type}
use cpts.Minodes.Settled.{IsSettled, HasRoom, Restored, Restored-refl}
use cpts.Dir.{search_dir}
use cpts.Paths.Lookup.{disk_inode, disk_minode, lookup, same_text-eq, lookup-file, lookup-dir}
use cpts.Paths.Standing.{
  HasTop, Standing, Standing-inode, Standing-search, stand, Standing-put, go_down-Standing,
  go_up-Standing,
}
use cpts.Paths.{
  dotdot, slash, running_proc, tokenize, Place, place, go_up, go_down, walk, start_of, getino_at,
  getino,
}

-- The branches of the loop of `getino`.
module _ (ts : List Text) (t : Text) (dev ino q : ℕ) (v : Sim) where
  walk-file :
      has_type dir_type (v.m_inodes q).inode ≡ false
      → walk (t ∷ ts) (place dev ino (some q)) v ≡ ok (place dev ino (some q)) v
  unfolding walk
  walk-file file = rw file refl

  module _ (dir : has_type dir_type (v.m_inodes q).inode ≡ true) where
    walk-up :
        (u : Sim) (here : Place)
        → (((v.m_inodes q).ino == 2) && same_text t dotdot) ≡ true
        → go_up q v ≡ ok here u
        → walk (t ∷ ts) (place dev ino (some q)) v ≡ walk ts here u
    unfolding walk
    walk-up u here up e = rw (dir, up, e) refl

    walk-none :
        (((v.m_inodes q).ino == 2) && same_text t dotdot) ≡ false
        → search_dir v.image (v.m_inodes q) t ≡ 0
        → walk (t ∷ ts) (place dev ino (some q)) v ≡ ok (place dev 0 (some q)) v
    unfolding walk
    walk-none down e = rw (dir, down, e) refl

    walk-down :
        (u : Sim) (here : Place) (c : ℕ)
        → (((v.m_inodes q).ino == 2) && same_text t dotdot) ≡ false
        → search_dir v.image (v.m_inodes q) t ≡ c
        → (c == 0) ≡ false
        → go_down q dev c v ≡ ok here u
        → walk (t ∷ ts) (place dev ino (some q)) v ≡ walk ts here u
    unfolding walk
    walk-down u here c down e some_child goes = rw (dir, down, e, some_child, goes) refl

module _ (s : Sim) (h : IsSettled s) (room : HasRoom s) (dev : ℕ) where
  -- A run of the walk ends at inode `n`, with a pointer that an `iput` releases.
  abbrev Arrives : Run Place → ℕ → Type 0
  Arrives run n =
      (r : ℕ) × (u t : Sim) × (run ≡ ok (place dev n (some r)) u)
      × (iput r u ≡ ok tt t)
      × Restored s t

  Arrives-same :
      (run run' : Run Place) (n n' : ℕ) → run ≡ run' → n ≡ n' → Arrives run' n' → Arrives run n
  Arrives-same run run' n n' e f (r, u, t, g, puts, restored) =
      (r, u, t, e ∙ g ∙ ap (λ (k : ℕ). ok (place dev k (some r)) u) (sym f), puts, restored)

  here-Arrives :
      (n ino q : ℕ) (v : Sim) → Standing s dev ino q v → Arrives (ok (place dev n (some q)) v) n
  here-Arrives n ino q v w =
      let (t, puts, restored) = Standing-put s h room dev ino q v w in
      (q, v, t, refl, puts, restored)

  walk-lookup :
      (ts : List Text) (ino q : ℕ) (v : Sim)
      → Standing s dev ino q v
      → HasTop s dev
      → Arrives (walk ts (place dev ino (some q)) v) (lookup s.image dev ts ino)
  walk-lookup [] ino q v w top =
      Arrives-same _ (ok (place dev ino (some q)) v) _ ino (unfold walk in refl)
        (unfold lookup in refl) (here-Arrives ino ino q v w)
  walk-lookup (t ∷ ts) ino q v w top =
      elim (Bool-cases (has_type dir_type (disk_inode s.image dev ino))) [
        | inr file ↦
            Arrives-same _ _ _ ino (walk-file ts t dev ino q v (is_dir ∙ file))
              (lookup-file s.image dev t ts ino file) (here-Arrives ino ino q v w)
        | inl dir ↦ elim (Bool-cases (((v.m_inodes q).ino == 2) && same_text t dotdot)) [
          | inl up ↦
              let at_root : ino ≡ 2 = ground (arith, w.is_number, w.held.ino_of) in
              let is_up : t ≡ dotdot = same_text-eq t dotdot (ground arith) in
              let (r, u, goes, there) =
                go_up-Standing s h room dev q v (subst (λ (n : ℕ). Standing s dev n q v) at_root w)
                  top in
              Arrives-same _ _ _ _ (walk-up ts t dev ino q v (is_dir ∙ dir) u _ up goes)
                (lookup-dir s.image dev t ts ino parent dir (
                    ap (λ (n : ℕ). search_dir s.image (disk_minode s.image dev n) t) at_root
                    ∙ ap (λ (x : Text). search_dir s.image (disk_minode s.image dev 2) x) is_up)
                  ∙ on_child ts parent top.parent)
                (walk-lookup ts parent r u there top)
          | inr down ↦ elim (Bool-cases (child == 0)) [
            | inl none_there ↦
                let z : child ≡ 0 = ground arith in
                Arrives-same _ _ _ 0
                  (walk-none ts t dev ino q v (is_dir ∙ dir) down (found_child ∙ z))
                  (lookup-dir s.image dev t ts ino 0 dir z) (here-Arrives 0 ino q v w)
            | inr some_there ↦
                let some_child : child ≢ 0 = ground arith in
                let (r, u, goes, there) =
                  go_down-Standing s h room dev ino q child v w some_child in
                Arrives-same _ _ _ _
                  (walk-down ts t dev ino q v (is_dir ∙ dir) u _ child down found_child some_there
                    goes)
                  (lookup-dir s.image dev t ts ino child dir refl ∙ on_child ts child some_child)
                  (walk-lookup ts child r u there top)
          ]
        ]
      ]
    where
      is_dir :
          has_type dir_type (v.m_inodes q).inode ≡ has_type dir_type (disk_inode s.image dev ino)
      is_dir = ap (λ (b : Buf). has_type dir_type b) (Standing-inode s dev ino q v w)

      child : ℕ
      child = search_dir s.image (disk_minode s.image dev ino) t

      parent : ℕ
      parent = search_dir s.image (disk_minode s.image dev 2) dotdot

      found_child : search_dir v.image (v.m_inodes q) t ≡ child
      found_child = Standing-search s dev ino q v t w

      on_child :
          (ts : List Text) (c : ℕ)
          → c ≢ 0
          → (if c == 0 then 0 else lookup s.image dev ts c) ≡ lookup s.image dev ts c
      on_child ts c ne = let e : (c == 0) ≡ false = ground arith in rw e refl

-- Where a path starts: at a minode in use.
pub record StartsAt (s : Sim) (name : Text) (p : ℕ) : Type 0 where
  pub cwd : ℕ
  pub has_cwd : (running_proc s).cwd ≡ some cwd
  pub start : start_of name s ≡ some p
  pub in_table : p < nminodes
  pub live : 0 < (s.m_inodes p).ref_count

-- The number that a path leads to on the disk.
abbrev pub path_ino : Sim → ℕ → Text → ℕ
path_ino s p name = lookup s.image (s.m_inodes p).dev (tokenize name slash) (s.m_inodes p).ino

getino-run :
    (s u v t : Sim) (name : Text) (p c q : ℕ) (end : Place) (r : ℕ)
    → (running_proc s).cwd ≡ some c
    → start_of name s ≡ some p
    → iget (s.m_inodes p).dev (s.m_inodes p).ino s ≡ ok (some q) u
    → walk (tokenize name slash) (place (s.m_inodes p).dev (s.m_inodes p).ino (some q)) u ≡ ok end v
    → end.mip ≡ some r
    → iput r v ≡ ok tt t
    → getino name s ≡ ok (end.dev, end.ino) t
unfolding getino getino_at
getino-run s u v t name p c q end r a b d w e i = rw (a, b, d, w, e, i) refl

-- `getino` on a device whose root is mounted and has an entry "..", with nothing mounted below it,
-- when no inode in memory has changed since it was read, a minode is unused, and the process has a
-- working directory and the minode at which the path starts is in use: it returns, and its result is
-- the look-up of the path on the disk, name by name, from the root for a path that starts with a slash
-- and from the working directory for another: a name that is not there gives 0, what is not a
-- directory ends the path at its own number, and ".." at the root is the entry ".." of the root
-- directory. Every minode in use is as it was, no minode has come into use, and the rest of the state
-- is the same.
pub getino-lookup :
    (s : Sim) (name : Text) (p : ℕ)
    → IsSettled s
    → HasRoom s
    → StartsAt s name p
    → HasTop s (s.m_inodes p).dev
    → (t : Sim) × (getino name s ≡ ok ((s.m_inodes p).dev, path_ino s p name) t) × Restored s t
getino-lookup s name p h room from top =
    let (q, u, gets_it, there) =
      stand s s dev (s.m_inodes p).ino h room (Restored-refl s)
        (h.number p from.in_table from.live) in
    let (r, v, t, walks, puts, restored) =
      walk-lookup s h room dev (tokenize name slash) (s.m_inodes p).ino q u there top in
    (
      t,
      getino-run s u v t name p from.cwd q _ r from.has_cwd from.start gets_it walks refl puts,
      restored,
    )
  where
    dev : ℕ
    dev = (s.m_inodes p).dev
