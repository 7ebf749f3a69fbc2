-- ===== src/Paths/Standing.antt =====
-- The steps of the walk along a path: an inode of the disk is held, and nothing else has changed.
use cpts.Base.{ℕ, zero, suc, ◌<◌, ◌≡◌, ◌≢◌, refl, sym, ◌∙◌, ap, Option, some, arith, subst}
use cpts.Text.{Text}
use cpts.Sim.{Sim, Minode, Mount, nmount}
use cpts.Sim.Monad.{ok}
use cpts.Minodes.{load_inode, iget, iput}
use cpts.Minodes.Settled.{
  IsSettled, HasRoom, Restored, Held, iget-Held, Restored-trans, Restored-same, Restored-image,
  Restored-IsSettled, Restored-HasRoom,
}
use cpts.Dir.{search_dir}
use cpts.Paths.Lookup.{disk_inode, disk_minode, search_dir-same}
use cpts.Paths.{dotdot, mount_of, place, go_up, go_down}

-- The root of the device is its own mount point, and has a parent.
pub record HasTop (s : Sim) (dev : ℕ) : Type 0 where
  pub entry : ℕ
  pub top : ℕ
  pub entry_of : mount_of s.mounttab dev nmount 0 ≡ some entry
  pub mounted : (s.mounttab entry).mounted_inode ≡ some top
  pub live : 0 < (s.m_inodes top).ref_count
  pub dev_of : (s.m_inodes top).dev ≡ dev
  pub ino_of : (s.m_inodes top).ino ≡ 2
  pub parent : search_dir s.image (disk_minode s.image dev 2) dotdot ≢ 0

-- What the walk goes on with: an inode of the disk that is held by `iget` from a settled state.
pub record Standing (s : Sim) (dev ino : ℕ) (q : ℕ) (v : Sim) : Type 0 where
  pub before : Sim
  pub number : ℕ
  pub restored : Restored s before
  pub is_number : ino ≡ suc number
  pub held : Held before dev number q v

-- The inode that is stood on, and its directory.
pub Standing-inode :
    (s : Sim) (dev ino q : ℕ) (v : Sim)
    → Standing s dev ino q v
    → (v.m_inodes q).inode ≡ disk_inode s.image dev ino
Standing-inode s dev ino q v w =
    rw (w.held.inode, w.is_number, Restored-image s w.before w.restored)
      (ap (λ n. load_inode s.image dev n) (omega arith))

Standing-image : (s : Sim) (dev ino q : ℕ) (v : Sim) → Standing s dev ino q v → v.image ≡ s.image
Standing-image s dev ino q v w =
    ap (λ (x : Sim). x.image) w.held.rest ∙ Restored-image s w.before w.restored

pub Standing-search :
    (s : Sim) (dev ino q : ℕ) (v : Sim) (t : Text)
    → Standing s dev ino q v
    → search_dir v.image (v.m_inodes q) t ≡ search_dir s.image (disk_minode s.image dev ino) t
Standing-search s dev ino q v t w = rw (Standing-image s dev ino q v w) (
    search_dir-same s.image (v.m_inodes q) (disk_minode s.image dev ino) t w.held.dev_of
      (Standing-inode s dev ino q v w))

-- One more step from a state that is restored.
pub stand :
    (s t : Sim) (dev ino : ℕ)
    → IsSettled s
    → HasRoom s
    → Restored s t
    → ino ≢ 0
    → (q : ℕ) × (v : Sim) × (iget dev ino t ≡ ok (some q) v) × Standing s dev ino q v
stand s t dev zero h room r some_ino = absurd (some_ino refl)
stand s t dev (suc n) h room r some_ino =
    let (q, v, held) =
      iget-Held t (Restored-IsSettled s t r h) (Restored-HasRoom s t r room) dev n in
    (q, v, held.got, record { before = t; number = n; restored = r; is_number = refl; held = held })

Standing-mounttab :
    (s : Sim) (dev ino q : ℕ) (v : Sim) → Standing s dev ino q v → v.mounttab ≡ s.mounttab
Standing-mounttab s dev ino q v w =
    ap (λ (x : Sim). x.mounttab) w.held.rest ∙ ap (λ (x : Sim). x.mounttab) w.restored.rest

-- The steps of `go_up`, one after the other.
go_up-run :
    (q i top r : ℕ) (mip : Option ℕ) (v t u t' x : Sim)
    → mount_of v.mounttab (v.m_inodes q).dev nmount 0 ≡ some i
    → (v.mounttab i).mounted_inode ≡ some top
    → iput q v ≡ ok tt t
    → iget (t.m_inodes top).dev (t.m_inodes top).ino t ≡ ok (some r) u
    → iput r u ≡ ok tt t'
    → iget (u.m_inodes r).dev (search_dir u.image (u.m_inodes r) dotdot) t' ≡ ok mip x
    → go_up q v ≡ ok (place (u.m_inodes r).dev (search_dir u.image (u.m_inodes r) dotdot) mip) x
unfolding go_up
go_up-run q i top r mip v t u t' x a b c d e f = rw (a, b, c, d, e, f) refl

module _ (s : Sim) (h : IsSettled s) (room : HasRoom s) (dev : ℕ) where
  -- Where the pointer is put, the state is restored.
  pub Standing-put :
      (ino q : ℕ) (v : Sim)
      → Standing s dev ino q v
      → (t : Sim) × (iput q v ≡ ok tt t) × Restored s t
  Standing-put ino q v w =
      (w.held.after, w.held.put, Restored-trans s w.before w.held.after w.restored w.held.restored)

  pub go_down-Standing :
      (ino q c : ℕ) (v : Sim)
      → Standing s dev ino q v
      → c ≢ 0
      → (r : ℕ) × (u : Sim) × (go_down q dev c v ≡ ok (place dev c (some r)) u)
        × Standing s dev c r u
  unfolding go_down
  go_down-Standing ino q c v w some_child =
      let (t, puts, restored) = Standing-put ino q v w in
      let (r, u, gets_it, there) = stand s t dev c h room restored some_child in
      (r, u, rw (puts, gets_it, there.held.unmounted) refl, there)

  -- ".." at the root of the device leads to the parent that the root directory names.
  pub go_up-Standing :
      (q : ℕ) (v : Sim)
      → Standing s dev 2 q v
      → HasTop s dev
      → (r : ℕ) × (u : Sim) × (go_up q v
          ≡ ok (place dev (search_dir s.image (disk_minode s.image dev 2) dotdot) (some r)) u)
        × Standing s dev (search_dir s.image (disk_minode s.image dev 2) dotdot) r u
  go_up-Standing q v w top =
      let (t, puts, restored) = Standing-put 2 q v w in
      let same = Restored-same s t top.top restored top.live in
      let (r, u, gets_top, at_top) = stand s t dev 2 h room restored (λ e. omega (arith, e)) in
      let (t', puts_top, restored') = Standing-put 2 r u at_top in
      let (c, x, gets_child, there) = stand s t' dev parent h room restored' top.parent in
      (
        c,
        x,
        go_up-run q top.entry top.top r (some c) v t u t' x
              (rw w.held.dev_of (
                subst (λ (m : ℕ → Mount). mount_of m dev nmount 0 ≡ some top.entry) (sym table)
                  top.entry_of))
              (subst (λ (m : ℕ → Mount). (m top.entry).mounted_inode ≡ some top.top) (sym table)
                top.mounted)
              puts (top_is t same ∙ gets_top) puts_top
              (ap (λ (d : ℕ). iget d (search_dir u.image (u.m_inodes r) dotdot) t')
                  at_top.held.dev_of
                ∙ ap (λ (n : ℕ). iget dev n t') (Standing-search s dev 2 r u dotdot at_top)
                ∙ gets_child)
            ∙ ap (λ (d : ℕ). ok (place d (search_dir u.image (u.m_inodes r) dotdot) (some c)) x)
                at_top.held.dev_of
            ∙ ap (λ (n : ℕ). ok (place dev n (some c)) x)
                (Standing-search s dev 2 r u dotdot at_top),
        there,
      )
    where
      table : v.mounttab ≡ s.mounttab
      table = Standing-mounttab s dev 2 q v w

      top_is :
          (t : Sim)
          → t.m_inodes top.top ≡ s.m_inodes top.top
          → iget (t.m_inodes top.top).dev (t.m_inodes top.top).ino t ≡ iget dev 2 t
      top_is t same =
          ap (λ (m : Minode). iget m.dev m.ino t) same
          ∙ ap (λ (d : ℕ). iget d (s.m_inodes top.top).ino t) top.dev_of
          ∙ ap (λ (n : ℕ). iget dev n t) top.ino_of

      parent : ℕ
      parent = search_dir s.image (disk_minode s.image dev 2) dotdot
