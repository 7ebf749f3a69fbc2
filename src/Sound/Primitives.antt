-- ===== src/Sound/Primitives.antt =====
-- The changes and the reads of the state keep the state sound.
use native.Mathlib.Decide.{ℕ_discrete}
use cpts.Base.{
  arith, ◌+◌, sym, ◌∙◌, ◌≢◌, ℕ, zero, suc, ◌<◌, ◌≡◌, ◌⊎◌, inl, inr, Bool, true, false, Option, none,
  some, refl, subst, ◌==◌, Bool-cases,
}
use cpts.Disk.{Image}
use cpts.Sim.{
  Sim, Minode, Oft, Proc, Mount, nminodes, nmount, nproc, noft, update, update_self, update_ne,
}
use cpts.Sim.Monad.{ok-value, ok, on_image, set_image, set_minode, set_oft, set_proc, set_mount}
use cpts.Sound.{InTable, AreDistinct, IsSound}
use cpts.Sound.Counts.{open_fds-kept}
use cpts.Sound.Rules.{Keeps, Any}

-- A command that changes the state, and returns nothing.
pub Keeps-change :
    (f : Sim → Sim) → ((s : Sim) → IsSound s → IsSound (f s)) → Keeps Any (λ s. ok tt (f s))
Keeps-change f k = record {
  at = λ s h a t e. let v = ok-value tt a (f s) t e in (subst IsSound v.1 (k s h), tt);
}

pub Keeps-set_image : (f : Image → Image) → Keeps Any (set_image f)
Keeps-set_image f =
    Keeps-change (λ s. record s { image = f s.image })
      (λ s h. record {
        descriptors = h.descriptors;
        directories = h.directories;
        files = h.files;
        mount_points = h.mount_points;
        mounts = h.mounts;
        top = h.top;
        running = h.running;
        distinct = h.distinct;
        reset = h.reset;
        counted = h.counted;
        backed = h.backed;
      })

pub Keeps-on_image : {A : Type 0} (f : Image → A × Image) → Keeps Any (on_image f)
Keeps-on_image f = record {
  at = λ s h a t e.
      let v = ok-value (f s.image).0 a (record s { image = (f s.image).1 }) t e in
      let k = (Keeps-set_image (λ img. (f img).1)).at s h tt _ refl in (subst IsSound v.1 k.0, tt);
}

-- The element of a table after an assignment.
pub update-all :
    {A : Type 0} (P : A → Type 0) (t : ℕ → A) (i : ℕ) (v : A)
    → ((j : ℕ) → P (t j))
    → P v
    → (j : ℕ) → P (update t i v j)
unfolding update
update-all P t i v h hv j = elim (Bool-cases (j == i)) [ inl e ↦ rw e hv | inr e ↦ rw e (h j) ]

-- The same inode number of the same device, and a reference at least if there was one.
abbrev pub SameInode : Minode → Minode → Type 0
SameInode m m' = (m'.dev ≡ m.dev) × (m'.ino ≡ m.ino) × (m'.ref_count ≡ 0 → m.ref_count ≡ 0)

update-AreDistinct :
    (t : ℕ → Minode) (p : ℕ) (m : Minode)
    → AreDistinct t
    → m.dev ≡ (t p).dev
    → m.ino ≡ (t p).ino
    → AreDistinct (update t p m)
update-AreDistinct t p m d ed ei i j hi hj live sd si =
    d i j hi hj (λ z. live ((id_at i).1 ∙ z)) (sym ((id_at i).0) ∙ sd ∙ (id_at j).0)
      (sym ((id_at i).1) ∙ si ∙ (id_at j).1)
  where
    id_at : (k : ℕ) → ((update t p m k).dev ≡ (t k).dev) × ((update t p m k).ino ≡ (t k).ino)
    id_at k = elim (ℕ_discrete k p) [
      | yes here ↦ rw (here, update_self) (ed, ei)
      | no there ↦ rw (update_ne t p m k there) (refl, refl)
    ]

-- A sound state with another minode in place of one, for the same inode.
pub with_minode-IsSound :
    (s : Sim) (p : ℕ) (m : Minode)
    → IsSound s
    → InTable nmount m.mountptr
    → SameInode (s.m_inodes p) m
    → IsSound (record s { m_inodes = update s.m_inodes p m })
with_minode-IsSound s p m h i same = record {
  descriptors = h.descriptors;
  directories = h.directories;
  files = h.files;
  mount_points = h.mount_points;
  mounts = update-all (λ (m : Minode). InTable nmount m.mountptr) s.m_inodes p m h.mounts i;
  top = h.top;
  running = h.running;
  distinct = update-AreDistinct s.m_inodes p m h.distinct same.0 same.1;
  reset =
      update-all (λ (m : Minode). m.ref_count ≡ 0 → m.ino ≡ 0) s.m_inodes p m h.reset
        (λ z. same.1 ∙ h.reset p (same.2 z));
  counted = h.counted;
  backed = h.backed;
}

pub Keeps-set_minode :
    (p : ℕ) (f : Minode → Minode)
    → ((m : Minode) → InTable nmount m.mountptr → InTable nmount (f m).mountptr)
    → ((m : Minode) → (f m).dev ≡ m.dev)
    → ((m : Minode) → (f m).ino ≡ m.ino)
    → ((m : Minode) → (f m).ref_count ≡ 0 → m.ref_count ≡ 0)
    → Keeps Any (set_minode p f)
Keeps-set_minode p f k kd ki kr =
    Keeps-change (λ s. record s { m_inodes = update s.m_inodes p (f (s.m_inodes p)) })
      (λ s h.
        let m = s.m_inodes p in
        with_minode-IsSound s p (f m) h (k m (h.mounts p)) (kd m, ki m, kr m))

-- One more reference.
pub Keeps-referenced :
    (p : ℕ) → Keeps Any (set_minode p (λ m. record m { ref_count = m.ref_count + 1 }))
Keeps-referenced p =
    Keeps-set_minode p (λ m. record m { ref_count = m.ref_count + 1 }) (λ m i. i) (λ m. refl)
      (λ m. refl) (λ m z. absurd (omega (arith, z)))

-- Another entry with the same number of references.
oft-counts :
    (t : ℕ → Oft) (o j : ℕ) (e : Oft)
    → e.ref_count ≡ (t o).ref_count
    → (update t o e j).ref_count ≡ (t j).ref_count
oft-counts t o j e same = elim (ℕ_discrete j o) [
  | yes here ↦ rw (here, update_self) same
  | no there ↦ rw (update_ne t o e j there) refl
]

abbrev pub IsBacked : Oft → Type 0
IsBacked e = 0 < e.ref_count → e.inodeptr ≢ none

-- A sound state with another entry in place of one, with the same number of references.
pub with_oft-IsSound :
    (s : Sim) (o : ℕ) (e : Oft)
    → IsSound s
    → InTable nminodes e.inodeptr
    → e.ref_count ≡ (s.oft o).ref_count
    → IsBacked e
    → IsSound (record s { oft = update s.oft o e })
with_oft-IsSound s o e h i same b = record {
  descriptors = h.descriptors;
  directories = h.directories;
  files = update-all (λ (e : Oft). InTable nminodes e.inodeptr) s.oft o e h.files i;
  mount_points = h.mount_points;
  mounts = h.mounts;
  top = h.top;
  running = h.running;
  distinct = h.distinct;
  reset = h.reset;
  counted = λ j. oft-counts s.oft o j e same ∙ h.counted j;
  backed = update-all IsBacked s.oft o e h.backed b;
}

-- A change of an entry that keeps its references, and its minode if it has one.
pub Keeps-set_oft :
    (o : ℕ) (f : Oft → Oft)
    → ((e : Oft) → InTable nminodes e.inodeptr → InTable nminodes (f e).inodeptr)
    → ((e : Oft) → (f e).ref_count ≡ e.ref_count)
    → ((e : Oft) → e.inodeptr ≢ none → (f e).inodeptr ≢ none)
    → Keeps Any (set_oft o f)
Keeps-set_oft o f k same some_minode =
    Keeps-change (λ s. record s { oft = update s.oft o (f (s.oft o)) })
      (λ s h.
        let e = s.oft o in
        with_oft-IsSound s o (f e) h (k e (h.files o)) (same e)
          (λ live. some_minode e (h.backed o (rw (same e) at live))))

abbrev pub ProcInTable : Proc → Type 0
ProcInTable r = ((k : ℕ) → InTable noft (r.fd k)) × InTable nminodes r.cwd

pub Keeps-set_proc :
    (i : ℕ) (f : Proc → Proc)
    → ((r : Proc) → ProcInTable r → ProcInTable (f r))
    → ((r : Proc) → (f r).fd ≡ r.fd)
    → Keeps Any (set_proc i f)
Keeps-set_proc i f k same =
    Keeps-change (λ s. record s { proc = update s.proc i (f (s.proc i)) })
      (λ s h.
        let all =
          update-all ProcInTable s.proc i (f (s.proc i)) (λ j. (h.descriptors j, h.directories j))
            (k (s.proc i) (h.descriptors i, h.directories i)) in
        record {
          descriptors = λ j. (all j).0;
          directories = λ j. (all j).1;
          files = h.files;
          mount_points = h.mount_points;
          mounts = h.mounts;
          top = h.top;
          running = h.running;
          distinct = h.distinct;
          reset = h.reset;
          counted = λ o.
              h.counted o ∙ sym (open_fds-kept o s.proc nproc i (f (s.proc i)) (same (s.proc i)));
          backed = h.backed;
        })

pub Keeps-set_mount :
    (i : ℕ) (f : Mount → Mount)
    → ((e : Mount) → InTable nminodes e.mounted_inode → InTable nminodes (f e).mounted_inode)
    → Keeps Any (set_mount i f)
Keeps-set_mount i f k =
    Keeps-change (λ s. record s { mounttab = update s.mounttab i (f (s.mounttab i)) })
      (λ s h. record {
        descriptors = h.descriptors;
        directories = h.directories;
        files = h.files;
        mount_points =
            update-all (λ (e : Mount). InTable nminodes e.mounted_inode) s.mounttab i
              (f (s.mounttab i)) h.mount_points (k (s.mounttab i) (h.mount_points i));
        mounts = h.mounts;
        top = h.top;
        running = h.running;
        distinct = h.distinct;
        reset = h.reset;
        counted = h.counted;
        backed = h.backed;
      })

pub ruleset writes = (
  refl, Keeps-referenced, Keeps-set_image, Keeps-on_image, Keeps-set_minode, Keeps-set_oft,
  Keeps-set_proc, Keeps-set_mount,
)
