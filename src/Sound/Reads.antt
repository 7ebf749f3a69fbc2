-- ===== src/Sound/Reads.antt =====
-- What is read from a sound state: pointers into their tables.
use cpts.Base.{ℕ, ◌<◌, Option, none, some}
use cpts.Sim.{Sim, Minode, Oft, Mount, nminodes, nmount}
use cpts.Sim.Monad.{M, ◌>>=◌, gets, deref}
use cpts.Sound.{InTable, IsSound}
use cpts.Sound.Rules.{Keeps, Keeps-gets, Keeps-bind, Keeps-deref}

module _ {B : Type 0} {R : B → Type 0} where
  -- What is read from a table has its pointers in their tables.
  pub Keeps-minode :
      (p : ℕ) (f : Minode → M B)
      → ((m : Minode) → InTable nmount m.mountptr → Keeps R (f m))
      → Keeps R (gets (λ s. s.m_inodes p) >>= f)
  Keeps-minode p f k =
      Keeps-bind _ f
        (Keeps-gets {Q = λ (m : Minode). InTable nmount m.mountptr} (λ s. s.m_inodes p)
          (λ s h. h.mounts p))
        k

  pub Keeps-entry :
      (o : ℕ) (f : Oft → M B)
      → ((e : Oft) → InTable nminodes e.inodeptr → Keeps R (f e))
      → Keeps R (gets (λ s. s.oft o) >>= f)
  Keeps-entry o f k =
      Keeps-bind _ f
        (Keeps-gets {Q = λ (e : Oft). InTable nminodes e.inodeptr} (λ s. s.oft o)
          (λ s h. h.files o))
        k

  pub Keeps-mount :
      (i : ℕ) (f : Mount → M B)
      → ((e : Mount) → InTable nminodes e.mounted_inode → Keeps R (f e))
      → Keeps R (gets (λ s. s.mounttab i) >>= f)
  Keeps-mount i f k =
      Keeps-bind _ f
        (Keeps-gets {Q = λ (e : Mount). InTable nminodes e.mounted_inode} (λ s. s.mounttab i)
          (λ s h. h.mount_points i))
        k

  -- A pointer that is read from the state.
  pub Keeps-load :
      (n : ℕ) (r : Sim → Option ℕ) (f : Option ℕ → M B)
      → ((s : Sim) → IsSound s → InTable n (r s))
      → ((o : Option ℕ) → InTable n o → Keeps R (f o))
      → Keeps R (gets r >>= f)
  Keeps-load n r f h k = Keeps-bind _ f (Keeps-gets {Q = InTable n} r h) k

  pub Keeps-root :
      (f : Option ℕ → M B)
      → ((o : Option ℕ) → InTable nminodes o → Keeps R (f o))
      → Keeps R (gets (λ s. s.root) >>= f)
  Keeps-root f k = Keeps-load nminodes (λ s. s.root) f (λ s h. h.top) k

  pub Keeps-deref_then :
      (n : ℕ) (o : Option ℕ) (f : ℕ → M B)
      → InTable n o
      → ((p : ℕ) → p < n → Keeps R (f p))
      → Keeps R (deref o >>= f)
  Keeps-deref_then n o f i k = Keeps-bind _ f (Keeps-deref n o i) k

  pub Keeps-deref_any :
      (o : Option ℕ) (f : ℕ → M B) → ((p : ℕ) → Keeps R (f p)) → Keeps R (deref o >>= f)
  Keeps-deref_any none f k = record { at = λ s h a t e. absurd (cc) }
  Keeps-deref_any (some p) f k = record { at = λ s h a t e. (k p).at s h a t e }

-- Where the pointers of the state are.
pub root-InTable : (s : Sim) → IsSound s → InTable nminodes s.root
root-InTable s h = h.top

pub cwd-InTable : (s : Sim) → IsSound s → InTable nminodes (s.proc s.running).cwd
cwd-InTable s h = h.directories s.running

pub mounted_inode-InTable :
    (i : ℕ) (s : Sim) → IsSound s → InTable nminodes (s.mounttab i).mounted_inode
mounted_inode-InTable i s h = h.mount_points i

-- The state apart from its pointers.
pub ruleset reads =
    (Keeps-minode, Keeps-entry, Keeps-mount, Keeps-root, Keeps-deref_then, Keeps-deref_any)
