-- ===== src/Sim/Monad.antt =====
-- Commands over the state: a run ends with a result and a new state, by a use of memory that C
-- does not define (a NULL pointer, an index outside of an array), or when its fuel is used up,
-- which stands for a loop or recursion that goes on.
use cpts.Base.{ℕ, ◌≡◌, Bool, Option, none, some, if◌then◌else◌}
use cpts.Disk.{Image}
use cpts.Sim.{Sim, Minode, Oft, Proc, Mount, update}

pub data Run (A : Type 0) : Type 0 where
  ok : A → Sim → Run A
  fault : Run A
  out_of_fuel : Run A

abbrev pub M : Type 0 → Type 0
M A = Sim → Run A

abbrev pub pure : {A : Type 0} → A → M A
pure a s = ok a s

abbrev pub stop : {A : Type 0} → M A
stop s = fault

abbrev pub and_then : {A B : Type 0} → Run A → (A → M B) → Run B
and_then (ok a s) f = f a s
and_then fault f = fault
and_then out_of_fuel f = out_of_fuel

infixl 5 ◌>>=◌ ◌>>◌
abbrev pub ◌>>=◌ : {A B : Type 0} → M A → (A → M B) → M B
◌>>=◌ m f s = and_then (m s) f

abbrev pub ◌>>◌ : {A B : Type 0} → M A → M B → M B
m >> k = m >>= λ _. k

abbrev pub gets : {A : Type 0} → (Sim → A) → M A
gets f s = ok (f s) s

abbrev pub when : Bool → M (Unit {0}) → M (Unit {0})
when b m s = if b then m s else ok tt s

-- `*p`: the element that a pointer names.
abbrev pub deref : Option ℕ → M ℕ
deref none s = fault
deref (some p) s = ok p s

-- A function of the image and what it does to it.
abbrev pub on_image : {A : Type 0} → (Image → A × Image) → M A
on_image f s = let (a, img) = f s.image in ok a (record s { image = img })

-- The same, where it stays inside its arrays.
abbrev pub on_bitmap : {A : Type 0} → (Image → Bool) → (Image → A × Image) → M A
on_bitmap overruns f = do over ← gets (λ s. overruns s.image); if over then stop else on_image f

abbrev pub set_image : (Image → Image) → M (Unit {0})
set_image f s = ok tt (record s { image = f s.image })

abbrev pub set_state : (Sim → Sim) → M (Unit {0})
set_state f s = ok tt (f s)

abbrev pub set_minode : ℕ → (Minode → Minode) → M (Unit {0})
set_minode p f s = ok tt (record s { m_inodes = update s.m_inodes p (f (s.m_inodes p)) })

abbrev pub set_oft : ℕ → (Oft → Oft) → M (Unit {0})
set_oft p f s = ok tt (record s { oft = update s.oft p (f (s.oft p)) })

abbrev pub set_proc : ℕ → (Proc → Proc) → M (Unit {0})
set_proc p f s = ok tt (record s { proc = update s.proc p (f (s.proc p)) })

abbrev pub set_mount : ℕ → (Mount → Mount) → M (Unit {0})
set_mount p f s = ok tt (record s { mounttab = update s.mounttab p (f (s.mounttab p)) })

-- The result and the state of a run that returned.
pub ok-value : {A : Type 0} (a b : A) (s t : Sim) → ok a s ≡ ok b t → (a ≡ b) × (s ≡ t)
ok-value a b s t e = (cc, cc)

pub fault-ok : {A : Type 0} {a : A} {t : Sim} → ¬ (fault ≡ ok a t)
fault-ok e = cc

-- How a sequence goes on when its first command returns.
module _ {A B : Type 0} (m : M A) {s t : Sim} {a : A} (e : m s ≡ ok a t) where
  pub bind-ok : (f : A → M B) → (m >>= f) s ≡ f a t
  bind-ok f = rw e

  pub then-ok : (k : M B) → (m >> k) s ≡ k t
  then-ok k = rw e
