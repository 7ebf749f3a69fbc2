-- ===== src/Ends/Rules.antt =====
-- Commands that end, one rule for each way to build a command.
use cpts.Base.{ℕ, Bool, true, false, Option, none, some, if◌then◌else◌, on_some, ◌≢◌, refl}
use cpts.Disk.{Image}
use cpts.Sim.{Sim, Minode, Oft, Proc, Mount}
use cpts.Sim.Monad.{
  M, Run, ok, fault, out_of_fuel, pure, stop, and_then, ◌>>=◌, gets, when, deref, on_image,
  set_image, set_minode, set_oft, set_proc, set_mount,
}

-- `m` does not use up its fuel, from any state.
pub record Ends {A : Type 0} (m : M A) : Type 0 where
  pub at : (s : Sim) → m s ≢ out_of_fuel

-- A command that returns or faults at once.
ok-ends : {A : Type 0} {a : A} {s : Sim} → ok a s ≢ out_of_fuel
ok-ends e = cc

fault-ends : {A : Type 0} → ◌≢◌ {A = Run A} fault out_of_fuel
fault-ends e = cc

module _ {A : Type 0} where
  pub Ends-pure : (a : A) → Ends (pure a)
  Ends-pure a = record { at = λ s e. ok-ends e }

  pub Ends-stop : Ends {A = A} stop
  Ends-stop = record { at = λ s e. fault-ends e }

  pub Ends-gets : (f : Sim → A) → Ends (gets f)
  Ends-gets f = record { at = λ s e. ok-ends e }

  pub Ends-if : (b : Bool) (m n : M A) → Ends m → Ends n → Ends (if b then m else n)
  Ends-if true m n km kn = km
  Ends-if false m n km kn = kn

  pub Ends-on_image : (f : Image → A × Image) → Ends (on_image f)
  Ends-on_image f = record { at = λ s e. ok-ends e }

  pub Ends-option :
      {B : Type 0} (o : Option B) (m : M A) (f : B → M A)
      → Ends m
      → ((b : B) → Ends (f b))
      → Ends (on_some o m f)
  Ends-option none m f km kf = km
  Ends-option (some b) m f km kf = kf b

-- A command that changes the state, and returns nothing.
pub Ends-change : (f : Sim → Sim) → Ends (λ s. ok tt (f s))
Ends-change f = record { at = λ s e. ok-ends e }

pub Ends-deref : (o : Option ℕ) → Ends (deref o)
Ends-deref none = Ends-stop
Ends-deref (some p) = Ends-pure p

pub Ends-when : (b : Bool) (m : M (Unit {0})) → Ends m → Ends (when b m)
Ends-when true m k = k
Ends-when false m k = Ends-pure tt

module _ {A B : Type 0} where
  Ends-and_then :
      (r : Run A) (f : A → M B)
      → r ≢ out_of_fuel
      → ((a : A) → Ends (f a))
      → and_then r f ≢ out_of_fuel
  Ends-and_then (ok a t) f k kf e = (kf a).at t e
  Ends-and_then fault f k kf e = fault-ends e
  Ends-and_then out_of_fuel f k kf e = k refl

  pub Ends-bind : (m : M A) (f : A → M B) → Ends m → ((a : A) → Ends (f a)) → Ends (m >>= f)
  Ends-bind m f km kf = record { at = λ s. Ends-and_then (m s) f (km.at s) kf }

pub Ends-set_image : (f : Image → Image) → Ends (set_image f)
Ends-set_image f = Ends-change _

pub Ends-set_minode : (p : ℕ) (f : Minode → Minode) → Ends (set_minode p f)
Ends-set_minode p f = record { at = λ s e. ok-ends e }

pub Ends-set_oft : (o : ℕ) (f : Oft → Oft) → Ends (set_oft o f)
Ends-set_oft o f = record { at = λ s e. ok-ends e }

pub Ends-set_proc : (i : ℕ) (f : Proc → Proc) → Ends (set_proc i f)
Ends-set_proc i f = record { at = λ s e. ok-ends e }

pub Ends-set_mount : (i : ℕ) (f : Mount → Mount) → Ends (set_mount i f)
Ends-set_mount i f = record { at = λ s e. ok-ends e }

pub ruleset steps = (
  Ends-bind, Ends-pure, Ends-stop, Ends-gets, Ends-if, Ends-option, Ends-deref, Ends-when,
  Ends-on_image, Ends-set_image, Ends-set_minode, Ends-set_oft, Ends-set_proc, Ends-set_mount,
)
