-- ===== src/Sound/Rules.antt =====
-- Commands that keep the state sound, one rule for each way to build a command.
use cpts.Base.{
  on_some, ℕ, ◌<◌, ◌≡◌, Bool, true, false, Option, none, some, if◌then◌else◌, refl, subst,
}
use cpts.Sim.{Sim}
use cpts.Sim.Monad.{
  M, Run, ok-value, ok, fault, out_of_fuel, pure, stop, and_then, ◌>>=◌, gets, when, deref,
}
use cpts.Sound.{InTable, IsSound}

-- Where `m` returns from a sound state, the state is sound and the result has `Q`.
pub record Keeps {A : Type 0} (Q : A → Type 0) (m : M A) : Type 0 where
  pub at : (s : Sim) → IsSound s → (a : A) (t : Sim) → m s ≡ ok a t → IsSound t × Q a

abbrev pub Any : {A : Type 0} → A → Type 0
Any a = Unit {0}

module _ {A : Type 0} {Q : A → Type 0} where
  pub Keeps-pure : (a : A) → Q a → Keeps Q (pure a)
  Keeps-pure a q = record {
    at = λ s h b t e. let v = ok-value a b s t e in (subst IsSound v.1 h, subst Q v.0 q);
  }

  pub Keeps-stop : Keeps Q stop
  Keeps-stop = record { at = λ s h b t e. absurd (cc) }

  pub Keeps-out_of_fuel : Keeps Q (λ s. out_of_fuel)
  Keeps-out_of_fuel = record { at = λ s h b t e. absurd (cc) }

  pub Keeps-gets : (f : Sim → A) → ((s : Sim) → IsSound s → Q (f s)) → Keeps Q (gets f)
  Keeps-gets f q = record {
    at = λ s h b t e. let v = ok-value (f s) b s t e in (subst IsSound v.1 h, subst Q v.0 (q s h));
  }

  pub Keeps-if : (b : Bool) (m n : M A) → Keeps Q m → Keeps Q n → Keeps Q (if b then m else n)
  Keeps-if true m n km kn = km
  Keeps-if false m n km kn = kn

module _ {A B : Type 0} {Q : A → Type 0} {R : B → Type 0} where
  Keeps-and_then :
      (r : Run A) (f : A → M B)
      → ((a : A) (t : Sim) → r ≡ ok a t → IsSound t × Q a)
      → ((a : A) → Q a → Keeps R (f a))
      → (b : B) (u : Sim) → and_then r f ≡ ok b u
      → IsSound u × R b
  Keeps-and_then (ok a t) f k kf b u e = let (h, q) = k a t refl in (kf a q).at t h b u e
  Keeps-and_then fault f k kf b u e = absurd (cc)
  Keeps-and_then out_of_fuel f k kf b u e = absurd (cc)

  pub Keeps-bind :
      (m : M A) (f : A → M B) → Keeps Q m → ((a : A) → Q a → Keeps R (f a)) → Keeps R (m >>= f)
  Keeps-bind m f km kf = record { at = λ s h b u e. Keeps-and_then (m s) f (km.at s h) kf b u e }

module _ {A : Type 0} {Q : A → Type 0} where
  -- A branch on a pointer into a table.
  pub Keeps-pointer :
      (n : ℕ) (o : Option ℕ) (m : M A) (f : ℕ → M A)
      → InTable n o
      → Keeps Q m
      → ((p : ℕ) → p < n → Keeps Q (f p))
      → Keeps Q (on_some o m f)
  Keeps-pointer n none m f i km kf = km
  Keeps-pointer n (some p) m f i km kf = kf p i

  pub Keeps-option :
      {B : Type 0} (o : Option B) (m : M A) (f : B → M A)
      → Keeps Q m
      → ((b : B) → Keeps Q (f b))
      → Keeps Q (on_some o m f)
  Keeps-option none m f km kf = km
  Keeps-option (some b) m f km kf = kf b

pub Keeps-deref : (n : ℕ) (o : Option ℕ) → InTable n o → Keeps (λ p. p < n) (deref o)
Keeps-deref n none i = Keeps-stop
Keeps-deref n (some p) i = Keeps-pure p i

pub Keeps-when : (b : Bool) (m : M (Unit {0})) → Keeps Any m → Keeps Any (when b m)
Keeps-when true m k = k
Keeps-when false m k = Keeps-pure tt tt

-- Commands about which nothing is known but that they keep the state sound.
pub Keeps-then :
    {A B : Type 0} {R : B → Type 0} (m : M A) (f : A → M B)
    → Keeps Any m
    → ((a : A) → Keeps R (f a))
    → Keeps R (m >>= f)
Keeps-then m f km kf = Keeps-bind m f km (λ a q. kf a)

pub Keeps-read : {A : Type 0} (f : Sim → A) → Keeps Any (gets f)
Keeps-read f = Keeps-gets f (λ s h. tt)

pub Keeps-return : {A : Type 0} (a : A) → Keeps Any (pure a)
Keeps-return a = Keeps-pure a tt

pub ruleset control = (
  Keeps-then, Keeps-read, Keeps-return, Keeps-pure, Keeps-stop, Keeps-out_of_fuel, Keeps-if,
  Keeps-when, Keeps-pointer, Keeps-option,
)
