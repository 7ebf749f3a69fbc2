-- ===== src/Sound/Counts.antt =====
-- How many descriptors name an entry of the open file table.
use cpts.Base.{
  ℕ, zero, suc, ◌+◌, ◌*◌, ◌≤◌, ◌<◌, ◌≡◌, Option, none, some, refl, sym, ap, subst, arith,
}
use native.Mathlib.Decide.{ℕ_discrete}
use cpts.Sim.{Proc, nfd, update, update_self, update_ne}
use cpts.Sound.{points, fds_to, open_fds}

points-le : (o : ℕ) (v : Option ℕ) → points o v ≤ 1
points-le o none = omega arith
points-le o (some k) = ground arith

fds_to-le : (o : ℕ) (fd : ℕ → Option ℕ) (n : ℕ) → fds_to o fd n ≤ n
unfolding fds_to
fds_to-le o fd zero = omega arith
fds_to-le o fd (suc n) = omega (arith, fds_to-le o fd n, points-le o (fd n))

pub open_fds-le : (o : ℕ) (t : ℕ → Proc) (n : ℕ) → open_fds o t n ≤ n * nfd
unfolding open_fds
open_fds-le o t zero = omega arith
open_fds-le o t (suc n) = omega (arith, open_fds-le o t n, fds_to-le o (t n).fd nfd)

-- A descriptor that names the entry is counted.
fds_to-some : (o : ℕ) (fd : ℕ → Option ℕ) (n k : ℕ) → k < n → fd k ≡ some o → 0 < fds_to o fd n
unfolding fds_to
fds_to-some o fd zero k lt e = absurd (omega (arith, lt))
fds_to-some o fd (suc n) k lt e = elim (ℕ_discrete k n) [
  | yes here ↦ let one : points o (fd n) ≡ 1 = rw (← here, e) (ground arith) in omega (arith, one)
  | no there ↦ omega (arith, fds_to-some o fd n k (omega arith) e)
]

pub open_fds-some :
    (o : ℕ) (t : ℕ → Proc) (n i k : ℕ) → i < n → k < nfd → (t i).fd k ≡ some o → 0 < open_fds o t n
unfolding open_fds
open_fds-some o t zero i k li lk e = absurd (omega (arith, li))
open_fds-some o t (suc n) i k li lk e = elim (ℕ_discrete i n) [
  | yes here ↦ let one = fds_to-some o (t n).fd nfd k lk (rw here at e) in omega (arith, one)
  | no there ↦ omega (arith, open_fds-some o t n i k (omega arith) lk e)
]

-- An assignment to descriptor `k`.
fds_to-beyond :
    (o : ℕ) (fd : ℕ → Option ℕ) (n k : ℕ) (v : Option ℕ)
    → n ≤ k
    → fds_to o (update fd k v) n ≡ fds_to o fd n
unfolding fds_to
fds_to-beyond o fd zero k v le = refl
fds_to-beyond o fd (suc n) k v le =
    rw (fds_to-beyond o fd n k v (omega arith), update_ne fd k v n (λ e. omega (arith, e, le))) refl

pub fds_to-update :
    (o : ℕ) (fd : ℕ → Option ℕ) (n k : ℕ) (v : Option ℕ)
    → k < n
    → fds_to o (update fd k v) n + points o (fd k) ≡ fds_to o fd n + points o v
unfolding fds_to
fds_to-update o fd zero k v lt = absurd (omega (arith, lt))
fds_to-update o fd (suc n) k v lt = elim (ℕ_discrete k n) [
  | yes here ↦
      let rest = fds_to-beyond o fd n k v (omega (arith, here)) in
      let new : points o (update fd k v n) ≡ points o v =
        ap (points o) (subst (λ (j : ℕ). update fd k v j ≡ v) here (update_self fd k v)) in
      let old : points o (fd k) ≡ points o (fd n) = ap (λ (j : ℕ). points o (fd j)) here in
      omega (arith, rest, new, old)
  | no there ↦
      rw (update_ne fd k v n (λ e. there (sym e)))
        (omega (arith, fds_to-update o fd n k v (omega arith)))
]

-- An assignment to process `i`.
open_fds-beyond :
    (o : ℕ) (t : ℕ → Proc) (n i : ℕ) (r : Proc)
    → n ≤ i
    → open_fds o (update t i r) n ≡ open_fds o t n
unfolding open_fds
open_fds-beyond o t zero i r le = refl
open_fds-beyond o t (suc n) i r le =
    rw (open_fds-beyond o t n i r (omega arith), update_ne t i r n (λ e. omega (arith, e, le))) refl

open_fds-update :
    (o : ℕ) (t : ℕ → Proc) (n i : ℕ) (r : Proc)
    → i < n
    → open_fds o (update t i r) n + fds_to o (t i).fd nfd ≡ open_fds o t n + fds_to o r.fd nfd
unfolding open_fds
open_fds-update o t zero i r lt = absurd (omega (arith, lt))
open_fds-update o t (suc n) i r lt = elim (ℕ_discrete i n) [
  | yes here ↦
      let rest = open_fds-beyond o t n i r (omega (arith, here)) in
      let new : fds_to o (update t i r n).fd nfd ≡ fds_to o r.fd nfd =
        ap (λ (p : Proc). fds_to o p.fd nfd)
          (subst (λ (j : ℕ). update t i r j ≡ r) here (update_self t i r)) in
      let old : fds_to o (t i).fd nfd ≡ fds_to o (t n).fd nfd =
        ap (λ (j : ℕ). fds_to o (t j).fd nfd) here in
      omega (arith, rest, new, old)
  | no there ↦
      rw (update_ne t i r n (λ e. there (sym e)))
        (omega (arith, open_fds-update o t n i r (omega arith)))
]

-- A process with the same descriptors.
pub open_fds-kept :
    (o : ℕ) (t : ℕ → Proc) (n i : ℕ) (r : Proc)
    → r.fd ≡ (t i).fd
    → open_fds o (update t i r) n ≡ open_fds o t n
unfolding open_fds
open_fds-kept o t zero i r e = refl
open_fds-kept o t (suc n) i r e = rw (open_fds-kept o t n i r e) (
    ap (λ (fd : ℕ → Option ℕ). open_fds o t n + fds_to o fd nfd)
      (elim (ℕ_discrete n i) [
        | yes here ↦ rw (here, update_self) e
        | no there ↦ rw (update_ne t i r n there) refl
      ]))

-- A process with another descriptor `k`.
pub open_fds-fd :
    (o : ℕ) (t : ℕ → Proc) (n i k : ℕ) (v : Option ℕ)
    → i < n
    → k < nfd
    → open_fds o (update t i (record (t i) { fd = update (t i).fd k v })) n + points o ((t i).fd k)
      ≡ open_fds o t n + points o v
open_fds-fd o t n i k v li lk = omega (
  arith,
  open_fds-update o t n i (record (t i) { fd = update (t i).fd k v }) li,
  fds_to-update o (t i).fd nfd k v lk,
)
