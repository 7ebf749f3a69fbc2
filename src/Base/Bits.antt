-- ===== src/Base/Bits.antt =====
-- The bits of a byte: `bit_and` and `bit_or` with a power of two, checked over all bytes.
use Prim.Native.Nat.{ℕ, zero, suc, ◌-◌, ◌^◌, ◌≤◌, ◌<◌, bit_and, bit_or}
use mathlib.Core.Path.{◌≡◌, refl}
use mathlib.Core.Logic.{◌≢◌}
use mathlib.Core.Bool.{Bool, true, false, not, ◌&&◌, ◌||◌}
use native.Mathlib.Omega.{arith}
use native.Mathlib.Decide.{ℕ_discrete}
use cpts.Base.Tests.{◌==◌, ltb, if◌then◌else◌}

-- `p` holds of the numbers up to `top`, tried from the top down.
unfoldable pub holds_to : (ℕ → Bool) → ℕ → Bool
holds_to p zero = p zero
holds_to p (suc top) = if p (suc top) then holds_to p top else false

pub from_table : (p : ℕ → Bool) (top x : ℕ) → x ≤ top → holds_to p top ≡ true → p x ≡ true
unfolding holds_to
from_table p zero x le t = let bottom : x ≡ 0 = omega arith in rw bottom t
from_table p (suc top) x le t = elim (ℕ_discrete x (suc top)) [
  | yes here ↦ rw here (ground arith)
  | no below ↦ from_table p top x (omega arith) (ground arith)
]

-- Bit `j` of a byte is clear.
abbrev clear : ℕ → ℕ → Bool
clear x j = bit_and x (2 ^ j) == 0

abbrev set_row : ℕ → ℕ → ℕ → Bool
set_row x j k =
    ltb (bit_or x (2 ^ j)) 256
    && ((j == k && not (clear (bit_or x (2 ^ j)) k))
        || (not (j == k) && (bit_and (bit_or x (2 ^ j)) (2 ^ k) == bit_and x (2 ^ k))))

abbrev clr_row : ℕ → ℕ → ℕ → Bool
clr_row x j k =
    ltb (bit_and x (255 - 2 ^ j)) 256
    && ((j == k && clear (bit_and x (255 - 2 ^ j)) k)
        || (not (j == k) && (bit_and (bit_and x (255 - 2 ^ j)) (2 ^ k) == bit_and x (2 ^ k))))

set_table : holds_to (λ x. holds_to (λ j. holds_to (λ k. set_row x j k) 7) 7) 255 ≡ true
unfolding holds_to
set_table = refl

clr_table : holds_to (λ x. holds_to (λ j. holds_to (λ k. clr_row x j k) 7) 7) 255 ≡ true
unfolding holds_to
clr_table = refl

set_row-true : (x j k : ℕ) → x < 256 → j < 8 → k < 8 → set_row x j k ≡ true
set_row-true x j k hx hj hk =
    from_table _ 7 k (omega arith)
      (from_table _ 7 j (omega arith) (from_table _ 255 x (omega arith) set_table))

clr_row-true : (x j k : ℕ) → x < 256 → j < 8 → k < 8 → clr_row x j k ≡ true
clr_row-true x j k hx hj hk =
    from_table _ 7 k (omega arith)
      (from_table _ 7 j (omega arith) (from_table _ 255 x (omega arith) clr_table))

pub set_byte-lt : (x j : ℕ) → x < 256 → j < 8 → bit_or x (2 ^ j) < 256
set_byte-lt x j hx hj = ground (arith, set_row-true x j j hx hj hj)

pub clr_byte-lt : (x j : ℕ) → x < 256 → j < 8 → bit_and x (255 - 2 ^ j) < 256
clr_byte-lt x j hx hj = ground (arith, clr_row-true x j j hx hj hj)

pub set_byte_self : (x j : ℕ) → x < 256 → j < 8 → bit_and (bit_or x (2 ^ j)) (2 ^ j) ≢ 0
set_byte_self x j hx hj = ground (arith, set_row-true x j j hx hj hj)

pub set_byte_ne :
    (x j k : ℕ)
    → x < 256
    → j < 8
    → k < 8
    → j ≢ k
    → bit_and (bit_or x (2 ^ j)) (2 ^ k) ≡ bit_and x (2 ^ k)
set_byte_ne x j k hx hj hk ne = ground (arith, set_row-true x j k hx hj hk)

pub clr_byte_self : (x j : ℕ) → x < 256 → j < 8 → bit_and (bit_and x (255 - 2 ^ j)) (2 ^ j) ≡ 0
clr_byte_self x j hx hj = ground (arith, clr_row-true x j j hx hj hj)

pub clr_byte_ne :
    (x j k : ℕ)
    → x < 256
    → j < 8
    → k < 8
    → j ≢ k
    → bit_and (bit_and x (255 - 2 ^ j)) (2 ^ k) ≡ bit_and x (2 ^ k)
clr_byte_ne x j k hx hj hk ne = ground (arith, clr_row-true x j k hx hj hk)
