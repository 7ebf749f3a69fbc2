-- ===== src/Alloc/Find.antt =====
-- The scan for the first clear bit.
use cpts.Base.{
  ℕ, zero, suc, ◌+◌, ◌≤◌, ◌<◌, ◌≡◌, inl, inr, true, false, ◌==◌, arith, none, some, Bool-cases,
}
use cpts.Bytes.{Buf}
use cpts.Alloc.{tst_bit, first_clear}
use cpts.Alloc.Bitmap.{taken}

-- A result is the first clear bit of the range.
pub first_clear-some :
    (n i : ℕ) (b : Buf) (k : ℕ)
    → first_clear n i b ≡ some k
    → (i ≤ k) × (k < i + n) × (taken b k ≡ false) × ((j : ℕ) → i ≤ j → j < k → taken b j ≡ true)
unfolding first_clear taken
first_clear-some zero i b k e = cc
first_clear-some (suc n) i b k e = elim (Bool-cases (tst_bit b i == 0)) [
  | inl hit ↦
      let same : i ≡ k = ground arith in
      (omega arith, omega arith, rw (← same) (ground arith), λ j p q. absurd (omega arith))
  | inr miss ↦
      let ih = first_clear-some n (i + 1) b k (ground arith) in
      (omega (arith, ih.0), omega (arith, ih.1), ih.2, λ j p q. ground (arith, ih.3 j))
]

-- No result: the whole range is taken.
pub first_clear-none :
    (n i : ℕ) (b : Buf) → first_clear n i b ≡ none → (j : ℕ) → i ≤ j → j < i + n → taken b j ≡ true
unfolding first_clear taken
first_clear-none zero i b e j p q = absurd (omega arith)
first_clear-none (suc n) i b e j p q = ground (arith, first_clear-none n (i + 1) b (ground arith) j)
