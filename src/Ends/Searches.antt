-- ===== src/Ends/Searches.antt =====
-- The searches through a directory's block come to its end, or to an entry of length 0, before their
-- fuel is used up: every step is a byte at least.
use cpts.Base.{ℕ, zero, suc, ◌+◌, ◌-◌, ◌<◌, ◌≢◌, Bool, ltb, ◌==◌, Bool-cases, inl, inr, arith}
use cpts.Bytes.{Buf}
use cpts.Text.{Text}
use cpts.Dir.{lost, rec_len, matches, search_block}
use cpts.Print.{first_entry}

pub search_block-ends :
    (fuel : ℕ) (buf : Buf) (j : ℕ) (name : Text)
    → 1024 - j < fuel
    → search_block fuel buf j name ≢ lost
unfolding search_block
search_block-ends zero buf j name lt e = omega (arith, lt)
search_block-ends (suc fuel) buf j name lt e = elim (Bool-cases (ltb j 1024)) [
  | inr out ↦ cc (rw out at e)
  | inl inside ↦ elim (Bool-cases (rec_len buf j == 0)) [
    | inl stuck ↦ cc (rw (inside, stuck) at e)
    | inr step ↦ elim (Bool-cases (matches buf j name)) [
      | inl here ↦ cc (rw (inside, step, here) at e)
      | inr past ↦
          search_block-ends fuel buf (j + rec_len buf j) name (ground arith)
            (rw (inside, step, past) at e)
    ]
  ]
]

pub first_entry-ends :
    (test : Buf → ℕ → Bool) (fuel : ℕ) (buf : Buf) (i : ℕ)
    → 1024 - i < fuel
    → first_entry test fuel buf i ≢ lost
unfolding first_entry
first_entry-ends test zero buf i lt e = omega (arith, lt)
first_entry-ends test (suc fuel) buf i lt e = elim (Bool-cases (ltb i 1024)) [
  | inr out ↦ cc (rw out at e)
  | inl inside ↦ elim (Bool-cases (rec_len buf i == 0)) [
    | inl stuck ↦ cc (rw (inside, stuck) at e)
    | inr step ↦ elim (Bool-cases (test buf i)) [
      | inl here ↦ cc (rw (inside, step, here) at e)
      | inr past ↦
          first_entry-ends test fuel buf (i + rec_len buf i) (ground arith)
            (rw (inside, step, past) at e)
    ]
  ]
]
