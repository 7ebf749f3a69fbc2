-- ===== src/Minodes/Scan.antt =====
-- What the loop of `iget` finds.
use cpts.Base.{
  ℕ, zero, suc, ◌+◌, ◌≤◌, ◌<◌, ◌≡◌, inl, inr, true, false, Option, none, some, ltb, arith,
  Bool-cases,
}
use native.Mathlib.Decide.{ℕ_discrete}
use cpts.Sim.{Minode}
use cpts.Minodes.{hit, miss, scan, holds, first_free}

-- No minode of the table from `i` on, `n` of them, is in use for the inode.
abbrev pub Absent : (ℕ → Minode) → ℕ → ℕ → ℕ → ℕ → Type 0
Absent t dev ino n i = (j : ℕ) → i ≤ j → j < i + n → holds dev ino (t j) ≡ false

abbrev pub AllLive : (ℕ → Minode) → ℕ → ℕ → Type 0
AllLive t n i = (j : ℕ) → i ≤ j → j < i + n → 0 < (t j).ref_count

pub scan_hit :
    (t : ℕ → Minode) (dev ino n i : ℕ) (tmp : Option ℕ) (k : ℕ)
    → scan t dev ino n i tmp ≡ hit k
    → (i ≤ k) × (k < i + n) × (holds dev ino (t k) ≡ true)
unfolding scan
scan_hit t dev ino zero i tmp k e = cc
scan_hit t dev ino (suc n) i tmp k e = elim (Bool-cases (holds dev ino (t i))) [
  | inl h ↦
      let e' : hit i ≡ hit k = rw h at e in
      let same : i ≡ k = ground arith in (omega arith, omega arith, rw (← same) h)
  | inr m ↦
      let ih = scan_hit t dev ino n (i + 1) (first_free tmp i (t i)) k (rw m at e) in
      (omega (arith, ih.0), omega (arith, ih.1), ih.2)
]

pub scan-Absent :
    (t : ℕ → Minode) (dev ino n i : ℕ) (tmp r : Option ℕ)
    → scan t dev ino n i tmp ≡ miss r
    → Absent t dev ino n i
unfolding scan
scan-Absent t dev ino zero i tmp r e j p q = absurd (omega arith)
scan-Absent t dev ino (suc n) i tmp r e j p q = elim (Bool-cases (holds dev ino (t i))) [
  | inl h ↦ cc (rw h at e)
  | inr m ↦ elim (ℕ_discrete i j) [
    | yes same ↦ rw (← same) m
    | no ne ↦
        scan-Absent t dev ino n (i + 1) (first_free tmp i (t i)) r (rw m at e) j (omega arith)
          (omega arith)
  ]
]

-- What `tmp` is at the end of an unsuccessful loop: the first minode that is not in use.
abbrev pub Free : (ℕ → Minode) → ℕ → ℕ → Option ℕ → Option ℕ → Type 0
Free t n i (some x) r = r ≡ some x
Free t n i none none = AllLive t n i
Free t n i none (some k) = (i ≤ k) × (k < i + n) × ((t k).ref_count ≡ 0)

Free-suc :
    (t : ℕ → Minode) (n i : ℕ) (tmp r : Option ℕ)
    → Free t n (i + 1) (first_free tmp i (t i)) r
    → Free t (suc n) i tmp r
Free-suc t n i (some x) r h = h
Free-suc t n i none r h = elim (Bool-cases (ltb 0 (t i).ref_count)) [
  | inl live ↦ go r live (rw live at h)
  | inr dead ↦ taken r dead (rw dead at h)
]
  where
    go :
        (r : Option ℕ)
        → ltb 0 (t i).ref_count ≡ true
        → Free t n (i + 1) none r
        → Free t (suc n) i none r
    go none live f = λ j p q. elim (ℕ_discrete i j) [
      | yes same ↦ rw (← same) (ground arith)
      | no ne ↦ f j (omega arith) (omega arith)
    ]
    go (some k) live f = (omega (arith, f.0), omega (arith, f.1), f.2)

    taken : (r : Option ℕ) → ltb 0 (t i).ref_count ≡ false → r ≡ some i → Free t (suc n) i none r
    taken none dead e = cc
    taken (some k) dead e =
        let same : k ≡ i = ground arith in (omega arith, omega arith, rw same (ground arith))

pub scan-Free :
    (t : ℕ → Minode) (dev ino n i : ℕ) (tmp r : Option ℕ)
    → scan t dev ino n i tmp ≡ miss r
    → Free t n i tmp r
unfolding scan
scan-Free t dev ino zero i none none e = λ j p q. absurd (omega arith)
scan-Free t dev ino zero i none (some k) e = cc
scan-Free t dev ino zero i (some x) r e = ground arith
scan-Free t dev ino (suc n) i tmp r e = elim (Bool-cases (holds dev ino (t i))) [
  | inl h ↦ cc (rw h at e)
  | inr m ↦
      Free-suc t n i tmp r (scan-Free t dev ino n (i + 1) (first_free tmp i (t i)) r (rw m at e))
]
