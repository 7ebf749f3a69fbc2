-- ===== src/OpenFiles/Slots.antt =====
-- The search for an entry of the open file table.
use cpts.Base.{
  ℕ, zero, suc, ◌+◌, ◌≤◌, ◌<◌, ◌≡◌, ◌⊎◌, inl, inr, true, false, Option, none, some, arith, refl,
  Bool-cases,
}
use native.Mathlib.Decide.{ℕ_discrete}
use cpts.Sim.{Sim, Oft, noft}
use cpts.OpenFiles.{opens, first_unused, oft_from, find_oft}

-- None of the `n` entries from `i` on is in use for the inode number.
abbrev NotOpen : Sim → ℕ → ℕ → ℕ → Type 0
NotOpen s ino n i = (j : ℕ) → i ≤ j → j < n + i → opens s.m_inodes ino (s.oft j) ≡ false

-- What the loop of `find_oft` says of the `n` entries from `i` on, where it came with `op`.
abbrev FoundFrom : Sim → ℕ → ℕ → ℕ → Option ℕ → Option ℕ → Type 0
FoundFrom s ino n i op (some k) =
    ((k < n + i) × (opens s.m_inodes ino (s.oft k) ≡ true))
    ⊎ (NotOpen s ino n i × ((op ≡ some k) ⊎ ((k < n + i) × ((s.oft k).ref_count ≡ 0))))
FoundFrom s ino n i op none =
    NotOpen s ino n i × ((op ≡ none) × ((j : ℕ) → i ≤ j → j < n + i → 0 < (s.oft j).ref_count))

NotOpen-step :
    (s : Sim) (ino n i : ℕ)
    → opens s.m_inodes ino (s.oft i) ≡ false
    → NotOpen s ino n (i + 1)
    → NotOpen s ino (suc n) i
NotOpen-step s ino n i h rest j p q = elim (ℕ_discrete j i) [
  | yes here ↦ rw here h
  | no there ↦ rest j (omega arith) (omega arith)
]

-- The first unused entry so far stays, and a new one has no references.
first_unused-none :
    (op : Option ℕ) (i : ℕ) (o : Oft) → first_unused op i o ≡ none → (op ≡ none) × (0 < o.ref_count)
first_unused-none (some k) i o h = absurd (cc)
first_unused-none none i o h = (refl, ground arith)

first_unused-some :
    (op : Option ℕ) (i k : ℕ) (o : Oft)
    → first_unused op i o ≡ some k
    → (op ≡ some k) ⊎ ((i ≡ k) × (o.ref_count ≡ 0))
first_unused-some (some m) i k o h = inl h
first_unused-some none i k o h = inr (ground arith)

FoundFrom-step :
    (s : Sim) (ino n i : ℕ) (op r : Option ℕ)
    → opens s.m_inodes ino (s.oft i) ≡ false
    → FoundFrom s ino n (i + 1) (first_unused op i (s.oft i)) r
    → FoundFrom s ino (suc n) i op r
FoundFrom-step s ino n i op none h (shut, (nothing, used)) =
    let f = first_unused-none op i (s.oft i) nothing in
    (
      NotOpen-step s ino n i h shut,
      (
        f.0,
        λ j p q. elim (ℕ_discrete j i) [
          | yes here ↦ rw here f.1
          | no there ↦ used j (omega arith) (omega arith)
        ],
      ),
    )
FoundFrom-step s ino n i op (some k) h (inl (lt, is_open)) = inl (omega (arith, lt), is_open)
FoundFrom-step s ino n i op (some k) h (inr (shut, inr (lt, unused))) =
    inr (NotOpen-step s ino n i h shut, inr (omega (arith, lt), unused))
FoundFrom-step s ino n i op (some k) h (inr (shut, inl e)) = inr (
  NotOpen-step s ino n i h shut,
  elim (first_unused-some op i k (s.oft i) e) [
    | inl old ↦ inl old
    | inr (here, unused) ↦ inr (omega (arith, here), rw here at unused)
  ],
)

oft_from-FoundFrom :
    (s : Sim) (ino n i : ℕ) (op : Option ℕ) → FoundFrom s ino n i op (oft_from s ino n i op)
unfolding oft_from
oft_from-FoundFrom s ino zero i none =
    ((λ j p q. absurd (omega arith)), (refl, λ j p q. absurd (omega arith)))
oft_from-FoundFrom s ino zero i (some k) = inr ((λ j p q. absurd (omega arith)), inl refl)
oft_from-FoundFrom s ino (suc n) i op = elim (Bool-cases (opens s.m_inodes ino (s.oft i))) [
  | inl hit ↦ rw hit (inl (omega arith, hit))
  | inr miss ↦ rw miss (
      FoundFrom-step s ino n i op _ miss
        (oft_from-FoundFrom s ino n (i + 1) (first_unused op i (s.oft i))))
]

-- No entry of the table is in use for the inode number.
abbrev pub NoneOpen : Sim → ℕ → Type 0
NoneOpen s ino = (j : ℕ) → j < noft → opens s.m_inodes ino (s.oft j) ≡ false

-- What `find_oft` may return.
abbrev pub FoundOft : Sim → ℕ → Option ℕ → Type 0
FoundOft s ino (some k) =
    (k < noft)
    × ((opens s.m_inodes ino (s.oft k) ≡ true) ⊎ (NoneOpen s ino × ((s.oft k).ref_count ≡ 0)))
FoundOft s ino none = NoneOpen s ino × ((j : ℕ) → j < noft → 0 < (s.oft j).ref_count)

-- `find_oft` returns an entry of the table that is in use for the inode number if there is one, or
-- an entry without references if none is in use for it; it returns NULL only if every entry is in
-- use, and none for the inode number.
pub find_oft-FoundOft : (s : Sim) (ino : ℕ) → FoundOft s ino (find_oft s ino)
unfolding find_oft
find_oft-FoundOft s ino = go (oft_from s ino noft 0 none) (oft_from-FoundFrom s ino noft 0 none)
  where
    go : (r : Option ℕ) → FoundFrom s ino noft 0 none r → FoundOft s ino r
    go none (shut, (e, used)) =
        ((λ j q. shut j (omega arith) (omega arith)), λ j q. used j (omega arith) (omega arith))
    go (some k) (inl (lt, is_open)) = (omega (arith, lt), inl is_open)
    go (some k) (inr (shut, inl e)) = absurd (cc)
    go (some k) (inr (shut, inr (lt, unused))) =
        (omega (arith, lt), inr ((λ j q. shut j (omega arith) (omega arith)), unused))
