-- ===== src/Alloc/Traces.antt =====
-- Sequences of allocations and deallocations.
use cpts.Base.{
  ℕ, zero, suc, ◌+◌, ◌<◌, ◌≡◌, ◌≢◌, ◌⊎◌, inl, inr, refl, sym, ◌∙◌, ap, Bool, true, false, List, [],
  ◌∷◌, arith, ℤ, pos,
}
use native.Mathlib.Decide.{ℕ_discrete}
use cpts.Bytes.Fields.{u16-lt, u32-lt}
use cpts.Disk.{Image}
use cpts.Disk.Laws.{get_super-IsBytes, get_group-IsBytes}
use cpts.Alloc.{Kind, inodes, blocks, table, alloc, dealloc, ialloc, balloc, idealloc, bdealloc}
use cpts.Alloc.View.{super_free, group_free, used, IsExt2}
use cpts.Alloc.Contract.{Allocated, Changed, Deallocates, alloc-Allocates, dealloc-Deallocates}

Kind-discrete : Discrete Kind
Kind-discrete = hlevel

-- A call of one of the four functions.
pub data Op : Type 0 where
  take : Kind → Op
  give : Kind → ℕ → Op

-- The number that a call returns to its caller for use, 0 if there is none, and the image.
unfoldable pub perform : ℕ → Op → Image → ℕ × Image
unfolding ialloc balloc idealloc bdealloc
perform dev (take inodes) img = ialloc dev img
perform dev (take blocks) img = balloc dev img
perform dev (give inodes n) img = (0, (idealloc dev n img).1)
perform dev (give blocks n) img = (0, (bdealloc dev n img).1)

take-alloc : (k : Kind) (dev : ℕ) (img : Image) → perform dev (take k) img ≡ alloc (table k) dev img
unfolding perform
take-alloc inodes dev img = refl
take-alloc blocks dev img = refl

give-dealloc :
    (k : Kind) (dev n : ℕ) (img : Image)
    → perform dev (give k n) img ≡ (0, (dealloc (table k) dev n img).1)
unfolding perform
give-dealloc inodes dev n img = refl
give-dealloc blocks dev n img = refl

-- The call does not give the item of bit `i` back.
abbrev pub Keeps : Kind → ℕ → Op → Type 0
Keeps k i op = op ≢ give k (suc i)

abbrev pub AllKeep : Kind → ℕ → List Op → Type 0
AllKeep k i [] = Unit {0}
AllKeep k i (op ∷ ops) = Keeps k i op × AllKeep k i ops

-- None of the calls hands out number `i + 1` of kind `k`.
abbrev pub Issued : Kind → Op → ℕ → ℕ → Type 0
Issued k op i r = (op ≡ take k) × (r ≡ i + 1)

unfoldable pub NeverIssued : Kind → ℕ → ℕ → List Op → Image → Type 0
NeverIssued k i dev [] img = Unit {0}
NeverIssued k i dev (op ∷ ops) img =
    (¬ Issued k op i (perform dev op img).0) × NeverIssued k i dev ops (perform dev op img).1

-- A taken item is not a free one.
used_ne :
    (k l : Kind) (i j dev : ℕ) (img : Image)
    → used k dev img i ≡ true
    → used l dev img j ≡ false
    → (k ≢ l) ⊎ (i ≢ j)
used_ne k l i j dev img p q = elim (Kind-discrete k l) [ no ne ↦ inl ne | yes same ↦ inr (λ e. cc) ]

Changed-used :
    {k : Kind} {dev : ℕ} {img img' : Image} {i : ℕ} {now : Bool} (l : Kind) (j : ℕ)
    → Changed k dev img img' i now
    → j < 8192
    → (l ≢ k) ⊎ (j ≢ i)
    → used l dev img' j ≡ used l dev img j
Changed-used l j c lt (inl ne) = c.other_kind l ne j
Changed-used {k} l j c lt (inr ne) = elim (Kind-discrete l k) [
  | no other ↦ c.other_kind l other j
  | yes same ↦ rw same (c.others j lt ne)
]

take-injective : (k l : Kind) → take k ≡ take l → k ≡ l
take-injective k l e = cc

module _ (k : Kind) (i dev : ℕ) (img : Image) (ext : IsExt2 dev img) (lt : i < 8192)
    (held : used k dev img i ≡ true) where
  -- The image stays well formed, the item stays taken, and its number is not handed out.
  abbrev StillHeld : Op → ℕ × Image → Type 0
  StillHeld op (r, img') = IsExt2 dev img' × (used k dev img' i ≡ true) × (¬ Issued k op i r)

  take-StillHeld : (l : Kind) → StillHeld (take l) (perform dev (take l) img)
  take-StillHeld l = rw take-alloc (elim (alloc-Allocates l dev img ext) [
    | inl (e, _) ↦ rw e (ext, held, λ (_, z). absurd (omega arith))
    | inr (j, a) ↦
        let apart = used_ne k l i j dev img held a.was_free in
        (
          a.changed.ext2,
          Changed-used k i a.changed lt apart ∙ held,
          λ (e, n). elim apart [
            | inl ne ↦ ne (sym (take-injective l k e))
            | inr ne ↦ ne (omega (arith, a.number))
          ],
        )
  ])

  give-StillHeld :
      (l : Kind) (n : ℕ) → Keeps k i (give l n) → StillHeld (give l n) (perform dev (give l n) img)
  unfolding dealloc
  give-StillHeld l zero kept = rw give-dealloc (ext, held, λ (e, _). cc)
  give-StillHeld l (suc j) kept = rw give-dealloc (elim (dealloc-Deallocates l dev img ext j) [
    | inl (_, e) ↦ rw e (ext, held, λ (e, _). cc)
    | inr (inl (_, _, e)) ↦ rw e (ext, held, λ (e, _). cc)
    | inr (inr f) ↦
        (f.changed.ext2, Changed-used k i f.changed lt (kept_ne l j kept) ∙ held, λ (e, _). cc)
  ])
    where
      kept_ne : (l : Kind) (j : ℕ) → Keeps k i (give l (suc j)) → (k ≢ l) ⊎ (i ≢ j)
      kept_ne l j ne = elim (Kind-discrete k l) [
        | no other ↦ inl other
        | yes same ↦ inr (λ e. ne (cc))
      ]

  step-StillHeld : (op : Op) → Keeps k i op → StillHeld op (perform dev op img)
  step-StillHeld (take l) kept = take-StillHeld l
  step-StillHeld (give l n) kept = give-StillHeld l n kept

-- While the item of bit `i` is allocated and no call frees it, no sequence of calls of `ialloc`,
-- `balloc`, `idealloc` and `bdealloc` on the device hands its number out again. The bit is one of the
-- 8192 of its bitmap, the image consists of bytes, the device's bitmaps are blocks of their own, not
-- 1 or 2, and the counts of inodes and of blocks are at most 8192.
pub held-NeverIssued :
    (k : Kind) (i dev : ℕ) (ops : List Op) (img : Image)
    → IsExt2 dev img
    → i < 8192
    → used k dev img i ≡ true
    → AllKeep k i ops
    → NeverIssued k i dev ops img
unfolding NeverIssued
held-NeverIssued k i dev [] img ext lt held kept = tt
held-NeverIssued k i dev (op ∷ ops) img ext lt held kept =
    let s = step-StillHeld k i dev img ext lt held op kept.0 in
    (s.2, held-NeverIssued k i dev ops (perform dev op img).1 s.0 lt s.1 kept.1)

module _ (k : Kind) (dev : ℕ) (img : Image) (ext : IsExt2 dev img) where
  super_free-lt : super_free k dev img < 4294967296
  unfolding super_free
  super_free-lt = u32-lt _ _ (get_super-IsBytes img dev ext.bytes)

  group_free-lt : group_free k dev img < 65536
  unfolding group_free
  group_free-lt = u16-lt _ _ (get_group-IsBytes img dev ext.bytes)

-- Freeing what was just allocated succeeds, and restores every bit and both free counts.
abbrev pub Restores : Kind → ℕ → Image → ℤ × Image → Type 0
Restores k dev img (r, img') =
    (r ≡ pos 0)
    × ((l : Kind) (j : ℕ) → j < 8192 → used l dev img' j ≡ used l dev img j)
    × (super_free k dev img' ≡ super_free k dev img)
    × (group_free k dev img' ≡ group_free k dev img)

restored :
    (k : Kind) (dev : ℕ) (img img' : Image) (i : ℕ) (r : ℤ × Image)
    → IsExt2 dev img
    → Allocated k dev img (suc i, img') i
    → Deallocates k dev i img' r
    → Restores k dev img r
restored k dev img img' i r ext a (inl (out, e)) =
    absurd (omega (arith, a.in_range, a.changed.counts k))
restored k dev img img' i r ext a (inr (inl (_, c, e))) = cc (a.changed.bit)
restored k dev img img' i (n, img'') ext a (inr (inr f)) = (
  f.code,
  λ l j lt. elim (Kind-discrete l k) [
    | no ne ↦ f.changed.other_kind l ne j ∙ a.changed.other_kind l ne j
    | yes same ↦ elim (ℕ_discrete j i) [
      | no ne ↦ rw same (f.changed.others j lt ne ∙ a.changed.others j lt ne)
      | yes e ↦ rw (same, e) (f.changed.bit ∙ sym a.was_free)
    ]
  ],
  omega (arith, f.free.0, a.free.0, super_free-lt k dev img ext),
  omega (arith, f.free.1, a.free.1, group_free-lt k dev img ext),
)

dealloc-alloc :
    (k : Kind) (dev : ℕ) (img img' : Image) (i : ℕ)
    → IsExt2 dev img
    → alloc (table k) dev img ≡ (suc i, img')
    → Restores k dev img (dealloc (table k) dev (suc i) img')
dealloc-alloc k dev img img' i ext e = elim (alloc-Allocates k dev img ext) [
  | inl (z, _) ↦ absurd (omega (arith, ap (λ (p : ℕ × Image). p.0) (sym z ∙ e)))
  | inr (j, a) ↦
      let a' : Allocated k dev img (suc i, img') j = rw e at a in
      let same : j ≡ i = omega (arith, a'.number) in
      let b : Allocated k dev img (suc i, img') i = rw same at a' in
      restored k dev img img' i _ ext b (dealloc-Deallocates k dev img' b.changed.ext2 i)
]

-- Freeing the inode that `ialloc` has just returned succeeds, and restores every bit of both
-- bitmaps and both free counts of inodes. The image consists of bytes, the device's bitmaps are
-- blocks of their own, not 1 or 2, and the counts of inodes and of blocks are at most 8192.
pub idealloc-ialloc :
    (dev : ℕ) (img img' : Image) (i : ℕ)
    → IsExt2 dev img
    → ialloc dev img ≡ (suc i, img')
    → Restores inodes dev img (idealloc dev (suc i) img')
unfolding ialloc idealloc
idealloc-ialloc dev img img' i ext e = dealloc-alloc inodes dev img img' i ext e

-- Freeing the block that `balloc` has just returned succeeds, and restores every bit of both
-- bitmaps and both free counts of blocks.
bdealloc-balloc :
    (dev : ℕ) (img img' : Image) (i : ℕ)
    → IsExt2 dev img
    → balloc dev img ≡ (suc i, img')
    → Restores blocks dev img (bdealloc dev (suc i) img')
unfolding balloc bdealloc
bdealloc-balloc dev img img' i ext e = dealloc-alloc blocks dev img img' i ext e
