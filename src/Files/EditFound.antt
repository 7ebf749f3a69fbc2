-- ===== src/Files/EditFound.antt =====
-- What `chmod`, `chown` and `chgrp` do behind `getino`, to an inode in memory and to one on the disk.
use cpts.Base.{
  ℕ, suc, ◌<◌, ◌≡◌, ◌≢◌, ◌⊎◌, inl, inr, refl, sym, ◌∙◌, ap, true, Option, none, some, arith,
  fun_ext,
}
use native.Mathlib.Decide.{ℕ_discrete}
use cpts.Bytes.{Buf, trim}
use cpts.Disk.{inode_size}
use cpts.Sim.{Sim, Minode, update, update_self, update_ne, update-update}
use cpts.Sim.Monad.{ok}
use cpts.Minodes.{holds, load_inode, store_inode, iget, iput}
use cpts.Minodes.Transfer.{InTable, load-store_self, load-store_ne}
use cpts.Minodes.Outcome.{
  with_minode, referenced, loaded, counted, closed, Cached, Loaded, Got, iget-Got, iput-shared,
  iput-last,
}
use cpts.Minodes.Settled.{HasRoom}
use cpts.Minodes.View.{
  cached, cached-same, cached-hit, cached-none, iget-cached, inode_at, node_of-same,
}
use cpts.Files.{done}
use cpts.Files.Attributes.{edit_found}
use cpts.Files.Edited.{Edited, holds-update, unused-holds, ref_count-update}

abbrev edited : (Buf → Buf) → Minode → Minode
edited f m = record m { inode = f m.inode; dirty = true }

edit_found-run :
    (dev ino k : ℕ) (f : Buf → Buf) (t u v : Sim)
    → iget dev ino t ≡ ok (some k) u
    → iput k (with_minode u k (edited f (u.m_inodes k))) ≡ ok tt v
    → edit_found dev ino f t ≡ ok done v
unfolding edit_found
edit_found-run dev ino k f t u v a b = rw (a, b) refl

trim-trim : (n : ℕ) (b : Buf) → trim n (trim n b) ≡ trim n b
unfolding trim
trim-trim n b = fun_ext λ i. ground arith

module _ (t : Sim) (dev n : ℕ) (f : Buf → Buf) where
  -- The inode is in memory: it changes there.
  module _ (k : ℕ) where
    abbrev in_memory : Sim
    in_memory = with_minode t k (edited f (t.m_inodes k))

    in_memory-run :
        (u : Sim)
        → iget dev (suc n) t ≡ ok (some k) u
        → Cached dev (suc n) t k u
        → edit_found dev (suc n) f t ≡ ok done in_memory
    in_memory-run u run c = edit_found-run dev (suc n) k f t u in_memory run (
        rw (c.state, update_self, update-update)
          (iput-shared k (with_minode t k (edited f (referenced (t.m_inodes k)))) more
            ∙ rw (update_self, update-update, back)))
      where
        live : 0 < (t.m_inodes k).ref_count
        live = ground (arith, c.found)

        more : 1 < (update t.m_inodes k (edited f (referenced (t.m_inodes k))) k).ref_count
        more = rw update_self (omega (arith, live))

        back : counted (edited f (referenced (t.m_inodes k))) ≡ edited f (t.m_inodes k)
        back = ground arith

    in_memory-Edited : cached t.m_inodes dev (suc n) ≡ some k → Edited t dev n f in_memory
    in_memory-Edited e = record {
      self =
          ap (λ (b : Buf). trim inode_size b)
            (ap (inode_at in_memory dev n) (sym (same_holds dev (suc n)) ∙ e)
              ∙ ap (λ (m : Minode). m.inode) (update_self t.m_inodes k _)
              ∙ ap (λ (c : Option ℕ). f (inode_at t dev n c)) (sym e));
      others = λ d m ne.
          node_of-same t in_memory d m (λ j. holds-update t.m_inodes d (suc m) k j _ refl)
            (λ j h. kept d m ne j h) refl;
      refs = λ j. ref_count-update t.m_inodes k j _ refl;
      rest = refl;
    }
      where
        same_holds : (d i : ℕ) → cached t.m_inodes d i ≡ cached in_memory.m_inodes d i
        same_holds d i =
            cached-same t.m_inodes in_memory.m_inodes d i
              (λ j. holds-update t.m_inodes d i k j _ refl)

        found : holds dev (suc n) (t.m_inodes k) ≡ true
        found = (cached-hit t.m_inodes dev (suc n) k e).1

        kept :
            (d m : ℕ)
            → (d ≢ dev) ⊎ (m ≢ n)
            → (j : ℕ) → holds d (suc m) (t.m_inodes j) ≡ true
            → (in_memory.m_inodes j).inode ≡ (t.m_inodes j).inode
        kept d m ne j h = elim (ℕ_discrete j k) [
          | yes same ↦ absurd (apart d m ne (rw same at h))
          | no other ↦ rw (update_ne t.m_inodes k _ j other) refl
        ]
          where
            apart : (d m : ℕ) → (d ≢ dev) ⊎ (m ≢ n) → ¬ (holds d (suc m) (t.m_inodes k) ≡ true)
            apart d m (inl ne) h = ne (ground (arith, found))
            apart d m (inr ne) h = ne (ground (arith, found))

  -- It is not: it changes on the disk.
  module _ (k : ℕ) (free : (t.m_inodes k).ref_count ≡ 0) where
    abbrev left : Minode
    left = closed (edited f (loaded t.image dev n (t.m_inodes k)))

    abbrev on_disk : Sim
    on_disk = record (with_minode t k left) {
      image = store_inode t.image dev n (f (load_inode t.image dev n));
    }

    on_disk-run :
        (u : Sim)
        → iget dev (suc n) t ≡ ok (some k) u
        → Loaded dev n t k u
        → edit_found dev (suc n) f t ≡ ok done on_disk
    on_disk-run u run l = edit_found-run dev (suc n) k f t u on_disk run (
        rw (l.state, update_self, update-update)
          (iput-last k n (with_minode t k (edited f (loaded t.image dev n (t.m_inodes k))))
              (rw update_self (omega arith)) (rw update_self refl)
            ∙ rw (update_self, update-update)))

    on_disk-Edited :
        InTable t.image dev n → cached t.m_inodes dev (suc n) ≡ none → Edited t dev n f on_disk
    on_disk-Edited table e = record {
      self =
          ap (λ (c : Option ℕ). trim inode_size (inode_at on_disk dev n c))
            (sym (cached-same t.m_inodes on_disk.m_inodes dev (suc n) (λ j. same dev (suc n) j))
              ∙ e)
          ∙ ap (λ (b : Buf). trim inode_size b)
              (load-store_self t.image dev n (f (load_inode t.image dev n)) table)
          ∙ trim-trim inode_size (f (load_inode t.image dev n))
          ∙ ap (λ (c : Option ℕ). trim inode_size (f (inode_at t dev n c))) (sym e);
      others = λ d m ne.
          node_of-same t on_disk d m (λ j. same d (suc m) j) (λ j h. kept d m j h)
            (load-store_ne t.image dev n _ d m table ne);
      refs = λ j. ref_count-update t.m_inodes k j _ (sym free);
      rest = refl;
    }
      where
        same : (d i j : ℕ) → holds d i (t.m_inodes j) ≡ holds d i (on_disk.m_inodes j)
        same d i j =
            holds-update t.m_inodes d i k j left (unused-holds d i (t.m_inodes k) left free refl)

        kept :
            (d m j : ℕ)
            → holds d (suc m) (t.m_inodes j) ≡ true
            → (on_disk.m_inodes j).inode ≡ (t.m_inodes j).inode
        kept d m j h = elim (ℕ_discrete j k) [
          | yes at ↦ absurd (dead (rw at at h))
          | no other ↦ rw (update_ne t.m_inodes k left j other) refl
        ]
          where
            dead : ¬ (holds d (suc m) (t.m_inodes k) ≡ true)
            dead h = ground (arith, free)

-- On a state with room, a change of an inode of the inode table returns.
pub edit_found-Edited :
    (t : Sim) (dev n : ℕ) (f : Buf → Buf)
    → HasRoom t
    → InTable t.image dev n
    → (v : Sim) × (edit_found dev (suc n) f t ≡ ok done v) × Edited t dev n f v
edit_found-Edited t dev n f room table = go (cached t.m_inodes dev (suc n)) refl
  where
    missed :
        cached t.m_inodes dev (suc n) ≡ none
        → (r : Option ℕ) × (u : Sim) × (iget dev (suc n) t ≡ ok r u) × Got dev n t r u
        → (v : Sim) × (edit_found dev (suc n) f t ≡ ok done v) × Edited t dev n f v
    missed e (none, u, run, full) = absurd (
        omega (
          arith,
          full.all_live room.slot (omega arith) (omega (arith, room.in_table)),
          room.unused,
        ))
    missed e (some k, u, run, inl c) =
        let gone =
          cached-none t.m_inodes dev (suc n) e k (omega arith) (omega (arith, c.in_table)) in
        cc (c.found, gone)
    missed e (some k, u, run, inr l) = (
      on_disk t dev n f k l.unused,
      on_disk-run t dev n f k l.unused u run l,
      on_disk-Edited t dev n f k l.unused table e,
    )

    go :
        (c : Option ℕ)
        → cached t.m_inodes dev (suc n) ≡ c
        → (v : Sim) × (edit_found dev (suc n) f t ≡ ok done v) × Edited t dev n f v
    go none e = missed e (iget-Got dev n t)
    go (some k) e =
        let (u, run, c) = iget-cached t dev n k e in
        (in_memory t dev n f k, in_memory-run t dev n f k u run c, in_memory-Edited t dev n f k e)
