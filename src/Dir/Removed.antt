-- ===== src/Dir/Removed.antt =====
-- `remove_entry` of the last entry in the first block of a directory.
use cpts.Base.{
  ℕ, zero, suc, ◌+◌, ◌-◌, ◌<◌, ◌≡◌, ◌≢◌, ◌⊎◌, true, false, List, [], ◌∷◌, ◌++◌, ◌==◌, ltb, arith,
  refl, ◌∙◌,
}
use cpts.Bytes.{Buf, put_u16}
use cpts.Bytes.Fields.{u16-put_u16_self}
use cpts.Disk.{block_size, get_block, put_block}
use cpts.Disk.Laws.{get_block-put_block_self, get_block-put_block_ne}
use cpts.Text.{Text, same_text, c_str}
use cpts.Sim.{Sim, update}
use cpts.Sim.Monad.{ok}
use cpts.Minodes.Inode.{i_block, mark_dirty}
use cpts.Dir.{rec_len, name_len, dir_fuel}
use cpts.Dir.Listing.{Entry, IsEntry, Chain}
use cpts.Dir.Frame.{
  Agree, u32-Agree, text_at-Agree, Chain-Agree, Chain-append, Chain-split, offset_of,
}
use cpts.Dir.Entered.{trim-Agree}
use cpts.Dir.Remove.{spot, find_entry, drop_last, remove_at, at_spot, remove_from, remove_entry}

-- No entry has the name, as `remove_entry` reads names: up to the first NUL.
abbrev pub NoneNamed : Text → List Entry → Type 0
NoneNamed name [] = Unit {0}
NoneNamed name (e ∷ es) = (same_text (c_str e.name) name ≡ false) × NoneNamed name es

-- The scan at the entry with the name, and at another one.
find_entry-hit :
    (fuel : ℕ) (b : Buf) (j pre : ℕ) (name : Text) (e : Entry)
    → IsEntry b j block_size e
    → same_text (c_str e.name) name ≡ true
    → find_entry (suc fuel) b j pre name ≡ spot j pre
unfolding find_entry
find_entry-hit fuel b j pre name e x hit = rw (x.name, hit, inside)
  where
    inside : ltb j block_size ≡ true
    inside = ground (arith, x.inside, x.holds_name)

pub find_entry-pass :
    (fuel : ℕ) (b : Buf) (j pre : ℕ) (name : Text) (e : Entry)
    → IsEntry b j block_size e
    → same_text (c_str e.name) name ≡ false
    → find_entry (suc fuel) b j pre name ≡ find_entry fuel b (j + rec_len b j) (rec_len b j) name
unfolding find_entry
find_entry-pass fuel b j pre name e x miss = rw (x.name, miss, inside)
  where
    inside : ltb j block_size ≡ true
    inside = ground (arith, x.inside, x.holds_name)

-- The scan ends at the last entry, behind `prev`.
find_entry-last :
    (fuel : ℕ) (b : Buf) (j pre : ℕ) (name : Text) (es : List Entry) (prev e : Entry)
    → block_size < fuel + j
    → Chain b j block_size (es ++ prev ∷ e ∷ [])
    → NoneNamed name (es ++ prev ∷ [])
    → same_text (c_str e.name) name ≡ true
    → find_entry fuel b j pre name
      ≡ spot (offset_of b j es + rec_len b (offset_of b j es)) (rec_len b (offset_of b j es))
unfolding offset_of
find_entry-last zero b j pre name [] prev e h c none hit = absurd (omega (arith, c.0.inside))
find_entry-last zero b j pre name (f ∷ es) prev e h c none hit = absurd (omega (arith, c.0.inside))
find_entry-last (suc zero) b j pre name [] prev e h c none hit =
    absurd (omega (arith, c.0.inside, c.0.holds_name))
find_entry-last (suc (suc fuel)) b j pre name [] prev e h c none hit =
    find_entry-pass (suc fuel) b j pre name prev c.0 none.0
    ∙ find_entry-hit fuel b (j + rec_len b j) (rec_len b j) name e c.1.0 hit
find_entry-last (suc fuel) b j pre name (f ∷ es) prev e h c none hit =
    find_entry-pass fuel b j pre name f c.0 none.0
    ∙ find_entry-last fuel b (j + rec_len b j) (rec_len b j) name es prev e
        (omega (arith, c.0.holds_name)) c.1 none.1 hit

-- The block after `prev` has taken the bytes of the last entry.
abbrev grown : Buf → ℕ → Buf
grown b p = put_u16 b (p + 4) (block_size - p)

module _ (b : Buf) (p : ℕ) (prev : Entry) (x : IsEntry b p block_size prev) where
  grown_below : Agree b (grown b p) 0 (p + 4)
  unfolding put_u16
  grown_below i l r = ground arith

  grown_above : Agree b (grown b p) (p + 6) block_size
  unfolding put_u16
  grown_above i l r = ground arith

  grown-rec_len : rec_len (grown b p) p ≡ block_size - p
  grown-rec_len = u16-put_u16_self b (p + 4) (block_size - p) ∙ omega arith

  grown-IsEntry : IsEntry (grown b p) p block_size prev
  grown-IsEntry = record {
    ino = u32-Agree b (grown b p) p 0 (p + 4) grown_below (omega arith) (omega arith) ∙ x.ino;
    name = rw len (
        text_at-Agree b (grown b p) (p + 8) (name_len b p) (p + 6) block_size grown_above
          (omega arith) (omega (arith, x.holds_name, x.inside))
        ∙ x.name);
    holds_name = rw (len, grown-rec_len) (omega (arith, x.holds_name, x.inside));
    inside = rw grown-rec_len (omega (arith, x.inside, x.holds_name));
  }
    where
      len : name_len (grown b p) p ≡ name_len b p
      len = grown_above (p + 6) (omega arith) (omega (arith, x.inside, x.holds_name))

grown-Chain :
    (b : Buf) (es : List Entry) (prev e : Entry)
    → Chain b 0 block_size (es ++ prev ∷ e ∷ [])
    → Chain (grown b (offset_of b 0 es)) 0 block_size (es ++ prev ∷ [])
grown-Chain b es prev e c =
    let p = offset_of b 0 es in
    let (front, back) = Chain-split b 0 block_size es (prev ∷ e ∷ []) c in
    Chain-append (grown b p) 0 p block_size es (prev ∷ [])
      (Chain-Agree b (grown b p) 0 p es (λ i l r. grown_below b p prev back.0 i l (omega arith))
        front)
      (
        grown-IsEntry b p prev back.0,
        rw (grown-rec_len b p prev back.0) (omega (arith, back.0.inside)),
      )

-- The bytes of the first block of a directory.
abbrev pub first_buf : Sim → ℕ → Buf
first_buf s mip = get_block s.image (s.m_inodes mip).dev (i_block (s.m_inodes mip).inode 0)

-- After the removal: these entries in the first block, a dirty minode, and nothing else changed.
pub record Removed (s : Sim) (mip : ℕ) (es : List Entry) (s' : Sim) : Type 0 where
  pub entries :
      Chain
        (get_block s'.image (s.m_inodes mip).dev (i_block (s.m_inodes mip).inode 0))
        0
        block_size
        es
  pub other_blocks :
      (d b : ℕ)
      → (d ≢ (s.m_inodes mip).dev) ⊎ (b ≢ i_block (s.m_inodes mip).inode 0)
      → get_block s'.image d b ≡ get_block s.image d b
  pub rest : s' ≡ record s {
    image = s'.image;
    m_inodes = update s.m_inodes mip (mark_dirty (s.m_inodes mip));
  }

-- A block with the name ends the search of `remove_entry`.
remove_from-spot :
    (n i mip : ℕ) (name : Text) (s : Sim) (len pre : ℕ)
    → i_block (s.m_inodes mip).inode i ≢ 0
    → find_entry dir_fuel
        (get_block s.image (s.m_inodes mip).dev (i_block (s.m_inodes mip).inode i))
        0
        0
        name
      ≡ spot len pre
    → remove_from (suc n) i mip name s
      ≡ remove_at mip i
          (get_block s.image (s.m_inodes mip).dev (i_block (s.m_inodes mip).inode i))
          len
          pre
          s
unfolding remove_from at_spot
remove_from-spot n i mip name s len pre block found = rw (has_block, found)
  where
    has_block : (i_block (s.m_inodes mip).inode i == 0) ≡ false
    has_block = ground (arith, block)

module _ (s : Sim) (mip : ℕ) (name : Text) (es : List Entry) (prev e : Entry)
    (block : i_block (s.m_inodes mip).inode 0 ≢ 0)
    (chain : Chain (first_buf s mip) 0 block_size (es ++ prev ∷ e ∷ [])) where
  p : ℕ
  p = offset_of (first_buf s mip) 0 es

  back : Chain (first_buf s mip) p block_size (prev ∷ e ∷ [])
  unfolding p
  back = (Chain-split (first_buf s mip) 0 block_size es (prev ∷ e ∷ []) chain).1

  cut : Sim
  unfolding p
  cut = record s {
    image =
        put_block s.image (s.m_inodes mip).dev (i_block (s.m_inodes mip).inode 0)
          (grown (first_buf s mip) p);
    m_inodes = update s.m_inodes mip (mark_dirty (s.m_inodes mip));
  }

  -- What `remove_entry` does at the last entry.
  remove_at-last :
      remove_at mip 0
        (first_buf s mip)
        (p + rec_len (first_buf s mip) p)
        (rec_len (first_buf s mip) p)
        s
      ≡ ok tt cut
  unfolding remove_at drop_last cut p
  remove_at-last = rw (not_only, ends, start)
    where
      b : Buf
      b = first_buf s mip

      len : ℕ
      len = offset_of b 0 es + rec_len b (offset_of b 0 es)

      not_only : (rec_len b len == block_size) ≡ false
      not_only = ground (arith, back.0.holds_name, back.1.0.inside)

      ends : (len + rec_len b len == block_size) ≡ true
      ends = ground (arith, back.1.1)

      start : len - rec_len b (offset_of b 0 es) ≡ offset_of b 0 es
      start = omega arith

  cut-Removed : Removed s mip (es ++ prev ∷ []) cut
  unfolding cut p
  cut-Removed = record {
    entries = rw get_block-put_block_self (
        Chain-Agree (grown (first_buf s mip) p) _ 0 block_size (es ++ prev ∷ []) (trim-Agree _)
          (grown-Chain (first_buf s mip) es prev e chain));
    other_blocks = λ d k h. get_block-put_block_ne s.image (s.m_inodes mip).dev _ _ d k h;
    rest = refl;
  }

-- `remove_entry` of a name that only the last entry of the first block has, behind at least one
-- other entry: the call returns, the block then lists the other entries, the minode is dirty, and
-- no other block and no other part of the state changes.
pub remove_entry-Removed :
    (s : Sim) (mip : ℕ) (name : Text) (es : List Entry) (prev e : Entry)
    → i_block (s.m_inodes mip).inode 0 ≢ 0
    → Chain (first_buf s mip) 0 block_size (es ++ prev ∷ e ∷ [])
    → NoneNamed name (es ++ prev ∷ [])
    → same_text (c_str e.name) name ≡ true
    → (s' : Sim) × (remove_entry mip name s ≡ ok tt s') × Removed s mip (es ++ prev ∷ []) s'
unfolding remove_entry p
remove_entry-Removed s mip name es prev e block chain none hit = (
  cut s mip name es prev e block chain,
  remove_from-spot 11 0 mip name s _ _ block
        (find_entry-last dir_fuel (first_buf s mip) 0 0 name es prev e (omega arith) chain none hit)
      ∙ remove_at-last s mip name es prev e block chain,
  cut-Removed s mip name es prev e block chain,
)
