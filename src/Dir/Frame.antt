-- ===== src/Dir/Frame.antt =====
-- Entries stay where the bytes under them stay, and chains of entries join.
use cpts.Base.{ℕ, zero, suc, ◌+◌, ◌-◌, ◌%◌, ◌≤◌, ◌<◌, ◌≡◌, List, [], ◌∷◌, ◌++◌, arith, refl, ◌∙◌}
use cpts.Bytes.{Buf, u16, u32, put_u8, put_u16, put_u32}
use cpts.Bytes.Fields.{u32-put_u32_self}
use cpts.Text.{Text, length, get_or, text_at, put_text}
use cpts.Dir.{entry_inode, rec_len, name_len, raw_name, write_entry}
use cpts.Dir.Listing.{Entry, Chain}

-- The buffers agree from `j` up to `end`.
abbrev pub Agree : Buf → Buf → ℕ → ℕ → Type 0
Agree b c j end = (i : ℕ) → j ≤ i → i < end → c i ≡ b i

pub u16-Agree :
    (b c : Buf) (o j end : ℕ) → Agree b c j end → j ≤ o → o + 2 ≤ end → u16 c o ≡ u16 b o
unfolding u16
u16-Agree b c o j end h p q =
    omega (arith, h o (omega arith) (omega arith), h (o + 1) (omega arith) (omega arith))

pub u32-Agree :
    (b c : Buf) (o j end : ℕ) → Agree b c j end → j ≤ o → o + 4 ≤ end → u32 c o ≡ u32 b o
unfolding u32
u32-Agree b c o j end h p q = omega (
  arith,
  h o (omega arith) (omega arith),
  h (o + 1) (omega arith) (omega arith),
  h (o + 2) (omega arith) (omega arith),
  h (o + 3) (omega arith) (omega arith),
)

pub text_at-Agree :
    (b c : Buf) (o n j end : ℕ)
    → Agree b c j end
    → j ≤ o
    → o + n ≤ end
    → text_at c o n ≡ text_at b o n
unfolding text_at
text_at-Agree b c o zero j end h p q = refl
text_at-Agree b c o (suc n) j end h p q = rw (
  h o (omega arith) (omega arith),
  text_at-Agree b c (o + 1) n j end h (omega arith) (omega arith),
)

pub Chain-Agree :
    (b c : Buf) (j end : ℕ) (es : List Entry)
    → Agree b c j end
    → Chain b j end es
    → Chain c j end es
Chain-Agree b c j end [] h e = e
Chain-Agree b c j end (e ∷ es) h (x, r) = (
  record {
    ino = u32-Agree b c j j end h (omega arith) (omega (arith, x.inside, x.holds_name)) ∙ x.ino;
    name = rw len (text_at-Agree b c (j + 8) (name_len b j) j end h (omega arith) fits ∙ x.name);
    holds_name = rw (len, rec) x.holds_name;
    inside = rw rec x.inside;
  },
  rw rec
      (Chain-Agree b c (j + rec_len b j) end es (λ i p q. h i (omega (arith, x.holds_name)) q) r),
)
  where
    fits : j + 8 + name_len b j ≤ end
    fits = omega (arith, x.inside, x.holds_name)

    len : name_len c j ≡ name_len b j
    len = h (j + 6) (omega arith) (omega (arith, fits))

    rec : rec_len c j ≡ rec_len b j
    rec = u16-Agree b c (j + 4) j end h (omega arith) (omega (arith, fits))

pub Chain-le : (b : Buf) (j end : ℕ) (es : List Entry) → Chain b j end es → j ≤ end
Chain-le b j end [] c = omega arith
Chain-le b j end (e ∷ es) c = omega (arith, c.0.inside)

pub Chain-append :
    (b : Buf) (j mid end : ℕ) (es fs : List Entry)
    → Chain b j mid es
    → Chain b mid end fs
    → Chain b j end (es ++ fs)
Chain-append b j mid end [] fs c d = rw c d
Chain-append b j mid end (e ∷ es) fs (x, c) d = (
  record {
    ino = x.ino;
    name = x.name;
    holds_name = x.holds_name;
    inside = omega (arith, x.inside, Chain-le b mid end fs d);
  },
  Chain-append b (j + rec_len b j) mid end es fs c d,
)

-- Where the entries behind `es` begin.
unfoldable pub offset_of : Buf → ℕ → List Entry → ℕ
offset_of b j [] = j
offset_of b j (e ∷ es) = offset_of b (j + rec_len b j) es

pub Chain-split :
    (b : Buf) (j end : ℕ) (es fs : List Entry)
    → Chain b j end (es ++ fs)
    → Chain b j (offset_of b j es) es × Chain b (offset_of b j es) end fs
unfolding offset_of
Chain-split b j end [] fs c = (refl, c)
Chain-split b j end (e ∷ es) fs (x, c) =
    let (p, q) = Chain-split b (j + rec_len b j) end es fs c in
    (
      (
        record {
          ino = x.ino;
          name = x.name;
          holds_name = x.holds_name;
          inside = Chain-le b (j + rec_len b j) _ es p;
        },
        p,
      ),
      q,
    )

get_or-text :
    (c : Buf) (o : ℕ) (s : Text)
    → ((k : ℕ) → k < length s → c (o + k) ≡ get_or s k)
    → text_at c o (length s) ≡ s
unfolding text_at
get_or-text c o [] h = refl
get_or-text c o (x ∷ xs) h = rw (here, get_or-text c (o + 1) xs later)
  where
    here : c o ≡ x
    here = let e : o + 0 ≡ o = omega arith in rw e at (h 0 (omega arith))

    later : (k : ℕ) → k < length xs → c (o + 1 + k) ≡ get_or xs k
    later k p = let e : o + suc k ≡ o + 1 + k = omega arith in rw e at (h (suc k) (omega arith))

module _ (b : Buf) (o ino : ℕ) (name : Text) (rec : ℕ) (short : length name < 256) where
  written_len : put_u8 (put_u32 b o ino) (o + 6) (length name) (o + 6) ≡ length name
  unfolding put_u8
  written_len = ground arith

  number_kept : Agree (put_u32 b o ino) (write_entry b o ino name rec) o (o + 4)
  unfolding write_entry put_u8 put_u16 put_text
  number_kept i p q = ground arith

  pub write_entry-inode : entry_inode (write_entry b o ino name rec) o ≡ ino % 4294967296
  write_entry-inode =
      u32-Agree (put_u32 b o ino) _ o o (o + 4) number_kept (omega arith) (omega arith)
      ∙ u32-put_u32_self b o ino

  pub write_entry-rec_len : rec_len (write_entry b o ino name rec) o ≡ rec % 65536
  unfolding write_entry u16 put_u16
  write_entry-rec_len = ground arith

  pub write_entry-name_len : name_len (write_entry b o ino name rec) o ≡ length name
  unfolding write_entry put_u16 put_text put_u8
  write_entry-name_len = ground arith

  pub write_entry-name : raw_name (write_entry b o ino name rec) o ≡ name
  unfolding write_entry put_u16 put_text
  write_entry-name = rw write_entry-name_len (get_or-text _ (o + 8) name bytes)
    where
      bytes : (k : ℕ) → k < length name → write_entry b o ino name rec (o + 8 + k) ≡ get_or name k
      bytes k p =
          let e : o + 8 + k - (o + 8) ≡ k = omega arith in rw (written_len, e) (ground arith)

  pub write_entry-Agree :
      (end : ℕ) → end ≤ o → (i : ℕ) → i < end → write_entry b o ino name rec i ≡ b i
  unfolding write_entry put_u16 put_text put_u8 put_u32
  write_entry-Agree end le i p = ground arith
