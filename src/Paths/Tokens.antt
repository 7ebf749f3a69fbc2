-- ===== src/Paths/Tokens.antt =====
-- `tokenize` gives back the names that a path was made of.
use mathlib.Core.List.{reverse, reverse_aux, reverse-reverse}
use cpts.Base.{ℕ, ◌≡◌, ◌≢◌, false, List, [], ◌∷◌, ◌++◌, ◌==◌, arith, refl, ap, ◌∙◌, sym, ==_refl}
use cpts.Text.{Text}
use cpts.Paths.{split_at, flush, tokenize}

-- A name has a byte at least, and no delimiter.
abbrev pub IsFree : ℕ → Text → Type 0
IsFree delim [] = Unit {0}
IsFree delim (c ∷ cs) = (c ≢ delim) × IsFree delim cs

abbrev pub AreNames : ℕ → List Text → Type 0
AreNames delim [] = Unit {0}
AreNames delim (t ∷ ts) = (t ≢ []) × (IsFree delim t × AreNames delim ts)

-- Each name behind a delimiter.
unfoldable pub join_path : ℕ → List Text → Text
join_path delim [] = []
join_path delim (t ∷ ts) = delim ∷ (t ++ join_path delim ts)

split_at-free :
    (delim : ℕ) (t rest cur : Text)
    → IsFree delim t
    → split_at delim (t ++ rest) cur ≡ split_at delim rest (reverse_aux t cur)
unfolding split_at
split_at-free delim [] rest cur h = refl
split_at-free delim (c ∷ cs) rest cur (ne, h) = rw other (split_at-free delim cs rest (c ∷ cur) h)
  where
    other : (c == delim) ≡ false
    other = ground arith

flush-reverse : (t : Text) (ts : List Text) → t ≢ [] → flush (reverse t) ts ≡ t ∷ ts
flush-reverse t ts ne = go (reverse t) refl
  where
    go : (r : Text) → reverse t ≡ r → flush r ts ≡ t ∷ ts
    go [] e = absurd (ne (sym (reverse-reverse t) ∙ ap reverse e))
    go (c ∷ cs) e = ap (λ u. u ∷ ts) (ap reverse (sym e) ∙ reverse-reverse t)

split_at-join_path :
    (delim : ℕ) (ts : List Text) (cur : Text)
    → AreNames delim ts
    → split_at delim (join_path delim ts) cur ≡ flush cur ts
unfolding split_at join_path
split_at-join_path delim [] cur h = refl
split_at-join_path delim (t ∷ ts) cur (ne, (free, h)) = rw (==_refl delim) (
    ap (flush cur) (
      split_at-free delim t (join_path delim ts) [] free
      ∙ split_at-join_path delim ts (reverse t) h
      ∙ flush-reverse t ts ne))

-- Names that are not empty and have no delimiter in them, each behind a delimiter, are what
-- `tokenize` gives back from the path that they make.
pub tokenize-join_path :
    (delim : ℕ) (ts : List Text) → AreNames delim ts → tokenize (join_path delim ts) delim ≡ ts
unfolding tokenize
tokenize-join_path delim ts h = split_at-join_path delim ts [] h
