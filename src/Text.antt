-- ===== src/Text.antt =====
-- C strings: a text is the list of its bytes, without the NUL. Names in a buffer, and the copies of
-- `strncpy`.
use Prim.Native.Char.{code}
use Prim.Native.String.{String}
use cpts.Base.{
  ℕ, zero, suc, ◌+◌, ◌-◌, Bool, true, false, ◌&&◌, ◌||◌, List, [], ◌∷◌, ◌==◌, if◌then◌else◌,
}
use cpts.Bytes.{Buf, within}

abbrev pub Text : Type 0
Text = List ℕ

-- The bytes of a literal.
abbrev pub codes : String → Text
codes String.[] = []
codes (String.◌∷◌ c s) = code c ∷ codes s

abbrev pub length {ℓ} : {A : Type ℓ} → List A → ℕ
length [] = 0
length (x ∷ xs) = suc (length xs)

-- The byte at an offset of a text, and the NUL behind it.
abbrev pub get_or : Text → ℕ → ℕ
get_or [] i = 0
get_or (x ∷ xs) zero = x
get_or (x ∷ xs) (suc i) = get_or xs i

-- `strcmp(s, t) == 0`
unfoldable pub same_text : Text → Text → Bool
same_text [] [] = true
same_text [] (y ∷ ys) = false
same_text (x ∷ xs) [] = false
same_text (x ∷ xs) (y ∷ ys) = (x == y) && same_text xs ys

-- The `n` bytes of a buffer at `o`.
unfoldable pub text_at : Buf → ℕ → ℕ → Text
text_at b o zero = []
text_at b o (suc n) = b o ∷ text_at b (o + 1) n

-- A text up to its first NUL.
unfoldable pub c_str : Text → Text
c_str [] = []
c_str (x ∷ xs) = let rest = c_str xs in if x == 0 then [] else x ∷ rest

-- The first `n` bytes of `s` stored at `o`.
unfoldable pub put_text : Buf → ℕ → ℕ → Text → Buf
put_text b o n s i = if within o n i then get_or s (i - o) else b i

has_nul : Buf → ℕ → Bool
has_nul src zero = false
has_nul src (suc n) = (src n == 0) || has_nul src n

-- `strncpy(b + o, src, n)`, byte by byte from the first on: zeros behind a NUL of the source.
unfoldable pub strncpy : Buf → ℕ → ℕ → Buf → Buf
unfolding has_nul
strncpy b o n src i = if within o n i then (if has_nul src (i - o) then 0 else src (i - o)) else b i
