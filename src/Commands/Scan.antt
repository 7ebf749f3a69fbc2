-- ===== src/Commands/Scan.antt =====
-- The conversions of `sscanf` that the commands use: `%u` and `%o` to the 32 bits of an `int`, and
-- `%d`. A number that has no 32-bit value makes the call undefined.
use cpts.Base.{
  ℕ, ◌+◌, ◌-◌, ◌*◌, ◌%◌, Bool, true, false, ◌&&◌, ◌||◌, Option, none, some, [], ◌∷◌, ltb, leb, ◌==◌,
  if◌then◌else◌,
}
use cpts.Text.{Text}

pub data Scanned : Type 0 where
  matched : ℕ → Scanned
  unmatched undefined_value : Scanned

-- `isspace`
abbrev is_blank : ℕ → Bool
is_blank c = c == b' ' || (leb 9 c && leb c 13)

unfoldable pub skip_blanks : Text → Text
skip_blanks [] = []
skip_blanks (c ∷ cs) = if is_blank c then skip_blanks cs else c ∷ cs

abbrev pub is_digit : ℕ → ℕ → Bool
is_digit base c = leb b'0' c && ltb c (b'0' + base)

-- The value of the digits at the front, behind those of `acc`.
unfoldable pub digits : ℕ → ℕ → Text → ℕ
digits base acc [] = acc
digits base acc (c ∷ cs) =
    let rest = digits base (acc * base + (c - b'0')) cs in if is_digit base c then rest else acc

-- A number has one digit at least.
unfoldable pub magnitude : ℕ → Text → Option ℕ
unfolding digits
magnitude base [] = none
magnitude base (c ∷ cs) = if is_digit base c then some (digits base 0 (c ∷ cs)) else none

-- The sign, and what follows it.
unfoldable pub sign_of : Text → Bool × Text
sign_of [] = (false, [])
sign_of (c ∷ cs) =
    if c == b'-' then (true, cs) else if c == b'+' then (false, cs) else (false, c ∷ cs)

-- The 32 bits of a number with its sign, where its size is at most `top` if it is positive and
-- `bottom` if it is negative.
abbrev bits_of : ℕ → ℕ → Bool → Option ℕ → Scanned
bits_of top bottom negative none = unmatched
bits_of top bottom true (some v) =
    if leb v bottom then matched ((4294967296 - v) % 4294967296) else undefined_value
bits_of top bottom false (some v) = if leb v top then matched v else undefined_value

unfoldable pub scan_int : ℕ → ℕ → ℕ → Text → Scanned
unfolding skip_blanks sign_of magnitude
scan_int base top bottom text =
    let (negative, rest) = sign_of (skip_blanks text) in
    bits_of top bottom negative (magnitude base rest)

-- `%u`, `%o` and `%d`
abbrev pub scan_u : Text → Scanned
scan_u text = scan_int 10 4294967295 4294967295 text

abbrev pub scan_o : Text → Scanned
scan_o text = scan_int 8 4294967295 4294967295 text

abbrev pub scan_d : Text → Scanned
scan_d text = scan_int 10 2147483647 2147483648 text
