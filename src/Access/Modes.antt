-- ===== src/Access/Modes.antt =====
-- The fields of a mode of 16 bits, checked over all modes: the type in the upper four, and three
-- bits each for the owner, the group and the others.
use cpts.Base.{
  ℕ, ◌+◌, ◌*◌, ◌/◌, ◌%◌, ◌<◌, ◌≡◌, Bool, true, not, ◌&&◌, ◌||◌, ◌==◌, leb, arith, refl, subst,
  bit_and, holds_to, from_table,
}

abbrev mode_row : ℕ → Bool
mode_row m =
    (bit_and m 0xF000 == m / 4096 * 4096)
    && ((bit_and m 0o700 / 64 == m / 64 % 8)
        && ((bit_and m 0o070 / 8 == m / 8 % 8) && (bit_and m 0o007 == m % 8)))

mode_table : holds_to (λ hi. holds_to (λ lo. mode_row (256 * hi + lo)) 255) 255 ≡ true
unfolding holds_to
mode_table = refl

pub mode_fields :
    (m : ℕ)
    → m < 65536
    → (bit_and m 0xF000 ≡ m / 4096 * 4096)
      × ((bit_and m 0o700 / 64 ≡ m / 64 % 8)
          × ((bit_and m 0o070 / 8 ≡ m / 8 % 8) × (bit_and m 0o007 ≡ m % 8)))
mode_fields m h = ground (arith, row)
  where
    whole : 256 * (m / 256) + m % 256 ≡ m
    whole = omega arith

    row : mode_row m ≡ true
    row =
        subst (λ x. mode_row x ≡ true) whole
          (from_table (λ lo. mode_row (256 * (m / 256) + lo)) 255 (m % 256) (omega arith)
            (from_table (λ hi. holds_to (λ lo. mode_row (256 * hi + lo)) 255) 255 (m / 256)
              (omega arith) mode_table))

-- Every bit of `perm` (4 to read, 2 to write, 1 to execute) is a bit of `d`.
abbrev pub allows : ℕ → ℕ → Bool
allows d perm = leb (perm % 2) (d % 2) && (leb (perm / 2 % 2) (d / 2 % 2) && leb (perm / 4) (d / 4))

allows_row : ℕ → ℕ → Bool
allows_row d perm =
    ((bit_and d perm == perm) && allows d perm)
    || (not (bit_and d perm == perm) && not (allows d perm))

allows_table : holds_to (λ d. holds_to (allows_row d) 7) 7 ≡ true
unfolding holds_to allows_row
allows_table = refl

pub bit_and-allows : (d perm : ℕ) → d < 8 → perm < 8 → (bit_and d perm == perm) ≡ allows d perm
unfolding allows_row
bit_and-allows d perm h k = ground (arith, row)
  where
    row : allows_row d perm ≡ true
    row =
        from_table (allows_row d) 7 perm (omega arith)
          (from_table (λ d. holds_to (allows_row d) 7) 7 d (omega arith) allows_table)
