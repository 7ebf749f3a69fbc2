-- ===== src/Alloc/Bitmap.antt =====
-- The bits of a bitmap buffer after `set_bit` and `clr_bit`.
use cpts.Base.{
  ℕ, ◌/◌, ◌%◌, ◌≡◌, ◌≢◌, ◌⊎◌, Bool, true, false, not, ◌==◌, arith, set_byte-lt, set_byte_self,
  set_byte_ne, clr_byte-lt, clr_byte_self, clr_byte_ne,
}
use cpts.Bytes.{Buf, IsBytes}
use cpts.Alloc.{tst_bit, set_bit, clr_bit}

-- Bit `i` of the bitmap is set: the item is taken.
unfoldable pub taken : Buf → ℕ → Bool
taken b i = not (tst_bit b i == 0)

apart : (i j : ℕ) → i ≢ j → (i / 8 ≢ j / 8) ⊎ (i % 8 ≢ j % 8)
apart i j ne = ground arith

pub taken-set_bit_self : (b : Buf) (i : ℕ) → IsBytes b → taken (set_bit b i) i ≡ true
unfolding taken tst_bit set_bit
taken-set_bit_self b i h = ground (arith, set_byte_self (b (i / 8)) (i % 8) (h (i / 8)))

pub taken-set_bit_ne : (b : Buf) (i j : ℕ) → IsBytes b → i ≢ j → taken (set_bit b i) j ≡ taken b j
unfolding taken tst_bit set_bit
taken-set_bit_ne b i j h ne =
    ground (arith, apart i j ne, set_byte_ne (b (j / 8)) (i % 8) (j % 8) (h (j / 8)))

pub taken-clr_bit_self : (b : Buf) (i : ℕ) → IsBytes b → taken (clr_bit b i) i ≡ false
unfolding taken tst_bit clr_bit
taken-clr_bit_self b i h = ground (arith, clr_byte_self (b (i / 8)) (i % 8) (h (i / 8)))

pub taken-clr_bit_ne : (b : Buf) (i j : ℕ) → IsBytes b → i ≢ j → taken (clr_bit b i) j ≡ taken b j
unfolding taken tst_bit clr_bit
taken-clr_bit_ne b i j h ne =
    ground (arith, apart i j ne, clr_byte_ne (b (j / 8)) (i % 8) (j % 8) (h (j / 8)))

pub set_bit-IsBytes : (b : Buf) (i : ℕ) → IsBytes b → IsBytes (set_bit b i)
unfolding set_bit
set_bit-IsBytes b i h k = ground (arith, h k, set_byte-lt (b k) (i % 8) (h k))

pub clr_bit-IsBytes : (b : Buf) (i : ℕ) → IsBytes b → IsBytes (clr_bit b i)
unfolding clr_bit
clr_bit-IsBytes b i h k = ground (arith, h k, clr_byte-lt (b k) (i % 8) (h k))
