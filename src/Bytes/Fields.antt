-- ===== src/Bytes/Fields.antt =====
-- What a field holds after a write to it or to another field.
use cpts.Base.{ℕ, ◌+◌, ◌-◌, ◌%◌, ◌≤◌, ◌<◌, ◌≡◌, ◌⊎◌, arith}
use cpts.Bytes.{Buf, IsBytes, put_u8, u16, put_u16, u32, put_u32, copy_in, trim}

-- The fields of `n` bytes at `o` and of `m` bytes at `p` share no byte.
abbrev pub Apart : ℕ → ℕ → ℕ → ℕ → Type 0
Apart o n p m = (o + n ≤ p) ⊎ (p + m ≤ o)

pub u16-lt : (b : Buf) (o : ℕ) → IsBytes b → u16 b o < 65536
unfolding u16
u16-lt b o h = omega (arith, h o, h (o + 1))

pub u32-lt : (b : Buf) (o : ℕ) → IsBytes b → u32 b o < 4294967296
unfolding u32
u32-lt b o h = omega (arith, h o, h (o + 1), h (o + 2), h (o + 3))

pub u16-put_u16_self : (b : Buf) (o v : ℕ) → u16 (put_u16 b o v) o ≡ v % 65536
unfolding u16 put_u16
u16-put_u16_self b o v = ground arith

pub u32-put_u32_self : (b : Buf) (o v : ℕ) → u32 (put_u32 b o v) o ≡ v % 4294967296
unfolding u32 put_u32
u32-put_u32_self b o v = ground arith

pub u16-put_u16-Apart : (b : Buf) (o p v : ℕ) → Apart o 2 p 2 → u16 (put_u16 b o v) p ≡ u16 b p
unfolding u16 put_u16
u16-put_u16-Apart b o p v h = ground arith

pub u32-put_u16-Apart : (b : Buf) (o p v : ℕ) → Apart o 2 p 4 → u32 (put_u16 b o v) p ≡ u32 b p
unfolding u32 put_u16
u32-put_u16-Apart b o p v h = ground arith

pub u16-put_u32-Apart : (b : Buf) (o p v : ℕ) → Apart o 4 p 2 → u16 (put_u32 b o v) p ≡ u16 b p
unfolding u16 put_u32
u16-put_u32-Apart b o p v h = ground arith

pub u32-put_u32-Apart : (b : Buf) (o p v : ℕ) → Apart o 4 p 4 → u32 (put_u32 b o v) p ≡ u32 b p
unfolding u32 put_u32
u32-put_u32-Apart b o p v h = ground arith

pub put_u8-IsBytes : (b : Buf) (o v : ℕ) → IsBytes b → IsBytes (put_u8 b o v)
unfolding put_u8
put_u8-IsBytes b o v h i = ground (arith, h i)

pub put_u16-IsBytes : (b : Buf) (o v : ℕ) → IsBytes b → IsBytes (put_u16 b o v)
unfolding put_u16
put_u16-IsBytes b o v h i = ground (arith, h i)

pub put_u32-IsBytes : (b : Buf) (o v : ℕ) → IsBytes b → IsBytes (put_u32 b o v)
unfolding put_u32
put_u32-IsBytes b o v h i = ground (arith, h i)

pub copy_in-IsBytes :
    (b : Buf) (o n : ℕ) (src : Buf) → IsBytes b → IsBytes src → IsBytes (copy_in b o n src)
unfolding copy_in
copy_in-IsBytes b o n src h k i = ground (arith, h i, k (i - o))

-- `trim` cuts off no field that lies in the first `n` bytes.
pub u16-trim : (n : ℕ) (b : Buf) (o : ℕ) → o + 2 ≤ n → u16 (trim n b) o ≡ u16 b o
unfolding u16 trim
u16-trim n b o h = ground arith

pub u32-trim : (n : ℕ) (b : Buf) (o : ℕ) → o + 4 ≤ n → u32 (trim n b) o ≡ u32 b o
unfolding u32 trim
u32-trim n b o h = ground arith
