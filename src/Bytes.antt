-- ===== src/Bytes.antt =====
-- Memory as the C code sees it: a buffer gives the byte at each offset, and the structures of
-- include/ext2fs/ext2_fs.h are read and written at their offsets, little endian, in fields of
-- one, two and four bytes.
pub mod Fields
use cpts.Base.{ℕ, ◌+◌, ◌-◌, ◌*◌, ◌/◌, ◌%◌, ◌<◌, Bool, ◌&&◌, ltb, leb, ◌==◌, if◌then◌else◌}

abbrev pub Buf : Type 0
Buf = ℕ → ℕ

-- Every cell holds a byte.
abbrev pub IsBytes : Buf → Type 0
IsBytes b = (i : ℕ) → b i < 256

-- `memset(buf, 0, n)` on a fresh buffer.
abbrev pub zeros : Buf
zeros i = 0

unfoldable pub put_u8 : Buf → ℕ → ℕ → Buf
put_u8 b o v i = if i == o then v % 256 else b i

unfoldable pub u16 : Buf → ℕ → ℕ
u16 b o = b o + 256 * b (o + 1)

unfoldable pub put_u16 : Buf → ℕ → ℕ → Buf
put_u16 b o v i = if i == o then v % 256 else if i == o + 1 then v / 256 % 256 else b i

unfoldable pub u32 : Buf → ℕ → ℕ
u32 b o = b o + 256 * b (o + 1) + 65536 * b (o + 2) + 16777216 * b (o + 3)

unfoldable pub put_u32 : Buf → ℕ → ℕ → Buf
put_u32 b o v i =
    if i == o
    then v % 256
    else if i == o + 1
    then v / 256 % 256
    else if i == o + 2
    then v / 65536 % 256
    else if i == o + 3
    then v / 16777216 % 256
    else b i

-- The offset lies in the `n` cells from `o`.
abbrev pub within : ℕ → ℕ → ℕ → Bool
within o n i = leb o i && ltb i (o + n)

-- `memcpy(b + o, src, n)`
unfoldable pub copy_in : Buf → ℕ → ℕ → Buf → Buf
copy_in b o n src i = if within o n i then src (i - o) else b i

-- The bytes from `o` on, as a buffer of its own: `b + o`.
abbrev pub shift : Buf → ℕ → Buf
shift b o i = b (o + i)

-- The first `n` bytes of a buffer, and nothing behind them.
unfoldable pub trim : ℕ → Buf → Buf
trim n b i = if ltb i n then b i else 0
