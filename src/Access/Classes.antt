-- ===== src/Access/Classes.antt =====
-- `has_perm` by the class of the process, and what `chmod` makes of it.
use cpts.Base.{
  ℕ, ◌+◌, ◌*◌, ◌/◌, ◌%◌, ◌≤◌, ◌<◌, ◌≡◌, inl, Bool, true, ◌==◌, if◌then◌else◌, arith, ap, ◌∙◌, sym,
  bit_and,
}
use cpts.Bytes.{Buf, IsBytes, u16}
use cpts.Bytes.Fields.{u16-lt, put_u16-IsBytes, u16-put_u16_self, u16-put_u16-Apart}
use cpts.Sim.{Proc}
use cpts.Minodes.Inode.{i_mode, set_i_mode, i_uid, i_gid, has_type}
use cpts.Access.{class_bits, has_perm}
use cpts.Access.Modes.{mode_fields, allows, bit_and-allows}
use cpts.Files.Attributes.{chmod_bits}

-- The octal digit of a mode for a process: the owner's, the group's or that of all others.
abbrev pub class_digit : Proc → Buf → ℕ → ℕ
class_digit p ip mode =
    if i_uid ip == p.uid
    then mode / 64 % 8
    else if i_gid ip == p.gid
    then mode / 8 % 8
    else mode % 8

-- Process 0 may do everything; any other may do what the digit of its class allows.
abbrev pub may : Proc → Buf → ℕ → ℕ → Bool
may p ip mode perm = if p.uid == 0 then true else allows (class_digit p ip mode) perm

i_mode-lt : (b : Buf) → IsBytes b → i_mode b < 65536
unfolding i_mode
i_mode-lt b h = u16-lt b 0 h

class_bits-class_digit :
    (p : Proc) (ip : Buf) → IsBytes ip → class_bits p.uid p.gid ip ≡ class_digit p ip (i_mode ip)
unfolding class_bits
class_bits-class_digit p ip h =
    let f = mode_fields (i_mode ip) (i_mode-lt ip h) in rw (f.1.0, f.1.1.0, f.1.1.1)

-- For a permission below 8, `has_perm` gives the superuser every permission, and any other process
-- what the octal digit of its class in the mode allows: that of the owner for the owner, else that
-- of the group for its group, else that of the others.
pub has_perm-may :
    (p : Proc) (ip : Buf) (perm : ℕ)
    → IsBytes ip
    → perm < 8
    → has_perm p ip perm ≡ may p ip (i_mode ip) perm
unfolding has_perm
has_perm-may p ip perm h small =
    rw (
      class_bits-class_digit p ip h,
      bit_and-allows (class_digit p ip (i_mode ip)) perm digit small,
    )
  where
    digit : class_digit p ip (i_mode ip) < 8
    digit = ground arith

chmod_bits-i_mode :
    (mode : ℕ) (b : Buf)
    → IsBytes b
    → mode ≤ 0o777
    → i_mode (chmod_bits mode b) ≡ i_mode b / 4096 * 4096 + mode
unfolding chmod_bits set_i_mode i_mode
chmod_bits-i_mode mode b h le =
    let lt = u16-lt b 0 h in
    u16-put_u16_self _ 0 _
    ∙ rw (u16-put_u16_self b 0 (bit_and (u16 b 0) 0xF000), (mode_fields (u16 b 0) lt).0)
        (omega (arith, lt))

chmod_bits-i_uid : (mode : ℕ) (b : Buf) → i_uid (chmod_bits mode b) ≡ i_uid b
unfolding chmod_bits set_i_mode i_uid
chmod_bits-i_uid mode b =
    u16-put_u16-Apart _ 0 2 _ (inl (omega arith)) ∙ u16-put_u16-Apart b 0 2 _ (inl (omega arith))

chmod_bits-i_gid : (mode : ℕ) (b : Buf) → i_gid (chmod_bits mode b) ≡ i_gid b
unfolding chmod_bits set_i_mode i_gid
chmod_bits-i_gid mode b =
    u16-put_u16-Apart _ 0 24 _ (inl (omega arith)) ∙ u16-put_u16-Apart b 0 24 _ (inl (omega arith))

chmod_bits-IsBytes : (mode : ℕ) (b : Buf) → IsBytes b → IsBytes (chmod_bits mode b)
unfolding chmod_bits set_i_mode
chmod_bits-IsBytes mode b h = put_u16-IsBytes _ _ _ (put_u16-IsBytes _ _ _ h)

-- The type bits above do not reach the digits.
digit_of :
    (k mode : ℕ) (p : Proc) (ip : Buf) → class_digit p ip (k * 4096 + mode) ≡ class_digit p ip mode
digit_of k mode p ip = ground arith

-- `chmod` with a mode of up to 0777 keeps the type of a file and its owner and group, and
-- `has_perm` then decides by the new mode.
pub chmod_bits-may :
    (mode : ℕ) (b : Buf)
    → IsBytes b
    → mode ≤ 0o777
    → ((t : ℕ) → has_type t (chmod_bits mode b) ≡ has_type t b)
      × ((p : Proc) (perm : ℕ) → perm < 8 → has_perm p (chmod_bits mode b) perm ≡ may p b mode perm)
unfolding has_type
chmod_bits-may mode b h le = (kept, by_mode)
  where
    kept : (t : ℕ) → has_type t (chmod_bits mode b) ≡ has_type t b
    kept t =
        let old = mode_fields (i_mode b) (i_mode-lt b h) in
        let new =
          mode_fields (i_mode (chmod_bits mode b)) (i_mode-lt _ (chmod_bits-IsBytes mode b h)) in
        ap (λ x. x == t)
          (new.0 ∙ rw (chmod_bits-i_mode mode b h le) (omega (arith, le)) ∙ sym old.0)

    by_mode :
        (p : Proc) (perm : ℕ) → perm < 8 → has_perm p (chmod_bits mode b) perm ≡ may p b mode perm
    by_mode p perm small =
        has_perm-may p (chmod_bits mode b) perm (chmod_bits-IsBytes mode b h) small
        ∙ rw (
          chmod_bits-i_mode mode b h le,
          chmod_bits-i_uid mode b,
          chmod_bits-i_gid mode b,
          digit_of (i_mode b / 4096) mode p b,
        )
