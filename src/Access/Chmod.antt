-- ===== src/Access/Chmod.antt =====
-- `chmod` of a path, and the access to the file after it.
use cpts.Base.{
  ℕ, suc, ◌+◌, ◌≤◌, ◌<◌, Option, none, some, ◌≡◌, refl, sym, ◌∙◌, ap, false, ltb, arith, subst,
}
use cpts.Bytes.{Buf, IsBytes, trim}
use cpts.Bytes.Fields.{u16-trim}
use cpts.Disk.{Image, inode_size}
use cpts.Disk.Laws.{IsImage, get_block-IsBytes}
use cpts.Text.{Text}
use cpts.Sim.{Sim, Proc}
use cpts.Sim.Monad.{ok}
use cpts.Minodes.{load_inode, inode_place}
use cpts.Minodes.Inode.{i_mode, i_uid, i_gid, has_type}
use cpts.Minodes.View.{cached, cached-hit, inode_at, node_of}
use cpts.Minodes.Transfer.{InTable}
use cpts.Minodes.Settled.{holds-live, IsSettled, HasRoom}
use cpts.Paths.Standing.{HasTop}
use cpts.Paths.Resolve.{StartsAt, path_ino}
use cpts.Files.{done}
use cpts.Files.Attributes.{chmod_bits, edit_path, file_chmod}
use cpts.Files.Edited.{Edited}
use cpts.Files.ByPath.{edit_path-Edited}
use cpts.Access.{has_perm}
use cpts.Access.Classes.{may, chmod_bits-may}

-- `node_of` on a settled state is what the disk has.
settled-node_of : (s : Sim) (dev n : ℕ) → IsSettled s → node_of s dev n ≡ load_inode s.image dev n
settled-node_of s dev n h = go (cached s.m_inodes dev (suc n)) refl
  where
    go :
        (c : Option ℕ)
        → cached s.m_inodes dev (suc n) ≡ c
        → inode_at s dev n c ≡ load_inode s.image dev n
    go none e = refl
    go (some k) e =
        let (lt, found) = cached-hit s.m_inodes dev (suc n) k e in
        let (live, ed, ei) = holds-live dev (suc n) (s.m_inodes k) found in
        h.current k n lt live ei ∙ ap (λ (d : ℕ). load_inode s.image d n) ed

load_inode-IsBytes : (img : Image) (dev n : ℕ) → IsImage img → IsBytes (load_inode img dev n)
unfolding load_inode trim
load_inode-IsBytes img dev n h i =
    let byte =
      get_block-IsBytes img dev (inode_place img dev n).0 h ((inode_place img dev n).1 + i) in
    ground (arith, byte)

-- The tests on an inode read its first 128 bytes.
i_mode-trim : (b : Buf) → i_mode (trim inode_size b) ≡ i_mode b
unfolding i_mode
i_mode-trim b = u16-trim inode_size b 0 (omega arith)

has_type-trim : (t : ℕ) (b : Buf) → has_type t (trim inode_size b) ≡ has_type t b
unfolding has_type
has_type-trim t b = rw (i_mode-trim b) refl

has_perm-trim :
    (p : Proc) (b : Buf) (perm : ℕ) → has_perm p (trim inode_size b) perm ≡ has_perm p b perm
unfolding has_perm i_mode i_uid i_gid
has_perm-trim p b perm =
    rw
      (
        u16-trim inode_size b 0 (omega arith),
        u16-trim inode_size b 2 (omega arith),
        u16-trim inode_size b 24 (omega arith),
      )
      refl

-- The same tests on two inodes with the same 128 bytes.
has_type-same :
    (t : ℕ) (a b : Buf) → trim inode_size a ≡ trim inode_size b → has_type t a ≡ has_type t b
has_type-same t a b e =
    sym (has_type-trim t a) ∙ ap (λ (x : Buf). has_type t x) e ∙ has_type-trim t b

has_perm-same :
    (p : Proc) (a b : Buf) (perm : ℕ)
    → trim inode_size a ≡ trim inode_size b
    → has_perm p a perm ≡ has_perm p b perm
has_perm-same p a b perm e =
    sym (has_perm-trim p a perm) ∙ ap (λ (x : Buf). has_perm p x perm) e ∙ has_perm-trim p b perm

file_chmod-allowed :
    (mode : ℕ) (path : Text)
    → mode ≤ 0o777
    → file_chmod mode path ≡ edit_path path (chmod_bits mode)
unfolding file_chmod
file_chmod-allowed mode path le = let e : ltb 0o777 mode ≡ false = ground arith in rw e refl

-- `chmod` with a mode of up to 0777 of a path on a device whose root is mounted and has an entry
-- "..", with nothing mounted below it, when no inode in memory has changed since it was read, a
-- minode is unused, the process has a working directory, the minode at which the path starts is in
-- use, and the image's bytes are below 256: when the path leads on the disk to an inode of the inode
-- table, whose block is not the group descriptor's, it returns 0, the inode is of the same type, and
-- `has_perm` decides by the new mode for its owner, its group and others as they were; every other
-- inode of every device, every reference count, and all but the minodes and the image is the same.
pub file_chmod-may :
    (s : Sim) (path : Text) (p mode n : ℕ)
    → IsSettled s
    → HasRoom s
    → StartsAt s path p
    → HasTop s (s.m_inodes p).dev
    → IsImage s.image
    → path_ino s p path ≡ suc n
    → InTable s.image (s.m_inodes p).dev n
    → mode ≤ 0o777
    → (v : Sim) × (file_chmod mode path s ≡ ok done v)
      × Edited s (s.m_inodes p).dev n (chmod_bits mode) v
      × ((t : ℕ)
          → has_type t (node_of v (s.m_inodes p).dev n)
            ≡ has_type t (node_of s (s.m_inodes p).dev n))
      × ((r : Proc) (perm : ℕ)
          → perm < 8
          → has_perm r (node_of v (s.m_inodes p).dev n) perm
            ≡ may r (node_of s (s.m_inodes p).dev n) mode perm)
file_chmod-may s path p mode n h room from top image e table le =
    let (v, edits, changed) =
      edit_path-Edited s path p (chmod_bits mode) h room from top n e table in
    let (kept, decides) = chmod_bits-may mode (node_of s dev n) bytes le in
    (
      v,
      ap (λ m. m s) (file_chmod-allowed mode path le) ∙ edits,
      changed,
      (λ t. has_type-same t _ _ changed.self ∙ kept t),
      (λ r perm lt. has_perm-same r _ _ perm changed.self ∙ decides r perm lt),
    )
  where
    dev : ℕ
    dev = (s.m_inodes p).dev

    bytes : IsBytes (node_of s dev n)
    bytes = subst IsBytes (sym (settled-node_of s dev n h)) (load_inode-IsBytes s.image dev n image)
