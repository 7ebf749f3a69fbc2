-- ===== src/Sim.antt =====
-- The simulator's state: the structures of src/type.h and the variables of src/global.c and
-- src/level2.c, and the monad in which the functions run. A pointer into a table is the index of
-- its element, and `none` is NULL. Printed messages are left out.
pub mod Monad
use cpts.Base.{
  ℕ, ◌≡◌, ◌≢◌, fun_ext, Bool, false, Option, none, List, [], if◌then◌else◌, ◌==◌, arith,
}
use cpts.Bytes.{Buf, zeros}
use cpts.Disk.{Image}

abbrev pub root_inode : ℕ
root_inode = 2

abbrev pub nminodes : ℕ
nminodes = 100

abbrev pub nmount : ℕ
nmount = 10

abbrev pub nproc : ℕ
nproc = 2

abbrev pub nfd : ℕ
nfd = 10

abbrev pub noft : ℕ
noft = 100

-- `inode` holds the bytes of the inode; the flags `dirty` and `mounted` are 0 or 1 in the source.
pub record Minode : Type 0 where
  pub inode : Buf
  pub mountptr : Option ℕ
  pub dev : ℕ
  pub ino : ℕ
  pub ref_count : ℕ
  pub dirty : Bool
  pub mounted : Bool

pub record Oft : Type 0 where
  pub inodeptr : Option ℕ
  pub mode : ℕ
  pub ref_count : ℕ
  pub offset : ℕ

pub record Proc : Type 0 where
  pub fd : ℕ → Option ℕ
  pub cwd : Option ℕ
  pub uid : ℕ
  pub pid : ℕ
  pub gid : ℕ

-- A name is the bytes in front of its NUL.
pub record Mount : Type 0 where
  pub mounted_inode : Option ℕ
  pub name : List ℕ
  pub mount_name : List ℕ
  pub dev : ℕ
  pub nblocks : ℕ
  pub ninodes : ℕ
  pub bmap : ℕ
  pub imap : ℕ
  pub iblk : ℕ

-- `clock` is what `time(0)` returns during a command; `image` is what the open files hold.
pub record Sim : Type 0 where
  pub image : Image
  pub proc : ℕ → Proc
  pub mounttab : ℕ → Mount
  pub m_inodes : ℕ → Minode
  pub oft : ℕ → Oft
  pub root : Option ℕ
  pub running : ℕ
  pub clock : ℕ

-- An assignment to one element of a table.
unfoldable pub update {ℓ} : {A : Type ℓ} → (ℕ → A) → ℕ → A → ℕ → A
update f i v j = if j == i then v else f j

module _ {ℓ} {A : Type ℓ} (f : ℕ → A) (i : ℕ) (v : A) where
  pub update_self : update f i v i ≡ v
  unfolding update
  update_self = ground arith

  pub update_ne : (j : ℕ) → j ≢ i → update f i v j ≡ f j
  unfolding update
  update_ne j ne = ground arith

  pub update-update : (w : A) → update (update f i v) i w ≡ update f i w
  unfolding update
  update-update w = fun_ext λ j. ground arith

pub update_id {ℓ} : {A : Type ℓ} (f : ℕ → A) (i : ℕ) → update f i (f i) ≡ f
unfolding update
update_id f i = fun_ext λ j. ground arith

-- What a static array holds at the start of the program.
abbrev pub no_minode : Minode
no_minode = record {
  inode = zeros;
  mountptr = none;
  dev = 0;
  ino = 0;
  ref_count = 0;
  dirty = false;
  mounted = false;
}

abbrev pub no_oft : Oft
no_oft = record { inodeptr = none; mode = 0; ref_count = 0; offset = 0 }

abbrev pub no_proc : Proc
no_proc = record { fd = λ i. none; cwd = none; uid = 0; pid = 0; gid = 0 }

abbrev pub no_mount : Mount
no_mount = record {
  mounted_inode = none;
  name = [];
  mount_name = [];
  dev = 0;
  nblocks = 0;
  ninodes = 0;
  bmap = 0;
  imap = 0;
  iblk = 0;
}
