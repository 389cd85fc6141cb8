-- ===== src/Vfs/Server.antt =====
-- srv/vfs/fs.c, super.c and vfs.c: the mounted file systems and the calls of the clients.
--
-- What area_clone, port_create and malloc return, and the strings of a client, are arguments. `none` says that the
-- code follows NULL or reads what was not set.
pub mod Calls
pub mod Mounts
pub mod Descriptors
pub mod Directories
pub mod Opening
use mathlib.Core.Option
use openblt.Prelude.{
  ℕ, ◌+◌, ◌-◌, ◌==◌, ltb, ℤ, pos, eq_ℤ, Bool, true, false, ◌&&◌, Option, none, some, List, [], ◌∷◌,
  ◌++◌, if◌then◌else◌, update, zero, suc, length,
}
use openblt.Vfs.Vnode.{Vnode, Cookie, VnodeOps, Superblock, FsType, Stat, same_text, begins}
use openblt.Vfs.Path.{path_combine}

module _ {W : Type 0} where
  -- The driver is behind the others, unless its name is that of one before the last.
  abbrev pub fs_register : FsType W → List (FsType W) → ℕ × List (FsType W)
  fs_register driver [] = (0, driver ∷ [])
  fs_register driver (p ∷ []) = (0, p ∷ driver ∷ [])
  fs_register driver (p ∷ q ∷ ps) =
      let rest = fs_register driver (q ∷ ps) in
      if same_text p.name driver.name then (1, p ∷ q ∷ ps) else (rest.0, p ∷ rest.1)

  -- The loop of fs_find, with best and bestlen.
  abbrev pub find_best : (ℕ → Superblock W) → List ℕ → List ℕ → Option ℕ → ℕ → Option ℕ
  find_best supers node [] best bestlen = best
  find_best supers node (super ∷ mounts) best bestlen =
      let dir = (supers super).sb_dir in
      let better = find_best supers node mounts (some super) (length dir) in
      let same = find_best supers node mounts best bestlen in
      if begins dir node && ltb bestlen (length dir) then better else same

  abbrev pub find_driver : List ℕ → List (FsType W) → Option (FsType W)
  find_driver type [] = none
  find_driver type (p ∷ ps) = if same_text p.name type then some p else find_driver type ps

-- The state of the file systems, the superblocks by their addresses, and the addresses of those that are mounted.
pub record Vfs (W : Type 0) : Type 0 where
  pub world : W
  pub supers : ℕ → Superblock W
  pub mount_list : List ℕ
  pub fs_drivers : List (FsType W)

pub record Ofile : Type 0 where
  pub o_vnode : Vnode
  pub o_cookie : Option Cookie
  pub area : ℕ
  pub offset : ℕ
  pub len : ℕ
  pub o_pos : Option ℕ

pub record Client : Type 0 where
  pub input : ℕ
  pub output : ℕ
  pub filename_area : ℕ
  pub nameptr : ℕ
  pub cwd : List ℕ
  pub ofile : ℕ → Option Ofile

-- vfs_res_t; the first word of the data is the descriptor or the port.
pub record VfsRes : Type 0 where
  pub status : ℕ
  pub errno : ℕ
  pub data0 : Option ℕ

abbrev pub vfs_ok : ℕ
vfs_ok = 1

abbrev pub vfs_error : ℕ
vfs_error = 2

abbrev pub enoent : ℕ
enoent = 2

abbrev pub ebadf : ℕ
ebadf = 9

abbrev pub emfile : ℕ
emfile = 24

abbrev pub enosys : ℕ
enosys = 78

abbrev pub max_fds : ℕ
max_fds = 256

abbrev pub failed : ℕ → VfsRes
failed e = record { status = vfs_error; errno = e; data0 = none }

-- The error of a file system, and the status that it makes.
abbrev pub answered : ℕ → Option ℕ → VfsRes
answered e d = record { status = if e == 0 then vfs_ok else vfs_error; errno = e; data0 = d }

-- for (i = 0; i < MAX_FDS; i++) if (ofile[i] == NULL) break, with `n` to go.
abbrev pub is_null : {A : Type 0} → Option A → Bool
is_null none = true
is_null (some x) = false

abbrev pub free_descriptor : (ℕ → Option Ofile) → ℕ → ℕ → ℕ
free_descriptor ofile zero i = i
free_descriptor ofile (suc n) i =
    let next = free_descriptor ofile n (i + 1) in if is_null (ofile i) then i else next

-- A descriptor of a client, which the code does not test.
abbrev pub ofile_at : Client → ℕ → Option (Option Ofile)
ofile_at client fd = if ltb fd max_fds then some (client.ofile fd) else none

-- path + strlen (sb_dir) + 1
abbrev pub behind_mount : List ℕ → List ℕ → Option (List ℕ)
behind_mount [] [] = none
behind_mount [] (c ∷ path) = some path
behind_mount (d ∷ dir) [] = none
behind_mount (d ∷ dir) (c ∷ path) = behind_mount dir path

-- dir + strlen (sb_dir)
abbrev pub from_mount : List ℕ → List ℕ → List ℕ
from_mount [] path = path
from_mount (d ∷ dir) [] = []
from_mount (d ∷ dir) (c ∷ path) = from_mount dir path

abbrev pub vfs_openconn : ℕ → ℕ → ℕ → ℕ → VfsRes × Client
vfs_openconn rport area private_port nameptr = (
  record { status = vfs_ok; errno = 0; data0 = some private_port },
  record {
    input = rport;
    output = private_port;
    filename_area = area;
    nameptr = nameptr;
    cwd = b'/' ∷ [];
    ofile = λ i. none;
  },
)

module _ {W : Type 0} where
  abbrev pub fs_find : List ℕ → Vfs W → Option ℕ
  fs_find node v = find_best v.supers node v.mount_list none 0

  -- The new superblock of a driver, and the mounted list where the driver returns 0.
  abbrev pub mounted : List ℕ → ℕ → VnodeOps W → Vfs W → ℤ × Vfs W
  mounted dir super ops v =
      let (res, root, w) = ops.mount super v.world in
      let supers = update v.supers super (record { sb_dir = dir; sb_root = root; sb_vops = ops }) in
      (
        res,
        record v {
          world = w;
          supers = supers;
          mount_list = if eq_ℤ res (pos 0) then super ∷ v.mount_list else v.mount_list;
        },
      )

  abbrev pub mount_driver : List ℕ → ℕ → Option (FsType W) → Vfs W → ℤ × Vfs W
  mount_driver dir super none v = (pos 1, v)
  mount_driver dir super (some driver) v = mounted dir super driver.t_vops v

  -- `super` is the address of the new superblock.
  abbrev pub vfs_mount : List ℕ → List ℕ → ℕ → Vfs W → ℤ × Vfs W
  vfs_mount dir type super v = mount_driver dir super (find_driver type v.fs_drivers) v

  abbrev pub mkdir_on :
      List ℕ
      → Superblock W
      → Option (Vnode → List ℕ → W → Option (ℤ × W))
      → Vfs W
      → Option (ℤ × Vfs W)
  mkdir_on dir sb none v = some (pos enosys, v)
  mkdir_on dir sb (some mkdir) v =
      Option.map (λ (r : ℤ × W). (r.0, record v { world = r.1 }))
        (mkdir sb.sb_root (from_mount sb.sb_dir dir) v.world)

  -- A path that is in no mounted file system makes it follow NULL.
  unfoldable pub vfs_mkdir : List ℕ → Vfs W → Option (ℤ × Vfs W)
  unfolding Option.bind
  vfs_mkdir dir v =
      Option.bind (fs_find dir v)
        (λ (super : ℕ). mkdir_on dir (v.supers super) (v.supers super).sb_vops.mkdir v)
