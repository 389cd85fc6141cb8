-- ===== src/Vfs/Server/Calls.antt =====
-- srv/vfs/vfs.c: the calls of a client on its files and directories.
use mathlib.Core.Option
use openblt.Prelude.{ℕ, ◌+◌, ◌==◌, Option, none, some, List, [], if◌then◌else◌, update, length}
use openblt.Vfs.Vnode.{Vnode, Cookie, VnodeOps, Superblock, Stat, same_text}
use openblt.Vfs.Path.{path_combine}
use openblt.Vfs.Server.{
  Vfs, Ofile, Client, VfsRes, fs_find, failed, answered, enoent, ebadf, emfile, enosys, max_fds,
  free_descriptor, ofile_at, behind_mount,
}

-- The area that area_clone gave for the client's, and the part of it that is for the file.
pub record Shared : Type 0 where
  pub area : ℕ
  pub offset : ℕ
  pub len : ℕ

abbrev pub new_ofile : Vnode → Option Cookie → Shared → Option ℕ → Ofile
new_ofile vnode cookie shared pos = record {
  o_vnode = vnode;
  o_cookie = cookie;
  area = shared.area;
  offset = shared.offset;
  len = shared.len;
  o_pos = pos;
}

-- The client with a descriptor set.
abbrev pub install : ℕ → Option Ofile → Client → Client
install fd o client = record client { ofile = update client.ofile fd o }

-- The bytes that were read, and the position behind them.
abbrev pub advanced : ℕ → Ofile → ℕ → Client → ℕ × List ℕ → VfsRes × List ℕ × Client
advanced fd o pos client (errno, bytes) = (
  answered errno (some (length bytes)),
  bytes,
  install fd (some (record o { o_pos = some (pos + length bytes) })) client,
)

-- shm_write does nothing, and leaves the two numbers of the result as they were.
pub vfs_scroll_area : ℕ → Client → Option VfsRes
unfolding Option.bind
vfs_scroll_area fd client =
    Option.bind (ofile_at client fd)
      (λ (o : Option Ofile). Option.map (λ (ofile : Ofile). answered 0 none) o)

module _ {W : Type 0} where
  -- vfs_opendir, from the call of the file system on.
  abbrev pub opendir_vnode :
      ℕ → Shared → (Vnode → W → ℕ × Option Cookie) → Option Vnode → Vfs W → Client → VfsRes × Client
  opendir_vnode i shared opendir none v client = (failed enoent, client)
  opendir_vnode i shared opendir (some vnode) v client =
      let (errno, cookie) = opendir vnode v.world in
      (answered errno (some i), install i (some (new_ofile vnode cookie shared none)) client)

  -- The vnode of the directory.
  abbrev pub directory_vnode : List ℕ → Superblock W → Vfs W → Option (Option Vnode)
  directory_vnode dir sb v =
      if same_text dir sb.sb_dir
      then some (some sb.sb_root)
      else Option.bind (behind_mount sb.sb_dir dir)
          (λ (path : List ℕ). sb.sb_vops.walk sb.sb_root path v.world)

  abbrev pub opendir_on :
      ℕ
      → List ℕ
      → Shared
      → Superblock W
      → Option (Vnode → W → ℕ × Option Cookie)
      → Vfs W
      → Client
      → Option (VfsRes × Client)
  opendir_on i dir shared sb none v client = some (failed enosys, client)
  opendir_on i dir shared sb (some opendir) v client =
      Option.map (λ (vnode : Option Vnode). opendir_vnode i shared opendir vnode v client)
        (directory_vnode dir sb v)

  abbrev pub opendir_found :
      ℕ → List ℕ → Shared → Option ℕ → Vfs W → Client → Option (VfsRes × Client)
  opendir_found i dir shared none v client = some (failed enoent, client)
  opendir_found i dir shared (some super) v client =
      opendir_on i dir shared (v.supers super) (v.supers super).sb_vops.opendir v client

  -- `buffer` is what strlcpy leaves in the memory of `dir`.
  unfoldable pub vfs_opendir : List ℕ → List ℕ → Shared → Vfs W → Client → Option (VfsRes × Client)
  unfolding Option.bind
  vfs_opendir reldir buffer shared v client =
      let i = free_descriptor client.ofile max_fds 0 in
      if i == max_fds
      then some (failed emfile, client)
      else Option.bind (path_combine client.cwd reldir buffer)
          (λ (dir : List ℕ). opendir_found i dir shared (fs_find dir v) v client)

  abbrev pub free_cookie_with : Option (Cookie → W → W) → Option Cookie → W → Option W
  free_cookie_with none cookie w = some w
  free_cookie_with (some free) none w = none
  free_cookie_with (some free) (some cookie) w = some (free cookie w)

  abbrev pub closedir_on :
      ℕ
      → ℕ
      → Ofile
      → VnodeOps W
      → Option (Vnode → W → W)
      → Vfs W
      → Client
      → Option (VfsRes × Client × Vfs W)
  closedir_on errno fd o ops none v client = some (failed enosys, client, v)
  closedir_on errno fd o ops (some closedir) v client =
      let w = closedir o.o_vnode v.world in
      Option.map (λ (w' : W). (answered 0 none, install fd none client, record v { world = w' }))
        (if errno == 0 then free_cookie_with ops.free_dircookie o.o_cookie w else some w)

  abbrev pub closedir_ofile :
      ℕ → ℕ → Option Ofile → Vfs W → Client → Option (VfsRes × Client × Vfs W)
  closedir_ofile errno fd none v client = some (failed ebadf, client, v)
  closedir_ofile errno fd (some o) v client =
      let ops = (v.supers o.o_vnode.v_sb).sb_vops in
      closedir_on errno fd o ops ops.closedir v client

  -- `errno` is what the new result holds in res->errno when it is read.
  unfoldable pub vfs_closedir : ℕ → ℕ → Vfs W → Client → Option (VfsRes × Client × Vfs W)
  unfolding Option.bind
  vfs_closedir errno fd v client =
      Option.bind (ofile_at client fd) (λ (o : Option Ofile). closedir_ofile errno fd o v client)

  -- vfs_open, from the call of the file system on.
  abbrev pub open_vnode :
      ℕ
      → Shared
      → (Vnode → W → Option (ℕ × Cookie))
      → Option Vnode
      → Vfs W
      → Client
      → Option (VfsRes × Client)
  open_vnode i shared opens none v client = some (failed enoent, client)
  open_vnode i shared opens (some vnode) v client =
      Option.map
        (λ (r : ℕ × Cookie). (
          answered r.0 (some i),
          install i (some (new_ofile vnode (some r.1) shared (some 0))) client,
        ))
        (opens vnode v.world)

  -- The vnode of a path in a file system; the path of the mount point itself has no character to go on with.
  abbrev pub file_vnode : List ℕ → Superblock W → Vfs W → Option (Option Vnode)
  file_vnode path sb v =
      Option.bind (behind_mount sb.sb_dir path)
        (λ (p : List ℕ). sb.sb_vops.walk sb.sb_root p v.world)

  abbrev pub open_on :
      ℕ
      → List ℕ
      → Shared
      → Superblock W
      → Option (Vnode → W → Option (ℕ × Cookie))
      → Vfs W
      → Client
      → Option (VfsRes × Client)
  open_on i path shared sb none v client = some (failed enosys, client)
  open_on i path shared sb (some opens) v client =
      Option.bind (file_vnode path sb v)
        (λ (vnode : Option Vnode). open_vnode i shared opens vnode v client)

  abbrev pub open_found : ℕ → List ℕ → Shared → Option ℕ → Vfs W → Client → Option (VfsRes × Client)
  open_found i path shared none v client = some (failed enoent, client)
  open_found i path shared (some super) v client =
      open_on i path shared (v.supers super) (v.supers super).sb_vops.open_file v client

  unfoldable pub vfs_open : List ℕ → Shared → Vfs W → Client → Option (VfsRes × Client)
  unfolding Option.bind
  vfs_open path shared v client =
      let i = free_descriptor client.ofile max_fds 0 in
      if i == max_fds
      then some (failed emfile, client)
      else open_found i path shared (fs_find path v) v client

  abbrev pub free_with : Option (W → W) → W → W
  free_with none w = w
  free_with (some free) w = free w

  abbrev pub close_on : Ofile → VnodeOps W → Option (Vnode → W → ℕ × W) → Vfs W → VfsRes × Vfs W
  close_on o ops none v = (failed enosys, v)
  close_on o ops (some close) v =
      let (errno, w) = close o.o_vnode v.world in
      (answered errno none, record v { world = free_with ops.free_cookie w })

  abbrev pub close_ofile : Option Ofile → Vfs W → VfsRes × Vfs W
  close_ofile none v = (failed ebadf, v)
  close_ofile (some o) v = let ops = (v.supers o.o_vnode.v_sb).sb_vops in close_on o ops ops.close v

  -- The client is left as it is.
  unfoldable pub vfs_close : ℕ → Vfs W → Client → Option (VfsRes × Vfs W)
  vfs_close fd v client = Option.map (λ (o : Option Ofile). close_ofile o v) (ofile_at client fd)

  abbrev pub read_on :
      ℕ
      → ℕ
      → Ofile
      → Option (Vnode → ℕ → ℕ → W → Option (ℕ × List ℕ))
      → Vfs W
      → Client
      → Option (VfsRes × List ℕ × Client)
  read_on fd count o none v client = some (failed enosys, [], client)
  read_on fd count o (some read) v client =
      Option.bind o.o_pos
        (λ (pos : ℕ). Option.map (advanced fd o pos client) (read o.o_vnode count pos v.world))

  abbrev pub read_ofile : ℕ → ℕ → Option Ofile → Vfs W → Client → Option (VfsRes × List ℕ × Client)
  read_ofile fd count none v client = some (failed ebadf, [], client)
  read_ofile fd count (some o) v client =
      read_on fd count o (v.supers o.o_vnode.v_sb).sb_vops.read v client

  -- A position that was never set is that of a directory.
  unfoldable pub vfs_read : ℕ → ℕ → Vfs W → Client → Option (VfsRes × List ℕ × Client)
  unfolding Option.bind
  vfs_read fd count v client =
      Option.bind (ofile_at client fd) (λ (o : Option Ofile). read_ofile fd count o v client)

  abbrev pub rstat_vnode :
      (Vnode → W → Option (ℕ × Stat)) → Option Vnode → Vfs W → Option (VfsRes × Option Stat)
  rstat_vnode rstat none v = some (failed enoent, none)
  rstat_vnode rstat (some vnode) v =
      Option.map (λ (r : ℕ × Stat). (answered r.0 none, some r.1)) (rstat vnode v.world)

  abbrev pub rstat_on :
      List ℕ
      → Superblock W
      → Option (Vnode → W → Option (ℕ × Stat))
      → Vfs W
      → Option (VfsRes × Option Stat)
  rstat_on path sb none v = some (failed enosys, none)
  rstat_on path sb (some rstat) v =
      Option.bind (file_vnode path sb v) (λ (vnode : Option Vnode). rstat_vnode rstat vnode v)

  abbrev pub rstat_found : List ℕ → Option ℕ → Vfs W → Option (VfsRes × Option Stat)
  rstat_found path none v = some (failed enoent, none)
  rstat_found path (some super) v = rstat_on path (v.supers super) (v.supers super).sb_vops.rstat v

  unfoldable pub vfs_rstat : List ℕ → Vfs W → Option (VfsRes × Option Stat)
  unfolding Option.bind
  vfs_rstat path v = rstat_found path (fs_find path v) v
