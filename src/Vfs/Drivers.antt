-- ===== src/Vfs/Drivers.antt =====
-- The tables of calls of srv/vfs/rootfs.c and bootfs.c, and the mounts that vfs_main of vfs.c makes.
pub mod Starting
pub mod Files
use mathlib.Core.Option
use openblt.Prelude.{
  ℕ, ℤ, pos, Option, none, some, List, [], ◌∷◌, ◌++◌, ◌==◌, if◌then◌else◌, length,
}
use openblt.Vfs.Vnode.{Vnode, Cookie, VnodeOps, FsType, Superblock, Stat}
use openblt.Vfs.Rootfs.{
  Rootfs, rootfs_walk, rootfs_mount, rootfs_mkdir, rootfs_opendir, rootfs_rewinddir, rootfs_readdir,
}
use openblt.Vfs.Bootfs.{
  BootEntry, Bootfs, bootfs_walk, bootfs_mount, bootfs_opendir, bootfs_rewinddir, bootfs_readdir,
  bootfs_open, bootfs_read, bootfs_rstat,
}
use openblt.Vfs.Server.{Vfs, Client, VfsRes, vfs_mount, vfs_mkdir, fs_register}
use openblt.Vfs.Server.Calls.{vfs_read}

-- The state of the two file systems.
pub record World : Type 0 where
  pub root : Rootfs
  pub boot : Bootfs

-- rootfs_closedir does nothing.
unfoldable pub rootfs_vnode_ops : VnodeOps World
rootfs_vnode_ops = record {
  walk = λ parent path w. rootfs_walk parent path w.root;
  mount = λ super w. let (v, r) = rootfs_mount super w.root in (pos 0, v, record w { root = r });
  mkdir = some (λ parent name w.
      Option.map (λ (r : ℤ × Rootfs). (r.0, record w { root = r.1 }))
        (rootfs_mkdir parent name w.root));
  opendir = some (λ dir w. rootfs_opendir dir w.root);
  closedir = some (λ dir w. w);
  free_dircookie = none;
  rewinddir = rootfs_rewinddir;
  readdir = rootfs_readdir;
  open_file = none;
  close = none;
  free_cookie = none;
  read = none;
  rstat = none;
}

module _ (mem : ℕ → ℕ) where
  -- bootfs_read, which returns 0.
  abbrev pub read_boot : Vnode → ℕ → ℕ → World → Option (ℕ × List ℕ)
  read_boot vnode count offset w =
      Option.map (λ (bs : List ℕ). (0, bs)) (bootfs_read mem vnode count offset w.boot)

  -- bootfs_closedir and bootfs_close do nothing. `bootdir` is the address that area_clone gives for the area of the
  -- boot directory, and `entries` is what it holds.
  unfoldable pub bootfs_vnode_ops : ℕ → List BootEntry → VnodeOps World
  bootfs_vnode_ops bootdir entries = record {
    walk = λ parent path w. some (bootfs_walk parent path w.boot);
    mount = λ super w.
        let (v, b) = bootfs_mount super bootdir entries w.boot in (pos 0, v, record w { boot = b });
    mkdir = none;
    opendir = some (λ dir w. bootfs_opendir dir w.boot);
    closedir = some (λ dir w. w);
    free_dircookie = none;
    rewinddir = bootfs_rewinddir;
    readdir = bootfs_readdir;
    open_file = some (λ vnode w. Option.map (λ (c : Cookie). (0, c)) (bootfs_open vnode w.boot));
    close = some (λ vnode w. (0, w));
    free_cookie = some (λ w. w);
    read = some read_boot;
    rstat = some (λ vnode w. Option.map (λ (s : Stat). (0, s)) (bootfs_rstat vnode w.boot));
  }

abbrev pub name_of_rootfs : List ℕ
name_of_rootfs = b'r' ∷ b'o' ∷ b'o' ∷ b't' ∷ b'f' ∷ b's' ∷ []

abbrev pub name_of_bootfs : List ℕ
name_of_bootfs = b'b' ∷ b'o' ∷ b'o' ∷ b't' ∷ b'f' ∷ b's' ∷ []

abbrev pub boot_path : List ℕ
boot_path = b'/' ∷ b'b' ∷ b'o' ∷ b'o' ∷ b't' ∷ []

-- The server before anything is mounted; `supers` is what the memory holds.
abbrev pub before_start : World → (ℕ → Superblock World) → List (FsType World) → Vfs World
before_start w supers drivers = record {
  world = w;
  supers = supers;
  mount_list = [];
  fs_drivers = drivers;
}

-- vfs_main before its loop; `super` and `super'` are the addresses of the two superblocks.
pub vfs_start :
    (ℕ → ℕ) → ℕ → List BootEntry → ℕ → ℕ → World → (ℕ → Superblock World) → Option (Vfs World)
unfolding rootfs_vnode_ops bootfs_vnode_ops
vfs_start mem bootdir entries super super' w supers =
    let rootfs : FsType World = record { name = name_of_rootfs; t_vops = rootfs_vnode_ops } in
    let bootfs : FsType World = record {
      name = name_of_bootfs;
      t_vops = bootfs_vnode_ops mem bootdir entries;
    } in
    let drivers = (fs_register bootfs (fs_register rootfs []).1).1 in
    let root = vfs_mount (b'/' ∷ []) name_of_rootfs super (before_start w supers drivers) in
    Option.map (λ (made : ℤ × Vfs World). (vfs_mount boot_path name_of_bootfs super' made.1).1)
      (vfs_mkdir boot_path root.1)
