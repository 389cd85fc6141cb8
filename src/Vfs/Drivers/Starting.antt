-- ===== src/Vfs/Drivers/Starting.antt =====
-- The start of the server in srv/vfs/vfs.c: what is mounted, and where.
use mathlib.Core.Option
use openblt.Prelude.{
  ℕ, ℤ, pos, negsuc, Bool, ap, if◌then◌else◌, ◌==◌, ◌≡◌, refl, false, List, [], ◌∷◌, ◌++◌, Option,
  none, some, ==_refl, update, true,
}
use openblt.Vfs.Vnode.{Vnode, Superblock}
use openblt.Vfs.Rootfs.{
  RootfsInode, has_inode, rootfs_mount, rootfs_mkdir, rootfs_inew, rootfs_read_vnode, rootfs_walk,
}
use openblt.Vfs.Rootfs.Names.{unmounted, vnode_of}
use openblt.Vfs.Bootfs.{BootEntry, Bootfs}
use openblt.Vfs.Server.{Vfs, vfs_mkdir}
use openblt.Vfs.Drivers.{World, vfs_start, rootfs_vnode_ops, bootfs_vnode_ops, boot_path}

-- The boot file system stands before the root in the mounted list, on a directory that the root has.
abbrev pub Started : ℕ → ℕ → Option (Vfs World) → Type 0
Started s s' none = ⊥
Started s s' (some v) =
    (v.mount_list ≡ s' ∷ s ∷ [])
    × ((v.supers s).sb_dir ≡ b'/' ∷ [])
    × ((v.supers s').sb_dir ≡ boot_path)
    × (rootfs_walk (v.supers s).sb_root (b'b' ∷ b'o' ∷ b'o' ∷ b't' ∷ []) v.world.root
        ≡ some (some (vnode_of s 2)))

-- The inodes of the root file system before and after mkdir of /boot.
abbrev dots : List RootfsInode
dots =
    record { i_ino = 0; i_name = b'.' ∷ [] } ∷ record { i_ino = 1; i_name = b'.' ∷ b'.' ∷ [] } ∷ []

abbrev with_boot : List RootfsInode
with_boot = dots ++ record { i_ino = 2; i_name = b'b' ∷ b'o' ∷ b'o' ∷ b't' ∷ [] } ∷ []

boot_there :
    (f : ℕ → List RootfsInode) (s : ℕ) → has_inode 2 (update (update f s dots) s with_boot s) ≡ true
boot_there f s = rw (==_refl s) refl

-- What the walk gives for /boot by whether its inode is there.
abbrev found_or_not : ℕ → Bool → Option (Option Vnode)
found_or_not s b =
    let fresh : Vnode = record { v_vnid = 2; v_refcount = 1; v_sb = s; v_data = none } in
    let result : ℤ × Vnode = if b then (pos 0, vnode_of s 2) else (negsuc 0, fresh) in
    some (some result.1)

-- Before the loop, with two superblocks at different addresses, vfs_main ends with the boot file
-- system mounted on /boot before the root file system on /, and the walk in the root for boot gives
-- the vnode of the inode that mkdir made.
pub vfs_start-Started :
    (mem : ℕ → ℕ) (bootdir : ℕ) (entries : List BootEntry) (s s' : ℕ) (f : ℕ → List RootfsInode)
    (b : Bootfs) (supers : ℕ → Superblock World)
    → (s == s') ≡ false
    → Started s s'
        (vfs_start mem bootdir entries s s' (record { root = unmounted f; boot = b }) supers)
unfolding vfs_start rootfs_vnode_ops bootfs_vnode_ops vfs_mkdir rootfs_mount rootfs_mkdir
    rootfs_inew rootfs_read_vnode rootfs_walk Option.bind
vfs_start-Started mem bootdir entries s s' f b supers ne = rw (==_refl s) (
    rw (==_refl s) (
      rw (==_refl s) (
        refl,
        rw (ne, ==_refl s) refl,
        rw (==_refl s') refl,
        rw (ne, ==_refl s) (rw (==_refl s) (ap (found_or_not s) (boot_there f s))),
      )))
