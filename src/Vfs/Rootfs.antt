-- ===== src/Vfs/Rootfs.antt =====
-- srv/vfs/rootfs.c: the file system of the root, a list of names.
pub mod Names
pub mod Listing
use mathlib.Core.Option
use openblt.Prelude.{
  ℕ, ◌+◌, ◌==◌, ℤ, pos, negsuc, Bool, true, false, Option, none, some, List, [], ◌∷◌, ◌++◌,
  if◌then◌else◌, update, zero, suc,
}
use openblt.Vfs.Vnode.{
  Vnode, Dirent, Cookie, directory, vget, same_text, dirent_for, rewind, Entry, read_entry,
}

pub record RootfsInode : Type 0 where
  pub i_ino : ℕ
  pub i_name : List ℕ

-- inode_max, and sb_data by the address of the superblock.
pub record Rootfs : Type 0 where
  pub inode_max : ℕ
  pub sb_data : ℕ → List RootfsInode

-- The new inode and the next number.
unfoldable pub rootfs_inew : List ℕ → ℕ → RootfsInode × ℕ
rootfs_inew name inode_max = (record { i_ino = inode_max; i_name = name }, inode_max + 1)

-- The search of rootfs_read_vnode.
abbrev pub has_inode : ℕ → List RootfsInode → Bool
has_inode ino [] = false
has_inode ino (i ∷ is) = if i.i_ino == ino then true else has_inode ino is

unfoldable pub rootfs_read_vnode : Rootfs → Vnode → ℤ × Vnode
rootfs_read_vnode r vnode =
    if has_inode vnode.v_vnid (r.sb_data vnode.v_sb)
    then (pos 0, record vnode { v_data = some vnode.v_vnid })
    else (negsuc 0, vnode)

pub rootfs_drop_vnode : Vnode → Vnode
rootfs_drop_vnode vnode = record vnode { v_data = none }

-- sb_root and the file system after the call, which returns 0.
unfoldable pub rootfs_mount : ℕ → Rootfs → Vnode × Rootfs
unfolding rootfs_inew rootfs_read_vnode
rootfs_mount super r =
    let first = rootfs_inew (b'.' ∷ []) r.inode_max in
    let second = rootfs_inew (b'.' ∷ b'.' ∷ []) first.1 in
    let r' : Rootfs = record {
      inode_max = second.1;
      sb_data = update r.sb_data super (first.0 ∷ second.0 ∷ []);
    } in
    (vget (λ (v : Vnode). (rootfs_read_vnode r' v).1) super 0, r')

-- The list from the inode of that number on.
abbrev pub inodes_from : ℕ → List RootfsInode → List RootfsInode
inodes_from ino [] = []
inodes_from ino (i ∷ is) = if i.i_ino == ino then i ∷ is else inodes_from ino is

abbrev pub find_name : List ℕ → List RootfsInode → Option ℕ
find_name path [] = none
find_name path (i ∷ is) = if same_text i.i_name path then some i.i_ino else find_name path is

-- The vnode, or that there is none of the name; `none` where parent->v_data was not set.
unfoldable pub rootfs_walk : Vnode → List ℕ → Rootfs → Option (Option Vnode)
unfolding rootfs_read_vnode
rootfs_walk parent path r =
    Option.map
      (λ (ino : ℕ).
        Option.map (vget (λ (v : Vnode). (rootfs_read_vnode r v).1) parent.v_sb)
          (find_name path (inodes_from ino (r.sb_data parent.v_sb))))
      parent.v_data

-- The list with the inode at its end; an empty list has no last inode to chain it to.
abbrev pub chain_inode : RootfsInode → List RootfsInode → Option (List RootfsInode)
chain_inode i [] = none
chain_inode i (x ∷ xs) = some ((x ∷ xs) ++ i ∷ [])

unfoldable pub rootfs_mkdir : Vnode → List ℕ → Rootfs → Option (ℤ × Rootfs)
unfolding rootfs_inew
rootfs_mkdir parent name r =
    let new = rootfs_inew name r.inode_max in
    if parent.v_vnid == 0
    then Option.map
        (λ (is : List RootfsInode).
          (pos 0, record { inode_max = new.1; sb_data = update r.sb_data parent.v_sb is }))
        (chain_inode new.0 (r.sb_data parent.v_sb))
    else some (negsuc 0, r)

-- The entries in `ds` come behind those of the inodes, the last inode first.
unfoldable pub list_inodes : List RootfsInode → List Dirent → List Dirent
list_inodes [] ds = ds
list_inodes (i ∷ is) ds = list_inodes is (dirent_for i.i_ino i.i_name ∷ ds)

abbrev pub enotdir : ℕ
enotdir = 20

-- The error, and the cookie where there is none.
unfoldable pub rootfs_opendir : Vnode → Rootfs → ℕ × Option Cookie
unfolding list_inodes
rootfs_opendir dir r =
    let head = list_inodes (r.sb_data dir.v_sb) [] in
    if dir.v_vnid == 0 then (0, some (directory head head)) else (enotdir, none)

unfoldable pub rootfs_rewinddir : Cookie → Option Cookie
rootfs_rewinddir c = rewind c

unfoldable pub rootfs_readdir : Cookie → Option Entry
rootfs_readdir c = read_entry c
