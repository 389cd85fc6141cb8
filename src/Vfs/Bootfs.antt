-- ===== src/Vfs/Bootfs.antt =====
-- srv/vfs/bootfs.c: the files that were loaded at boot, in one area of memory behind their directory.
--
-- The address of the area is what area_clone gave, and the entries are those of the boot directory there.
pub mod Reading
use mathlib.Core.Option
use openblt.Prelude.{
  ℕ, ◌+◌, ◌-◌, ◌*◌, ◌/◌, ◌%◌, ◌==◌, ◌||◌, ltb, leb, Bool, true, false, Option, none, some, List, [],
  ◌∷◌, ◌++◌, if◌then◌else◌, update, zero, suc, take,
}
use openblt.Vfs.Vnode.{
  Vnode, Dirent, Cookie, directory, file, vget, same_text, dirent_for, rewind, Entry, read_entry,
  Stat,
}

-- boot_entry
pub record BootEntry : Type 0 where
  pub be_name : List ℕ
  pub be_offset : ℕ
  pub be_type : ℕ
  pub be_vsize : ℕ

pub record BootfsInode : Type 0 where
  pub i_ino : ℕ
  pub i_offset : ℕ
  pub i_size : ℕ
  pub i_name : List ℕ

pub record BootfsData : Type 0 where
  pub d_bootdir : ℕ
  pub inode_list : List BootfsInode

-- inode_max, and sb_data by the address of the superblock.
pub record Bootfs : Type 0 where
  pub inode_max : ℕ
  pub sb_data : ℕ → BootfsData

-- The name is cut to 31 characters.
abbrev pub bootfs_inew : List ℕ → ℕ → ℕ → ℕ → BootfsInode
bootfs_inew name offset size inode_max = record {
  i_ino = inode_max;
  i_offset = offset;
  i_size = size;
  i_name = take 31 name;
}

-- BE_TYPE_NONE or BOOTDIR_DIRECTORY, which is SBBB/Directory.
abbrev pub is_skipped : BootEntry → Bool
is_skipped be =
    (be.be_type == 0)
    || same_text be.be_name (
        b'S' ∷ b'B' ∷ b'B' ∷ b'B' ∷ b'/' ∷ b'D' ∷ b'i' ∷ b'r' ∷ b'e' ∷ b'c' ∷ b't' ∷ b'o' ∷ b'r'
        ∷ b'y' ∷ [])

-- The loop of bootfs_mount: the inodes and the next number.
pub boot_inodes : List BootEntry → List BootfsInode → ℕ → List BootfsInode × ℕ
boot_inodes [] is n = (is, n)
boot_inodes (be ∷ bes) is n =
    let skipped = boot_inodes bes is n in
    let made = boot_inodes bes (bootfs_inew be.be_name be.be_offset be.be_vsize n ∷ is) (n + 1) in
    if is_skipped be then skipped else made

abbrev pub find_inode : ℕ → List BootfsInode → Option BootfsInode
find_inode ino [] = none
find_inode ino (i ∷ is) = if i.i_ino == ino then some i else find_inode ino is

-- Where there is no such inode, v_data is left as it was, and the result is 0 all the same.
abbrev pub set_data : Vnode → Option BootfsInode → Vnode
set_data vnode none = vnode
set_data vnode (some i) = record vnode { v_data = some i.i_ino }

pub bootfs_read_vnode : Bootfs → Vnode → Vnode
bootfs_read_vnode b vnode =
    set_data vnode (find_inode vnode.v_vnid (b.sb_data vnode.v_sb).inode_list)

-- sb_root and the file system after the call, which returns 0.
pub bootfs_mount : ℕ → ℕ → List BootEntry → Bootfs → Vnode × Bootfs
unfolding boot_inodes bootfs_read_vnode
bootfs_mount super bootdir entries b =
    let dots =
      bootfs_inew (b'.' ∷ []) 0 0 b.inode_max
      ∷ bootfs_inew (b'.' ∷ b'.' ∷ []) 0 0 (b.inode_max + 1)
      ∷ [] in
    let made = boot_inodes entries dots (b.inode_max + 2) in
    let b' : Bootfs = record {
      inode_max = made.1;
      sb_data = update b.sb_data super (record { d_bootdir = bootdir; inode_list = made.0 });
    } in
    (vget (bootfs_read_vnode b') super 0, b')

abbrev pub find_file : List ℕ → List BootfsInode → Option ℕ
find_file path [] = none
find_file path (i ∷ is) = if same_text i.i_name path then some i.i_ino else find_file path is

pub bootfs_walk : Vnode → List ℕ → Bootfs → Option Vnode
unfolding bootfs_read_vnode
bootfs_walk parent path b =
    if parent.v_vnid == 0
    then Option.map (vget (bootfs_read_vnode b) parent.v_sb)
        (find_file path (b.sb_data parent.v_sb).inode_list)
    else none

-- The entries in `ds` come behind those of the inodes, the last inode first.
pub list_files : List BootfsInode → List Dirent → List Dirent
list_files [] ds = ds
list_files (i ∷ is) ds = list_files is (dirent_for i.i_ino i.i_name ∷ ds)

-- The error, ENOTDIR, and the cookie where there is none.
pub bootfs_opendir : Vnode → Bootfs → ℕ × Option Cookie
unfolding list_files
bootfs_opendir dir b =
    let head = list_files (b.sb_data dir.v_sb).inode_list [] in
    if dir.v_vnid == 0 then (0, some (directory head head)) else (20, none)

pub bootfs_rewinddir : Cookie → Option Cookie
bootfs_rewinddir c = rewind c

pub bootfs_readdir : Cookie → Option Entry
bootfs_readdir c = read_entry c

-- vnode->v_data
abbrev pub data_inode : Vnode → Bootfs → Option BootfsInode
data_inode vnode b =
    Option.bind vnode.v_data (λ (ino : ℕ). find_inode ino (b.sb_data vnode.v_sb).inode_list)

pub bootfs_open : Vnode → Bootfs → Option Cookie
unfolding Option.bind
bootfs_open vnode b =
    Option.map (λ (i : BootfsInode). file ((b.sb_data vnode.v_sb).d_bootdir + i.i_offset * 4096) 0)
      (data_inode vnode b)

-- The bytes from an address on.
unfoldable pub bytes_at : (ℕ → ℕ) → ℕ → ℕ → List ℕ
bytes_at mem a zero = []
bytes_at mem a (suc n) = mem a ∷ bytes_at mem (a + 1) n

-- The bytes that are copied to the buffer; their number is numread.
unfoldable pub read_inode : (ℕ → ℕ) → ℕ → BootfsInode → ℕ → ℕ → List ℕ
unfolding bytes_at
read_inode mem bootdir i count offset =
    if leb i.i_size offset
    then []
    else bytes_at mem (bootdir + i.i_offset * 4096 + offset)
        (if leb count (i.i_size - offset) then count else i.i_size - offset)

unfoldable pub bootfs_read : (ℕ → ℕ) → Vnode → ℕ → ℕ → Bootfs → Option (List ℕ)
unfolding read_inode Option.bind
bootfs_read mem vnode count offset b =
    Option.map (λ (i : BootfsInode). read_inode mem (b.sb_data vnode.v_sb).d_bootdir i count offset)
      (data_inode vnode b)

abbrev pub stat_of : BootfsInode → Stat
stat_of i = record {
  st_ino = i.i_ino;
  st_nlink = 0;
  st_uid = 0;
  st_gid = 0;
  st_blksize = 512;
  st_size = i.i_size;
  st_blocks = if i.i_size % 4096 == 0 then i.i_size / 4096 else i.i_size / 4096 + 1;
}

pub bootfs_rstat : Vnode → Bootfs → Option Stat
unfolding Option.bind
bootfs_rstat vnode b = Option.map stat_of (data_inode vnode b)
