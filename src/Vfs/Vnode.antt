-- ===== src/Vfs/Vnode.antt =====
-- srv/vfs/vfs-int.h and vnode.c: the objects that the server and its file systems share.
use openblt.Prelude.{ℕ, ◌==◌, ◌&&◌, Bool, true, false, Option, none, some, List, [], ◌∷◌, take, ℤ}

pub record Vnode : Type 0 where
  pub v_vnid : ℕ
  pub v_refcount : ℕ
  pub v_sb : ℕ
  -- The number of the inode that it points to.
  pub v_data : Option ℕ

pub record Dirent : Type 0 where
  pub d_fileno : ℕ
  pub d_reclen : ℕ
  pub d_name : List ℕ

-- An open directory, its entries and those that were not read yet; or an open file, its first byte and its position.
pub data Cookie : Type 0 where
  directory : List Dirent → List Dirent → Cookie
  file : ℕ → ℕ → Cookie

-- What the file system leaves in the vnode.
abbrev pub vget : (Vnode → Vnode) → ℕ → ℕ → Vnode
vget read_vnode super vnid =
    read_vnode (record { v_vnid = vnid; v_refcount = 1; v_sb = super; v_data = none })

-- !strcmp (s, t)
abbrev pub same_text : List ℕ → List ℕ → Bool
same_text [] [] = true
same_text [] (y ∷ ys) = false
same_text (x ∷ xs) [] = false
same_text (x ∷ xs) (y ∷ ys) = (x == y) && same_text xs ys

-- !strncmp (s, t, strlen (s))
abbrev pub begins : List ℕ → List ℕ → Bool
begins [] t = true
begins (x ∷ xs) [] = false
begins (x ∷ xs) (y ∷ ys) = (x == y) && begins xs ys

abbrev pub sizeof_dirent : ℕ
sizeof_dirent = 40

-- dirent->d_name of an entry that is made for an inode of that name.
abbrev pub dirent_for : ℕ → List ℕ → Dirent
dirent_for ino name = record { d_fileno = ino; d_reclen = sizeof_dirent; d_name = take 33 name }

-- rc->u_dir.current = rc->u_dir.head
abbrev pub rewind : Cookie → Option Cookie
rewind (directory head current) = some (directory head head)
rewind (file begin pos) = none

-- The result, the entry and the cookie of a readdir.
pub record Entry : Type 0 where
  pub result : ℕ
  pub dirent : Option Dirent
  pub cookie : Cookie

abbrev pub read_entry : Cookie → Option Entry
read_entry (directory head []) =
    some (record { result = 1; dirent = none; cookie = directory head [] })
read_entry (directory head (d ∷ ds)) = some (record {
  result = 0;
  dirent = some (record d { d_name = take 32 d.d_name });
  cookie = directory head ds;
})
read_entry (file begin pos) = none

-- struct stat, the fields that are set.
pub record Stat : Type 0 where
  pub st_ino : ℕ
  pub st_nlink : ℕ
  pub st_uid : ℕ
  pub st_gid : ℕ
  pub st_blksize : ℕ
  pub st_size : ℕ
  pub st_blocks : ℕ

-- The calls of a file system that the server makes, on the state `W` of the file systems; `none` in place of a call is
-- NULL, and `none` for a result says that the call reads a pointer that was not set.
pub record VnodeOps (W : Type 0) : Type 0 where
  pub walk : Vnode → List ℕ → W → Option (Option Vnode)
  pub mount : ℕ → W → ℤ × Vnode × W
  pub mkdir : Option (Vnode → List ℕ → W → Option (ℤ × W))
  pub opendir : Option (Vnode → W → ℕ × Option Cookie)
  pub closedir : Option (Vnode → W → W)
  pub free_dircookie : Option (Cookie → W → W)
  pub rewinddir : Cookie → Option Cookie
  pub readdir : Cookie → Option Entry
  pub open_file : Option (Vnode → W → Option (ℕ × Cookie))
  pub close : Option (Vnode → W → ℕ × W)
  pub free_cookie : Option (W → W)
  pub read : Option (Vnode → ℕ → ℕ → W → Option (ℕ × List ℕ))
  pub rstat : Option (Vnode → W → Option (ℕ × Stat))

pub record Superblock (W : Type 0) : Type 0 where
  pub sb_dir : List ℕ
  pub sb_root : Vnode
  pub sb_vops : VnodeOps W

pub record FsType (W : Type 0) : Type 0 where
  pub name : List ℕ
  pub t_vops : VnodeOps W
