-- ===== src/Vfs/Examples.antt =====
-- The theorems on the file system server at a server that has mounted its two file systems.
mod Connecting
use mathlib.Core.Option
use openblt.Prelude.{
  Bool-cases, inl, inr, ℕ, pos, ◌≡◌, refl, arith, false, List, [], ◌∷◌, none, some, update, ◌==◌,
  ◌≢◌, ◌*◌, ltb, sym, ap, ◌∙◌, ==_eq, ◌++◌, Option,
}
use openblt.Vfs.Vnode.{dirent_for, Vnode, Dirent, directory, rewind, read_entry, same_text, Cookie}
use openblt.Vfs.Path.{walk, path_combine, path_concat}
use openblt.Vfs.Path.Resolving.{here, up, named, path_concat-resolve}
use openblt.Vfs.Rootfs.{
  rootfs_opendir, list_inodes, Rootfs, RootfsInode, rootfs_walk, rootfs_mkdir, rootfs_read_vnode,
  rootfs_rewinddir, rootfs_readdir,
}
use openblt.Vfs.Rootfs.Names.{IsRoot, vnode_of, rootfs_walk-mkdir, unmounted}
use openblt.Vfs.Shm.{shm_write_dir}
use openblt.Vfs.Shm.Listing.{shm_write_dir-listing}
use openblt.Vfs.Bootfs.{Bootfs, BootfsInode}
use openblt.Vfs.Bootfs.Reading.{content}
use openblt.Vfs.Server.{Vfs, Client, answered}
use openblt.Vfs.Server.Calls.{Shared, new_ofile, install, vfs_opendir, vfs_closedir}
use openblt.Vfs.Server.Mounts.{Best, fs_find-Best}
use openblt.Vfs.Drivers.{World, rootfs_vnode_ops, bootfs_vnode_ops, boot_path, vfs_start}
use openblt.Vfs.Server.Directories.{Opens, vfs_opendir-Opens}
use openblt.Vfs.Server.Opening.{vfs_closedir-opendir}
use openblt.Vfs.Drivers.Starting.{Started, vfs_start-Started}
use openblt.Vfs.Drivers.Files.{read_all, read_all-content}
use openblt.Vfs.Main.{
  Serving, Command, openconn, opendir, Answer, Sent, answer, plain_answer, serve, dispatch,
}
use openblt.Vfs.Main.Isolation.{IsServing, Isolated, MayConnect, next, done}
use openblt.Hash.{
  Load, HashTable, store, cleared, hashtable_new, hashtable_insert, hashtable_lookup, table_size,
  hash,
}
use openblt.Hash.Cells.{hashtable_new-IsHash, hashtable_new-Maps}
use openblt.Hash.Updates.{Changed, hashtable_insert-Changed}
use openblt.Hash.Roundtrip.{Maps-lookup, lookup-insert}
use mathlib.Core.Option.{some-injective, some-ne-none}
use mathlib.Core.Path.{subst}

-- From the directory /a, the path ./../b/.
path_concat-resolve_example :
    path_concat (b'/' ∷ b'a' ∷ b'/' ∷ []) (b'.' ∷ b'/' ∷ b'.' ∷ b'.' ∷ b'/' ∷ b'b' ∷ b'/' ∷ [])
    ≡ some (b'/' ∷ b'b' ∷ [])
path_concat-resolve_example =
    path_concat-resolve ((b'a' ∷ []) ∷ []) (here ∷ up ∷ named (b'b' ∷ []) ∷ []) ((refl, tt), tt)
      ((refl, (refl, tt)), tt)

abbrev no_inodes : ℕ → List RootfsInode
no_inodes s = []

abbrev root : Vnode
root = vnode_of 1 0

abbrev mounted : Rootfs
mounted = record {
  inode_max = 2;
  sb_data = update no_inodes 1 (
      record { i_ino = 0; i_name = b'.' ∷ [] }
      ∷ record { i_ino = 1; i_name = b'.' ∷ b'.' ∷ [] }
      ∷ []);
}

mounted-IsRoot : IsRoot root mounted
mounted-IsRoot = record {
  first = record { i_ino = 0; i_name = b'.' ∷ [] };
  others = record { i_ino = 1; i_name = b'.' ∷ b'.' ∷ [] } ∷ [];
  inodes = refl;
  points = refl;
  number = refl;
  below = (omega arith, (omega arith, tt));
}

rootfs_walk-mkdir_example :
    (r' : Rootfs) × (rootfs_mkdir root (b't' ∷ []) mounted ≡ some (pos 0, r'))
    × (rootfs_walk root (b't' ∷ []) r' ≡ some (some (vnode_of 1 2)))
    × ((other : List ℕ)
        → same_text (b't' ∷ []) other ≡ false
        → rootfs_walk root other r' ≡ rootfs_walk root other mounted)
    × IsRoot root r'
unfolding rootfs_walk rootfs_read_vnode
rootfs_walk-mkdir_example = rootfs_walk-mkdir root (b't' ∷ []) mounted mounted-IsRoot refl

abbrev entry : ℕ → Dirent
entry n = record { d_fileno = n; d_reclen = 40; d_name = b'a' ∷ [] }

-- Two entries, and room for two.
shm_write_dir-listing_example :
    shm_write_dir rewind read_entry 0 100 (directory (entry 1 ∷ entry 2 ∷ []) [])
    ≡ some (record {
      dirents = entry 1 ∷ entry 2 ∷ [];
      numents = 1;
      more = 0;
      cookie = directory (entry 1 ∷ entry 2 ∷ []) [];
    })
shm_write_dir-listing_example = shm_write_dir-listing 100 (entry 1 ∷ entry 2 ∷ []) []

abbrev bytes : ℕ → ℕ
bytes a = a

abbrev kernel : BootfsInode
kernel = record { i_ino = 2; i_offset = 1; i_size = 5; i_name = b'k' ∷ [] }

abbrev boot : Bootfs
boot = record {
  inode_max = 3;
  sb_data = λ s. record { d_bootdir = 8192; inode_list = kernel ∷ [] };
}

abbrev pub server : Vfs World
server = record {
  world = record { root = mounted; boot = boot };
  supers =
      update
        (λ s. record { sb_dir = b'/' ∷ []; sb_root = vnode_of 1 0; sb_vops = rootfs_vnode_ops }) 2
        (record {
          sb_dir = boot_path;
          sb_root = vnode_of 2 0;
          sb_vops = bootfs_vnode_ops bytes 8192 [];
        });
  mount_list = 2 ∷ 1 ∷ [];
  fs_drivers = [];
}

fs_find-Best_example : Best server boot_path (some 2)
fs_find-Best_example = fs_find-Best boot_path server

abbrev pub shared : Shared
shared = record { area = 5; offset = 0; len = 400 }

abbrev pub client : Client
client = record {
  input = 3;
  output = 4;
  filename_area = 6;
  nameptr = 4096;
  cwd = b'/' ∷ [];
  ofile = λ i. none;
}

abbrev pub reader : Client
reader = install 0 (some (new_ofile (vnode_of 2 2) none shared (some 0))) client

-- The five bytes of the file, two at a time.
read_all-content_example : read_all 6 0 2 server reader ≡ some (content bytes 8192 kernel 0)
unfolding bootfs_vnode_ops Option.bind
read_all-content_example =
    read_all-content bytes 0 2 kernel 8192 server 6 0 reader
      (record {
        opened = new_ofile (vnode_of 2 2) none shared (some 0);
        in_range = omega arith;
        found = refl;
        position = refl;
        driver = refl;
        inode = refl;
        area = refl;
      })
      (omega arith) (omega arith)

abbrev listing_cookie : Cookie
listing_cookie =
    let ds = dirent_for 1 (b'.' ∷ b'.' ∷ []) ∷ dirent_for 0 (b'.' ∷ []) ∷ [] in directory ds ds

abbrev pub listed : Client
listed = install 0 (some (new_ofile (vnode_of 1 0) (some listing_cookie) shared none)) client

root_opens :
    vfs_opendir (b'/' ∷ []) (b'/' ∷ 0 ∷ []) shared server client
    ≡ some (answered 0 (some 0), listed)
unfolding vfs_opendir path_combine path_concat walk rootfs_vnode_ops rootfs_opendir list_inodes
    Option.bind
root_opens = refl

vfs_opendir-Opens_example :
    Opens server shared client (b'/' ∷ []) (b'/' ∷ 0 ∷ []) (answered 0 (some 0)) listed
vfs_opendir-Opens_example =
    vfs_opendir-Opens shared server client (b'/' ∷ []) (b'/' ∷ 0 ∷ []) (answered 0 (some 0)) listed
      root_opens

closes : (s : ℕ) → (f : Vnode → World → World) × ((server.supers s).sb_vops.closedir ≡ some f)
unfolding rootfs_vnode_ops bootfs_vnode_ops
closes s = elim (Bool-cases (s == 2)) [
  | inl e ↦ ((λ dir w. w), rw e refl)
  | inr e ↦ ((λ dir w. w), rw e refl)
]

keeps : (s : ℕ) → (server.supers s).sb_vops.free_dircookie ≡ none
unfolding rootfs_vnode_ops bootfs_vnode_ops
keeps s = elim (Bool-cases (s == 2)) [ inl e ↦ rw e refl | inr e ↦ rw e refl ]

vfs_closedir-opendir_example :
    (c : Client) × (v : Vfs World) × (vfs_closedir 7 0 server listed ≡ some (answered 0 none, c, v))
    × ((j : ℕ) → c.ofile j ≡ client.ofile j)
vfs_closedir-opendir_example =
    vfs_closedir-opendir server client (b'/' ∷ []) (b'/' ∷ 0 ∷ []) shared (answered 0 (some 0))
      listed 0 7 (record { closes = closes; keeps = keeps }) root_opens refl

vfs_start-Started_example :
    Started 1 2 (
      vfs_start bytes 8192 [] 1 2
        (record { root = unmounted no_inodes; boot = boot })
        server.supers)
vfs_start-Started_example = vfs_start-Started bytes 8192 [] 1 2 no_inodes boot server.supers refl
