-- ===== src/Vfs/Rootfs/Listing.antt =====
-- The entries of the root file system that srv/vfs/shm.c writes.
use mathlib.Core.List.{reverse, reverse_aux}
use openblt.Prelude.{
  ℕ, ◌+◌, ◌/◌, ◌<◌, ◌≡◌, refl, ap, ◌∙◌, Option, some, List, [], ◌∷◌, map, drop, length, arith,
}
use openblt.Vfs.Vnode.{Vnode, Cookie, directory, Dirent, dirent_for, sizeof_dirent}
use openblt.Vfs.Shm.{Listed, shm_write_dir}
use openblt.Vfs.Shm.Listing.{cut, shm_write_dir-listing, listing_all}
use openblt.Vfs.Rootfs.{
  RootfsInode, Rootfs, list_inodes, rootfs_opendir, rootfs_rewinddir, rootfs_readdir,
}

-- The entry that readdir gives for an inode.
abbrev pub entry_of : RootfsInode → Dirent
entry_of i = dirent_for i.i_ino i.i_name

list_inodes-reverse :
    (is : List RootfsInode) (ds : List Dirent)
    → list_inodes is ds ≡ reverse_aux (map entry_of is) ds
unfolding list_inodes
list_inodes-reverse [] ds = refl
list_inodes-reverse (i ∷ is) ds = list_inodes-reverse is (entry_of i ∷ ds)

length-entries :
    (is : List RootfsInode) (ds : List Dirent) → length (list_inodes is ds) ≡ length is + length ds
unfolding list_inodes
length-entries [] ds = omega arith
length-entries (i ∷ is) ds = omega (arith, length-entries is (entry_of i ∷ ds))

-- What is returned for a number of entries, all of them written.
abbrev all_listed : List Dirent → ℕ → Cookie → Option Listed
all_listed ds n c = some (record { dirents = map cut ds; numents = n; more = 0; cookie = c })

pub shm_write_dir-opendir :
    (dir : Vnode) (r : Rootfs) (len : ℕ)
    → dir.v_vnid ≡ 0
    → length (r.sb_data dir.v_sb) < len / sizeof_dirent
    → (c : Cookie) × (d : Cookie) × (rootfs_opendir dir r ≡ (0, some c))
      × (shm_write_dir rootfs_rewinddir rootfs_readdir 0 len c
          ≡ some (record {
            dirents = map cut (reverse (map entry_of (r.sb_data dir.v_sb)));
            numents = length (r.sb_data dir.v_sb);
            more = 0;
            cookie = d;
          }))
unfolding rootfs_opendir rootfs_rewinddir rootfs_readdir
shm_write_dir-opendir dir r len h room =
    let is = r.sb_data dir.v_sb in
    let head = list_inodes is [] in
    let d = directory head (drop (len / sizeof_dirent) head) in
    let count : length head ≡ length is = omega (arith, length-entries is []) in
    (
      directory head head,
      d,
      rw (h) refl,
      shm_write_dir-listing len head head
          ∙ ap some
              (listing_all (len / sizeof_dirent) head (omega (arith, room, length-entries is [])))
          ∙ ap (λ (ds : List Dirent). all_listed ds (length head) d) (list_inodes-reverse is [])
          ∙ ap (λ (n : ℕ). all_listed (reverse (map entry_of is)) n d) count,
    )
