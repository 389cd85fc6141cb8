-- ===== src/Vfs/Server/Directories.antt =====
-- What vfs_opendir of srv/vfs/vfs.c does on each branch.
use mathlib.Core.Path.{subst}
use mathlib.Core.Option
use mathlib.Core.Option.{some-injective, some-ne-none}
use openblt.Prelude.{
  ℕ, ◌<◌, ◌==◌, ◌≡◌, ◌≢◌, refl, sym, ap, true, false, List, [], ◌∷◌, ◌++◌, Option, none, some,
  length, update, if◌then◌else◌, arith, Bool-cases, inl, inr, ==_refl, ==_eq,
}
use openblt.Vfs.Vnode.{Vnode, Cookie, Superblock, same_text}
use openblt.Vfs.Path.{path_combine}
use openblt.Vfs.Server.{
  Vfs, Client, Ofile, VfsRes, max_fds, failed, emfile, is_null, free_descriptor, behind_mount,
  fs_find,
}
use openblt.Vfs.Server.Calls.{Shared, vfs_opendir, opendir_vnode, opendir_on, opendir_found}
use openblt.Vfs.Server.Descriptors.{first_free, all_used, IsFirstFree}

module _ {W : Type 0} where
  -- The vnode of the directory `dir`: the root, or what the file system finds behind its own directory and one character.
  pub data DirectoryNode (v : Vfs W) (sb : Superblock W) (dir : List ℕ)
      : Option Vnode → Type 0 where
    at_root : dir ≡ sb.sb_dir → DirectoryNode v sb dir (some sb.sb_root)
    inside :
        {m : Option Vnode} (before : List ℕ) (c : ℕ) (path : List ℕ)
        → dir ≢ sb.sb_dir
        → dir ≡ before ++ c ∷ path
        → length before ≡ length sb.sb_dir
        → sb.sb_vops.walk sb.sb_root path v.world ≡ some m
        → DirectoryNode v sb dir m

  -- Why a call with a free descriptor refuses, with the error: no file system is mounted for the directory (ENOENT), it
  -- has no opendir (ENOSYS), or it does not find the directory (ENOENT).
  pub data Refusal (v : Vfs W) (dir : List ℕ) : ℕ → Type 0 where
    no_mount : fs_find dir v ≡ none → Refusal v dir 2
    no_opendir :
        (s : ℕ) → fs_find dir v ≡ some s → (v.supers s).sb_vops.opendir ≡ none → Refusal v dir 78
    no_directory :
        (s : ℕ) (f : Vnode → W → ℕ × Option Cookie)
        → fs_find dir v ≡ some s
        → (v.supers s).sb_vops.opendir ≡ some f
        → DirectoryNode v (v.supers s) dir none
        → Refusal v dir 2

  -- The branches of vfs_opendir: 1 is VFS_OK and 2 VFS_ERROR.
  pub data Opens (v : Vfs W) (shared : Shared) (client : Client) (reldir buffer : List ℕ)
      : VfsRes → Client → Type 0 where
    all_in_use :
        ((j : ℕ) → j < 256 → client.ofile j ≢ none)
        → Opens v shared client reldir buffer
            (record { status = 2; errno = 24; data0 = none })
            client
    refuses :
        (fd : ℕ) (dir : List ℕ) (e : ℕ)
        → fd < 256
        → client.ofile fd ≡ none
        → path_combine client.cwd reldir buffer ≡ some dir
        → Refusal v dir e
        → Opens v shared client reldir buffer
            (record { status = 2; errno = e; data0 = none })
            client
    opens :
        (fd : ℕ) (dir : List ℕ) (s : ℕ) (f : Vnode → W → ℕ × Option Cookie) (vnode : Vnode)
        → fd < 256
        → client.ofile fd ≡ none
        → ((j : ℕ) → j < fd → client.ofile j ≢ none)
        → path_combine client.cwd reldir buffer ≡ some dir
        → fs_find dir v ≡ some s
        → (v.supers s).sb_vops.opendir ≡ some f
        → DirectoryNode v (v.supers s) dir (some vnode)
        → Opens v shared client reldir buffer
            (record {
              status = if (f vnode v.world).0 == 0 then 1 else 2;
              errno = (f vnode v.world).0;
              data0 = some fd;
            })
            (record client {
              ofile = update client.ofile fd (
                  some (record {
                    o_vnode = vnode;
                    o_cookie = (f vnode v.world).1;
                    area = shared.area;
                    offset = shared.offset;
                    len = shared.len;
                    o_pos = none;
                  }));
            })

  -- Of a result that is there.
  AllOpens : Vfs W → Shared → Client → List ℕ → List ℕ → Option (VfsRes × Client) → Type 0
  AllOpens v shared client reldir buffer none = Unit {0}
  AllOpens v shared client reldir buffer (some (res, c)) = Opens v shared client reldir buffer res c

  AllOpens-some :
      (v : Vfs W) (shared : Shared) (client : Client) (reldir buffer : List ℕ)
      (m : Option (VfsRes × Client)) (res : VfsRes) (c : Client)
      → AllOpens v shared client reldir buffer m
      → m ≡ some (res, c)
      → Opens v shared client reldir buffer res c
  unfolding AllOpens
  AllOpens-some v shared client reldir buffer none res c o e = absurd (some-ne-none _ (sym e))
  AllOpens-some v shared client reldir buffer (some r) res c o e =
      subst (λ (t : VfsRes × Client). Opens v shared client reldir buffer t.0 t.1)
        (some-injective r (res, c) e) o

same_text_eq : (s t : List ℕ) → same_text s t ≡ true → s ≡ t
same_text_eq [] [] h = refl
same_text_eq [] (y ∷ ys) h = absurd (ground (arith, h))
same_text_eq (x ∷ xs) [] h = absurd (ground (arith, h))
same_text_eq (x ∷ xs) (y ∷ ys) h = elim (Bool-cases (x == y)) [
  | inl e ↦ rw (==_eq x y e, same_text_eq xs ys (ground (arith, h, e))) refl
  | inr e ↦ absurd (ground (arith, h, e))
]

same_text_refl : (s : List ℕ) → same_text s s ≡ true
same_text_refl [] = refl
same_text_refl (x ∷ xs) = rw (==_refl x) (same_text_refl xs)

same_text_ne : (s t : List ℕ) → same_text s t ≡ false → s ≢ t
same_text_ne s t h e = ground (arith, rw e at h, same_text_refl t)

-- The path behind as many characters as the directory of the file system has, and one more.
behind_mount_lem :
    (d s path : List ℕ)
    → behind_mount d s ≡ some path
    → (b : List ℕ) × (c : ℕ) × (s ≡ b ++ c ∷ path) × (length b ≡ length d)
behind_mount_lem [] [] path h = absurd (some-ne-none path (sym h))
behind_mount_lem [] (c ∷ s) path h =
    ([], c, ap (λ (p : List ℕ). c ∷ p) (some-injective s path h), refl)
behind_mount_lem (x ∷ d) [] path h = absurd (some-ne-none path (sym h))
behind_mount_lem (x ∷ d) (c ∷ s) path h =
    let (b, e, same, size) = behind_mount_lem d s path h in
    (c ∷ b, e, ap (λ (p : List ℕ). c ∷ p) same, omega (arith, size))

null_none : (m : Option Ofile) → is_null m ≡ true → m ≡ none
null_none none h = refl
null_none (some x) h = absurd (ground (arith, h))

not_null : (m : Option Ofile) → is_null m ≡ false → m ≢ none
not_null none h = absurd (ground (arith, h))
not_null (some x) h = some-ne-none x

module _ {W : Type 0} (shared : Shared) (v : Vfs W) (client : Client) (reldir buffer : List ℕ) where
  -- The result where the descriptor `i` is the first that is free and the path is that of `dir`.
  module _ (i : ℕ) (first : IsFirstFree client i) (dir : List ℕ)
      (combined : path_combine client.cwd reldir buffer ≡ some dir) where
    refusing : (e : ℕ) → Refusal v dir e → Opens v shared client reldir buffer (failed e) client
    unfolding IsFirstFree
    refusing e r = refuses i dir e first.0 (null_none (client.ofile i) first.1) combined r

    module _ (s : ℕ) (found : fs_find dir v ≡ some s) (f : Vnode → W → ℕ × Option Cookie)
        (has_opendir : (v.supers s).sb_vops.opendir ≡ some f) where
      vnode-Opens :
          (m : Option Vnode)
          → DirectoryNode v (v.supers s) dir m
          → AllOpens v shared client reldir buffer (some (opendir_vnode i shared f m v client))
      unfolding IsFirstFree AllOpens
      vnode-Opens none d = refusing 2 (no_directory s f found has_opendir d)
      vnode-Opens (some vnode) d =
          opens i dir s f vnode first.0 (null_none (client.ofile i) first.1)
            (λ j l. not_null (client.ofile j) (first.2 j l)) combined found has_opendir d

      -- The walk behind the mount point.
      walk-Opens :
          (m : Option (List ℕ))
          → same_text dir (v.supers s).sb_dir ≡ false
          → behind_mount (v.supers s).sb_dir dir ≡ m
          → AllOpens v shared client reldir buffer (
              Option.map
                (λ (n : Option Vnode). opendir_vnode i shared f n v client)
                (Option.bind m
                  (λ (path : List ℕ). (v.supers s).sb_vops.walk (v.supers s).sb_root path v.world)))
      unfolding Option.bind AllOpens
      walk-Opens none e h = tt
      walk-Opens (some path) e h =
          let (b, c, same, size) = behind_mount_lem (v.supers s).sb_dir dir path h in
          walked ((v.supers s).sb_vops.walk (v.supers s).sb_root path v.world) refl b c same size
        where
          walked :
              (r : Option (Option Vnode))
              → (v.supers s).sb_vops.walk (v.supers s).sb_root path v.world ≡ r
              → (b : List ℕ) (c : ℕ) → dir ≡ b ++ c ∷ path
              → length b ≡ length (v.supers s).sb_dir
              → AllOpens v shared client reldir buffer
                  (Option.map (λ (n : Option Vnode). opendir_vnode i shared f n v client) r)
          walked none w b c same size = tt
          walked (some n) w b c same size =
              vnode-Opens n (inside b c path (same_text_ne dir (v.supers s).sb_dir e) same size w)

      directory-Opens :
          AllOpens v shared client reldir buffer
            (opendir_on i dir shared (v.supers s) (some f) v client)
      directory-Opens = elim (Bool-cases (same_text dir (v.supers s).sb_dir)) [
        | inl e ↦ rw e (
            vnode-Opens (some (v.supers s).sb_root)
              (at_root (same_text_eq dir (v.supers s).sb_dir e)))
        | inr e ↦ rw e (walk-Opens (behind_mount (v.supers s).sb_dir dir) e refl)
      ]

    on-Opens :
        (s : ℕ)
        → fs_find dir v ≡ some s
        → (o : Option (Vnode → W → ℕ × Option Cookie)) → (v.supers s).sb_vops.opendir ≡ o
        → AllOpens v shared client reldir buffer (opendir_on i dir shared (v.supers s) o v client)
    unfolding AllOpens
    on-Opens s found none h = refusing 78 (no_opendir s found h)
    on-Opens s found (some f) h = directory-Opens s found f h

    found-Opens :
        (m : Option ℕ)
        → fs_find dir v ≡ m
        → AllOpens v shared client reldir buffer (opendir_found i dir shared m v client)
    unfolding AllOpens
    found-Opens none h = refusing 2 (no_mount h)
    found-Opens (some s) h = on-Opens s h (v.supers s).sb_vops.opendir refl

  combined-Opens :
      (i : ℕ)
      → IsFirstFree client i
      → (m : Option (List ℕ)) → path_combine client.cwd reldir buffer ≡ m
      → AllOpens v shared client reldir buffer
          (Option.bind m (λ (dir : List ℕ). opendir_found i dir shared (fs_find dir v) v client))
  unfolding Option.bind AllOpens
  combined-Opens i first none h = tt
  combined-Opens i first (some dir) h = found-Opens i first dir h (fs_find dir v) refl

  -- Where vfs_opendir returns: with all descriptors of the client in use it refuses with EMFILE;
  -- with a free one it refuses with ENOENT where fs_find finds no file system for the path that
  -- path_combine makes or the file system does not find the directory, and with ENOSYS where the
  -- file system has no opendir, and the client is as before; otherwise the first free descriptor,
  -- and no other, is set to the vnode of the directory (the root for the file system's own
  -- directory, else what walk finds behind it), the cookie of the file system's opendir and the
  -- shared area, and is returned with that opendir's error, with VFS_OK where it is 0.
  pub vfs_opendir-Opens :
      (res : VfsRes) (c : Client)
      → vfs_opendir reldir buffer shared v client ≡ some (res, c)
      → Opens v shared client reldir buffer res c
  unfolding vfs_opendir AllOpens
  vfs_opendir-Opens res c h =
      elim (Bool-cases (free_descriptor client.ofile max_fds 0 == max_fds)) [
        | inl e ↦
            AllOpens-some v shared client reldir buffer (some (failed emfile, client)) res c
              (all_in_use (λ j l. not_null (client.ofile j) (all_used client max_fds e j l)))
              (rw e at h)
        | inr e ↦
            AllOpens-some v shared client reldir buffer _ res c
              (combined-Opens (free_descriptor client.ofile max_fds 0)
                (first_free client max_fds refl e) (path_combine client.cwd reldir buffer) refl)
              (rw e at h)
      ]
