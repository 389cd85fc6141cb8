-- ===== src/Vfs/Server/Opening.antt =====
-- Opening and closing files and directories in srv/vfs/vfs.c.
use mathlib.Core.Path.{subst}
use mathlib.Core.Option
use mathlib.Core.Option.{some-injective, some-ne-none}
use openblt.Prelude.{
  ℕ, ◌<◌, ◌==◌, ◌≡◌, refl, sym, ◌∙◌, true, List, Option, none, some, ltb, arith, Bool-cases, inl,
  inr, ==_refl, ==_eq,
}
use openblt.Vfs.Vnode.{Vnode}
use openblt.Vfs.Path.{path_combine}
use openblt.Vfs.Server.{
  Vfs, Client, Ofile, VfsRes, max_fds, failed, answered, emfile, is_null, free_descriptor, fs_find,
}
use openblt.Vfs.Server.Calls.{Shared, install, vfs_opendir, vfs_open, vfs_closedir, opendir_found}
use openblt.Vfs.Server.Descriptors.{
  Opened, full, refused_it, opened_at, AllOutcomes, AllOutcomes-Opened, first_free, all_used,
  opendir_found-Outcome, open_found-Outcome,
}

full-Opened :
    (client : Client) (res : VfsRes) (c : Client)
    → (free_descriptor client.ofile max_fds 0 == max_fds) ≡ true
    → Path (Option (VfsRes × Client)) (some (failed emfile, client)) (some (res, c))
    → Opened client res c
full-Opened client res c e h =
    subst (λ (s : VfsRes × Client). Opened client s.0 s.1)
      (some-injective (failed emfile, client) (res, c) h) (full (all_used client max_fds e))

module _ {W : Type 0} (shared : Shared) (v : Vfs W) (client : Client) where
  pub vfs_open-Opened :
      (path : List ℕ) (res : VfsRes) (c : Client)
      → vfs_open path shared v client ≡ some (res, c)
      → Opened client res c
  unfolding vfs_open
  vfs_open-Opened path res c h =
      elim (Bool-cases (free_descriptor client.ofile max_fds 0 == max_fds)) [
        | inl e ↦ full-Opened client res c e (rw e at h)
        | inr e ↦
            let i = free_descriptor client.ofile max_fds 0 in
            AllOutcomes-Opened client i _ res c (first_free client max_fds refl e)
              (open_found-Outcome i shared v client path (fs_find path v)) (rw e at h)
      ]

  found-Outcome :
      (i : ℕ) (m : Option (List ℕ))
      → AllOutcomes i client
          (Option.bind m (λ (dir : List ℕ). opendir_found i dir shared (fs_find dir v) v client))
  unfolding Option.bind
  found-Outcome i none = tt
  found-Outcome i (some dir) = opendir_found-Outcome i shared v client dir (fs_find dir v)

  -- Where vfs_opendir returns, either all descriptors of the client are in use, the error is EMFILE
  -- and the client is as before, or it fails without a descriptor and the client is as before, or
  -- the first free descriptor is set, and no other, and it is returned.
  vfs_opendir-Opened :
      (reldir buffer : List ℕ) (res : VfsRes) (c : Client)
      → vfs_opendir reldir buffer shared v client ≡ some (res, c)
      → Opened client res c
  unfolding vfs_opendir
  vfs_opendir-Opened reldir buffer res c h =
      elim (Bool-cases (free_descriptor client.ofile max_fds 0 == max_fds)) [
        | inl e ↦ full-Opened client res c e (rw e at h)
        | inr e ↦
            let i = free_descriptor client.ofile max_fds 0 in
            AllOutcomes-Opened client i _ res c (first_free client max_fds refl e)
              (found-Outcome i (path_combine client.cwd reldir buffer)) (rw e at h)
      ]

null_none : (m : Option Ofile) → is_null m ≡ true → m ≡ none
null_none none h = refl
null_none (some x) h = absurd (ground (arith, h))

-- Every mounted file system has a closedir and none for the cookies.
pub record ClosesDirectories {W : Type 0} (v : Vfs W) : Type 0 where
  pub closes : (s : ℕ) → (f : Vnode → W → W) × ((v.supers s).sb_vops.closedir ≡ some f)
  pub keeps : (s : ℕ) → (v.supers s).sb_vops.free_dircookie ≡ none

module _ {W : Type 0} (v : Vfs W) (client : Client) where
  closedir_installed :
      (errno fd : ℕ) (o : Ofile)
      → ClosesDirectories v
      → fd < max_fds
      → (v' : Vfs W) × (vfs_closedir errno fd v (install fd (some o) client)
          ≡ some (answered 0 none, install fd none (install fd (some o) client), v'))
  unfolding vfs_closedir Option.bind
  closedir_installed errno fd o h l =
      let range : ltb fd max_fds ≡ true = ground (arith, l) in
      let (f, closes) = h.closes o.o_vnode.v_sb in
      elim (Bool-cases (errno == 0)) [
        | inl e ↦ (
          record v { world = f o.o_vnode v.world },
          rw (range, ==_refl fd, closes, e, h.keeps o.o_vnode.v_sb) refl,
        )
        | inr e ↦ (record v { world = f o.o_vnode v.world }, rw (range, ==_refl fd, closes, e) refl)
      ]

  -- A descriptor that was free is free again.
  reinstalled :
      (fd : ℕ) (o : Ofile) (j : ℕ)
      → is_null (client.ofile fd) ≡ true
      → (install fd none (install fd (some o) client)).ofile j ≡ client.ofile j
  reinstalled fd o j h = elim (Bool-cases (j == fd)) [
    | inl e ↦ rw (e, ==_eq j fd e) (sym (null_none (client.ofile fd) h))
    | inr e ↦ rw (e) refl
  ]

  closedir_Opened :
      (errno fd : ℕ) (res : VfsRes) (c : Client)
      → ClosesDirectories v
      → Opened client res c
      → res.data0 ≡ some fd
      → (c' : Client) × (v' : Vfs W) × (vfs_closedir errno fd v c ≡ some (answered 0 none, c', v'))
        × ((j : ℕ) → c'.ofile j ≡ client.ofile j)
  closedir_Opened errno fd _ _ h (full u) d = absurd (some-ne-none fd (sym d))
  closedir_Opened errno fd _ _ h (refused_it res e n) d = absurd (some-ne-none fd (sym d ∙ n))
  closedir_Opened errno fd _ _ h (opened_at i o res l free u d') d =
      let same : i ≡ fd = some-injective i fd (sym d' ∙ d) in
      let (v', e) = closedir_installed errno i o h l in
      (
        install i none (install i (some o) client),
        v',
        rw (sym same) e,
        (λ j. reinstalled i o j free),
      )

  -- Where every file system has a closedir and none frees cookies of directories, vfs_closedir of a
  -- descriptor that vfs_opendir returned succeeds, whatever error the new result held, and every
  -- descriptor of the client is as it was before vfs_opendir.
  pub vfs_closedir-opendir :
      (reldir buffer : List ℕ) (shared : Shared) (res : VfsRes) (c : Client) (fd errno : ℕ)
      → ClosesDirectories v
      → vfs_opendir reldir buffer shared v client ≡ some (res, c)
      → res.data0 ≡ some fd
      → (c' : Client) × (v' : Vfs W) × (vfs_closedir errno fd v c ≡ some (answered 0 none, c', v'))
        × ((j : ℕ) → c'.ofile j ≡ client.ofile j)
  vfs_closedir-opendir reldir buffer shared res c fd errno h e d =
      closedir_Opened errno fd res c h (vfs_opendir-Opened shared v client reldir buffer res c e) d
