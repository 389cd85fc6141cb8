-- ===== src/Vfs/Server/Mounts.antt =====
-- The file system that srv/vfs/fs.c finds for a path.
use openblt.Prelude.{
  ℕ, ◌≤◌, ◌<◌, ◌≡◌, refl, true, false, ◌&&◌, Option, none, some, List, [], ◌∷◌, ltb, length, has,
  arith, Bool-cases, inl, inr, ==_refl,
}
use openblt.Vfs.Vnode.{Superblock, begins}
use openblt.Vfs.Server.{Vfs, find_best, fs_find}

module _ {W : Type 0} where
  -- No file system of the list has a directory of more than `bound` characters that the path begins with.
  abbrev pub NoneAbove : (ℕ → Superblock W) → List ℕ → List ℕ → ℕ → Type 0
  NoneAbove supers node [] bound = Unit {0}
  NoneAbove supers node (t ∷ ts) bound =
      (begins (supers t).sb_dir node ≡ true → length (supers t).sb_dir ≤ bound)
      × NoneAbove supers node ts bound

  -- What the search of the list gives, from a best one of length `bound` on.
  data Search (supers : ℕ → Superblock W) (node mounts : List ℕ) (best : Option ℕ) (bound : ℕ)
      : Option ℕ → Type 0 where
    kept : NoneAbove supers node mounts bound → Search supers node mounts best bound best
    longer :
        (s : ℕ)
        → has s mounts ≡ true
        → begins (supers s).sb_dir node ≡ true
        → bound < length (supers s).sb_dir
        → NoneAbove supers node mounts (length (supers s).sb_dir)
        → Search supers node mounts best bound (some s)

  module _ (supers : ℕ → Superblock W) (node : List ℕ) where
    -- A file system that is not taken is no longer than the best one.
    Search-kept :
        (t : ℕ) (ts : List ℕ) (best : Option ℕ) (bound : ℕ) (r : Option ℕ)
        → (begins (supers t).sb_dir node && ltb bound (length (supers t).sb_dir)) ≡ false
        → Search supers node ts best bound r
        → Search supers node (t ∷ ts) best bound r
    Search-kept t ts best bound r e (kept h) = kept ((λ b. ground (arith, b, e)), h)
    Search-kept t ts best bound r e (longer s i b l h) =
        longer s (ground (arith, i)) b l ((λ c. ground (arith, c, e, l)), h)

    Search-taken :
        (t : ℕ) (ts : List ℕ) (best : Option ℕ) (bound : ℕ) (r : Option ℕ)
        → begins (supers t).sb_dir node ≡ true
        → bound < length (supers t).sb_dir
        → Search supers node ts (some t) (length (supers t).sb_dir) r
        → Search supers node (t ∷ ts) best bound r
    Search-taken t ts best bound r b l (kept h) =
        longer t (rw (==_refl t) refl) b l ((λ c. omega arith), h)
    Search-taken t ts best bound r b l (longer s i c m h) =
        longer s (ground (arith, i)) c (omega (arith, l, m)) ((λ d. omega (arith, m)), h)

    find_best-Search :
        (ts : List ℕ) (best : Option ℕ) (bound : ℕ)
        → Search supers node ts best bound (find_best supers node ts best bound)
    find_best-Search [] best bound = kept tt
    find_best-Search (t ∷ ts) best bound =
        elim (Bool-cases (begins (supers t).sb_dir node && ltb bound (length (supers t).sb_dir))) [
          | inl e ↦ rw e (
              Search-taken t ts best bound _ (ground (arith, e)) (ground (arith, e))
                (find_best-Search ts (some t) (length (supers t).sb_dir)))
          | inr e ↦ rw e (Search-kept t ts best bound _ e (find_best-Search ts best bound))
        ]

  -- The mounted file system with the longest directory that the path begins with, if one is not empty.
  pub data Best (v : Vfs W) (node : List ℕ) : Option ℕ → Type 0 where
    nowhere : NoneAbove v.supers node v.mount_list 0 → Best v node none
    found_at :
        (s : ℕ)
        → has s v.mount_list ≡ true
        → begins (v.supers s).sb_dir node ≡ true
        → 0 < length (v.supers s).sb_dir
        → NoneAbove v.supers node v.mount_list (length (v.supers s).sb_dir)
        → Best v node (some s)

  Search-Best :
      (v : Vfs W) (node : List ℕ) (r : Option ℕ)
      → Search v.supers node v.mount_list none 0 r
      → Best v node r
  Search-Best v node r (kept h) = nowhere h
  Search-Best v node r (longer s i b l h) = found_at s i b l h

  -- fs_find gives a mounted file system whose directory is not empty and begins the path, and is at
  -- least as long as that of any other mounted one that begins the path; it gives none only where
  -- no mounted directory but an empty one begins the path.
  pub fs_find-Best : (node : List ℕ) (v : Vfs W) → Best v node (fs_find node v)
  fs_find-Best node v =
      Search-Best v node (fs_find node v) (find_best-Search v.supers node v.mount_list none 0)
