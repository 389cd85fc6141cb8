-- ===== src/Vfs/Rootfs/Names.antt =====
-- The names of srv/vfs/rootfs.c: what mkdir makes, walk and readdir find.
use mathlib.Core.Option
use mathlib.Core.Option.{some-ne-none, some-injective}
use openblt.Prelude.{
  ℕ, pos, ◌+◌, ◌<◌, ◌≡◌, refl, ap, sym, ◌∙◌, true, false, Option, none, some, List, [], ◌∷◌, ◌++◌,
  arith, Bool-cases, inl, inr, ==_refl, update, update_self,
}
use openblt.Vfs.Vnode.{Vnode, vget, same_text}
use openblt.Vfs.Rootfs.{
  RootfsInode, Rootfs, has_inode, find_name, inodes_from, chain_inode, rootfs_mount, rootfs_walk,
  rootfs_mkdir, rootfs_read_vnode, rootfs_inew,
}

abbrev pub AllBelow : ℕ → List RootfsInode → Type 0
AllBelow n [] = Unit {0}
AllBelow n (i ∷ is) = (i.i_ino < n) × AllBelow n is

-- `root` is the root vnode of a mounted file system: it points to the first of the inodes, whose number is 0.
pub record IsRoot (root : Vnode) (r : Rootfs) : Type 0 where
  pub first : RootfsInode
  pub others : List RootfsInode
  pub inodes : r.sb_data root.v_sb ≡ first ∷ others
  pub points : root.v_data ≡ some first.i_ino
  pub number : root.v_vnid ≡ 0
  pub below : AllBelow r.inode_max (first ∷ others)

-- The vnode that walk gives for an inode.
abbrev pub vnode_of : ℕ → ℕ → Vnode
vnode_of super ino = record { v_vnid = ino; v_refcount = 1; v_sb = super; v_data = some ino }

same_text_refl : (xs : List ℕ) → same_text xs xs ≡ true
same_text_refl [] = refl
same_text_refl (x ∷ xs) = rw (==_refl x) (same_text_refl xs)

find_name-append :
    (p : List ℕ) (is js : List RootfsInode)
    → find_name p is ≡ none
    → find_name p (is ++ js) ≡ find_name p js
find_name-append p [] js h = refl
find_name-append p (i ∷ is) js h = elim (Bool-cases (same_text i.i_name p)) [
  | inl e ↦ absurd (some-ne-none i.i_ino (rw e at h))
  | inr e ↦ rw e (find_name-append p is js (rw e at h))
]

-- A name that is not the last one's is found as before.
find_name-snoc :
    (p : List ℕ) (is : List RootfsInode) (j : RootfsInode)
    → same_text j.i_name p ≡ false
    → find_name p (is ++ j ∷ []) ≡ find_name p is
find_name-snoc p [] j h = rw h refl
find_name-snoc p (i ∷ is) j h = elim (Bool-cases (same_text i.i_name p)) [
  | inl e ↦ rw e refl
  | inr e ↦ rw e (find_name-snoc p is j h)
]

has_inode-name :
    (p : List ℕ) (is : List RootfsInode) (ino : ℕ)
    → find_name p is ≡ some ino
    → has_inode ino is ≡ true
has_inode-name p [] ino h = absurd (some-ne-none ino (sym h))
has_inode-name p (i ∷ is) ino h = elim (Bool-cases (same_text i.i_name p)) [
  | inl e ↦
      let same : i.i_ino ≡ ino = some-injective i.i_ino ino (rw e at h) in
      rw (same, ==_refl ino) refl
  | inr e ↦ ground (arith, has_inode-name p is ino (rw e at h))
]

-- vget of a number that is there.
vget_found :
    (r : Rootfs) (super ino : ℕ)
    → has_inode ino (r.sb_data super) ≡ true
    → vget (λ (v : Vnode). (rootfs_read_vnode r v).1) super ino ≡ vnode_of super ino
unfolding rootfs_read_vnode
vget_found r super ino h = rw (h, vget) refl

map_found :
    (r : Rootfs) (super : ℕ) (m : Option ℕ)
    → ((ino : ℕ) → m ≡ some ino → has_inode ino (r.sb_data super) ≡ true)
    → Option.map (vget (λ (v : Vnode). (rootfs_read_vnode r v).1) super) m
      ≡ Option.map (vnode_of super) m
map_found r super none h = refl
map_found r super (some ino) h = ap some (vget_found r super ino (h ino refl))

-- A walk from the root of a mounted file system.
pub walk_root :
    (root : Vnode) (name : List ℕ) (r : Rootfs)
    → IsRoot root r
    → rootfs_walk root name r
      ≡ some (Option.map (vnode_of root.v_sb) (find_name name (r.sb_data root.v_sb)))
unfolding rootfs_walk rootfs_read_vnode
walk_root root name r h =
    let found =
      map_found r root.v_sb (find_name name (r.sb_data root.v_sb))
        (λ (ino : ℕ) (e : find_name name (r.sb_data root.v_sb) ≡ some ino).
          has_inode-name name (r.sb_data root.v_sb) ino e) in
    let whole : inodes_from h.first.i_ino (r.sb_data root.v_sb) ≡ r.sb_data root.v_sb =
      rw (h.inodes, ==_refl h.first.i_ino) refl in
    rw (h.points, whole) (ap some found)

AllBelow-suc : (n : ℕ) (is : List RootfsInode) → AllBelow n is → AllBelow (n + 1) is
AllBelow-suc n [] h = tt
AllBelow-suc n (i ∷ is) h = (omega (arith, h.0), AllBelow-suc n is h.1)

AllBelow-snoc :
    (n : ℕ) (is : List RootfsInode) (j : RootfsInode)
    → AllBelow n is
    → j.i_ino ≡ n
    → AllBelow (n + 1) (is ++ j ∷ [])
AllBelow-snoc n [] j h e = (omega (arith, e), tt)
AllBelow-snoc n (i ∷ is) j h e = (omega (arith, h.0), AllBelow-snoc n is j h.1 e)

-- The file system after a new name.
abbrev pub with_name : ℕ → List ℕ → Rootfs → Rootfs
with_name super name r = record {
  inode_max = r.inode_max + 1;
  sb_data =
      update r.sb_data super
        (r.sb_data super ++ record { i_ino = r.inode_max; i_name = name } ∷ []);
}

with_name-IsRoot :
    (root : Vnode) (name : List ℕ) (r : Rootfs)
    → IsRoot root r
    → IsRoot root (with_name root.v_sb name r)
with_name-IsRoot root name r h = record {
  first = h.first;
  others = h.others ++ record { i_ino = r.inode_max; i_name = name } ∷ [];
  inodes =
      update_self r.sb_data root.v_sb _
      ∙ ap (λ (is : List RootfsInode). is ++ record { i_ino = r.inode_max; i_name = name } ∷ [])
          h.inodes;
  points = h.points;
  number = h.number;
  below =
      AllBelow-snoc r.inode_max (h.first ∷ h.others) (record { i_ino = r.inode_max; i_name = name })
        h.below refl;
}

mkdir_root :
    (root : Vnode) (name : List ℕ) (r : Rootfs)
    → IsRoot root r
    → rootfs_mkdir root name r ≡ some (pos 0, with_name root.v_sb name r)
unfolding rootfs_mkdir rootfs_inew
mkdir_root root name r h =
    let new : RootfsInode = record { i_ino = r.inode_max; i_name = name } in
    let chained : chain_inode new (r.sb_data root.v_sb) ≡ some (r.sb_data root.v_sb ++ new ∷ []) =
      rw (h.inodes) refl in
    rw (h.number, chained) refl

no_vnode : (super : ℕ) (m : Option ℕ) → Option.map (vnode_of super) m ≡ none → m ≡ none
no_vnode super none h = refl
no_vnode super (some ino) h = absurd (some-ne-none (vnode_of super ino) h)

-- A walk after a new name, by the inodes that are found.
walk_with :
    (root : Vnode) (name p : List ℕ) (r : Rootfs)
    → IsRoot root r
    → rootfs_walk root p (with_name root.v_sb name r)
      ≡ some (
          Option.map (vnode_of root.v_sb) (
            find_name p
              (r.sb_data root.v_sb ++ record { i_ino = r.inode_max; i_name = name } ∷ [])))
walk_with root name p r h =
    walk_root root p (with_name root.v_sb name r) (with_name-IsRoot root name r h)
    ∙ ap (λ (is : List RootfsInode). some (Option.map (vnode_of root.v_sb) (find_name p is)))
        (update_self r.sb_data root.v_sb _)

-- Where the root vnode points to the first inode of its file system and all numbers are below
-- inode_max, and a walk does not find a name, rootfs_mkdir of it returns 0; a walk then finds it
-- under the next number, a walk for any other name gives what it gave, and the root vnode is as
-- required again.
pub rootfs_walk-mkdir :
    (root : Vnode) (name : List ℕ) (r : Rootfs)
    → IsRoot root r
    → rootfs_walk root name r ≡ some none
    → (r' : Rootfs) × (rootfs_mkdir root name r ≡ some (pos 0, r'))
      × (rootfs_walk root name r' ≡ some (some (vnode_of root.v_sb r.inode_max)))
      × ((other : List ℕ)
          → same_text name other ≡ false
          → rootfs_walk root other r' ≡ rootfs_walk root other r)
      × IsRoot root r'
rootfs_walk-mkdir root name r h missing =
    let is = r.sb_data root.v_sb in
    let new : RootfsInode = record { i_ino = r.inode_max; i_name = name } in
    let absent : find_name name is ≡ none =
      no_vnode root.v_sb (find_name name is)
        (some-injective _ none (sym (walk_root root name r h) ∙ missing)) in
    let found : find_name name (is ++ new ∷ []) ≡ some r.inode_max =
      find_name-append name is (new ∷ []) absent ∙ rw (same_text_refl name) refl in
    (
      with_name root.v_sb name r,
      mkdir_root root name r h,
      walk_with root name name r h
          ∙ ap (λ (m : Option ℕ). some (Option.map (vnode_of root.v_sb) m)) found,
      (λ (other : List ℕ) (e : same_text name other ≡ false).
          walk_with root name other r h
          ∙ ap (λ (m : Option ℕ). some (Option.map (vnode_of root.v_sb) m))
              (find_name-snoc other is new e)
          ∙ sym (walk_root root other r h)),
      with_name-IsRoot root name r h,
    )

-- Before the first mount.
abbrev pub unmounted : (ℕ → List RootfsInode) → Rootfs
unmounted f = record { inode_max = 0; sb_data = f }

-- The first mount of all makes a root.
pub rootfs_mount-IsRoot :
    (super : ℕ) (f : ℕ → List RootfsInode)
    → IsRoot (rootfs_mount super (unmounted f)).0 (rootfs_mount super (unmounted f)).1
unfolding rootfs_mount rootfs_inew
rootfs_mount-IsRoot super f =
    let made = (rootfs_mount super (unmounted f)).1 in
    let is = update_self f super _ in
    let there : has_inode 0 (made.sb_data super) ≡ true = rw (is) refl in
    rw (vget_found made super 0 there) (record {
      first = record { i_ino = 0; i_name = b'.' ∷ [] };
      others = record { i_ino = 1; i_name = b'.' ∷ b'.' ∷ [] } ∷ [];
      inodes = is;
      points = refl;
      number = refl;
      below = (omega arith, (omega arith, tt));
    })
