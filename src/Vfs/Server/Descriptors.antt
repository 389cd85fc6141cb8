-- ===== src/Vfs/Server/Descriptors.antt =====
-- The descriptors of a client in srv/vfs/vfs.c: which one is taken, and what gives it back.
use mathlib.Core.Path.{subst}
use mathlib.Core.Option
use mathlib.Core.Option.{some-injective, some-ne-none}
use openblt.Prelude.{
  ℕ, ◌+◌, ◌≤◌, ◌<◌, ◌==◌, ◌≡◌, refl, sym, true, false, List, Option, none, some, zero, suc, arith,
  Bool-cases, inl, inr, ==_eq,
}
use openblt.Vfs.Vnode.{Vnode, Cookie, Superblock}
use openblt.Vfs.Server.{
  Vfs, Client, Ofile, VfsRes, max_fds, vfs_error, emfile, failed, answered, is_null,
  free_descriptor,
}
use openblt.Vfs.Server.Calls.{
  Shared, install, new_ofile, opendir_vnode, opendir_on, opendir_found, directory_vnode, open_vnode,
  open_on, open_found, file_vnode,
}

-- The search stops at the first descriptor that is not in use.
free_descriptor_lem :
    (f : ℕ → Option Ofile) (n i : ℕ)
    → (i ≤ free_descriptor f n i)
      × (free_descriptor f n i ≤ n + i)
      × (free_descriptor f n i < n + i → is_null (f (free_descriptor f n i)) ≡ true)
      × ((j : ℕ) → i ≤ j → j < free_descriptor f n i → is_null (f j) ≡ false)
free_descriptor_lem f zero i = (
  omega arith,
  omega arith,
  (λ h. absurd (omega (arith, h))),
  (λ j h l. absurd (omega (arith, h, l))),
)
free_descriptor_lem f (suc n) i = elim (Bool-cases (is_null (f i))) [
  | inl e ↦ rw e (omega arith, omega arith, (λ h. e), (λ j h l. absurd (omega (arith, h, l))))
  | inr e ↦
      let (low, high, free, used) = free_descriptor_lem f n (i + 1) in
      rw e (
        omega (arith, low),
        omega (arith, high),
        (λ h. free (omega (arith, h))),
        (λ j h l. elim (Bool-cases (i == j)) [
          | inl s ↦ rw (sym (==_eq i j s)) e
          | inr s ↦ used j (ground (arith, h, s)) l
        ]),
      )
]

-- A call that opens has refused and left the client as it was, or has set the descriptor `i`.
pub data Outcome (i : ℕ) (client : Client) : VfsRes → Client → Type 0 where
  refused : (res : VfsRes) → res.status ≡ vfs_error → res.data0 ≡ none → Outcome i client res client
  taken :
      (res : VfsRes) (o : Ofile)
      → res.data0 ≡ some i
      → Outcome i client res (install i (some o) client)

abbrev pub AllOutcomes : ℕ → Client → Option (VfsRes × Client) → Type 0
AllOutcomes i client none = Unit {0}
AllOutcomes i client (some (res, c)) = Outcome i client res c

module _ {W : Type 0} (i : ℕ) (shared : Shared) (v : Vfs W) (client : Client) where
  opendir_vnode-Outcome :
      (f : Vnode → W → ℕ × Option Cookie) (m : Option (Option Vnode))
      → AllOutcomes i client
          (Option.map (λ (vnode : Option Vnode). opendir_vnode i shared f vnode v client) m)
  opendir_vnode-Outcome f none = tt
  opendir_vnode-Outcome f (some none) = refused _ refl refl
  opendir_vnode-Outcome f (some (some vnode)) = taken _ _ refl

  opendir_on-Outcome :
      (dir : List ℕ) (sb : Superblock W) (f : Option (Vnode → W → ℕ × Option Cookie))
      → AllOutcomes i client (opendir_on i dir shared sb f v client)
  opendir_on-Outcome dir sb none = refused _ refl refl
  opendir_on-Outcome dir sb (some f) = opendir_vnode-Outcome f (directory_vnode dir sb v)

  pub opendir_found-Outcome :
      (dir : List ℕ) (super : Option ℕ)
      → AllOutcomes i client (opendir_found i dir shared super v client)
  opendir_found-Outcome dir none = refused _ refl refl
  opendir_found-Outcome dir (some super) =
      opendir_on-Outcome dir (v.supers super) (v.supers super).sb_vops.opendir

  opened-Outcome :
      (vnode : Vnode) (m : Option (ℕ × Cookie))
      → AllOutcomes i client (
          Option.map
            (λ (r : ℕ × Cookie). (
              answered r.0 (some i),
              install i (some (new_ofile vnode (some r.1) shared (some 0))) client,
            ))
            m)
  opened-Outcome vnode none = tt
  opened-Outcome vnode (some r) = taken _ _ refl

  open_vnode-Outcome :
      (f : Vnode → W → Option (ℕ × Cookie)) (m : Option (Option Vnode))
      → AllOutcomes i client
          (Option.bind m (λ (vnode : Option Vnode). open_vnode i shared f vnode v client))
  unfolding Option.bind
  open_vnode-Outcome f none = tt
  open_vnode-Outcome f (some none) = refused _ refl refl
  open_vnode-Outcome f (some (some vnode)) = opened-Outcome vnode (f vnode v.world)

  open_on-Outcome :
      (path : List ℕ) (sb : Superblock W) (f : Option (Vnode → W → Option (ℕ × Cookie)))
      → AllOutcomes i client (open_on i path shared sb f v client)
  open_on-Outcome path sb none = refused _ refl refl
  open_on-Outcome path sb (some f) = open_vnode-Outcome f (file_vnode path sb v)

  pub open_found-Outcome :
      (path : List ℕ) (super : Option ℕ)
      → AllOutcomes i client (open_found i path shared super v client)
  open_found-Outcome path none = refused _ refl refl
  open_found-Outcome path (some super) =
      open_on-Outcome path (v.supers super) (v.supers super).sb_vops.open_file

-- What opening does to the descriptors of a client: it refuses and changes nothing, with EMFILE where all descriptors
-- are in use; or it sets the first that is free, and returns it.
pub data Opened (client : Client) : VfsRes → Client → Type 0 where
  full :
      ((j : ℕ) → j < max_fds → is_null (client.ofile j) ≡ false)
      → Opened client (failed emfile) client
  refused_it : (res : VfsRes) → res.status ≡ vfs_error → res.data0 ≡ none → Opened client res client
  opened_at :
      (fd : ℕ) (o : Ofile) (res : VfsRes)
      → fd < max_fds
      → is_null (client.ofile fd) ≡ true
      → ((j : ℕ) → j < fd → is_null (client.ofile j) ≡ false)
      → res.data0 ≡ some fd
      → Opened client res (install fd (some o) client)

-- What is known of the descriptor that is taken.
unfoldable pub IsFirstFree : Client → ℕ → Type 0
IsFirstFree client i =
    (i < max_fds)
    × (is_null (client.ofile i) ≡ true)
    × ((j : ℕ) → j < i → is_null (client.ofile j) ≡ false)

Outcome-Opened :
    (client : Client) (i : ℕ) (res : VfsRes) (c : Client)
    → IsFirstFree client i
    → Outcome i client res c
    → Opened client res c
unfolding IsFirstFree
Outcome-Opened client i res c h (refused _ e d) = refused_it res e d
Outcome-Opened client i res c h (taken _ o d) = opened_at i o res h.0 h.1 h.2 d

pub AllOutcomes-Opened :
    (client : Client) (i : ℕ) (m : Option (VfsRes × Client)) (res : VfsRes) (c : Client)
    → IsFirstFree client i
    → AllOutcomes i client m
    → m ≡ some (res, c)
    → Opened client res c
AllOutcomes-Opened client i none res c h g e = absurd (some-ne-none _ (sym e))
AllOutcomes-Opened client i (some r) res c h g e =
    let same : r ≡ (res, c) = some-injective r (res, c) e in
    subst (λ (s : VfsRes × Client). Opened client s.0 s.1) same
      (Outcome-Opened client i r.0 r.1 h g)

below : (n i : ℕ) → i ≤ n + 0 → (i == n) ≡ false → i < n
below n i h e = ground (arith, h, e)

pub first_free :
    (client : Client) (n : ℕ)
    → n ≡ max_fds
    → (free_descriptor client.ofile n 0 == n) ≡ false
    → IsFirstFree client (free_descriptor client.ofile n 0)
unfolding IsFirstFree
first_free client n same e =
    let (low, high, free, used) = free_descriptor_lem client.ofile n 0 in
    let range = below n (free_descriptor client.ofile n 0) high e in
    (omega (arith, same, range), free (omega (arith, range)), (λ j l. used j (omega arith) l))

pub all_used :
    (client : Client) (n : ℕ)
    → (free_descriptor client.ofile n 0 == n) ≡ true
    → (j : ℕ) → j < n
    → is_null (client.ofile j) ≡ false
all_used client n e j l =
    let (low, high, free, used) = free_descriptor_lem client.ofile n 0 in
    used j (omega arith) (omega (arith, ==_eq (free_descriptor client.ofile n 0) n e, l))
