-- ===== src/Vfs/Shm.antt =====
-- srv/vfs/shm.c: the entries of a directory, written to the memory that the client shares.
pub mod Listing
use mathlib.Core.Option
use openblt.Prelude.{
  ℕ, ◌+◌, ◌-◌, ◌/◌, ◌==◌, Bool, true, false, Option, none, some, List, [], ◌∷◌, if◌then◌else◌, zero,
  suc, length, ◌++◌,
}
use openblt.Vfs.Vnode.{Cookie, Dirent, Entry, sizeof_dirent}

-- The entries that were written one behind the other, the two numbers that are returned, and the cookie.
pub record Listed : Type 0 where
  pub dirents : List Dirent
  pub numents : ℕ
  pub more : ℕ
  pub cookie : Cookie

-- The second loop, as long as there is room for `n` entries: `i`, the entries and the cookie at its end.
pub record Copied : Type 0 where
  pub count : ℕ
  pub copies : List Dirent
  pub rest : Cookie

abbrev pub one_more : Option Dirent → Copied → Copied
one_more none c = record c { count = c.count + 1 }
one_more (some d) c = record c { count = c.count + 1; copies = d ∷ c.copies }

module _ (rewinddir : Cookie → Option Cookie) (readdir : Cookie → Option Entry) where
  abbrev pub skip_entries : ℕ → Cookie → Option Cookie
  skip_entries zero c = some c
  skip_entries (suc n) c = Option.bind (readdir c) (λ (e : Entry). skip_entries n e.cookie)

  -- After an entry, with `rest` from its cookie on.
  abbrev pub copy_entry : Entry → Option Copied → Option Copied
  copy_entry e rest =
      if e.result == 0
      then Option.map (one_more (e.dirent)) rest
      else some (record { count = 1; copies = []; rest = e.cookie })

  abbrev pub copy_entries : ℕ → Cookie → Option Copied
  copy_entries zero c = some (record { count = 0; copies = []; rest = c })
  copy_entries (suc n) c =
      Option.bind (readdir c) (λ (e : Entry). copy_entry e (copy_entries n e.cookie))

  abbrev pub listed : Copied → Listed
  listed c = record {
    dirents = c.copies;
    numents = if c.count == 0 then 0 else c.count - 1;
    more = 0;
    cookie = c.rest;
  }

  -- `len` is the room in bytes.
  unfoldable pub shm_write_dir : ℕ → ℕ → Cookie → Option Listed
  unfolding Option.bind
  shm_write_dir skip len c = Option.bind (rewinddir c) (λ (c0 : Cookie).
      Option.bind (skip_entries skip c0)
        (λ (c1 : Cookie). Option.map listed (copy_entries (len / sizeof_dirent) c1)))
