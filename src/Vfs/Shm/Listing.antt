-- ===== src/Vfs/Shm/Listing.antt =====
-- What srv/vfs/shm.c writes of an open directory.
use mathlib.Core.Option
use openblt.Prelude.{
  ℕ, ◌+◌, ◌-◌, ◌/◌, ◌==◌, ◌≡◌, refl, ap, sym, some, List, [], ◌∷◌, map, take, drop, ltb,
  if◌then◌else◌, zero, suc, length, arith, ◌<◌, true, take_all,
}
use openblt.Vfs.Vnode.{directory, Dirent, sizeof_dirent, rewind, read_entry}
use openblt.Vfs.Shm.{Listed, Copied, copy_entries, shm_write_dir}

-- The entry that readdir gives for one of the directory: its name is cut to 32 characters.
abbrev pub cut : Dirent → Dirent
cut d = record d { d_name = take 32 d.d_name }

-- The rounds of the loop for `n` entries of room and `m` entries: one more than the entries, where there is room.
abbrev pub rounds : ℕ → ℕ → ℕ
rounds n m = if ltb m n then m + 1 else n

rounds-suc : (n m : ℕ) → rounds n m + 1 ≡ rounds (suc n) (suc m)
rounds-suc n m = ground arith

reported-rounds :
    (n m : ℕ) → (if rounds n m == 0 then 0 else rounds n m - 1) ≡ (if ltb m n then m else n - 1)
reported-rounds n m = ground arith

abbrev copied : ℕ → List Dirent → List Dirent → Copied
copied n head ds = record {
  count = rounds n (length ds);
  copies = map cut (take n ds);
  rest = directory head (drop n ds);
}

copy_entries-copied :
    (n : ℕ) (head ds : List Dirent)
    → copy_entries rewind read_entry n (directory head ds) ≡ some (copied n head ds)
unfolding Option.bind
copy_entries-copied zero head ds =
    let none_left : rounds 0 (length ds) ≡ 0 = ground arith in
    ap (λ (c : ℕ). some (record { count = c; copies = []; rest = directory head ds }))
      (sym none_left)
copy_entries-copied (suc n) head [] =
    let last : rounds (suc n) 0 ≡ 1 = ground arith in
    ap (λ (c : ℕ). some (record { count = c; copies = []; rest = directory head [] })) (sym last)
copy_entries-copied (suc n) head (d ∷ ds) = rw (copy_entries-copied n head ds) (
    ap
      (λ (c : ℕ). some (record {
        count = c;
        copies = cut d ∷ map cut (take n ds);
        rest = directory head (drop n ds);
      }))
      (rounds-suc n (length ds)))

-- What is written where there is room for `n` entries.
abbrev pub listing : ℕ → List Dirent → Listed
listing n head = record {
  dirents = map cut (take n head);
  numents = if ltb (length head) n then length head else n - 1;
  more = 0;
  cookie = directory head (drop n head);
}

-- shm_write_dir of an open directory, without entries to skip, writes the first entries that there
-- is room for, their names cut to 32 characters, wherever the cookie stood; it reports all entries
-- where there is room for more than there are, and otherwise one less than it wrote.
pub shm_write_dir-listing :
    (len : ℕ) (head current : List Dirent)
    → shm_write_dir rewind read_entry 0 len (directory head current)
      ≡ some (listing (len / sizeof_dirent) head)
unfolding shm_write_dir Option.bind
shm_write_dir-listing len head current =
    let n = len / sizeof_dirent in
    rw (copy_entries-copied n head head) (
      ap (λ (c : ℕ). some (record (listing n head) { numents = c }))
        (reported-rounds n (length head)))

-- There is room for one entry more than there are.
pub listing_all :
    (n : ℕ) (head : List Dirent)
    → length head < n
    → listing n head ≡ record {
      dirents = map cut head;
      numents = length head;
      more = 0;
      cookie = directory head (drop n head);
    }
listing_all n head h =
    let room : ltb (length head) n ≡ true = ground (arith, h) in
    rw (take_all n head (omega (arith, h)), room) refl
