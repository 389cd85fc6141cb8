-- ===== src/Hash/Cells.antt =====
-- The invariant of a hash table of lib/libblt/hash.c, and what it maps a key to.
use native.Mathlib.Nat.{mod-lt}
use openblt.Prelude.{
  ℕ, zero, suc, ◌+◌, ◌-◌, ◌%◌, ◌<◌, ◌≤◌, ◌==◌, ◌≡◌, refl, true, false, Option, none, some,
  if◌then◌else◌, update, arith, Bool-cases, inl, inr, ==_eq, sym,
}
use openblt.Hash.{
  HashNode, HashTable, table_size, hash, rehash, occupied, holds, hashtable_new, unused, cleared,
}
use openblt.Hash.Primes.{IsPrime, table_size-IsPrime, two-lt-table_size}
use openblt.Hash.Probing.{probe, covers, probe-lt}

-- The valid cells among the first `n`.
unfoldable pub count_valid : ℕ → (ℕ → HashNode) → ℕ
count_valid zero cells = 0
count_valid (suc n) cells = (if (cells n).valid then 1 else 0) + count_valid n cells

pub room_left :
    (n : ℕ) (cells : ℕ → HashNode)
    → count_valid n cells < n
    → (i : ℕ) × (i < n) × ((cells i).valid ≡ false)
unfolding count_valid
room_left zero cells h = absurd (omega (arith, h))
room_left (suc n) cells h = elim (Bool-cases (cells n).valid) [
  | inl v ↦ let (i, lt, e) = room_left n cells (ground (arith, h, v)) in (i, omega (arith, lt), e)
  | inr v ↦ (n, omega arith, v)
]

pub count_valid-above :
    (n i : ℕ) (v : HashNode) (cells : ℕ → HashNode)
    → n ≤ i
    → count_valid n (update cells i v) ≡ count_valid n cells
unfolding count_valid
count_valid-above zero i v cells h = refl
count_valid-above (suc n) i v cells h =
    ground (arith, count_valid-above n i v cells (omega (arith, h)), h)

pub count_valid-update :
    (n i : ℕ) (v : HashNode) (cells : ℕ → HashNode)
    → i < n
    → v.valid ≡ true
    → count_valid n (update cells i v) ≡ (if (cells i).valid then 0 else 1) + count_valid n cells
unfolding count_valid
count_valid-update zero i v cells h e = absurd (omega (arith, h))
count_valid-update (suc n) i v cells h e = elim (Bool-cases (i == n)) [
  | inl m ↦ ground (arith, m, e, ==_eq i n m, count_valid-above n i v cells)
  | inr m ↦ ground (arith, m, count_valid-update n i v cells, h, e)
]

abbrev pub size_of : HashTable → ℕ
size_of t = table_size t.size_index

-- The walk for a key: its cell after `m` steps.
abbrev pub walk : HashTable → ℕ → ℕ → ℕ
walk t key m = probe (size_of t) (rehash key t.size_index) m (hash key t.size_index)

-- The walk for the key comes to the cell `i` over valid cells only.
pub record Reaches (t : HashTable) (key i : ℕ) : Type 0 where
  pub steps : ℕ
  pub there : walk t key steps ≡ i
  pub over : (j : ℕ) → j < steps → (t.table (walk t key j)).valid ≡ true

pub record IsHash (t : HashTable) : Type 0 where
  pub in_range : t.size_index < 26
  pub counted : t.used ≡ count_valid (size_of t) t.table
  pub room : t.used < size_of t
  pub clean : (i : ℕ) → (t.table i).valid ≡ false → (t.table i).dirty ≡ false
  pub reached : (i : ℕ) → i < size_of t → occupied (t.table i) ≡ true → Reaches t (t.table i).key i
  pub unique :
      (i j : ℕ)
      → i < size_of t
      → j < size_of t
      → occupied (t.table i) ≡ true
      → occupied (t.table j) ≡ true
      → (t.table i).key ≡ (t.table j).key
      → i ≡ j

-- What the table maps a key to: the item and its size in the occupied cell of the key, or nothing.
pub data Maps (t : HashTable) (key : ℕ) : Option (ℕ × ℕ) → Type 0 where
  absent : ((i : ℕ) → i < size_of t → holds (t.table i) key ≡ false) → Maps t key none
  present :
      {r : Option (ℕ × ℕ)} (i : ℕ)
      → i < size_of t
      → holds (t.table i) key ≡ true
      → r ≡ some ((t.table i).item, (t.table i).dsize)
      → Maps t key r

module _ (t : HashTable) (key : ℕ) (in_range : t.size_index < 26) where
  pub hash-lt : hash key t.size_index < size_of t
  unfolding hash
  hash-lt = mod-lt key (omega (arith, two-lt-table_size t.size_index in_range))

  pub rehash_pos : 0 < rehash key t.size_index
  unfolding rehash
  rehash_pos = omega arith

  pub rehash-lt : rehash key t.size_index < size_of t
  unfolding rehash
  rehash-lt =
      let big = two-lt-table_size t.size_index in_range in
      let small : key % (size_of t - 2) < size_of t - 2 = mod-lt key (omega (arith, big)) in
      omega (arith, big, small)

  pub walk-lt : (m : ℕ) → walk t key m < size_of t
  walk-lt m =
      probe-lt (size_of t) (rehash key t.size_index) m (hash key t.size_index) hash-lt rehash_pos
        rehash-lt

  -- At each of the 26 sizes, the steps back from the cell of a key come to every cell of the table,
  -- in fewer steps than it has cells.
  pub walk-covers : (q : ℕ) → q < size_of t → (m : ℕ) × (m < size_of t) × (walk t key m ≡ q)
  walk-covers q h =
      by_size (size_of t) refl hash-lt rehash-lt (table_size-IsPrime t.size_index in_range) h
    where
      by_size :
          (p : ℕ)
          → size_of t ≡ p
          → hash key t.size_index < p
          → rehash key t.size_index < p
          → IsPrime p
          → q < p
          → (m : ℕ) × (m < p) × (probe p (rehash key t.size_index) m (hash key t.size_index) ≡ q)
      by_size zero e l k prime h = absurd (omega (arith, h))
      by_size (suc n) e l k prime h =
          covers n (rehash key t.size_index) (hash key t.size_index) q prime rehash_pos k l h

count_cleared : (n : ℕ) → count_valid n (λ i. unused) ≡ 0
unfolding count_valid
count_cleared zero = refl
count_cleared (suc n) = ground (arith, count_cleared n)

-- A table whose cells are cleared is well formed, and so is a new one.
pub cleared-IsHash : (i : ℕ) → i < 26 → IsHash (cleared i)
cleared-IsHash i h = record {
  in_range = h;
  counted = sym (count_cleared (table_size i));
  room = omega (arith, two-lt-table_size i h);
  clean = λ j e. refl;
  reached = λ j l e. absurd (ground (arith, e));
  unique = λ j k l m e f g. absurd (ground (arith, e));
}

pub hashtable_new-IsHash : IsHash hashtable_new
unfolding hashtable_new
hashtable_new-IsHash = cleared-IsHash 0 (omega arith)

pub hashtable_new-Maps : (key : ℕ) → Maps hashtable_new key none
unfolding hashtable_new
hashtable_new-Maps key = absent (λ i l. refl)
