-- ===== src/Hash.antt =====
-- lib/libblt/hash.c: a hash table by open addressing and double hashing.
--
-- A key is the bit pattern of its int, since `%` by an unsigned int takes it as unsigned. The two tests
-- that compare a count with a share of the size in floating point are arguments. A loop over the cells
-- has fuel, and `none` says that it ran out.
pub mod Primes
pub mod Probing
pub mod Cells
pub mod Lookup
pub mod Placing
pub mod Changes
pub mod Rebuild
pub mod Updates
pub mod Roundtrip
mod Examples
use mathlib.Core.Option
use openblt.Prelude.{
  ℕ, zero, suc, ◌+◌, ◌-◌, ◌%◌, ◌==◌, Bool, true, false, not, ◌&&◌, Option, none, some, List, [],
  ◌∷◌, if◌then◌else◌, ltb, update,
}

-- table_size; beyond the array the model has 0.
abbrev nth : List ℕ → ℕ → ℕ
nth [] i = 0
nth (x ∷ xs) zero = x
nth (x ∷ xs) (suc i) = nth xs i

unfoldable pub table_size : ℕ → ℕ
table_size i =
    nth
      (7 ∷ 19 ∷ 43 ∷ 103 ∷ 229 ∷ 463 ∷ 1021 ∷ 2083 ∷ 4219 ∷ 8539 ∷ 17191 ∷ 34471 ∷ 69031 ∷ 138079
        ∷ 276373 ∷ 552751 ∷ 1105549 ∷ 2211259 ∷ 4422619 ∷ 8845453 ∷ 17691043 ∷ 35382091 ∷ 70764259
        ∷ 141528559 ∷ 283057213 ∷ 566115259 ∷ [])
      i

unfoldable pub hash : ℕ → ℕ → ℕ
hash key size = key % table_size size

pub rehash : ℕ → ℕ → ℕ
rehash key size = 1 + key % (table_size size - 2)

pub record HashNode : Type 0 where
  pub valid : Bool
  pub dirty : Bool
  pub key : ℕ
  pub dsize : ℕ
  pub item : ℕ

pub record HashTable : Type 0 where
  pub table : ℕ → HashNode
  pub size_index : ℕ
  pub used : ℕ
  pub dirty : ℕ

-- t->used > t->max_load * size, and t->dirty > (1 - t->max_load) * size
pub record Load : Type 0 where
  pub over : ℕ → ℕ → Bool
  pub stale : ℕ → ℕ → Bool

abbrev pub unused : HashNode
unused = record { valid = false; dirty = false; key = 0; dsize = 0; item = 0 }

-- The cells of a fresh table.
abbrev pub cleared : ℕ → HashTable
cleared size_index = record { table = λ i. unused; size_index = size_index; used = 0; dirty = 0 }

unfoldable pub hashtable_new : HashTable
hashtable_new = cleared 0

-- i -= c; if (i < 0) i += size
abbrev pub back : ℕ → ℕ → ℕ → ℕ
back size c i = if ltb i c then i + size - c else i - c

abbrev pub occupied : HashNode → Bool
occupied n = n.valid && not n.dirty

abbrev pub holds : HashNode → ℕ → Bool
holds n key = occupied n && (n.key == key)

-- do { ... } while (valid && !dirty)
pub next_free : ℕ → (ℕ → HashNode) → ℕ → ℕ → ℕ → Option ℕ
next_free zero cells size c i = none
next_free (suc fuel) cells size c i =
    let j = back size c i in
    let rest = next_free fuel cells size c j in if occupied (cells j) then rest else some j

-- The cell that an entry for the key goes to.
pub find_free : HashTable → ℕ → Option ℕ
unfolding next_free
find_free t key =
    let size = table_size t.size_index in
    let i = hash key t.size_index in
    if (t.table i).valid then next_free size t.table size (rehash key t.size_index) i else some i

abbrev pub store : HashTable → ℕ → ℕ → ℕ → ℕ → HashTable
store t i key item dsize = record t {
  used = if (t.table i).dirty then t.used else t.used + 1;
  table =
      update t.table i
        (record { valid = true; dirty = false; key = key; dsize = dsize; item = item });
}

pub place : HashTable → ℕ → ℕ → ℕ → Option HashTable
unfolding find_free
place t key item dsize = Option.map (λ (i : ℕ). store t i key item dsize) (find_free t key)

-- for (i = 0; i < table_size[old_index]; i++), with `n` cells left from `i` on
pub insert_live :
    (ℕ → ℕ → ℕ → HashTable → Option HashTable)
    → ℕ
    → ℕ
    → (ℕ → HashNode)
    → HashTable
    → Option HashTable
insert_live insert zero i old t = some t
insert_live insert (suc n) i old t =
    let c = old i in
    let rest = insert_live insert n (i + 1) old in
    if occupied c then Option.bind (insert c.key c.item c.dsize t) rest else rest t

-- `dir`
pub data Direction : Type 0 where
  smaller same larger : Direction

abbrev pub resized : Direction → ℕ → ℕ
resized smaller i = i - 1
resized same i = i
resized larger i = i + 1

pub hashtable_rebuild :
    (ℕ → ℕ → ℕ → HashTable → Option HashTable) → Direction → HashTable → Option HashTable
unfolding insert_live
hashtable_rebuild insert dir t =
    insert_live insert (table_size t.size_index) 0 t.table (cleared (resized dir t.size_index))

-- The fuel bounds the inserts that rebuild the table inside a rebuild.
unfoldable pub hashtable_insert : Load → ℕ → ℕ → ℕ → ℕ → HashTable → Option HashTable
unfolding place hashtable_rebuild
hashtable_insert load zero key item dsize t = none
hashtable_insert load (suc fuel) key item dsize t =
    let rebuilt = hashtable_rebuild (hashtable_insert load fuel) larger t in
    Option.bind (if load.over t.used (table_size t.size_index) then rebuilt else some t)
      (λ (u : HashTable). place u key item dsize)

-- The loop of hashtable_lookup and hashtable_remove: the cell of the key, or that there is none.
pub find_key : ℕ → (ℕ → HashNode) → ℕ → ℕ → ℕ → ℕ → Option (Option ℕ)
find_key zero cells size c key i = none
find_key (suc fuel) cells size c key i =
    let rest = find_key fuel cells size c key (back size c i) in
    if (cells i).valid
    then if (cells i).key == key && not (cells i).dirty then some (some i) else rest
    else some none

pub locate : HashTable → ℕ → Option (Option ℕ)
unfolding find_key
locate t key =
    let size = table_size t.size_index in
    find_key (size + 1) t.table size (rehash key t.size_index) key (hash key t.size_index)

abbrev pub entry : HashTable → Option ℕ → Option (ℕ × ℕ)
entry t none = none
entry t (some i) = some ((t.table i).item, (t.table i).dsize)

-- The item and its size; `none` inside is NULL and the size 0.
pub hashtable_lookup : HashTable → ℕ → Option (Option (ℕ × ℕ))
unfolding locate
hashtable_lookup t key = Option.map (entry t) (locate t key)

abbrev pub mark_dirty : HashTable → ℕ → HashTable
mark_dirty t i = record t {
  table = update t.table i (record (t.table i) { dirty = true });
  dirty = t.dirty + 1;
}

abbrev pub shrink : Load → ℕ → HashTable → Option HashTable
shrink load fuel t =
    if load.stale t.dirty (table_size t.size_index) && not (t.size_index == 0)
    then hashtable_rebuild (hashtable_insert load fuel) smaller t
    else some t

-- The entry in the cell that the search found.
pub take_out : Load → ℕ → HashTable → Option ℕ → Option (HashTable × Option (ℕ × ℕ))
take_out load fuel t none = some (t, none)
take_out load fuel t (some i) =
    Option.map (λ (u : HashTable). (u, entry t (some i))) (shrink load fuel (mark_dirty t i))

-- The table after the removal, and the item that is returned.
pub hashtable_remove : Load → ℕ → HashTable → ℕ → Option (HashTable × Option (ℕ × ℕ))
unfolding locate take_out
hashtable_remove load fuel t key = Option.bind (locate t key) (take_out load fuel t)
