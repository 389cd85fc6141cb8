-- ===== src/Hash/Roundtrip.antt =====
-- What hashtable_lookup of lib/libblt/hash.c finds after hashtable_insert and hashtable_remove.
use mathlib.Core.Option.{some-injective}
use mathlib.Core.Path.{subst}
use openblt.Prelude.{
  ℕ, suc, ◌+◌, ◌-◌, ◌<◌, ◌==◌, ◌≡◌, ◌≢◌, refl, sym, ap, ◌∙◌, true, false, not, ◌&&◌, Option, none,
  some, arith,
}
use openblt.Hash.{HashTable, Load, hashtable_insert, hashtable_lookup, hashtable_remove}
use openblt.Hash.Cells.{size_of, IsHash, Maps, absent, present}
use openblt.Hash.Lookup.{hashtable_lookup-Maps}
use openblt.Hash.Rebuild.{Roomy}
use openblt.Hash.Updates.{Changed, hashtable_insert-Changed, hashtable_remove-Changed}

-- A table maps a key to one thing.
Maps-unique :
    (t : HashTable) (key : ℕ) (r s : Option (ℕ × ℕ))
    → IsHash t
    → Maps t key r
    → Maps t key s
    → r ≡ s
Maps-unique t key r s v (absent a) (absent b) = refl
Maps-unique t key r s v (absent a) (present i l h e) = absurd (ground (arith, a i l, h))
Maps-unique t key r s v (present i l h e) (absent b) = absurd (ground (arith, b i l, h))
Maps-unique t key r s v (present i l h e) (present j g f d) =
    let same : i ≡ j =
      v.unique i j l g (ground (arith, h)) (ground (arith, f)) (ground (arith, h, f)) in
    e ∙ ap (λ (x : ℕ). some ((t.table x).item, (t.table x).dsize)) same ∙ sym d

module _ (t : HashTable) (v : IsHash t) where
  pub Maps-lookup : (key : ℕ) (r : Option (ℕ × ℕ)) → Maps t key r → hashtable_lookup t key ≡ some r
  Maps-lookup key r m =
      let (s, e, n) = hashtable_lookup-Maps t key v in e ∙ ap some (Maps-unique t key s r v n m)

  lookup-Maps : (key : ℕ) (r : Option (ℕ × ℕ)) → hashtable_lookup t key ≡ some r → Maps t key r
  lookup-Maps key r e =
      let (s, f, n) = hashtable_lookup-Maps t key v in
      subst (λ (x : Option (ℕ × ℕ)). Maps t key x) (some-injective s r (sym f ∙ e)) n

  -- The lookups in a table in which only one key has changed.
  lookup-Changed :
      (key : ℕ) (r : Option (ℕ × ℕ)) (u : HashTable)
      → Changed t key r u
      → (k : ℕ) → k ≢ key
      → hashtable_lookup u k ≡ hashtable_lookup t k
  lookup-Changed key r u c k n =
      let (s, e, m) = hashtable_lookup-Maps t k v in
      let (q, f, w) = hashtable_lookup-Maps u k c.well in
      f ∙ ap some (Maps-unique u k q s c.well w (c.others k s n m)) ∙ sym e

module _ (load : Load) (fuel : ℕ) (t : HashTable) (key item dsize : ℕ) where
  -- hashtable_insert of a key that is not found into a well formed table, where a table that is not
  -- over its load has two cells left, and one that is over it finds in the next size room for its
  -- entries and one more without being over the load, ends; in the well formed table that it
  -- leaves, rebuilt or not, hashtable_lookup finds the item and its size under the key, and under
  -- every other key what it found before.
  pub lookup-insert :
      IsHash t
      → hashtable_lookup t key ≡ some none
      → (load.over t.used (size_of t) ≡ false → t.used + 1 < size_of t)
      → (load.over t.used (size_of t) ≡ true → Roomy load t (t.size_index + 1))
      → (u : HashTable) × (hashtable_insert load (suc (suc fuel)) key item dsize t ≡ some u)
        × IsHash u
        × (hashtable_lookup u key ≡ some (some (item, dsize)))
        × ((k : ℕ) → k ≢ key → hashtable_lookup u k ≡ hashtable_lookup t k)
  lookup-insert v new space room =
      let (u, e, c) =
        hashtable_insert-Changed load fuel t key item dsize v (lookup-Maps t v key none new) space
          room in
      (u, e, c.well, Maps-lookup u c.well key _ c.self, lookup-Changed t v key _ u c)

module _ (load : Load) (fuel : ℕ) (t : HashTable) (key : ℕ) (v : IsHash t)
    (room : (load.stale (t.dirty + 1) (size_of t) && not (t.size_index == 0)) ≡ true
      → Roomy load t (t.size_index - 1)) where
  -- hashtable_remove of any key from a well formed table, where a table that has too many dirty
  -- cells after one more finds in the size below room for its entries and one more without being
  -- over the load, ends with what hashtable_lookup found; in the well formed table that it leaves,
  -- rebuilt or not, hashtable_lookup finds nothing under the key, and under every other key what it
  -- found before.
  pub lookup-remove :
      (u : HashTable) × (r : Option (ℕ × ℕ)) × (hashtable_remove load (suc fuel) t key
        ≡ some (u, r))
      × IsHash u
      × (hashtable_lookup t key ≡ some r)
      × (hashtable_lookup u key ≡ some none)
      × ((k : ℕ) → k ≢ key → hashtable_lookup u k ≡ hashtable_lookup t k)
  lookup-remove =
      let (u, r, e, m, c) = hashtable_remove-Changed load fuel t key v room in
      (
        u,
        r,
        e,
        c.well,
        Maps-lookup t v key r m,
        Maps-lookup u c.well key none c.self,
        lookup-Changed t v key none u c,
      )
