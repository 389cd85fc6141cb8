-- ===== src/Hash/Examples.antt =====
-- The theorems on the hash table at a table with the key 5 and the key 12, whose walks begin at one cell.
use mathlib.Core.Option
use mathlib.Core.Option.{some-injective}
use mathlib.Core.Path.{subst}
use openblt.Prelude.{ℕ, ◌*◌, ◌≡◌, refl, Option, none, some, ltb, arith, sym, ◌≢◌}
use openblt.Hash.{
  table_size, hash, HashTable, Load, store, cleared, hashtable_insert, hashtable_remove,
  hashtable_lookup, hashtable_new,
}
use openblt.Hash.Cells.{size_of, Maps, hashtable_new-Maps, hashtable_new-IsHash, IsHash}
use openblt.Hash.Lookup.{hashtable_lookup-Maps}
use openblt.Hash.Rebuild.{Roomy, count_live}
use openblt.Hash.Roundtrip.{Maps-lookup, lookup-insert, lookup-remove}
use openblt.Hash.Updates.{Changed, hashtable_insert-Changed}

-- A load of a tenth.
abbrev tenth : Load
tenth = record { over = λ n size. ltb size (10 * n); stale = λ n size. ltb size (10 * n) }

abbrev one_entry : HashTable
one_entry = store (cleared 0) 5 5 9 4

one_entry-Changed : Changed hashtable_new 5 (some (9, 4)) one_entry
unfolding hashtable_new hashtable_insert table_size Option.bind hash
one_entry-Changed =
    let (u, e, w) =
      hashtable_insert-Changed tenth 0 hashtable_new 5 9 4 hashtable_new-IsHash
        (hashtable_new-Maps 5) (λ h. ground arith) (λ h. absurd (ground (arith, h))) in
    subst (λ (x : HashTable). Changed (cleared 0) 5 (some (9, 4)) x)
      (sym (some-injective one_entry u e)) w

one_entry-absent : hashtable_lookup one_entry 12 ≡ some none
one_entry-absent =
    Maps-lookup one_entry one_entry-Changed.well 12 none
      (one_entry-Changed.others 12 none (ground arith) (hashtable_new-Maps 12))

one_live : count_live (size_of one_entry) one_entry.table ≡ 1
unfolding count_live table_size
one_live = refl

one_entry-Roomy : Roomy tenth one_entry 1
unfolding table_size
one_entry-Roomy = record {
  known = omega arith;
  light = λ n h. ground (arith, one_live, h);
  space = omega (arith, one_live);
}

hashtable_lookup-Maps_example :
    (r : Option (ℕ × ℕ)) × (hashtable_lookup one_entry 5 ≡ some r) × Maps one_entry 5 r
hashtable_lookup-Maps_example = hashtable_lookup-Maps one_entry 5 one_entry-Changed.well

lookup-insert_example :
    (u : HashTable) × (hashtable_insert tenth 2 12 8 3 one_entry ≡ some u)
    × IsHash u
    × (hashtable_lookup u 12 ≡ some (some (8, 3)))
    × ((k : ℕ) → k ≢ 12 → hashtable_lookup u k ≡ hashtable_lookup one_entry k)
unfolding table_size
lookup-insert_example =
    lookup-insert tenth 0 one_entry 12 8 3 one_entry-Changed.well one_entry-absent
      (λ h. ground (arith, h)) (λ h. one_entry-Roomy)

lookup-remove_example :
    (u : HashTable) × (r : Option (ℕ × ℕ)) × (hashtable_remove tenth 1 one_entry 5 ≡ some (u, r))
    × IsHash u
    × (hashtable_lookup one_entry 5 ≡ some r)
    × (hashtable_lookup u 5 ≡ some none)
    × ((k : ℕ) → k ≢ 5 → hashtable_lookup u k ≡ hashtable_lookup one_entry k)
unfolding table_size
lookup-remove_example =
    lookup-remove tenth 0 one_entry 5 one_entry-Changed.well (λ h. absurd (ground (arith, h)))
