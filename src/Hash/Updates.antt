-- ===== src/Hash/Updates.antt =====
-- hashtable_insert and hashtable_remove of lib/libblt/hash.c, with the rebuilds that they start.
use mathlib.Core.Option
use openblt.Prelude.{
  ℕ, suc, ◌+◌, ◌-◌, ◌<◌, ◌==◌, ◌≡◌, ◌≢◌, refl, ap, true, false, not, ◌&&◌, Option, none, some,
  arith, Bool-cases, inl, inr,
}
use openblt.Hash.{
  HashTable, Load, table_size, entry, mark_dirty, shrink, locate, hashtable_insert,
  hashtable_remove, smaller, larger, take_out,
}
use openblt.Hash.Cells.{size_of, walk, walk-lt, IsHash, Maps, absent, present}
use openblt.Hash.Lookup.{hit, miss, Located, locate-Ends, missing}
use openblt.Hash.Changes.{place-Inserted, marked-IsHash, marked_self, marked_others}
use openblt.Hash.Rebuild.{Roomy, hashtable_rebuild-Rebuilt, count_live-mark}

-- The table `u` maps the key to `r`, and every other key as `t` does.
pub record Changed (t : HashTable) (key : ℕ) (r : Option (ℕ × ℕ)) (u : HashTable) : Type 0 where
  pub well : IsHash u
  pub self : Maps u key r
  pub others : (k : ℕ) (s : Option (ℕ × ℕ)) → k ≢ key → Maps t k s → Maps u k s

module _ (load : Load) (fuel : ℕ) (t : HashTable) (key item dsize : ℕ) where
  -- hashtable_insert of a key without an entry into a well formed table, where a table that is not
  -- over its load has two cells left, and one that is over it finds in the next size room for its
  -- entries and one more without being over the load, ends; the table is well formed, maps the key
  -- to the item and its size, and every other key as before, rebuilt or not.
  pub hashtable_insert-Changed :
      IsHash t
      → Maps t key none
      → (load.over t.used (size_of t) ≡ false → t.used + 1 < size_of t)
      → (load.over t.used (size_of t) ≡ true → Roomy load t (t.size_index + 1))
      → (u : HashTable) × (hashtable_insert load (suc (suc fuel)) key item dsize t ≡ some u)
        × Changed t key (some (item, dsize)) u
  unfolding hashtable_insert Option.bind
  hashtable_insert-Changed v m space room = elim (Bool-cases (load.over t.used (size_of t))) [
    | inr light ↦
        let (u, e, w) = place-Inserted t key item dsize v m (space light) in
        (u, rw light e, record { well = w.well; self = w.self; others = w.others })
    | inl heavy ↦
        let (g, f, b) = hashtable_rebuild-Rebuilt load fuel t larger v (room heavy) in
        let wide : size_of g ≡ table_size (t.size_index + 1) = ap table_size b.size in
        let (u, e, w) =
          place-Inserted g key item dsize b.well (b.same key none m)
            (omega (arith, wide, b.few, (room heavy).space)) in
        (
          u,
          rw (heavy, f) e,
          record {
            well = w.well;
            self = w.self;
            others = λ k s n p. w.others k s n (b.same k s p);
          },
        )
  ]

module _ (load : Load) (fuel : ℕ) (t : HashTable) (key : ℕ) (v : IsHash t)
    (room : (load.stale (t.dirty + 1) (size_of t) && not (t.size_index == 0)) ≡ true
      → Roomy load t (t.size_index - 1)) where
  abbrev Removed : Option (HashTable × Option (ℕ × ℕ)) → Type 0
  Removed o =
      (u : HashTable) × (r : Option (ℕ × ℕ)) × (o ≡ some (u, r))
      × Maps t key r
      × Changed t key none u

  Roomy-mark : (i j : ℕ) → Roomy load t j → Roomy load (mark_dirty t i) j
  Roomy-mark i j r = record {
    known = r.known;
    light = λ n l. r.light n (omega (arith, l, count_live-mark (size_of t) i t));
    space = omega (arith, r.space, count_live-mark (size_of t) i t);
  }

  shrink-Changed :
      (i : ℕ)
      → Changed t key none (mark_dirty t i)
      → (u : HashTable) × (shrink load (suc fuel) (mark_dirty t i) ≡ some u) × Changed t key none u
  shrink-Changed i w =
      elim (Bool-cases (load.stale (t.dirty + 1) (size_of t) && not (t.size_index == 0))) [
        | inr f ↦ (mark_dirty t i, rw f refl, w)
        | inl f ↦
            let (u, e, b) =
              hashtable_rebuild-Rebuilt load fuel (mark_dirty t i) smaller w.well
                (Roomy-mark i (t.size_index - 1) (room f)) in
            (
              u,
              rw f e,
              record {
                well = b.well;
                self = b.same key none w.self;
                others = λ k s n p. b.same k s (w.others k s n p);
              },
            )
      ]

  removed :
      (r : Option (Option ℕ))
      → locate t key ≡ r
      → Located t key v r
      → Removed (hashtable_remove load (suc fuel) t key)
  unfolding hashtable_remove take_out Option.bind
  removed r e (hit m h p) =
      let i = walk t key m in
      let l = walk-lt t key v.in_range m in
      let marked : Changed t key none (mark_dirty t i) = record {
        well = marked-IsHash t key i v l h;
        self = marked_self t key i v l h;
        others = marked_others t key i v l h;
      } in
      let (u, f, w) = shrink-Changed i marked in
      (u, entry t (some i), rw (e, f) refl, present i l h refl, w)
  removed r e (miss m f p) =
      let none_here : Maps t key none = absent (missing t key v m f p) in
      (t, none, rw e refl, none_here, record { well = v; self = none_here; others = λ k s n q. q })

  -- hashtable_remove of any key from a well formed table, where a table that has too many dirty
  -- cells after one more finds in the size below room for its entries and one more without being
  -- over the load, ends with what the table maps the key to; the table is well formed, maps the key
  -- to nothing, and every other key as before, rebuilt or not.
  pub hashtable_remove-Changed : Removed (hashtable_remove load (suc fuel) t key)
  hashtable_remove-Changed = removed (locate t key) refl (locate-Ends t key v)
