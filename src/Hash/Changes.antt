-- ===== src/Hash/Changes.antt =====
-- Placing and removing entries in lib/libblt/hash.c, and what becomes of the map.
use openblt.Prelude.{
  ℕ, ◌+◌, ◌<◌, ◌≤◌, ◌==◌, ◌≡◌, ◌≢◌, refl, true, false, Option, none, some, arith, Bool-cases, inl,
  inr, ==_eq, ==_refl,
}
use openblt.Hash.{HashTable, occupied, holds, store, place, mark_dirty}
use openblt.Hash.Cells.{
  size_of, walk, Reaches, IsHash, Maps, absent, present, count_valid, count_valid-update,
}
use openblt.Hash.Placing.{Vacant, find_free-Vacant}

-- An update of a cell that keeps it valid keeps what the walks pass.
module _ (t u : HashTable) (same_size : u.size_index ≡ t.size_index)
    (kept : (i : ℕ) → (t.table i).valid ≡ true → (u.table i).valid ≡ true) where
  Reaches-kept : (key i : ℕ) → Reaches t key i → Reaches u key i
  Reaches-kept key i r = record {
    steps = r.steps;
    there = rw same_size r.there;
    over = λ j l. rw same_size (kept (walk t key j) (r.over j l));
  }

module _ (t : HashTable) (key item dsize i : ℕ) (v : IsHash t) (f : Vacant t key i)
    (missing : (j : ℕ) → j < size_of t → holds (t.table j) key ≡ false)
    (space : t.used + 1 < size_of t) where
  abbrev u : HashTable
  u = store t i key item dsize

  stored_kept : (j : ℕ) → (t.table j).valid ≡ true → (u.table j).valid ≡ true
  stored_kept j e = ground (arith, e)

  stored_counted : u.used ≡ count_valid (size_of t) u.table
  stored_counted = ground (
    arith,
    v.counted,
    v.clean i,
    f.free,
    count_valid-update (size_of t) i (u.table i) t.table f.in_table (ground (arith, ==_refl i)),
  )

  stored_reached :
      (j : ℕ) → j < size_of t → occupied (u.table j) ≡ true → Reaches u (u.table j).key j
  stored_reached j l o = elim (Bool-cases (j == i)) [
    | inl e ↦ rw (e, ==_eq j i e) (Reaches-kept t u refl stored_kept key i f.reaches)
    | inr e ↦ rw e (Reaches-kept t u refl stored_kept (t.table j).key j (v.reached j l (rw e at o)))
  ]

  other_key : (j : ℕ) → j < size_of t → occupied (t.table j) ≡ true → (t.table j).key ≢ key
  other_key j l o e = ground (arith, missing j l, o, e)

  stored_unique :
      (j k : ℕ)
      → j < size_of t
      → k < size_of t
      → occupied (u.table j) ≡ true
      → occupied (u.table k) ≡ true
      → (u.table j).key ≡ (u.table k).key
      → j ≡ k
  stored_unique j k lj lk oj ok e =
      ground (arith, v.unique j k lj lk, other_key j lj, other_key k lk, oj, ok, e)

  stored-IsHash : IsHash u
  stored-IsHash = record {
    in_range = v.in_range;
    counted = stored_counted;
    room = ground (arith, space);
    clean = λ j e. ground (arith, v.clean j, e);
    reached = stored_reached;
    unique = stored_unique;
  }

  stored_self : Maps u key (some (item, dsize))
  stored_self =
      present i f.in_table (ground (arith, ==_refl i, ==_refl key)) (ground (arith, ==_refl i))

  stored_others : (k : ℕ) (r : Option (ℕ × ℕ)) → k ≢ key → Maps t k r → Maps u k r
  stored_others k r n (absent h) = absent (λ j l. ground (arith, h j l, n))
  stored_others k r n (present j l h e) =
      let other : (j == i) ≡ false = ground (arith, h, f.free) in
      present j l (rw other h) (rw other e)

-- The table after an entry for a new key.
pub record Inserted (t : HashTable) (key item dsize : ℕ) (u : HashTable) : Type 0 where
  pub well : IsHash u
  pub self : Maps u key (some (item, dsize))
  pub others : (k : ℕ) (r : Option (ℕ × ℕ)) → k ≢ key → Maps t k r → Maps u k r
  pub few : u.used ≤ t.used + 1
  pub size : u.size_index ≡ t.size_index

pub absent_cells :
    (t : HashTable) (key : ℕ) (r : Option (ℕ × ℕ))
    → Maps t key r
    → r ≡ none
    → (j : ℕ) → j < size_of t
    → holds (t.table j) key ≡ false
absent_cells t key r (absent h) e = h
absent_cells t key r (present i l h s) e = absurd (ground (arith, e, s))

pub place-Inserted :
    (t : HashTable) (key item dsize : ℕ)
    → IsHash t
    → Maps t key none
    → t.used + 1 < size_of t
    → (u : HashTable) × (place t key item dsize ≡ some u) × Inserted t key item dsize u
unfolding place
place-Inserted t key item dsize v m space =
    let (i, f) = find_free-Vacant t key v in
    let missing = absent_cells t key none m refl in
    (
      store t i key item dsize,
      rw f.found,
      record {
        well = stored-IsHash t key item dsize i v f missing space;
        self = stored_self t key item dsize i v f missing space;
        others = stored_others t key item dsize i v f missing space;
        few = ground arith;
        size = refl;
      },
    )

-- Marking the cell of a key as dirty.
module _ (t : HashTable) (key i : ℕ) (v : IsHash t) (l : i < size_of t)
    (h : holds (t.table i) key ≡ true) where
  abbrev marked : HashTable
  marked = mark_dirty t i

  marked_kept : (j : ℕ) → (t.table j).valid ≡ true → (marked.table j).valid ≡ true
  marked_kept j e = ground (arith, e)

  occupied_before :
      (j : ℕ)
      → occupied (marked.table j) ≡ true
      → (occupied (t.table j) ≡ true) × ((j == i) ≡ false)
  occupied_before j o = ground (arith, o)

  marked_reached :
      (j : ℕ)
      → j < size_of t
      → occupied (marked.table j) ≡ true
      → Reaches marked (marked.table j).key j
  marked_reached j g o =
      let b = occupied_before j o in
      rw b.1 (Reaches-kept t marked refl marked_kept (t.table j).key j (v.reached j g b.0))

  pub marked-IsHash : IsHash marked
  marked-IsHash = record {
    in_range = v.in_range;
    counted = ground (
      arith,
      v.counted,
      h,
      count_valid-update (size_of t) i (marked.table i) t.table l (ground (arith, ==_refl i, h)),
    );
    room = v.room;
    clean = λ j e. ground (arith, v.clean j, e, h);
    reached = marked_reached;
    unique = λ j k jl kl oj ok e. ground (arith, v.unique j k jl kl, oj, ok, e);
  }

  pub marked_self : Maps marked key none
  marked_self = absent (λ j g. ground (arith, v.unique i j l g, h))

  pub marked_others : (k : ℕ) (r : Option (ℕ × ℕ)) → k ≢ key → Maps t k r → Maps marked k r
  marked_others k r n (absent a) = absent (λ j g. ground (arith, a j g))
  marked_others k r n (present j g a e) =
      let other : (j == i) ≡ false = ground (arith, a, h, n) in
      present j g (rw other a) (rw other e)
