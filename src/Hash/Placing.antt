-- ===== src/Hash/Placing.antt =====
-- The search of lib/libblt/hash.c for the cell that an entry goes to.
use openblt.Prelude.{
  ℕ, zero, suc, ◌<◌, ◌≡◌, refl, true, false, Option, some, arith, Bool-cases, inl, inr,
}
use openblt.Hash.{HashNode, HashTable, hash, rehash, occupied, back, next_free, find_free}
use openblt.Hash.Probing.{probe}
use openblt.Hash.Cells.{size_of, walk, Reaches, IsHash, room_left, walk-lt, walk-covers, hash-lt}

-- The next cells from `i` are occupied up to one that is not, which is found.
record NextVacant (cells : ℕ → HashNode) (size c i : ℕ) (o : Option ℕ) : Type 0 where
  steps : ℕ
  found : o ≡ some (probe size c (suc steps) i)
  free : occupied (cells (probe size c (suc steps) i)) ≡ false
  over : (j : ℕ) → j < steps → occupied (cells (probe size c (suc j) i)) ≡ true

further_over :
    (cells : ℕ → HashNode) (size c i n : ℕ)
    → occupied (cells (back size c i)) ≡ true
    → ((j : ℕ) → j < n → occupied (cells (probe size c (suc j) (back size c i))) ≡ true)
    → (j : ℕ) → j < suc n
    → occupied (cells (probe size c (suc j) i)) ≡ true
unfolding probe
further_over cells size c i n f h zero g = f
further_over cells size c i n f h (suc j) g = h j (omega (arith, g))

further :
    (cells : ℕ → HashNode) (size c i : ℕ) (o : Option ℕ)
    → occupied (cells (back size c i)) ≡ true
    → NextVacant cells size c (back size c i) o
    → NextVacant cells size c i o
unfolding probe
further cells size c i o f r = record {
  steps = suc r.steps;
  found = r.found;
  free = r.free;
  over = further_over cells size c i r.steps f r.over;
}

next_free-NextVacant :
    (cells : ℕ → HashNode) (size c fuel i m : ℕ)
    → m < fuel
    → occupied (cells (probe size c (suc m) i)) ≡ false
    → NextVacant cells size c i (next_free fuel cells size c i)
unfolding next_free probe
next_free-NextVacant cells size c zero i m l e = absurd (omega (arith, l))
next_free-NextVacant cells size c (suc fuel) i zero l e =
    rw e (record { steps = 0; found = refl; free = e; over = λ j g. absurd (omega (arith, g)) })
next_free-NextVacant cells size c (suc fuel) i (suc m) l e =
    elim (Bool-cases (occupied (cells (back size c i)))) [
      | inr f ↦
          rw f
            (record { steps = 0; found = refl; free = f; over = λ j g. absurd (omega (arith, g)) })
      | inl f ↦
          let r = next_free-NextVacant cells size c fuel (back size c i) m (omega (arith, l)) e in
          rw f (further cells size c i _ f r)
    ]

-- The cell that find_free gives for a key: it is not occupied, and the walk for the key comes to it.
pub record Vacant (t : HashTable) (key i : ℕ) : Type 0 where
  pub found : find_free t key ≡ some i
  pub in_table : i < size_of t
  pub free : occupied (t.table i) ≡ false
  pub reaches : Reaches t key i

module _ (t : HashTable) (key : ℕ) (v : IsHash t) where
  abbrev size : ℕ
  size = size_of t

  abbrev c : ℕ
  c = rehash key t.size_index

  abbrev home : ℕ
  home = hash key t.size_index

  over_valid :
      (t.table home).valid ≡ true
      → (r : NextVacant t.table size c home (next_free size t.table size c home)) → (j : ℕ)
      → j < suc r.steps
      → (t.table (walk t key j)).valid ≡ true
  unfolding probe
  over_valid full r zero l = full
  over_valid full r (suc j) l = ground (arith, r.over j (omega (arith, l)))

  free_later :
      (t.table home).valid ≡ true
      → NextVacant t.table size c home (next_free size t.table size c home)
      → (i : ℕ) × Vacant t key i
  unfolding find_free
  free_later full r = (
    walk t key (suc r.steps),
    record {
      found = rw full r.found;
      in_table = walk-lt t key v.in_range (suc r.steps);
      free = r.free;
      reaches = record { steps = suc r.steps; there = refl; over = over_valid full r };
    },
  )

  walk_empty : (m : ℕ) × (m < size) × ((t.table (walk t key m)).valid ≡ false)
  walk_empty =
      let (q, q_lt, empty) = room_left size t.table (ground (arith, v.counted, v.room)) in
      let (m, m_lt, there) = walk-covers t key v.in_range q q_lt in (m, m_lt, rw there empty)

  pub find_free-Vacant : (i : ℕ) × Vacant t key i
  unfolding find_free probe
  find_free-Vacant = elim (Bool-cases (t.table home).valid) [
    | inr empty ↦ (
      home,
      record {
        found = rw empty;
        in_table = hash-lt t key v.in_range;
        free = ground (arith, empty);
        reaches = record { steps = 0; there = refl; over = λ j g. absurd (omega (arith, g)) };
      },
    )
    | inl full ↦ free_later full (from_empty full walk_empty.0 walk_empty.1 walk_empty.2)
  ]
    where
      from_empty :
          (t.table home).valid ≡ true
          → (m : ℕ) → m < size
          → (t.table (walk t key m)).valid ≡ false
          → NextVacant t.table size c home (next_free size t.table size c home)
      from_empty full zero l e = absurd (ground (arith, e, full))
      from_empty full (suc m) l e =
          next_free-NextVacant t.table size c size home m (omega (arith, l)) (ground (arith, e))
