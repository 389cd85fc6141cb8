-- ===== src/Hash/Lookup.antt =====
-- hashtable_lookup of lib/libblt/hash.c: it ends, with what the table maps the key to.
use mathlib.Core.Path.{subst}
use openblt.Prelude.{
  ℕ, zero, suc, ◌+◌, ◌<◌, ◌==◌, ◌≡◌, refl, sym, ◌∙◌, ap, true, false, not, ◌&&◌, Option, none, some,
  ltb, arith, Bool-cases, inl, inr, ==_eq,
}
use openblt.Hash.{
  HashNode, HashTable, hash, rehash, holds, back, find_key, locate, entry, hashtable_lookup,
}
use openblt.Hash.Probing.{probe}
use openblt.Hash.Cells.{
  size_of, walk, Reaches, IsHash, Maps, absent, present, room_left, walk-lt, walk-covers,
}

module _ (cells : ℕ → HashNode) (size c key : ℕ) where
  -- Before the step `m` the walk from `i` passes valid cells that do not hold the key.
  abbrev pub Passes : ℕ → ℕ → Type 0
  Passes i m =
      (j : ℕ)
      → j < m
      → ((cells (probe size c j i)).valid ≡ true) × (holds (cells (probe size c j i)) key ≡ false)

  -- How the search from `i` ends.
  pub data Ends (i : ℕ) : Option (Option ℕ) → Type 0 where
    hit :
        (m : ℕ)
        → holds (cells (probe size c m i)) key ≡ true
        → Passes i m
        → Ends i (some (some (probe size c m i)))
    miss : (m : ℕ) → (cells (probe size c m i)).valid ≡ false → Passes i m → Ends i (some none)

  Passes-step :
      (i m : ℕ)
      → (cells i).valid ≡ true
      → holds (cells i) key ≡ false
      → Passes (back size c i) m
      → Passes i (suc m)
  unfolding probe
  Passes-step i m v h p zero l = (v, h)
  Passes-step i m v h p (suc j) l = p j (omega (arith, l))

  Ends-step :
      (i : ℕ) (r : Option (Option ℕ))
      → (cells i).valid ≡ true
      → holds (cells i) key ≡ false
      → Ends (back size c i) r
      → Ends i r
  unfolding probe
  Ends-step i r v h (hit m e p) = hit (suc m) e (Passes-step i m v h p)
  Ends-step i r v h (miss m e p) = miss (suc m) e (Passes-step i m v h p)

  -- With a cell on the walk that is not valid, and more fuel than steps to it, the search ends.
  find_key-Ends :
      (fuel i m : ℕ)
      → m < fuel
      → (cells (probe size c m i)).valid ≡ false
      → Ends i (find_key fuel cells size c key i)
  unfolding find_key probe
  find_key-Ends zero i m l e = absurd (omega (arith, l))
  find_key-Ends (suc fuel) i zero l e = rw e (miss zero e (λ j g. absurd (omega (arith, g))))
  find_key-Ends (suc fuel) i (suc m) l e = elim (Bool-cases (cells i).valid) [
    | inr v ↦ rw v (miss zero v (λ j g. absurd (omega (arith, g))))
    | inl v ↦ elim (Bool-cases (holds (cells i) key)) [
      | inl h ↦
          let test : ((cells i).key == key && not (cells i).dirty) ≡ true = ground (arith, h) in
          rw (v, test) (hit zero h (λ j g. absurd (omega (arith, g))))
      | inr h ↦
          let test : ((cells i).key == key && not (cells i).dirty) ≡ false = ground (arith, h, v) in
          let rest = find_key-Ends fuel (back size c i) m (omega (arith, l)) e in
          rw (v, test) (Ends-step i (find_key fuel cells size c key (back size c i)) v h rest)
    ]
  ]

module _ (t : HashTable) (key : ℕ) (v : IsHash t) where
  abbrev pub Located : Option (Option ℕ) → Type 0
  Located = Ends t.table (size_of t) (rehash key t.size_index) key (hash key t.size_index)

  -- The search for a key in the cells of a table ends.
  pub locate-Ends : Located (locate t key)
  unfolding locate
  locate-Ends =
      let (q, q_lt, empty) = room_left (size_of t) t.table (ground (arith, v.counted, v.room)) in
      let (m, m_lt, there) = walk-covers t key v.in_range q q_lt in
      find_key-Ends t.table (size_of t) (rehash key t.size_index) key (size_of t + 1)
        (hash key t.size_index) m (omega (arith, m_lt)) (rw there empty)

  -- Where the walk ends at a cell that is not valid, no cell holds the key.
  unreached :
      (m i : ℕ)
      → (t.table (walk t key m)).valid ≡ false
      → Passes t.table (size_of t) (rehash key t.size_index) key (hash key t.size_index) m
      → Reaches t key i
      → holds (t.table i) key ≡ false
  unreached m i e p r = elim (Bool-cases (ltb r.steps m)) [
    | inl before ↦
        sym (ap (λ (x : ℕ). holds (t.table x) key) r.there) ∙ (p r.steps (ground (arith, before))).1
    | inr after ↦ elim (Bool-cases (m == r.steps)) [
      | inl at_end ↦
          let there : walk t key m ≡ i = ap (walk t key) (==_eq m r.steps at_end) ∙ r.there in
          let empty : (t.table i).valid ≡ false =
            sym (ap (λ (x : ℕ). (t.table x).valid) there) ∙ e in
          ground (arith, empty)
      | inr later ↦ absurd (ground (arith, e, r.over m (ground (arith, after, later))))
    ]
  ]

  pub missing :
      (m : ℕ)
      → (t.table (walk t key m)).valid ≡ false
      → Passes t.table (size_of t) (rehash key t.size_index) key (hash key t.size_index) m
      → (i : ℕ) → i < size_of t
      → holds (t.table i) key ≡ false
  missing m e p i l = elim (Bool-cases (holds (t.table i) key)) [
    | inr h ↦ h
    | inl h ↦
        let same : (t.table i).key ≡ key = ==_eq (t.table i).key key (ground (arith, h)) in
        unreached m i e p
          (subst (λ (k : ℕ). Reaches t k i) same (v.reached i l (ground (arith, h))))
  ]

  -- What is mapped to the cell that the search ends at.
  located :
      (r : Option (Option ℕ)) → Located r → (f : Option ℕ) × (r ≡ some f) × Maps t key (entry t f)
  located r (hit m h p) =
      (some (walk t key m), refl, present (walk t key m) (walk-lt t key v.in_range m) h refl)
  located r (miss m e p) = (none, refl, absent (missing m e p))

  -- hashtable_lookup in a well formed table ends within the fuel, one more than the cells, with the
  -- item and the size of the occupied cell that holds the key, or with none where no cell holds it.
  pub hashtable_lookup-Maps :
      (r : Option (ℕ × ℕ)) × (hashtable_lookup t key ≡ some r) × Maps t key r
  unfolding hashtable_lookup
  hashtable_lookup-Maps = let (f, e, w) = located (locate t key) locate-Ends in (entry t f, rw e, w)
