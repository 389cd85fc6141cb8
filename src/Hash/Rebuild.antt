-- ===== src/Hash/Rebuild.antt =====
-- hashtable_rebuild and hashtable_insert of lib/libblt/hash.c.
use mathlib.Core.Option
use mathlib.Core.Path.{subst}
use openblt.Prelude.{
  ℕ, zero, suc, ◌+◌, ◌<◌, ◌≤◌, ◌==◌, ◌≡◌, refl, sym, ◌∙◌, ap, true, false, none, some, arith,
  Bool-cases, inl, inr, ==_eq, ==_refl, if◌then◌else◌, Option,
}
use openblt.Hash.{
  mark_dirty, HashNode, HashTable, Load, table_size, occupied, holds, cleared, insert_live,
  hashtable_insert, hashtable_rebuild, Direction, resized,
}
use openblt.Hash.Cells.{size_of, IsHash, Maps, absent, cleared-IsHash, present}
use openblt.Hash.Changes.{Inserted, place-Inserted}

-- The occupied cells among the first `n`.
unfoldable pub count_live : ℕ → (ℕ → HashNode) → ℕ
count_live zero cells = 0
count_live (suc n) cells = (if occupied (cells n) then 1 else 0) + count_live n cells

count_live_mono : (n i : ℕ) (cells : ℕ → HashNode) → i ≤ n → count_live i cells ≤ count_live n cells
unfolding count_live
count_live_mono zero i cells h = ground (arith, h)
count_live_mono (suc n) i cells h = elim (Bool-cases (i == suc n)) [
  | inl e ↦ rw (==_eq i (suc n) e) (omega arith)
  | inr e ↦ ground (arith, count_live_mono n i cells, e, h)
]

pub count_live-mark :
    (n i : ℕ) (t : HashTable) → count_live n (mark_dirty t i).table ≤ count_live n t.table
unfolding count_live
count_live-mark zero i t = omega arith
count_live-mark (suc n) i t = ground (arith, count_live-mark n i t)

-- An insert that does not rebuild the table.
module _ (load : Load) (fuel : ℕ) (t : HashTable) (key item dsize : ℕ) where
  pub insert_light :
      IsHash t
      → Maps t key none
      → load.over t.used (size_of t) ≡ false
      → t.used + 1 < size_of t
      → (u : HashTable) × (hashtable_insert load (suc fuel) key item dsize t ≡ some u)
        × Inserted t key item dsize u
  unfolding hashtable_insert Option.bind
  insert_light v m light space =
      let (u, e, w) = place-Inserted t key item dsize v m space in (u, rw light e, w)

-- The cells of `t` before `i` have been inserted into `u`.
record Moved (t : HashTable) (size_index i : ℕ) (u : HashTable) : Type 0 where
  well : IsHash u
  size : u.size_index ≡ size_index
  few : u.used ≤ count_live i t.table
  there :
      (j : ℕ)
      → j < i
      → occupied (t.table j) ≡ true
      → Maps u (t.table j).key (some ((t.table j).item, (t.table j).dsize))
  nowhere : (k : ℕ) → ((j : ℕ) → j < i → holds (t.table j) k ≡ false) → Maps u k none

-- A rebuilt table of the size `size_index` has room for the entries of `t`.
pub record Roomy (load : Load) (t : HashTable) (size_index : ℕ) : Type 0 where
  pub known : size_index < 26
  pub light :
      (n : ℕ) → n ≤ count_live (size_of t) t.table → load.over n (table_size size_index) ≡ false
  pub space : count_live (size_of t) t.table + 1 < table_size size_index

module _ (load : Load) (fuel : ℕ) (t : HashTable) (v : IsHash t) (size_index : ℕ)
    (r : Roomy load t size_index) where
  Moved-start : Moved t size_index 0 (cleared size_index)
  unfolding count_live
  Moved-start = record {
    well = cleared-IsHash size_index r.known;
    size = refl;
    few = omega arith;
    there = λ j l. absurd (omega (arith, l));
    nowhere = λ k h. absent (λ j l. refl);
  }

  few_used :
      (i : ℕ) (u : HashTable)
      → i ≤ size_of t
      → Moved t size_index i u
      → u.used ≤ count_live (size_of t) t.table
  few_used i u l m = omega (arith, count_live_mono (size_of t) i t.table l, m.few)

  new_key :
      (i : ℕ)
      → i < size_of t
      → occupied (t.table i) ≡ true
      → (j : ℕ) → j < i
      → holds (t.table j) (t.table i).key ≡ false
  new_key i l o j g = ground (arith, v.unique i j l, o, g, l)

  Moved-skip :
      (i : ℕ) (u : HashTable)
      → occupied (t.table i) ≡ false
      → Moved t size_index i u
      → Moved t size_index (suc i) u
  unfolding count_live
  Moved-skip i u o m = record {
    well = m.well;
    size = m.size;
    few = ground (arith, m.few, o);
    there = λ j l p. m.there j (not_here j l p) p;
    nowhere = λ k h. m.nowhere k (λ j l. h j (omega (arith, l)));
  }
    where
      not_here : (j : ℕ) → j < suc i → occupied (t.table j) ≡ true → j < i
      not_here j l p = elim (Bool-cases (j == i)) [
        | inl e ↦ absurd (ground (arith, o, p, ap (λ (x : ℕ). occupied (t.table x)) (==_eq j i e)))
        | inr e ↦ ground (arith, e, l)
      ]

  Moved-insert :
      (i : ℕ) (u w : HashTable)
      → i < size_of t
      → occupied (t.table i) ≡ true
      → Moved t size_index i u
      → Inserted u (t.table i).key (t.table i).item (t.table i).dsize w
      → Moved t size_index (suc i) w
  unfolding count_live
  Moved-insert i u w l o m s = record {
    well = s.well;
    size = s.size ∙ m.size;
    few = ground (arith, m.few, s.few, o);
    there = λ j g p. placed j g p;
    nowhere = λ k h.
        s.others k none (λ e. ground (arith, h i (omega arith), o, e))
          (m.nowhere k (λ j g. h j (omega (arith, g))));
  }
    where
      placed :
          (j : ℕ)
          → j < suc i
          → occupied (t.table j) ≡ true
          → Maps w (t.table j).key (some ((t.table j).item, (t.table j).dsize))
      placed j g p = elim (Bool-cases (j == i)) [
        | inl e ↦
            subst (λ (x : ℕ). Maps w (t.table x).key (some ((t.table x).item, (t.table x).dsize)))
              (sym (==_eq j i e)) s.self
        | inr e ↦
            s.others (t.table j).key _
              (λ q. ground (arith, v.unique j i (omega (arith, g, l)) l, p, o, q, e, ==_refl i))
              (m.there j (ground (arith, e, g)) p)
      ]

  -- The loop over the old cells, with `n` of them left.
  insert_live-Moved :
      (n i : ℕ) (u : HashTable)
      → i + n ≡ size_of t
      → Moved t size_index i u
      → (w : HashTable) × (insert_live (hashtable_insert load (suc fuel)) n i t.table u ≡ some w)
        × Moved t size_index (size_of t) w
  unfolding insert_live Option.bind
  insert_live-Moved zero i u e m =
      let all : i ≡ size_of t = omega (arith, e) in
      (u, refl, subst (λ (x : ℕ). Moved t size_index x u) all m)
  insert_live-Moved (suc n) i u e m = elim (Bool-cases (occupied (t.table i))) [
    | inr o ↦
        let next = subst (λ (x : ℕ). Moved t size_index x u) (succ i) (Moved-skip i u o m) in
        let (w, f, d) = insert_live-Moved n (i + 1) u (omega (arith, e)) next in (w, rw o f, d)
    | inl o ↦
        let l : i < size_of t = omega (arith, e) in
        let few = few_used i u (omega (arith, l)) m in
        let wide : size_of u ≡ table_size size_index = ap table_size m.size in
        let (w1, f1, s) =
          insert_light load fuel u (t.table i).key (t.table i).item (t.table i).dsize m.well
            (m.nowhere (t.table i).key (new_key i l o))
            (ap (load.over u.used) wide ∙ r.light u.used few) (omega (arith, few, wide, r.space)) in
        let next =
          subst (λ (x : ℕ). Moved t size_index x w1) (succ i) (Moved-insert i u w1 l o m s) in
        let (w, f, d) = insert_live-Moved n (i + 1) w1 (omega (arith, e)) next in
        (w, rw (o, f1) f, d)
  ]
    where
      succ : (i : ℕ) → suc i ≡ i + 1
      succ i = omega arith

-- What a rebuild keeps: the map, in a table of the given size.
pub record Rebuilt (t : HashTable) (size_index : ℕ) (u : HashTable) : Type 0 where
  pub well : IsHash u
  pub size : u.size_index ≡ size_index
  pub few : u.used ≤ count_live (size_of t) t.table
  pub same : (k : ℕ) (r : Option (ℕ × ℕ)) → Maps t k r → Maps u k r

pub hashtable_rebuild-Rebuilt :
    (load : Load) (fuel : ℕ) (t : HashTable) (dir : Direction)
    → IsHash t
    → Roomy load t (resized dir t.size_index)
    → (u : HashTable) × (hashtable_rebuild (hashtable_insert load (suc fuel)) dir t ≡ some u)
      × Rebuilt t (resized dir t.size_index) u
unfolding hashtable_rebuild
hashtable_rebuild-Rebuilt load fuel t dir v r =
    let size_index = resized dir t.size_index in
    let (u, e, m) =
      insert_live-Moved load fuel t v size_index r (size_of t) 0 (cleared size_index) (omega arith)
        (Moved-start load fuel t v size_index r) in
    (u, e, record { well = m.well; size = m.size; few = m.few; same = kept u m })
  where
    kept :
        (u : HashTable)
        → Moved t (resized dir t.size_index) (size_of t) u
        → (k : ℕ) (r : Option (ℕ × ℕ)) → Maps t k r
        → Maps u k r
    kept u m k r (absent h) = m.nowhere k h
    kept u m k r (present i l h e) =
        let same_key : (t.table i).key ≡ k = ==_eq (t.table i).key k (ground (arith, h)) in
        subst (λ (x : Option (ℕ × ℕ)). Maps u k x) (sym e)
          (subst (λ (x : ℕ). Maps u x (some ((t.table i).item, (t.table i).dsize))) same_key
            (m.there i l (ground (arith, h))))
