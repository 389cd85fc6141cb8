-- ===== src/Kernel/List/Search.antt =====
-- list_detach and list_remove: the walk over the ring, and what is left of the sequence.
use openblt.Prelude.{
  ℕ, zero, suc, ◌<◌, ◌≡◌, refl, Bool, true, false, Option, none, some, List, [], ◌∷◌, ◌++◌, arith,
  ◌==◌, length, has, if◌then◌else◌, ==_refl, Bool-cases, inl, inr, ap, Option-cases,
}
use openblt.Kernel.List.{
  Ptr, Heap, find_node, list_detach, list_remove, unlink, kfree, remove_found, detach_found,
}
use openblt.Kernel.List.Ring.{Links, items}
use openblt.Kernel.List.Sequence.{Holds, unlink-Holds}
use openblt.Kernel.List.Taking.{kfree-Holds}

-- The first node that holds the item.
locate : Heap → ℕ → List Ptr → Option Ptr
locate h item [] = none
locate h item (x ∷ xs) = if h.content x == item then some x else locate h item xs

-- The sequence without the first occurrence of the item.
unfoldable pub erase : ℕ → List ℕ → List ℕ
erase d [] = []
erase d (x ∷ xs) = if x == d then xs else x ∷ erase d xs

-- With more fuel than nodes the walk ends, at the first node that holds the item.
find_node-locate :
    (fuel : ℕ) (list : Ptr) (item : ℕ) (a : Ptr) (h : Heap) (xs : List Ptr)
    → length xs < fuel
    → Links h a xs list
    → has list xs ≡ false
    → find_node fuel list item (h.next a) h ≡ some (locate h item xs)
unfolding find_node locate
find_node-locate zero list item a h xs lt l n = absurd (ground arith)
find_node-locate (suc fuel) list item a h [] lt l n = ground (arith, ==_refl list)
find_node-locate (suc fuel) list item a h (x ∷ xs) lt l n =
    let rest = find_node-locate fuel list item x h xs (ground arith) l.2 (ground arith) in
    rw l.0 (ground (arith, rest))

-- What `locate` finds, as a place in the list.
record Place (h : Heap) (item : ℕ) (xs : List Ptr) (n : Ptr) : Type 0 where
  before : List Ptr
  after : List Ptr
  parts : xs ≡ before ++ n ∷ after
  left : items h (before ++ after) ≡ erase item (items h xs)
  held : has item (items h xs) ≡ true

locate-none :
    (h : Heap) (item : ℕ) (xs : List Ptr)
    → locate h item xs ≡ none
    → (has item (items h xs) ≡ false) × (erase item (items h xs) ≡ items h xs)
unfolding locate erase
locate-none h item [] e = (refl, refl)
locate-none h item (x ∷ xs) e = ground (arith, locate-none h item xs)

locate-Place :
    (h : Heap) (item : ℕ) (xs : List Ptr) (n : Ptr) → locate h item xs ≡ some n → Place h item xs n
unfolding locate erase
locate-Place h item [] n e = cc
locate-Place h item (x ∷ xs) n e = elim (Bool-cases (h.content x == item)) [
  | inl hit ↦ record {
    before = [];
    after = xs;
    parts = ground arith;
    left = ground arith;
    held = ground arith;
  }
  | inr miss ↦
      let p = locate-Place h item xs n (rw (miss) at e) in
      record {
        before = x ∷ p.before;
        after = p.after;
        parts = ap (λ l. x ∷ l) p.parts;
        left = rw (miss) (ap (λ l. h.content x ∷ l) p.left);
        held = ground (arith, p.held);
      }
]

module _ (h : Heap) (list : Ptr) (xs : List Ptr) (ds : List ℕ) (v : Holds h list xs ds) (d : ℕ)
    (fuel : ℕ) (enough : length xs < fuel) where
  walk : find_node fuel list d (h.next list) h ≡ some (locate h d xs)
  walk = find_node-locate fuel list d list h xs enough v.ring.links v.ring.distinct.0

  -- The outcome of a removal: whether the item was there, and the list without its first occurrence.
  abbrev pub Removed : Option (Heap × Bool) → Type 0
  Removed r = (g : Heap) × (ys : List Ptr) × (r ≡ some (g, has d ds)) × Holds g list ys (erase d ds)

  missing : locate h d xs ≡ none → (has d ds ≡ false) × (erase d ds ≡ ds)
  missing e = rw v.contents at (locate-none h d xs e)

  unlinked :
      (n : Ptr)
      → (p : Place h d xs n) → Holds (unlink list n h) list (p.before ++ p.after) (erase d ds)
  unlinked n p =
      unlink-Holds h list p.before n p.after (erase d ds) (rw p.parts at v.ring)
        (rw v.contents at p.left)

  list_detach-walk : list_detach fuel list d h ≡ some (detach_found list h (locate h d xs))
  unfolding list_detach
  list_detach-walk = rw (walk, list_detach)

  list_remove-walk : list_remove fuel list d h ≡ some (remove_found list h (locate h d xs))
  unfolding list_remove
  list_remove-walk = rw (walk, list_remove)

  -- With more fuel than nodes, list_detach on a list ends, reports whether the item was in the
  -- list, and leaves a list of the items without its first occurrence.
  pub list_detach-erase : Removed (list_detach fuel list d h)
  list_detach-erase = elim (Option-cases (locate h d xs)) [
    | inl e ↦ let m = missing e in (h, xs, rw (list_detach-walk, e, m.0), rw m.1 v)
    | inr (n, e) ↦
        let p = locate-Place h d xs n e in
        (
          unlink list n h,
          p.before ++ p.after,
          rw (list_detach-walk, e) (rw (← v.contents) (rw p.held)),
          unlinked n p,
        )
  ]

  -- With more fuel than nodes, list_remove on a list ends, reports whether the item was in the
  -- list, and leaves a list of the items without its first occurrence.
  pub list_remove-erase : Removed (list_remove fuel list d h)
  list_remove-erase = elim (Option-cases (locate h d xs)) [
    | inl e ↦ let m = missing e in (h, xs, rw (list_remove-walk, e, m.0), rw m.1 v)
    | inr (n, e) ↦
        let p = locate-Place h d xs n e in
        (
          kfree n (unlink list n h),
          p.before ++ p.after,
          rw (list_remove-walk, e) (rw (← v.contents) (rw p.held)),
          kfree-Holds _ list _ n _ (unlinked n p),
        )
  ]
