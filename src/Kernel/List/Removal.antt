-- ===== src/Kernel/List/Removal.antt =====
-- Unlinking a node, anywhere in a ring.
use mathlib.Core.List.{append_assoc}
use openblt.Prelude.{
  ◌≡◌, false, List, [], ◌∷◌, ◌++◌, arith, ◌==◌, has, Distinct, has-append, has-ne, length-append,
  Distinct-drop_middle, Distinct-snoc, if◌then◌else◌,
}
use openblt.Kernel.List.{Ptr, Heap, unlink}
use openblt.Kernel.List.Ring.{
  Links, IsRing, last, first, next-first, prev-last, has-last, Links-frame,
}

first-ne :
    (x : Ptr) (ys : List Ptr) (b : Ptr) → has x (ys ++ b ∷ []) ≡ false → (x == first ys b) ≡ false
first-ne x [] b h = ground arith
first-ne x (y ∷ ys) b h = ground arith

last-ne : (a x : Ptr) (xs ys : List Ptr) → has a (x ∷ (xs ++ ys)) ≡ false → (a == last x xs) ≡ false
last-ne a x xs ys h =
    has-ne a (last x xs) (x ∷ xs) (ground (arith, has-append a xs ys)) (has-last x xs)

abbrev Spliced : Heap → Heap → Ptr → Ptr → Type 0
Spliced h g p q =
    ((r : Ptr) → g.next r ≡ (if r == p then q else h.next r))
    × ((r : Ptr) → g.prev r ≡ (if r == q then p else h.prev r))

splice_front :
    (h g : Heap) (a n : Ptr) (ys : List Ptr) (b : Ptr)
    → Links h n ys b
    → has a ys ≡ false
    → Distinct (ys ++ b ∷ [])
    → Spliced h g a (first ys b)
    → Links g a ys b
splice_front h g a n [] b l d e s = ground (arith, s.0 a, s.1 b)
splice_front h g a n (y ∷ ys) b l d e s =
    let rest =
      Links-frame h g y ys b (λ p m. ground (arith, s.0 p, has-ne a p (y ∷ ys)))
        (λ p m. ground (arith, s.1 p, has-ne y p (ys ++ b ∷ []))) l.2 in
    ground (arith, s.0 a, s.1 y, rest)

-- The two ends of the gap meet, and the links on both sides stay.
splice :
    (h g : Heap) (a : Ptr) (xs : List Ptr) (n : Ptr) (ys : List Ptr) (b : Ptr)
    → Links h n ys b
    → Links h a xs n
    → Distinct (a ∷ (xs ++ ys))
    → Distinct (xs ++ (ys ++ b ∷ []))
    → Spliced h g (last a xs) (first ys b)
    → Links g a (xs ++ ys) b
splice h g a [] n ys b after l d e s = splice_front h g a n ys b after d.0 e s
splice h g a (x ∷ xs) n ys b after l d e s =
    let rest = splice h g x xs n ys b after l.2 d.1 e.1 s in
    ground (
      arith,
      rest,
      s.0 a,
      s.1 x,
      last-ne a x xs ys d.0,
      first-ne x ys b,
      has-append x xs (ys ++ b ∷ []),
    )

Links-split :
    (h : Heap) (a : Ptr) (xs : List Ptr) (n : Ptr) (ys : List Ptr) (b : Ptr)
    → Links h a (xs ++ n ∷ ys) b
    → Links h a xs n × Links h n ys b
Links-split h a [] n ys b l = ground arith
Links-split h a (x ∷ xs) n ys b l = ground (arith, Links-split h x xs n ys b l.2)

-- A node linked out of a ring, wherever it stands, leaves the others in their order.
pub unlink-IsRing :
    (h : Heap) (list : Ptr) (xs : List Ptr) (n : Ptr) (ys : List Ptr)
    → IsRing h list (xs ++ n ∷ ys)
    → IsRing (unlink list n h) list (xs ++ ys)
unfolding unlink
unlink-IsRing h list xs n ys r = record {
  links =
      splice h (unlink list n h) list xs n ys list parts.1 parts.0 distinct
        (rw (append_assoc xs ys (list ∷ [])) at
          (Distinct-snoc (xs ++ ys) list distinct.1 distinct.0))
        (
          (λ q. ground (arith, prev-last h list xs n parts.0, next-first h n ys list parts.1)),
          (λ q. ground (arith, prev-last h list xs n parts.0, next-first h n ys list parts.1)),
        );
  distinct = distinct;
  count = ground (arith, r.count, length-append xs (n ∷ ys), length-append xs ys);
}
  where
    parts : Links h list xs n × Links h n ys list
    parts = Links-split h list xs n ys list r.links

    distinct : Distinct (list ∷ (xs ++ ys))
    distinct = ground (
      arith,
      r.distinct,
      Distinct-drop_middle xs n ys r.distinct.1,
      has-append list xs (n ∷ ys),
      has-append list xs ys,
    )
