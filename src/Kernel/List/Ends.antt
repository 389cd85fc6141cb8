-- ===== src/Kernel/List/Ends.antt =====
-- Linking a node in at the head or at the tail of a ring.
use openblt.Prelude.{
  ◌≡◌, refl, false, List, [], ◌∷◌, ◌++◌, arith, ◌==◌, has, Distinct, has-append, has-ne,
  length-append, Distinct-snoc, if◌then◌else◌,
}
use openblt.Kernel.List.{Ptr, Heap, list_init, list_attach_head, list_attach_tail}
use openblt.Kernel.List.Ring.{Links, IsRing, last, prev-last, has-last, Links-frame}

pub list_init-IsRing : (list : Ptr) (h : Heap) → IsRing (list_init list h) list []
unfolding list_init
list_init-IsRing list h = record {
  links = ground arith;
  distinct = (refl, tt);
  count = ground arith;
}

attach_head-Links :
    (h : Heap) (list node : Ptr) (xs : List Ptr)
    → Links h list xs list
    → Distinct (list ∷ xs)
    → has node (list ∷ xs) ≡ false
    → Links (list_attach_head list node h) list (node ∷ xs) list
unfolding list_attach_head
attach_head-Links h list node [] l d n = ground arith
attach_head-Links h list node (x ∷ xs) l d n =
    let rest =
      Links-frame h (list_attach_head list node h) x xs list
        (λ p m. ground (arith, has-ne list p (x ∷ xs), has-ne node p (x ∷ xs)))
        (λ p m. ground (
          arith,
          has-ne x p (xs ++ list ∷ []),
          has-ne node p (xs ++ list ∷ []),
          has-append x xs (list ∷ []),
          has-append node xs (list ∷ []),
        ))
        l.2 in
    ground (arith, rest)

pub attach_head-IsRing :
    (h : Heap) (list node : Ptr) (xs : List Ptr)
    → IsRing h list xs
    → has node (list ∷ xs) ≡ false
    → IsRing (list_attach_head list node h) list (node ∷ xs)
unfolding list_attach_head
attach_head-IsRing h list node xs r n = record {
  links = attach_head-Links h list node xs r.links r.distinct n;
  distinct = ground (arith, r.distinct);
  count = ground (arith, r.count);
}

last-ne : (a x : Ptr) (xs : List Ptr) → has a (x ∷ xs) ≡ false → (a == last x xs) ≡ false
last-ne a x xs h = has-ne a (last x xs) (x ∷ xs) h (has-last x xs)

-- The memory `g` differs from `h` as appending `node` behind `p` and before `b` makes it.
abbrev Appended : Heap → Heap → Ptr → Ptr → Ptr → Type 0
Appended h g p node b =
    ((r : Ptr) → g.next r ≡ (if r == node then b else if r == p then node else h.next r))
    × ((r : Ptr) → g.prev r ≡ (if r == b then node else if r == node then p else h.prev r))

append-Links :
    (h g : Heap) (a : Ptr) (xs : List Ptr) (node b : Ptr)
    → Links h a xs b
    → Distinct (a ∷ xs)
    → has b xs ≡ false
    → has node (a ∷ xs) ≡ false
    → (node == b) ≡ false
    → Appended h g (last a xs) node b
    → Links g a (xs ++ node ∷ []) b
append-Links h g a [] node b l d e n m s = ground (arith, s.0 a, s.0 node, s.1 node, s.1 b)
append-Links h g a (x ∷ xs) node b l d e n m s =
    let rest = append-Links h g x xs node b l.2 d.1 (ground arith) (ground arith) m s in
    ground (arith, rest, s.0 a, s.1 x, last-ne a x xs d.0)

pub attach_tail-IsRing :
    (h : Heap) (list node : Ptr) (xs : List Ptr)
    → IsRing h list xs
    → has node (list ∷ xs) ≡ false
    → IsRing (list_attach_tail list node h) list (xs ++ node ∷ [])
unfolding list_attach_tail
attach_tail-IsRing h list node xs r n = record {
  links =
      append-Links h (list_attach_tail list node h) list xs node list r.links r.distinct
        r.distinct.0 n (ground arith)
        (
          (λ q. ground (arith, prev-last h list xs list r.links)),
          (λ q. ground (arith, prev-last h list xs list r.links)),
        );
  distinct =
      ground
        (arith, r.distinct, Distinct-snoc xs node r.distinct.1, has-append list xs (node ∷ []));
  count = ground (arith, r.count, length-append xs (node ∷ []));
}
