-- ===== src/Kernel/List/Taking.antt =====
-- Taking items from the two ends of a list.
use mathlib.Core.List.{append-nil}
use openblt.Prelude.{
  ℕ, ◌≡◌, refl, false, some, List, [], ◌∷◌, ◌++◌, arith, ◌==◌, has-ne, ==_refl, Option, ◌∙◌,
  has-append, sym, none,
}
use openblt.Kernel.List.{
  Ptr, Heap, unlink, list_detach_head, list_detach_tail, kfree, list_remove_head, list_peek_head,
  list_remove_tail, list_peek_tail,
}
use openblt.Kernel.List.Ring.{IsRing, items, IsRing-frame, prev-last, last}
use openblt.Kernel.List.Sequence.{Holds, unlink-Holds, items-append, items-same}
use openblt.Kernel.List.Ring.{IsRing-frame, has-last}
use openblt.Prelude.{has-ne}

-- What a call that takes an item out promises: the item, or none, and the list that is left.
pub record Takes (list : Ptr) (out : Heap × Option ℕ) (xs : List Ptr) (d : Option ℕ) (ds : List ℕ)
    : Type 0 where
  pub item : out.1 ≡ d
  pub rest : Holds out.0 list xs ds

pub head_ne :
    (h : Heap) (list x : Ptr) (xs : List Ptr) → IsRing h list (x ∷ xs) → (x == list) ≡ false
head_ne h list x xs r = ground (arith, r.distinct)

last-snoc : (a : Ptr) (xs : List Ptr) (x : Ptr) → last a (xs ++ x ∷ []) ≡ x
last-snoc a [] x = refl
last-snoc a (y ∷ xs) x = last-snoc y xs x

prev-snoc :
    (h : Heap) (list : Ptr) (xs : List Ptr) (x : Ptr)
    → IsRing h list (xs ++ x ∷ [])
    → h.prev list ≡ x
prev-snoc h list xs x r = prev-last h list (xs ++ x ∷ []) list r.links ∙ last-snoc list xs x

tail_ne :
    (h : Heap) (list : Ptr) (xs : List Ptr) (x : Ptr)
    → IsRing h list (xs ++ x ∷ [])
    → (x == list) ≡ false
tail_ne h list xs x r = ground (arith, r.distinct, has-append list xs (x ∷ []))

pub kfree-Holds :
    (h : Heap) (list : Ptr) (xs : List Ptr) (n : Ptr) (ds : List ℕ)
    → Holds h list xs ds
    → Holds (kfree n h) list xs ds
kfree-Holds h list xs n ds v = record {
  ring = IsRing-frame h (kfree n h) list xs (λ p m. (refl, refl)) refl v.ring;
  contents = items-same h (kfree n h) xs (λ p m. refl) ∙ v.contents;
}

content-last :
    (h : Heap) (x : Ptr) (xs : List Ptr) → h.content (last x xs) ≡ last (h.content x) (items h xs)
content-last h x [] = refl
content-last h x (y ∷ xs) = content-last h y xs

-- The parts of a sequence with a last item.
snoc-injective : (ys bs : List ℕ) (a b : ℕ) → ys ++ a ∷ [] ≡ bs ++ b ∷ [] → (ys ≡ bs) × (a ≡ b)
snoc-injective [] [] a b e = ground arith
snoc-injective [] (y ∷ []) a b e = cc
snoc-injective [] (y ∷ z ∷ bs) a b e = cc
snoc-injective (x ∷ []) [] a b e = cc
snoc-injective (x ∷ z ∷ ys) [] a b e = cc
snoc-injective (x ∷ ys) (y ∷ bs) a b e = ground (arith, snoc-injective ys bs a b)

module _ (h : Heap) (list : Ptr) where
  -- list_detach_head and list_remove_head take the first item; the second frees its node.
  pub list_detach_head-cons :
      (x : Ptr) (xs : List Ptr) (d : ℕ) (ds : List ℕ)
      → Holds h list (x ∷ xs) (d ∷ ds)
      → Takes list (list_detach_head list h) xs (some d) ds
  unfolding list_detach_head
  list_detach_head-cons x xs d ds v =
      rw (v.ring.links.0, head_ne h list x xs v.ring)
        (record {
          item = ground (arith, v.contents);
          rest = unlink-Holds h list [] x xs ds v.ring (ground (arith, v.contents));
        })

  -- list_remove_head of a list with a first item returns that item, leaves a list of the others,
  -- and frees the node.
  pub list_remove_head-cons :
      (x : Ptr) (xs : List Ptr) (d : ℕ) (ds : List ℕ)
      → Holds h list (x ∷ xs) (d ∷ ds)
      → Takes list (list_remove_head list h) xs (some d) ds
        × ((list_remove_head list h).0.used x ≡ false)
  unfolding list_remove_head
  list_remove_head-cons x xs d ds v =
      rw (v.ring.links.0, head_ne h list x xs v.ring)
        (
          record {
            item = ground (arith, v.contents);
            rest =
                kfree-Holds (unlink list x h) list xs x ds
                  (unlink-Holds h list [] x xs ds v.ring (ground (arith, v.contents)));
          },
          ground (arith, ==_refl x),
        )

  -- list_detach_tail and list_remove_tail take the last item.
  pub list_detach_tail-snoc :
      (xs : List Ptr) (x : Ptr) (ds : List ℕ) (d : ℕ)
      → Holds h list (xs ++ x ∷ []) (ds ++ d ∷ [])
      → Takes list (list_detach_tail list h) xs (some d) ds
  unfolding list_detach_tail
  list_detach_tail-snoc xs x ds d v =
      let parts =
        snoc-injective (items h xs) ds (h.content x) d
          (sym (items-append h xs (x ∷ [])) ∙ v.contents) in
      rw (prev-snoc h list xs x v.ring, tail_ne h list xs x v.ring)
        (record {
          item = ground (arith, parts);
          rest =
              rw (append-nil xs) at
                (unlink-Holds h list xs x [] ds v.ring (rw (append-nil xs) parts.0));
        })

  -- list_remove_tail of a list with a last item returns that item, leaves a list of the others, and
  -- frees the node.
  pub list_remove_tail-snoc :
      (xs : List Ptr) (x : Ptr) (ds : List ℕ) (d : ℕ)
      → Holds h list (xs ++ x ∷ []) (ds ++ d ∷ [])
      → Takes list (list_remove_tail list h) xs (some d) ds
        × ((list_remove_tail list h).0.used x ≡ false)
  unfolding list_remove_tail
  list_remove_tail-snoc xs x ds d v =
      let parts =
        snoc-injective (items h xs) ds (h.content x) d
          (sym (items-append h xs (x ∷ [])) ∙ v.contents) in
      rw (prev-snoc h list xs x v.ring, tail_ne h list xs x v.ring)
        (
          record {
            item = ground (arith, parts);
            rest = kfree-Holds (unlink list x h) list xs x ds (
                rw (append-nil xs) at
                  (unlink-Holds h list xs x [] ds v.ring (rw (append-nil xs) parts.0)));
          },
          ground (arith, ==_refl x),
        )

  -- An empty list gives no item from either end, and is left as it was.
  pub ends-nil :
      Holds h list [] []
      → (list_peek_head list h ≡ none)
        × (list_peek_tail list h ≡ none)
        × (list_detach_head list h ≡ (h, none))
        × (list_detach_tail list h ≡ (h, none))
        × (list_remove_head list h ≡ (h, none))
        × (list_remove_tail list h ≡ (h, none))
  unfolding list_peek_head list_peek_tail list_detach_head list_detach_tail list_remove_head
      list_remove_tail
  ends-nil v = rw (v.ring.links.0, v.ring.links.1) (ground (arith, ==_refl list))

  -- The peeks show the two ends.
  pub peeks-ends :
      (x : Ptr) (xs : List Ptr) (d : ℕ) (ds : List ℕ)
      → Holds h list (x ∷ xs) (d ∷ ds)
      → (list_peek_head list h ≡ some d) × (list_peek_tail list h ≡ some (last d ds))
  unfolding list_peek_head list_peek_tail
  peeks-ends x xs d ds v =
      let e = prev-last h list (x ∷ xs) list v.ring.links in
      let apart = has-ne list (last x xs) (x ∷ xs) v.ring.distinct.0 (has-last x xs) in
      rw (v.ring.links.0, e)
        (ground (arith, head_ne h list x xs v.ring, apart, v.contents, content-last h x xs))
