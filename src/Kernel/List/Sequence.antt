-- ===== src/Kernel/List/Sequence.antt =====
-- The operations of list.c against the sequence of items that a list stands for.
use openblt.Prelude.{
  ℕ, ◌≡◌, refl, true, false, List, [], ◌∷◌, ◌++◌, arith, has, has-ne, ==_refl, ap, ◌∙◌,
}
use openblt.Kernel.List.{
  Ptr, Heap, list_init, list_attach_head, list_attach_tail, list_add_head, list_add_tail, unlink,
  kmalloc,
}
use openblt.Kernel.List.Ring.{IsRing, items, IsRing-frame}
use openblt.Kernel.List.Ends.{list_init-IsRing, attach_head-IsRing, attach_tail-IsRing}
use openblt.Kernel.List.Removal.{unlink-IsRing}

-- The list at `list` is the ring of the nodes `xs`, which hold the items `ds`.
pub record Holds (h : Heap) (list : Ptr) (xs : List Ptr) (ds : List ℕ) : Type 0 where
  pub ring : IsRing h list xs
  pub contents : items h xs ≡ ds

pub items-append : (h : Heap) (xs ys : List Ptr) → items h (xs ++ ys) ≡ items h xs ++ items h ys
items-append h [] ys = refl
items-append h (x ∷ xs) ys = ap (λ l. h.content x ∷ l) (items-append h xs ys)

pub items-same :
    (h g : Heap) (xs : List Ptr)
    → ((p : Ptr) → has p xs ≡ true → g.content p ≡ h.content p)
    → items g xs ≡ items h xs
items-same h g [] s = refl
items-same h g (x ∷ xs) s =
    let rest = items-same h g xs (λ p m. s p (ground arith)) in ground (arith, s x, ==_refl x, rest)

kmalloc-IsRing :
    (h : Heap) (list : Ptr) (xs : List Ptr) (node : Ptr) (d : ℕ)
    → IsRing h list xs
    → IsRing (kmalloc node d h) list xs
kmalloc-IsRing h list xs node d r =
    IsRing-frame h (kmalloc node d h) list xs (λ p m. (refl, refl)) refl r

kmalloc-items :
    (h : Heap) (xs : List Ptr) (node : Ptr) (d : ℕ)
    → has node xs ≡ false
    → items (kmalloc node d h) xs ≡ items h xs
kmalloc-items h xs node d n =
    items-same h (kmalloc node d h) xs (λ p m. ground (arith, has-ne node p xs))

-- list_init makes an empty list.
pub list_init-Holds : (list : Ptr) (h : Heap) → Holds (list_init list h) list [] []
list_init-Holds list h = record { ring = list_init-IsRing list h; contents = refl }

-- The heap after a node is unlinked, of which only the items matter below.
pub unlink-Holds :
    (h : Heap) (list : Ptr) (xs : List Ptr) (n : Ptr) (ys : List Ptr) (ds : List ℕ)
    → IsRing h list (xs ++ n ∷ ys)
    → items h (xs ++ ys) ≡ ds
    → Holds (unlink list n h) list (xs ++ ys) ds
unfolding unlink
unlink-Holds h list xs n ys ds r e = record {
  ring = unlink-IsRing h list xs n ys r;
  contents = items-same h (unlink list n h) (xs ++ ys) (λ p m. refl) ∙ e;
}

module _ (h : Heap) (list : Ptr) (xs : List Ptr) (ds : List ℕ) (v : Holds h list xs ds) where
  -- list_add_head to a list, with a node that is not in it, gives the list with the item before its
  -- own.
  pub list_add_head-Holds :
      (node : Ptr) (d : ℕ)
      → has node (list ∷ xs) ≡ false
      → Holds (list_add_head node list d h) list (node ∷ xs) (d ∷ ds)
  unfolding list_add_head list_attach_head
  list_add_head-Holds node d fresh = record {
    ring =
        attach_head-IsRing (kmalloc node d h) list node xs (kmalloc-IsRing h list xs node d v.ring)
          fresh;
    contents = ground (arith, v.contents, kmalloc-items h xs node d (ground arith));
  }

  -- list_add_tail to a list, with a node that is not in it, gives the list with the item behind its
  -- own.
  pub list_add_tail-Holds :
      (node : Ptr) (d : ℕ)
      → has node (list ∷ xs) ≡ false
      → Holds (list_add_tail node list d h) list (xs ++ node ∷ []) (ds ++ d ∷ [])
  unfolding list_add_tail list_attach_tail
  list_add_tail-Holds node d fresh = record {
    ring =
        attach_tail-IsRing (kmalloc node d h) list node xs (kmalloc-IsRing h list xs node d v.ring)
          fresh;
    contents =
        items-append (list_add_tail node list d h) xs (node ∷ [])
        ∙ (rw (kmalloc-items h xs node d (ground arith), v.contents) (ground arith));
  }
