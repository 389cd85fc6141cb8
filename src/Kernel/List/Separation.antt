-- ===== src/Kernel/List/Separation.antt =====
-- Two lists of kernel/list.c in one memory.
use openblt.Prelude.{
  ℕ, ◌≡◌, refl, true, false, List, [], ◌∷◌, ◌++◌, arith, has, has-ne, ==_refl, ◌∙◌,
}
use openblt.Kernel.List.{Ptr, Heap, list_attach_tail, list_detach_head, unlink}
use openblt.Kernel.List.Ring.{
  IsRing, items, first, last, next-first, prev-last, has-last, IsRing-frame,
}
use openblt.Kernel.List.Ends.{attach_tail-IsRing}
use openblt.Kernel.List.Sequence.{Holds, items-append, items-same}
use openblt.Kernel.List.Taking.{list_detach_head-cons, head_ne}

-- No address of one ring is an address of the other.
abbrev pub Apart : List Ptr → List Ptr → Type 0
Apart xs ys = (p : Ptr) → has p xs ≡ true → has p ys ≡ false

has-first : (a : Ptr) (xs : List Ptr) → has (first xs a) (a ∷ xs) ≡ true
has-first a [] = ground (arith, ==_refl a)
has-first a (x ∷ xs) = ground (arith, ==_refl x)

-- Appending to one list spares another.
pub attach_tail-spares :
    (h : Heap) (dst : Ptr) (ys : List Ptr) (node src : Ptr) (xs : List Ptr) (ds : List ℕ)
    → IsRing h dst ys
    → Holds h src xs ds
    → Apart (src ∷ xs) (node ∷ dst ∷ ys)
    → Holds (list_attach_tail dst node h) src xs ds
unfolding list_attach_tail
attach_tail-spares h dst ys node src xs ds w v apart = record {
  ring =
      IsRing-frame h (list_attach_tail dst node h) src xs
        (λ p m.
          let last_ne =
            has-ne p (last dst ys) (dst ∷ ys) (ground (arith, apart p m)) (has-last dst ys) in
          (
            ground (arith, apart p m, last_ne, prev-last h dst ys dst w.links),
            ground (arith, apart p m),
          ))
        (ground (arith, apart src, ==_refl src)) v.ring;
  contents = items-same h (list_attach_tail dst node h) xs (λ p m. refl) ∙ v.contents;
}

module _ (h : Heap) (src : Ptr) (x : Ptr) (xs : List Ptr) (d : ℕ) (ds : List ℕ)
    (v : Holds h src (x ∷ xs) (d ∷ ds)) (dst : Ptr) (ys : List Ptr) (es : List ℕ)
    (w : Holds h dst ys es) (apart : Apart (src ∷ x ∷ xs) (dst ∷ ys)) where
  detach_head_unlinks : (list_detach_head src h).0 ≡ unlink src x h
  unfolding list_detach_head
  detach_head_unlinks = rw (v.ring.links.0, head_ne h src x xs v.ring)

  src_free : has src (dst ∷ ys) ≡ false
  src_free = apart src (ground (arith, ==_refl src))

  x_free : has x (dst ∷ ys) ≡ false
  x_free = apart x (ground (arith, ==_refl x))

  first_free : has (first xs src) (dst ∷ ys) ≡ false
  first_free = apart (first xs src) (ground (arith, has-first src xs))

  next_x : h.next x ≡ first xs src
  next_x = next-first h x xs src v.ring.links.2

  -- Taking the head off one list spares the other.
  pub unlink-spares : Holds (unlink src x h) dst ys es
  unfolding unlink
  unlink-spares = record {
    ring =
        IsRing-frame h (unlink src x h) dst ys
          (λ p m. (
            ground (arith, v.ring.links.1, has-ne src p (dst ∷ ys) src_free m),
            ground (arith, next_x, has-ne (first xs src) p (dst ∷ ys) first_free m),
          ))
          (ground (arith, src_free)) w.ring;
    contents = items-same h (unlink src x h) ys (λ p m. refl) ∙ w.contents;
  }

  abbrev g : Heap
  g = unlink src x h

  rest : Holds g src xs ds
  rest = rw detach_head_unlinks at (list_detach_head-cons h src x xs d ds v).rest

  tail_items :
      items (list_attach_tail dst x g) ys ++ items (list_attach_tail dst x g) (x ∷ [])
      ≡ es ++ d ∷ []
  unfolding list_attach_tail unlink
  tail_items =
      ground
        (arith, items-same h (list_attach_tail dst x g) ys (λ p m. refl), w.contents, v.contents)

  -- Of two lists in one memory that share no address, where the first has an item, list_detach_head
  -- of the first and list_attach_tail of its node to the second leave two lists: the first without
  -- its first item, the second with that item behind its own.
  pub requeue :
      let after = list_attach_tail dst x (list_detach_head src h).0 in
      Holds after src xs ds × Holds after dst (ys ++ x ∷ []) (es ++ d ∷ [])
  requeue = rw detach_head_unlinks (
    attach_tail-spares g dst ys x src xs ds unlink-spares.ring rest (λ p m.
        ground
          (arith, apart p, has-ne x p (src ∷ xs), head_ne h src x xs v.ring, v.ring.distinct, m)),
    record {
      ring = attach_tail-IsRing g dst x ys unlink-spares.ring x_free;
      contents = items-append (list_attach_tail dst x g) ys (x ∷ []) ∙ tail_items;
    },
  )
