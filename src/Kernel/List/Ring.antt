-- ===== src/Kernel/List/Ring.antt =====
-- What a ring in memory stands for, and how it changes when a node is linked in or out.
use openblt.Prelude.{
  ℕ, ◌%◌, ◌≡◌, true, List, [], ◌∷◌, ◌++◌, map, arith, length, has, Distinct, has-append, ==_refl,
}
use openblt.Kernel.List.{Ptr, Heap, uint32_mod}

-- From `a` the `next` pointers lead through `xs` to `b`, and the `prev` pointers back.
abbrev pub Links : Heap → Ptr → List Ptr → Ptr → Type 0
Links h a [] b = (h.next a ≡ b) × (h.prev b ≡ a)
Links h a (x ∷ xs) b = (h.next a ≡ x) × (h.prev x ≡ a) × Links h x xs b

-- The ring of the sentinel `list` holds the nodes `xs`.
pub record IsRing (h : Heap) (list : Ptr) (xs : List Ptr) : Type 0 where
  pub links : Links h list xs list
  pub distinct : Distinct (list ∷ xs)
  pub count : h.count list ≡ length xs % uint32_mod

-- The items of the nodes, in order: the abstract view of a list.
abbrev pub items : Heap → List Ptr → List ℕ
items h xs = map h.content xs

-- The last of `a ∷ xs`.
abbrev pub last : Ptr → List Ptr → Ptr
last a [] = a
last a (x ∷ xs) = last x xs

-- The first of `xs ++ b ∷ []`.
abbrev pub first : List Ptr → Ptr → Ptr
first [] b = b
first (x ∷ xs) b = x

pub next-first :
    (h : Heap) (a : Ptr) (xs : List Ptr) (b : Ptr) → Links h a xs b → h.next a ≡ first xs b
next-first h a [] b l = l.0
next-first h a (x ∷ xs) b l = l.0

pub prev-last :
    (h : Heap) (a : Ptr) (xs : List Ptr) (b : Ptr) → Links h a xs b → h.prev b ≡ last a xs
prev-last h a [] b l = l.1
prev-last h a (x ∷ xs) b l = prev-last h x xs b l.2

pub has-last : (a : Ptr) (xs : List Ptr) → has (last a xs) (a ∷ xs) ≡ true
has-last a [] = ground (arith, ==_refl a)
has-last a (x ∷ xs) = ground (arith, has-last x xs)

-- Links survive a change that spares what they read.
pub Links-frame :
    (h g : Heap) (a : Ptr) (xs : List Ptr) (b : Ptr)
    → ((p : Ptr) → has p (a ∷ xs) ≡ true → g.next p ≡ h.next p)
    → ((p : Ptr) → has p (xs ++ b ∷ []) ≡ true → g.prev p ≡ h.prev p)
    → Links h a xs b
    → Links g a xs b
Links-frame h g a [] b n p l = ground (arith, n a, p b, ==_refl a, ==_refl b)
Links-frame h g a (x ∷ xs) b n p l =
    let rest = Links-frame h g x xs b (λ q m. n q (ground arith)) (λ q m. p q (ground arith)) l.2 in
    ground (arith, n a, p x, ==_refl a, ==_refl x, rest)

-- A change that spares the nodes of a ring and its sentinel spares the ring.
pub IsRing-frame :
    (h g : Heap) (list : Ptr) (xs : List Ptr)
    → ((p : Ptr) → has p (list ∷ xs) ≡ true → (g.next p ≡ h.next p) × (g.prev p ≡ h.prev p))
    → g.count list ≡ h.count list
    → IsRing h list xs
    → IsRing g list xs
IsRing-frame h g list xs s c r = record {
  links =
      Links-frame h g list xs list (λ p m. (s p m).0)
        (λ p m. (s p (ground (arith, m, has-append p xs (list ∷ [])))).1) r.links;
  distinct = r.distinct;
  count = ground (arith, c, r.count);
}
