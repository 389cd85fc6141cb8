-- ===== src/Kernel/FreeList.antt =====
-- Free lists that are threaded through an array by index, with 0 for the end: the resource map of
-- kernel/resource.c and the page list of kernel/memory.c.
use openblt.Prelude.{
  zero, suc, ◌+◌, ◌<◌, ◌&&◌, refl, Distinct, leb, ltb, ==_eq, ==_refl, ℕ, ◌≡◌, ◌≢◌, false, List, [],
  ◌∷◌, arith, has, update,
}

-- From `p` the indices `xs` follow one another, and the last is followed by 0.
abbrev pub Chain : (ℕ → ℕ) → ℕ → List ℕ → Type 0
Chain next p [] = p ≡ 0
Chain next p (x ∷ xs) = (p ≡ x) × (x ≢ 0) × Chain next (next x) xs

pub Chain-update :
    (next : ℕ → ℕ) (i v p : ℕ) (xs : List ℕ)
    → has i xs ≡ false
    → Chain next p xs
    → Chain (update next i v) p xs
Chain-update next i v p [] n c = c
Chain-update next i v p (x ∷ xs) n c =
    let rest = Chain-update next i v (next x) xs (ground arith) c.2 in ground (arith, rest)

-- A chain that starts at a nonzero index has that index for its first.
pub Chain-head :
    (next : ℕ → ℕ) (p : ℕ) (xs : List ℕ) → Chain next p xs → p ≢ 0 → (ys : List ℕ) × (xs ≡ p ∷ ys)
Chain-head next p [] c n = absurd (n c)
Chain-head next p (x ∷ xs) c n = (xs, ground arith)

-- The numbers from `a` on.
abbrev pub range : ℕ → ℕ → List ℕ
range a zero = []
range a (suc n) = a ∷ range (a + 1) n

pub range_above : (a b n : ℕ) → a < b → has a (range b n) ≡ false
range_above a b zero h = refl
range_above a b (suc n) h = ground (arith, range_above a (b + 1) n (omega arith))

pub has-range : (i a n : ℕ) → has i (range a n) ≡ (leb a i && ltb i (a + n))
has-range i a zero = ground arith
has-range i a (suc n) = ground (arith, has-range i (a + 1) n, ==_eq i a, ==_refl a)

pub range-Distinct : (a n : ℕ) → Distinct (range a n)
range-Distinct a zero = tt
range-Distinct a (suc n) = (range_above a (a + 1) n (omega arith), range-Distinct (a + 1) n)
