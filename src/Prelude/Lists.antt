-- ===== src/Prelude/Lists.antt =====
-- Lists measured by native numbers, and sets of numbers as lists: membership and distinctness as tests.
use Prim.Native.Nat.{ℕ, zero, suc, ◌+◌, ◌≤◌}
use mathlib.Core.Path.{◌≡◌, refl, ap}
use mathlib.Core.Bool.{Bool, true, false, ◌||◌}
use mathlib.Core.List.{List, [], ◌∷◌, ◌++◌}
use native.Mathlib.Omega.{arith}
use openblt.Prelude.Tests.{◌==◌}

module _ {ℓ} {A : Type ℓ} where
  abbrev pub length : List A → ℕ
  length [] = 0
  length (x ∷ xs) = suc (length xs)

  pub length-append : (xs ys : List A) → length (xs ++ ys) ≡ length xs + length ys
  length-append [] ys = omega arith
  length-append (x ∷ xs) ys = omega (arith, length-append xs ys)

abbrev pub has : ℕ → List ℕ → Bool
has a [] = false
has a (x ∷ xs) = (a == x) || has a xs

-- No number stands twice.
abbrev pub Distinct : List ℕ → Type 0
Distinct [] = Unit {0}
Distinct (x ∷ xs) = (has x xs ≡ false) × Distinct xs

pub has-append : (a : ℕ) (xs ys : List ℕ) → has a (xs ++ ys) ≡ (has a xs || has a ys)
has-append a [] ys = refl
has-append a (x ∷ xs) ys = ground (arith, has-append a xs ys)

-- What is in a list is not what is missing from it.
pub has-ne : (a p : ℕ) (xs : List ℕ) → has a xs ≡ false → has p xs ≡ true → (a == p) ≡ false
has-ne a p [] h m = cc
has-ne a p (x ∷ xs) h m = ground (arith, has-ne a p xs)

pub Distinct-drop_middle :
    (xs : List ℕ) (n : ℕ) (ys : List ℕ)
    → Distinct (xs ++ n ∷ ys)
    → Distinct (xs ++ ys) × (has n (xs ++ ys) ≡ false)
Distinct-drop_middle [] n ys d = (d.1, d.0)
Distinct-drop_middle (x ∷ xs) n ys d = ground (
  arith,
  Distinct-drop_middle xs n ys d.1,
  has-append x xs (n ∷ ys),
  has-append x xs ys,
  has-append n xs ys,
)

pub Distinct-snoc : (xs : List ℕ) (n : ℕ) → Distinct xs → has n xs ≡ false → Distinct (xs ++ n ∷ [])
Distinct-snoc [] n d h = (refl, tt)
Distinct-snoc (x ∷ xs) n d h = ground (arith, Distinct-snoc xs n d.1, has-append x xs (n ∷ []))

module _ {ℓ} {A : Type ℓ} where
  abbrev pub take : ℕ → List A → List A
  take zero xs = []
  take (suc n) [] = []
  take (suc n) (x ∷ xs) = x ∷ take n xs

  pub length-take : (n : ℕ) (xs : List A) → n ≤ length xs → length (take n xs) ≡ n
  length-take zero xs h = refl
  length-take (suc n) [] h = absurd (omega (arith, h))
  length-take (suc n) (x ∷ xs) h = omega (arith, length-take n xs (omega (arith, h)))

  -- A list that is short enough is taken whole.
  pub take_all : (n : ℕ) (xs : List A) → length xs ≤ n → take n xs ≡ xs
  take_all zero [] h = refl
  take_all zero (x ∷ xs) h = absurd (omega (arith, h))
  take_all (suc n) [] h = refl
  take_all (suc n) (x ∷ xs) h = ap (λ (ys : List A). x ∷ ys) (take_all n xs (omega (arith, h)))

  abbrev pub drop : ℕ → List A → List A
  drop zero xs = xs
  drop (suc n) [] = []
  drop (suc n) (x ∷ xs) = drop n xs
