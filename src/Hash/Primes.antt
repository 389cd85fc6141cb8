-- ===== src/Hash/Primes.antt =====
-- The sizes of table_size in lib/libblt/hash.c are prime.
use native.Mathlib.Nat.{mul-mod_left, mul-le-mul}
use native.Mathlib.Omega.{div_any}
use openblt.Hash.{table_size}
use openblt.Prelude.{
  length, ==_eq, ap, Bool-cases, inl, inr, ℕ, zero, suc, ◌+◌, ◌*◌, ◌/◌, ◌%◌, ◌<◌, ◌≤◌, ◌==◌, ◌≡◌,
  ◌≢◌, Bool, true, not, ◌&&◌, arith, ltb, List, ◌∷◌, [], refl,
}

-- No number from 2 on divides `p`.
abbrev pub IsPrime : ℕ → Type 0
IsPrime p = (1 < p) × ((a : ℕ) → 1 < a → a < p → p % a ≢ 0)

-- `n` numbers from `a` on do not divide `p`.
trial : ℕ → ℕ → ℕ → Bool
trial zero a p = true
trial (suc n) a p = not (p % a == 0) && trial n (a + 1) p

trial_lem : (n a p : ℕ) → trial n a p ≡ true → (d : ℕ) → a ≤ d → d < a + n → p % d ≢ 0
unfolding trial
trial_lem zero a p h d lo hi = absurd (omega (arith, lo, hi))
trial_lem (suc n) a p h d lo hi = elim (Bool-cases (d == a)) [
  | inl e ↦ λ z. ground (arith, h, e, ap (λ (x : ℕ). p % x) (==_eq d a e), z)
  | inr e ↦ trial_lem n (a + 1) p (ground (arith, h)) d (ground (arith, e, lo)) (omega (arith, hi))
]

-- A product has a factor up to the root.
more_than_one : (a q : ℕ) → a < a * q → 1 < q
more_than_one a q h = grind arith

small_factor : (a q n : ℕ) → a * q < (n + 2) * (n + 2) → n + 2 ≤ a → q < n + 2
small_factor a q n small h = elim (Bool-cases (ltb q (n + 2))) [
  | inl e ↦ ground (arith, e)
  | inr e ↦
      let big : (n + 2) * (n + 2) ≤ a * q = mul-le-mul h (ground (arith, e)) in
      absurd (omega (arith, big, small))
]

root : (p n a : ℕ) → p < (n + 2) * (n + 2) → trial n 2 p ≡ true → 1 < a → a < p → p % a ≢ 0
root p n a small h lo hi z = elim (Bool-cases (ltb a (n + 2))) [
  | inl e ↦ trial_lem n 2 p h a lo (ground (arith, e)) z
  | inr e ↦
      let q = p / a in
      let whole : a * q ≡ p = omega (arith, div_any p a, z) in
      let q_small : q < n + 2 =
        small_factor a q n (omega (arith, whole, small)) (ground (arith, e)) in
      let q_big : 1 < q = more_than_one a q (omega (arith, whole, hi)) in
      let divides : p % q ≡ 0 = rw (← whole) (grind (arith, mul-mod_left a q)) in
      trial_lem n 2 p h q q_big (omega (arith, q_small)) divides
]

abbrev prime_by_trial : ℕ → ℕ → Bool
prime_by_trial p n = ltb 1 p && ltb p ((n + 2) * (n + 2)) && trial n 2 p

prime_by_trial-IsPrime : (p n : ℕ) → prime_by_trial p n ≡ true → IsPrime p
prime_by_trial-IsPrime p n h =
    (ground (arith, h), λ a lo hi. root p n a (ground (arith, h)) (ground (arith, h)) lo hi)

-- For each size, the numbers that are tried from 2 on.
abbrev roots : List ℕ
roots =
    1 ∷ 3 ∷ 5 ∷ 9 ∷ 14 ∷ 20 ∷ 30 ∷ 44 ∷ 63 ∷ 91 ∷ 130 ∷ 184 ∷ 261 ∷ 370 ∷ 524 ∷ 742 ∷ 1050 ∷ 1486
    ∷ 2102 ∷ 2973 ∷ 4205 ∷ 5947 ∷ 8411 ∷ 11895 ∷ 16823 ∷ 23792 ∷ []

all_prime : ℕ → List ℕ → Bool
all_prime i [] = true
all_prime i (n ∷ ns) =
    ltb 2 (table_size i) && prime_by_trial (table_size i) n && all_prime (i + 1) ns

all_prime_holds : all_prime 0 roots ≡ true
unfolding all_prime trial table_size
all_prime_holds = refl

all_prime_lem :
    (ns : List ℕ) (i j : ℕ)
    → all_prime i ns ≡ true
    → i ≤ j
    → j < i + length ns
    → (2 < table_size j) × IsPrime (table_size j)
unfolding all_prime
all_prime_lem [] i j h lo hi = absurd (omega (arith, lo, hi))
all_prime_lem (n ∷ ns) i j h lo hi = elim (Bool-cases (j == i)) [
  | inl e ↦
      rw (==_eq j i e)
        (ground (arith, h), prime_by_trial-IsPrime (table_size i) n (ground (arith, h)))
  | inr e ↦
      all_prime_lem ns (i + 1) j (ground (arith, h)) (ground (arith, e, lo)) (omega (arith, hi))
]

-- Every size of the table is prime.
pub table_size-IsPrime : (i : ℕ) → i < 26 → IsPrime (table_size i)
table_size-IsPrime i h =
    (all_prime_lem roots 0 i all_prime_holds (omega arith) (omega (arith, h))).1

pub two-lt-table_size : (i : ℕ) → i < 26 → 2 < table_size i
two-lt-table_size i h = (all_prime_lem roots 0 i all_prime_holds (omega arith) (omega (arith, h))).0
