-- ===== src/Hash/Probing.antt =====
-- The probes of lib/libblt/hash.c: with a prime size, the walk from any cell meets every cell.
use native.Mathlib.Omega.{div_any}
use native.Mathlib.Nat.{mod-lt}
use openblt.Hash.{back}
use openblt.Hash.Primes.{IsPrime}
use openblt.Prelude.{
  ℕ, zero, suc, ◌+◌, ◌-◌, ◌*◌, ◌/◌, ◌%◌, ◌<◌, ◌≤◌, ◌==◌, ◌≡◌, ap, arith, ltb, Bool-cases, inl, inr,
  ==_eq,
}

-- Two numbers leave the same remainder by `p`.
record Cong (p x y : ℕ) : Type 0 where
  left : ℕ
  right : ℕ
  same : x + left * p ≡ y + right * p

-- An inverse of `a` by the remainder.
record Inverse (p a : ℕ) : Type 0 where
  by : ℕ
  one : Cong p (a * by) 1

Inverse-of_one : (p : ℕ) → Inverse p 1
Inverse-of_one p = record { by = 1; one = record { left = 0; right = 0; same = omega arith } }

-- From an inverse of the remainder p % a to one of `a`.
Inverse-step : (n a : ℕ) → Inverse (suc n) (suc n % a) → Inverse (suc n) a
Inverse-step n a i =
    let p = suc n in
    let q = p / a in
    let r = p % a in
    let b = i.by in
    let whole : a * q + r ≡ p = div_any p a in
    let e1 : a * q * b + r * b ≡ p * b = omega (arith, ap (λ (t : ℕ). t * b) whole) in
    let e2 : a * q * b + 1 + i.one.right * p ≡ (b + i.one.left) * p =
      omega (arith, e1, i.one.same) in
    record {
      by = q * b * n;
      one = record {
        left = 1 + i.one.right * n;
        right = (b + i.one.left) * n;
        same = omega (arith, ap (λ (t : ℕ). t * n) e2);
      };
    }

Inverse-below : (n f a : ℕ) → IsPrime (suc n) → a ≤ f → 0 < a → a < suc n → Inverse (suc n) a
Inverse-below n zero a p le pos lt = absurd (omega (arith, le, pos))
Inverse-below n (suc f) a p le pos lt = elim (Bool-cases (a == 1)) [
  | inl e ↦ rw (==_eq a 1 e) (Inverse-of_one (suc n))
  | inr e ↦
      let two : 1 < a = ground (arith, e, pos) in
      let r_pos : 0 < suc n % a = ground (arith, p.1 a two lt) in
      let r_lt : suc n % a < a = mod-lt (suc n) pos in
      Inverse-step n a
        (Inverse-below n f (suc n % a) p (omega (arith, r_lt, le)) r_pos (omega (arith, r_lt, lt)))
]

-- The cell after `m` steps.
unfoldable pub probe : ℕ → ℕ → ℕ → ℕ → ℕ
probe size c zero i = i
probe size c (suc m) i = probe size c m (back size c i)

pub back-lt : (size c i : ℕ) → i < size → 0 < c → c < size → back size c i < size
back-lt size c i h p l = ground (arith, h, p, l)

pub probe-lt : (size c m i : ℕ) → i < size → 0 < c → c < size → probe size c m i < size
unfolding probe
probe-lt size c zero i h p l = h
probe-lt size c (suc m) i h p l = probe-lt size c m (back size c i) (back-lt size c i h p l) p l

-- After m steps of c down, m * c is to be added, up to the remainder.
probe-Cong : (size c m i : ℕ) → i < size → 0 < c → c < size → Cong size (probe size c m i + m * c) i
unfolding probe
probe-Cong size c zero i h p l = record { left = 0; right = 0; same = omega arith }
probe-Cong size c (suc m) i h p l =
    let e = probe-Cong size c m (back size c i) (back-lt size c i h p l) p l in
    let j = probe size c m (back size c i) in
    let again : j + suc m * c + e.left * size ≡ back size c i + c + e.right * size =
      omega (arith, e.same) in
    elim (Bool-cases (ltb i c)) [
      | inl below ↦
          let wrapped : back size c i + c ≡ i + size = ground (arith, below, l) in
          record { left = e.left; right = e.right + 1; same = omega (arith, again, wrapped) }
      | inr above ↦
          let plain : back size c i + c ≡ i = ground (arith, above) in
          record { left = e.left; right = e.right; same = omega (arith, again, plain) }
    ]

Cong-below : (p x y : ℕ) → Cong p x y → x < p → y < p → x ≡ y
Cong-below p x y e h g = by_sides e.left e.right e.same
  where
    by_sides : (k l : ℕ) → x + k * p ≡ y + l * p → x ≡ y
    by_sides zero zero s = omega (arith, s)
    by_sides zero (suc l) s = absurd (grind (arith, s))
    by_sides (suc k) zero s = absurd (grind (arith, s))
    by_sides (suc k) (suc l) s = by_sides k l (omega (arith, s))

-- The walk from any cell meets every cell, in fewer steps than there are cells.
pub covers :
    (n c i q : ℕ)
    → IsPrime (suc n)
    → 0 < c
    → c < suc n
    → i < suc n
    → q < suc n
    → (m : ℕ) × (m < suc n) × (probe (suc n) c m i ≡ q)
covers n c i q prime pos small i_in q_in =
    let p = suc n in
    let inv = Inverse-below n n c prime (omega (arith, small)) pos small in
    let t = i + (p - q) in
    let k = t * inv.by / p in
    let m = t * inv.by % p in
    let split : p * k + m ≡ t * inv.by = div_any (t * inv.by) p in
    let e1 : p * k * c + m * c ≡ t * inv.by * c = omega (arith, ap (λ (x : ℕ). x * c) split) in
    let e2 : c * inv.by * t + inv.one.left * p * t ≡ t + inv.one.right * p * t =
      omega (arith, ap (λ (x : ℕ). x * t) inv.one.same) in
    let walk = probe-Cong p c m i i_in pos small in
    let j = probe p c m i in
    let back_to : t + q ≡ i + p = omega (arith, q_in) in
    let same : j + (1 + inv.one.right * t + walk.left) * p
        ≡ q + (walk.right + k * c + inv.one.left * t) * p =
      omega (arith, e1, e2, walk.same, back_to) in
    (
      m,
      mod-lt (t * inv.by) (omega arith),
      Cong-below p j q
          (record {
            left = 1 + inv.one.right * t + walk.left;
            right = walk.right + k * c + inv.one.left * t;
            same = same;
          })
          (probe-lt p c m i i_in pos small) q_in,
    )
