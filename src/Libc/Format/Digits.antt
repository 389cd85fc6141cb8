-- ===== src/Libc/Format/Digits.antt =====
-- The digits that lib/libc/snprintf.c stores for a number.
use native.Mathlib.Nat.{pow-succ'}
use openblt.Prelude.{
  ℕ, zero, suc, ◌+◌, ◌-◌, ◌*◌, ◌/◌, ◌%◌, ◌^◌, ◌<◌, ◌≤◌, ◌==◌, ◌≡◌, refl, ◌∙◌, List, [], ◌∷◌,
  if◌then◌else◌, ltb, arith, length, Bool-cases, inl, inr, ==_eq, ap,
}
use openblt.Libc.Format.{hex, decimal, hexmap}

-- The value of a hexadecimal digit.
abbrev pub hex_value : ℕ → ℕ
hex_value c = if ltb c 58 then c - 48 else c - 87

-- Reading digits of a base behind the number `a`.
unfoldable pub read_hex : ℕ → List ℕ → ℕ
read_hex a [] = a
read_hex a (c ∷ cs) = read_hex (a * 16 + hex_value c) cs

unfoldable pub read_decimal : ℕ → List ℕ → ℕ
read_decimal a [] = a
read_decimal a (c ∷ cs) = read_decimal (a * 10 + (c - 48)) cs

hex_value-hexmap : (d : ℕ) → d < 16 → hex_value (hexmap d) ≡ d
hex_value-hexmap d h = ground (arith, h)

pub length-hex : (n u : ℕ) (ds : List ℕ) → length (hex n u ds) ≡ n + length ds
unfolding hex
length-hex zero u ds = omega arith
length-hex (suc n) u ds = omega (arith, length-hex n (u / 16) (hexmap (u % 16) ∷ ds))

pub length-decimal : (n u : ℕ) (ds : List ℕ) → length (decimal n u ds) ≤ n + length ds
unfolding decimal
length-decimal zero u ds = omega arith
length-decimal (suc n) u ds = ground (arith, length-decimal n (u / 10) ((48 + u % 10) ∷ ds))

-- `n` digits are read back as the number, where it has no more.
pub read_hex-hex : (n u : ℕ) (ds : List ℕ) → u < 16 ^ n → read_hex 0 (hex n u ds) ≡ read_hex u ds
unfolding hex read_hex
read_hex-hex zero u ds h = let none : u ≡ 0 = omega (arith, h) in rw none refl
read_hex-hex (suc n) u ds h =
    let value = hex_value-hexmap (u % 16) (omega arith) in
    let whole : u / 16 * 16 + u % 16 ≡ u = omega arith in
    read_hex-hex n (u / 16) (hexmap (u % 16) ∷ ds) (omega (arith, h, pow-succ' 16 n))
    ∙ rw (value, whole) refl

pub read_decimal-decimal :
    (n u : ℕ) (ds : List ℕ) → u < 10 ^ n → read_decimal 0 (decimal n u ds) ≡ read_decimal u ds
unfolding decimal read_decimal
read_decimal-decimal zero u ds h = let none : u ≡ 0 = omega (arith, h) in rw none refl
read_decimal-decimal (suc n) u ds h =
    let digit : 48 + u % 10 - 48 ≡ u % 10 = omega arith in
    let whole : u / 10 * 10 + u % 10 ≡ u = omega arith in
    elim (Bool-cases (u / 10 == 0)) [
      | inl e ↦
          let all : 0 * 10 + (48 + u % 10 - 48) ≡ u = omega (arith, ==_eq (u / 10) 0 e) in
          rw e (ap (λ (x : ℕ). read_decimal x ds) all)
      | inr e ↦ rw e (
          read_decimal-decimal n (u / 10) ((48 + u % 10) ∷ ds) (omega (arith, h, pow-succ' 10 n))
          ∙ rw (digit, whole) refl)
    ]
