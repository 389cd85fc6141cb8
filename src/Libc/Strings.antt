-- ===== src/Libc/Strings.antt =====
-- The functions on strings of lib/libc/string.c.
use openblt.Prelude.{
  ℕ, zero, suc, ◌+◌, ◌-◌, ◌<◌, ◌≤◌, ◌==◌, ◌≡◌, ◌≢◌, ◌↔◌, ◌⊎◌, refl, ap, ◌∙◌, true, false, ◌&&◌,
  if◌then◌else◌, ltb, leb, arith, ==_eq, ==_refl, update, pos, Bool-cases, inl, inr, Option, some,
  none,
}
use openblt.Libc.{Memory, strncpy, strncmp, strchr}

strncmp-characters :
    (s1 s2 n : ℕ) (c : Memory)
    → strncmp s1 s2 n c ≡ pos 0
    → (i : ℕ) → i < n
    → (c (s1 + i) ≡ c (s2 + i)) × (c (s1 + i) ≢ 0)
unfolding strncmp
strncmp-characters s1 s2 zero c e i h = absurd (omega (arith, h))
strncmp-characters s1 s2 (suc n) c e zero h = ground (arith, e, ==_eq (c s1) (c s2))
strncmp-characters s1 s2 (suc n) c e (suc i) h =
    let rest = strncmp-characters (s1 + 1) (s2 + 1) n c (ground (arith, e)) i (omega (arith, h)) in
    ground (arith, rest)

characters-strncmp :
    (s1 s2 n : ℕ) (c : Memory)
    → ((i : ℕ) → i < n → (c (s1 + i) ≡ c (s2 + i)) × (c (s1 + i) ≢ 0))
    → strncmp s1 s2 n c ≡ pos 0
unfolding strncmp
characters-strncmp s1 s2 zero c h = refl
characters-strncmp s1 s2 (suc n) c h =
    let start1 : s1 + 0 ≡ s1 = omega arith in
    let start2 : s2 + 0 ≡ s2 = omega arith in
    let first : (c s1 ≡ c s2) × (c s1 ≢ 0) = rw (start1, start2) at (h 0 (omega arith)) in
    let rest = characters-strncmp (s1 + 1) (s2 + 1) n c (λ i l.
      let left : s1 + (i + 1) ≡ s1 + 1 + i = omega arith in
      let right : s2 + (i + 1) ≡ s2 + 1 + i = omega arith in
      rw (left, right) at (h (i + 1) (omega (arith, l)))) in
    ground (arith, rest, first, ==_refl (c s2))

-- strncmp of n characters is 0 exactly where the first n characters of the two strings are the same
-- and none of them is the zero at the end.
pub strncmp-same :
    (s1 s2 n : ℕ) (c : Memory)
    → (strncmp s1 s2 n c ≡ pos 0) ↔ ((i : ℕ) → i < n → (c (s1 + i) ≡ c (s2 + i)) × (c (s1 + i) ≢ 0))
strncmp-same s1 s2 n c = (strncmp-characters s1 s2 n c, characters-strncmp s1 s2 n c)

-- A string of `n` characters at `s`.
pub record IsString (c : Memory) (s n : ℕ) : Type 0 where
  pub full : (i : ℕ) → i < n → c (s + i) ≢ 0
  pub ended : c (s + n) ≡ 0

-- What strncpy leaves: the characters that fit, a zero behind them where there is room for it, and all else.
abbrev pub strncpied : ℕ → ℕ → ℕ → ℕ → Memory → Memory
strncpied dst src n size c a =
    if leb dst a && ltb a (dst + n) && ltb a (dst + size)
    then c (src + (a - dst))
    else if (a == dst + n) && ltb n size
    then 0
    else c a

-- The string with its zero, and where the copy goes.
abbrev pub Apart : ℕ → ℕ → ℕ → ℕ → Type 0
Apart dst src n size = (dst + size ≤ src) ⊎ (src + n < dst)

IsString-rest :
    (c : Memory) (dst src n size : ℕ)
    → Apart dst src (suc n) (suc size)
    → IsString c src (suc n)
    → IsString (update c dst (c src)) (src + 1) n
IsString-rest c dst src n size o v = record {
  full = λ i l.
      let at : src + suc i ≡ src + 1 + i = omega arith in
      let here : c (src + 1 + i) ≢ 0 = rw at at (v.full (suc i) (omega (arith, l))) in
      let other : (src + 1 + i == dst) ≡ false = ground (arith, o, l) in rw other here;
  ended =
      let at : src + suc n ≡ src + 1 + n = omega arith in
      let other : (src + 1 + n == dst) ≡ false = ground (arith, o) in rw other (rw at at v.ended);
}

-- The first character, and then the rest of a string.
strncpied-step :
    (c : Memory) (dst src n size a : ℕ)
    → Apart dst src (suc n) (suc size)
    → strncpied (dst + 1) (src + 1) n size (update c dst (c src)) a
      ≡ strncpied dst src (suc n) (suc size) c a
strncpied-step c dst src n size a o = elim (Bool-cases (ltb dst a)) [
  | inl h ↦
      let at : src + 1 + (a - (dst + 1)) ≡ src + (a - dst) = ground (arith, h) in
      ground (arith, h, ap c at, o)
  | inr h ↦
      let first : a == dst ≡ true → src + (a - dst) ≡ src = λ e. ground (arith, e) in
      ground (arith, h, first, o)
]

-- After strncpy of a string to a destination that it does not overlap, the destination has the
-- characters that fit, and one zero behind them where they all fit with room left, and every other
-- byte is as before.
pub strncpy-copied :
    (dst src n size : ℕ) (c : Memory)
    → IsString c src n
    → Apart dst src n size
    → (a : ℕ) → strncpy dst src size c a ≡ strncpied dst src n size c a
unfolding strncpy
strncpy-copied dst src n zero c v o a = ground arith
strncpy-copied dst src zero (suc size) c v o a =
    let at : src + 0 ≡ src = omega arith in
    let empty : c src ≡ 0 = rw at at v.ended in ground (arith, empty)
strncpy-copied dst src (suc n) (suc size) c v o a =
    let at : src + 0 ≡ src = omega arith in
    let full : c src ≢ 0 = rw at at (v.full 0 (omega arith)) in
    let some_left : (c src == 0) ≡ false = ground (arith, full) in
    rw some_left (
      strncpy-copied (dst + 1) (src + 1) n size (update c dst (c src))
        (IsString-rest c dst src n size o v) (nearer o) a
      ∙ strncpied-step c dst src n size a o)
  where
    nearer : Apart dst src (suc n) (suc size) → Apart (dst + 1) (src + 1) n size
    nearer (inl h) = inl (omega (arith, h))
    nearer (inr h) = inr (omega (arith, h))

-- What strchr gives for the first `n` characters from `s` on: the first that is `ch`, or none.
pub data Sought (c : Memory) (s ch n : ℕ) : Option (Option ℕ) → Type 0 where
  found :
      (i : ℕ)
      → i < n
      → c (s + i) ≡ ch
      → ((j : ℕ) → j < i → c (s + j) ≢ ch)
      → Sought c s ch n (some (some (s + i)))
  missing : ((j : ℕ) → j < n → c (s + j) ≢ ch) → Sought c s ch n (some none)

Sought-step :
    (c : Memory) (s ch n : ℕ) (r : Option (Option ℕ))
    → c s ≢ ch
    → Sought c (s + 1) ch n r
    → Sought c s ch (suc n) r
Sought-step c s ch n r h (found i l e g) =
    let at : s + 1 + i ≡ s + suc i = omega arith in
    rw at (found (suc i) (omega (arith, l)) (rw at at e) (λ j o. earlier g j o))
  where
    earlier : ((j : ℕ) → j < i → c (s + 1 + j) ≢ ch) → (j : ℕ) → j < suc i → c (s + j) ≢ ch
    earlier g zero o = let at : s + 0 ≡ s = omega arith in rw at h
    earlier g (suc j) o =
        let at : s + suc j ≡ s + 1 + j = omega arith in rw at (g j (omega (arith, o)))
Sought-step c s ch n r h (missing g) = missing (λ j o. none_before j o)
  where
    none_before : (j : ℕ) → j < suc n → c (s + j) ≢ ch
    none_before zero o = let at : s + 0 ≡ s = omega arith in rw at h
    none_before (suc j) o =
        let at : s + suc j ≡ s + 1 + j = omega arith in rw at (g j (omega (arith, o)))

-- In a string shorter than the fuel, strchr gives the first character that is sought.
pub strchr-Sought :
    (fuel s ch n : ℕ) (c : Memory)
    → IsString c s n
    → n < fuel
    → Sought c s ch n (strchr fuel s ch c)
unfolding strchr
strchr-Sought zero s ch n c v l = absurd (omega (arith, l))
strchr-Sought (suc fuel) s ch zero c v l =
    let at : s + 0 ≡ s = omega arith in
    let empty : c s ≡ 0 = rw at at v.ended in rw empty (missing (λ j o. absurd (omega (arith, o))))
strchr-Sought (suc fuel) s ch (suc n) c v l =
    let at : s + 0 ≡ s = omega arith in
    let full : c s ≢ 0 = rw at at (v.full 0 (omega arith)) in
    let going : (c s == 0) ≡ false = ground (arith, full) in
    let rest : IsString c (s + 1) n = record {
      full = λ i o.
          let next : s + suc i ≡ s + 1 + i = omega arith in
          rw next at (v.full (suc i) (omega (arith, o)));
      ended = let next : s + suc n ≡ s + 1 + n = omega arith in rw next at v.ended;
    } in
    elim (Bool-cases (c s == ch)) [
      | inl h ↦
          let here : c (s + 0) ≡ ch = rw at (==_eq (c s) ch h) in
          let first : Sought c s ch (suc n) (some (some (s + 0))) =
            found 0 (omega arith) here (λ j o. absurd (omega (arith, o))) in
          rw (going, h) (rw at at first)
      | inr h ↦
          rw (going, h)
            (Sought-step c s ch n (strchr fuel (s + 1) ch c) (ground (arith, h))
              (strchr-Sought fuel (s + 1) ch n c rest (omega (arith, l))))
    ]
