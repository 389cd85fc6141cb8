-- ===== src/Kernel/Aspace/Span.antt =====
-- locate_span of kernel/aspace.c: the first span of free pages in a page table of 1024 entries.
use mathlib.Core.Path.{subst}
use openblt.Prelude.{
  ℕ, zero, suc, ◌+◌, ◌-◌, ◌<◌, ◌≤◌, ◌==◌, ◌≡◌, ◌≢◌, refl, false, if◌then◌else◌, leb, ltb, arith,
  Bool-cases, inl, inr, ==_eq,
}
use openblt.Kernel.Aspace.{find_span, locate_span, span_start}

-- The `n` pages from `a` on are not mapped.
abbrev pub IsVacant : (ℕ → ℕ) → ℕ → ℕ → Type 0
IsVacant map a n = (i : ℕ) → i < n → map (a + i) ≡ 0

-- From none of the pages between `start` and `end` are there `len` free ones: one within the table is mapped.
abbrev pub NoneBefore : (ℕ → ℕ) → ℕ → ℕ → ℕ → Type 0
NoneBefore map start len end =
    (b : ℕ) → start ≤ b → b < end → (q : ℕ) × (b ≤ q) × (q < b + len) × (q < 1024) × (map q ≢ 0)

-- What locate_span gives: the first span that fits, or else the free pages at the end of the table, too few
-- of them, or 0 where there is not one.
pub data Span (map : ℕ → ℕ) (start len : ℕ) : ℕ → Type 0 where
  fits :
      {at : ℕ}
      → start ≤ at
      → at + len ≤ 1024
      → IsVacant map at len
      → NoneBefore map start len at
      → Span map start len at
  cut :
      {at : ℕ}
      → start ≤ at
      → at < 1024
      → 1024 < at + len
      → IsVacant map at (1024 - at)
      → NoneBefore map start len at
      → Span map start len at
  nothing : NoneBefore map start len 1024 → Span map start len 0

module _ (map : ℕ → ℕ) (start len : ℕ) (real : 0 < len) where
  -- The state of the loop at the page `i`.
  data Run (i : ℕ) : ℕ → ℕ → Type 0 where
    idle : NoneBefore map start len i → Run i 0 0
    run :
        {found at : ℕ}
        → 0 < found
        → found ≤ len
        → at + found ≡ i
        → start ≤ at
        → IsVacant map at found
        → NoneBefore map start len at
        → Run i found at

  Run-end : (found at : ℕ) → Run 1024 found at → Span map start len at
  Run-end found at (idle e) = nothing e
  Run-end found at (run p l s b v e) = elim (Bool-cases (found == len)) [
    | inl h ↦
        let same : found ≡ len = ==_eq found len h in
        fits b (omega (arith, s, same)) (λ i g. v i (omega (arith, g, same))) e
    | inr h ↦
        cut b (omega (arith, p, s)) (ground (arith, h, l, s)) (λ i g. v i (omega (arith, g, s))) e
  ]

  Run-found : (i found at : ℕ) → i ≤ 1024 → len ≤ found → Run i found at → Span map start len at
  Run-found i found at h g (idle e) = absurd (omega (arith, g, real))
  Run-found i found at h g (run p l s b v e) =
      fits b (omega (arith, s, g, l, h)) (λ j f. v j (omega (arith, f, g))) e

  Run-free :
      (i found at : ℕ)
      → start ≤ i
      → found < len
      → map i ≡ 0
      → Run i found at
      → Run (i + 1) (found + 1) (if found == 0 then i else at)
  Run-free i found at h g f (idle e) =
      run (omega arith) (omega (arith, real)) refl h (λ j l. first j l) e
    where
      first : (j : ℕ) → j < 0 + 1 → map (i + j) ≡ 0
      first j l = let here : i + j ≡ i = omega (arith, l) in rw here f
  Run-free i found at h g f (run p l s b v e) =
      let going : (found == 0) ≡ false = ground (arith, p) in
      rw going (run (omega arith) (omega (arith, g)) (omega (arith, s)) b longer e)
    where
      longer : IsVacant map at (found + 1)
      longer j o = elim (Bool-cases (j == found)) [
        | inl q ↦ let here : at + j ≡ i = omega (arith, s, ==_eq j found q) in rw here f
        | inr q ↦ v j (ground (arith, q, o))
      ]

  Run-taken :
      (i found at : ℕ) → i < 1024 → found < len → map i ≢ 0 → Run i found at → Run (i + 1) 0 0
  Run-taken i found at h g f (idle e) = idle (λ b l o. elim (Bool-cases (b == i)) [
    | inl q ↦ (i, omega (arith, ==_eq b i q), omega (arith, ==_eq b i q, real), h, f)
    | inr q ↦ e b l (ground (arith, q, o))
  ])
  Run-taken i found at h g f (run p l s k v e) = idle (λ b j o. elim (Bool-cases (ltb b at)) [
    | inl q ↦ e b j (ground (arith, q))
    | inr q ↦ (i, omega (arith, o), ground (arith, s, q, g), h, f)
  ])

  find_span-Span :
      (left i found at : ℕ)
      → i + left ≡ 1024
      → start ≤ i
      → Run i found at
      → Span map start len (find_span map len left i found at)
  unfolding find_span
  find_span-Span zero i found at h g r =
      let last : i ≡ 1024 = omega (arith, h) in
      Run-end found at (subst (λ (x : ℕ). Run x found at) last r)
  find_span-Span (suc left) i found at h g r = elim (Bool-cases (leb len found)) [
    | inl f ↦ rw f (Run-found i found at (omega (arith, h)) (ground (arith, f)) r)
    | inr f ↦ elim (Bool-cases (map i == 0)) [
      | inl q ↦
          rw (f, q)
            (find_span-Span left (i + 1) (found + 1) (if found == 0 then i else at)
              (omega (arith, h)) (omega (arith, g))
              (Run-free i found at g (ground (arith, f)) (==_eq (map i) 0 q) r))
      | inr q ↦
          rw (f, q)
            (find_span-Span left (i + 1) 0 0 (omega (arith, h)) (omega (arith, g))
              (Run-taken i found at (omega (arith, h)) (ground (arith, f)) (ground (arith, q)) r))
    ]
  ]

-- For a length above 0, locate_span gives the first span of that many free pages of the table from
-- where it starts on; where there is none, it gives the first of the free pages at the end of the
-- table, which are too few, or 0 where the last page is mapped.
pub locate_span-Span :
    (map : ℕ → ℕ) (start len : ℕ)
    → 0 < len
    → Span map (span_start start) len (locate_span map start len)
unfolding locate_span
locate_span-Span map start len real =
    find_span-Span map (span_start start) len real (1024 - span_start start) (span_start start) 0 0
      (ground arith) (omega arith) (idle (λ b l o. absurd (omega (arith, l, o))))
