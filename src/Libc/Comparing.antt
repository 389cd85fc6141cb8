-- ===== src/Libc/Comparing.antt =====
-- memcmp of lib/libc/string.c.
use openblt.Prelude.{◌↔◌, ℕ, zero, suc, ◌+◌, ◌<◌, ◌≡◌, pos, arith, ==_eq, ==_refl, refl}
use openblt.Libc.{Memory, memcmp}

memcmp-bytes :
    (dst src n : ℕ) (c : Memory)
    → memcmp dst src n c ≡ pos 0
    → (i : ℕ) → i < n
    → c (dst + i) ≡ c (src + i)
unfolding memcmp
memcmp-bytes dst src zero c e i h = absurd (omega (arith, h))
memcmp-bytes dst src (suc n) c e zero h = ground (arith, e, ==_eq (c dst) (c src))
memcmp-bytes dst src (suc n) c e (suc i) h =
    let rest = memcmp-bytes (dst + 1) (src + 1) n c (ground (arith, e)) i (omega (arith, h)) in
    ground (arith, rest)

bytes-memcmp :
    (dst src n : ℕ) (c : Memory)
    → ((i : ℕ) → i < n → c (dst + i) ≡ c (src + i))
    → memcmp dst src n c ≡ pos 0
unfolding memcmp
bytes-memcmp dst src zero c h = refl
bytes-memcmp dst src (suc n) c h =
    let first : c dst ≡ c src = ground (arith, h 0) in
    let rest = bytes-memcmp (dst + 1) (src + 1) n c (λ i l.
      let left : dst + (i + 1) ≡ dst + 1 + i = omega arith in
      let right : src + (i + 1) ≡ src + 1 + i = omega arith in
      rw (left, right) at (h (i + 1) (omega (arith, l)))) in
    ground (arith, rest, first, ==_refl (c src))

-- memcmp of n bytes is 0 exactly where the first n bytes of the two blocks are the same.
pub memcmp-same :
    (dst src n : ℕ) (c : Memory)
    → (memcmp dst src n c ≡ pos 0) ↔ ((i : ℕ) → i < n → c (dst + i) ≡ c (src + i))
memcmp-same dst src n c = (memcmp-bytes dst src n c, bytes-memcmp dst src n c)
