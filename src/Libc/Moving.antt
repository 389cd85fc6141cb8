-- ===== src/Libc/Moving.antt =====
-- memmove, memcpy and memset of lib/libc/string.c against what they are to leave in memory.
use openblt.Prelude.{
  ℕ, zero, suc, ◌+◌, ◌-◌, ◌≤◌, ◌<◌, ◌%◌, ◌≡◌, ◌&&◌, ◌⊎◌, if◌then◌else◌, leb, ltb, update, arith,
  Bool-cases, inl, inr,
}
use openblt.Libc.{Memory, copy_up, copy_down, memmove, memcpy, memset}

-- The memory with the `n` bytes at `src` at `dst` too, all of them as they were.
pub moved : ℕ → ℕ → ℕ → Memory → ℕ → ℕ
moved dst src n c i = if leb dst i && ltb i (dst + n) then c (src + (i - dst)) else c i

copy_up-moved :
    (n d s : ℕ) (c : Memory) (i : ℕ) → (d < s) ⊎ (s + n ≤ d) → copy_up n d s c i ≡ moved d s n c i
unfolding copy_up moved
copy_up-moved zero d s c i h = ground arith
copy_up-moved (suc n) d s c i h =
    let rest = copy_up-moved n (d + 1) (s + 1) (update c d (c s)) i (ground (arith, h)) in
    ground (arith, rest, h)

copy_down-moved : (n d s : ℕ) (c : Memory) (i : ℕ) → s ≤ d → copy_down n d s c i ≡ moved d s n c i
unfolding copy_down moved
copy_down-moved zero d s c i h = ground arith
copy_down-moved (suc n) d s c i h =
    let rest = copy_down-moved n d s (update c (d + n) (c (s + n))) i h in ground (arith, rest, h)

-- After memmove of n bytes, however the two blocks overlap, each byte of the destination is what
-- the byte of the source was, and every other byte is as before.
pub memmove-moved :
    (dest src n : ℕ) (c : Memory) (i : ℕ) → memmove dest src n c i ≡ moved dest src n c i
unfolding memmove
memmove-moved dest src n c i = elim (Bool-cases (ltb dest src)) [
  | inl e ↦ rw e (copy_up-moved n dest src c i (inl (ground (arith, e))))
  | inr e ↦ rw e (copy_down-moved n dest src c i (ground (arith, e)))
]

-- After memcpy of n bytes to a destination that is below the source or does not overlap it, each
-- byte of the destination is what the byte of the source was, and every other byte is as before.
pub memcpy-moved :
    (dst src n : ℕ) (c : Memory) (i : ℕ)
    → (dst < src) ⊎ (src + n ≤ dst)
    → memcpy dst src n c i ≡ moved dst src n c i
unfolding memcpy
memcpy-moved dst src n c i h = copy_up-moved n dst src c i h

-- After memset of n bytes, each of them is the value as an unsigned char, and every other byte is
-- as before.
pub memset_lem :
    (s v n : ℕ) (c : Memory) (i : ℕ)
    → memset s v n c i ≡ (if leb s i && ltb i (s + n) then v % 256 else c i)
unfolding memset
memset_lem s v zero c i = ground arith
memset_lem s v (suc n) c i = ground (arith, memset_lem (s + 1) v n (update c s (v % 256)) i)
