-- ===== src/Libc.antt =====
-- lib/libc/string.c: the operations on blocks of memory and on strings.
--
-- The memory is a function from addresses to bytes; addresses do not wrap round.
pub mod Moving
pub mod Comparing
pub mod Strings
pub mod Format
mod Examples
use openblt.Prelude.{
  ℕ, zero, suc, ◌+◌, ◌==◌, ◌%◌, Bool, true, false, ℤ, pos, if◌then◌else◌, ltb, not, update, Option,
  ◌||◌, negsuc, none, some,
}

abbrev pub Memory : Type 0
Memory = ℕ → ℕ

-- The loop of memmove from the lowest byte up, and of memcpy.
pub copy_up : ℕ → ℕ → ℕ → Memory → Memory
copy_up zero d s c = c
copy_up (suc n) d s c = copy_up n (d + 1) (s + 1) (update c d (c s))

-- The loop of memmove from the highest byte down; `d` and `s` are the lowest bytes.
pub copy_down : ℕ → ℕ → ℕ → Memory → Memory
copy_down zero d s c = c
copy_down (suc n) d s c = copy_down n d s (update c (d + n) (c (s + n)))

pub memmove : ℕ → ℕ → ℕ → Memory → Memory
unfolding copy_up copy_down
memmove dest src n c = if ltb dest src then copy_up n dest src c else copy_down n dest src c

pub memcpy : ℕ → ℕ → ℕ → Memory → Memory
unfolding copy_up
memcpy dst src size c = copy_up size dst src c

pub memset : ℕ → ℕ → ℕ → Memory → Memory
memset s v zero c = c
memset s v (suc n) c = memset (s + 1) v n (update c s (v % 256))

-- 1 at the first bytes that differ, 0 if there are none.
pub memcmp : ℕ → ℕ → ℕ → Memory → ℤ
memcmp dst src zero c = pos 0
memcmp dst src (suc size) c =
    let rest = memcmp (dst + 1) (src + 1) size c in if not (c dst == c src) then pos 1 else rest

-- while(size && *src) size--, *dst++ = *src++; with the zero behind it where there is room.
pub strncpy : ℕ → ℕ → ℕ → Memory → Memory
strncpy dst src zero c = c
strncpy dst src (suc size) c =
    let rest = strncpy (dst + 1) (src + 1) size (update c dst (c src)) in
    if c src == 0 then update c dst 0 else rest

-- -1 at the first characters that differ, and where a string ends before `n` characters.
pub strncmp : ℕ → ℕ → ℕ → Memory → ℤ
strncmp s1 s2 zero c = pos 0
strncmp s1 s2 (suc n) c =
    let rest = strncmp (s1 + 1) (s2 + 1) n c in
    if (c s1 == 0) || (c s2 == 0) then negsuc 0 else if c s1 == c s2 then rest else negsuc 0

-- The address of the first `ch`, which is not above 127, inside the string; the fuel bounds its length.
pub strchr : ℕ → ℕ → ℕ → Memory → Option (Option ℕ)
strchr zero s ch c = none
strchr (suc fuel) s ch c =
    let rest = strchr fuel (s + 1) ch c in
    if c s == 0 then some none else if c s == ch then some (some s) else rest
