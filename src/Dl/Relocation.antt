-- ===== src/Dl/Relocation.antt =====
-- What lib/libdl/sym.c makes of the words of a library.
use mathlib.Core.Option
use openblt.Prelude.{
  ℕ, ℤ, pos, negsuc, ◌+◌, ◌%◌, ◌^◌, ◌==◌, ◌≡◌, ◌≢◌, ◌≤◌, ◌-◌, ◌⊎◌, true, refl, sym, ap, ◌∙◌, false,
  none, some, List, [], ◌∷◌, map, if◌then◌else◌, has, Distinct, arith, Bool-cases, inl, inr, ==_eq,
  or_left,
}
use openblt.Dl.{Lib, Rel, amount, add_word, patch_section}
use openblt.Dl.Symbols.{Uses, symbol_of-Uses}

-- The address of the word of a relocation.
abbrev pub word_at : Lib → Rel → ℕ
word_at lib rel = (lib.hdr + rel.r_offset) % 2 ^ 32

-- What a relocation adds to its word for a symbol at the address `t`, by its type: R_386_32 is 1, R_386_PC32 is 2 and
-- R_386_RELATIVE is 8.
pub data Adds (lib : Lib) (rel : Rel) (t : ℕ) : ℕ → Type 0 where
  absolute : rel.r_info % 256 ≡ 1 → Adds lib rel t t
  relative_to_word : rel.r_info % 256 ≡ 2 → Adds lib rel t (t + (2 ^ 32 - word_at lib rel))
  relative_to_library : rel.r_info % 256 ≡ 8 → Adds lib rel t lib.hdr
  nothing : rel.r_info % 256 ≢ 1 → rel.r_info % 256 ≢ 2 → rel.r_info % 256 ≢ 8 → Adds lib rel t 0

-- The relocations, with what each adds to its word, and the result: every symbol is found, or the first that is not
-- ends it. A relocation without a symbol goes on with the one before.
pub data Patches (lib : Lib) (files : List Lib) : ℕ → List Rel → List ℕ → ℤ → Type 0 where
  done : {s : ℕ} → Patches lib files s [] [] (pos 0)
  next :
      {s : ℕ} {rels : List Rel} {ds : List ℕ} {r : ℤ} (rel : Rel) (t d : ℕ)
      → Uses lib files rel s (some t)
      → Adds lib rel t d
      → Patches lib files t rels ds r
      → Patches lib files s (rel ∷ rels) (d ∷ ds) r
  stop :
      {s : ℕ} {rels : List Rel} (rel : Rel)
      → Uses lib files rel s none
      → Patches lib files s (rel ∷ rels) [] (negsuc 0)

amount-Adds : (lib : Lib) (rel : Rel) (t d : ℕ) → Adds lib rel t d → amount lib rel t ≡ d
amount-Adds lib rel t _ (absolute e) = rw e refl
amount-Adds lib rel t _ (relative_to_word e) = rw e refl
amount-Adds lib rel t _ (relative_to_library e) = rw e refl
amount-Adds lib rel t _ (nothing n m l) = ground (arith, n, m, l)

-- The word `v` at the address `a` after the relocations.
abbrev pub word_after : Lib → List Rel → List ℕ → ℕ → ℕ → ℕ
word_after lib [] ds v a = v
word_after lib (rel ∷ rels) [] v a = v
word_after lib (rel ∷ rels) (d ∷ ds) v a =
    let rest = word_after lib rels ds v a in if a == word_at lib rel then (v + d) % 2 ^ 32 else rest

abbrev pub words : Lib → List Rel → List ℕ
words lib rels = map (word_at lib) rels

word_after-other :
    (lib : Lib) (rels : List Rel) (ds : List ℕ) (v a : ℕ)
    → has a (words lib rels) ≡ false
    → word_after lib rels ds v a ≡ v
word_after-other lib [] ds v a h = refl
word_after-other lib (rel ∷ rels) [] v a h = refl
word_after-other lib (rel ∷ rels) (d ∷ ds) v a h =
    let other : (a == word_at lib rel) ≡ false =
      or_left (a == word_at lib rel) (has a (words lib rels)) h in
    rw other (word_after-other lib rels ds v a (ground (arith, h)))

-- One word that is not patched again, and the others.
word_after-first :
    (lib : Lib) (rel : Rel) (rels : List Rel) (d : ℕ) (ds : List ℕ) (mem : ℕ → ℕ) (a : ℕ)
    → has (word_at lib rel) (words lib rels) ≡ false
    → word_after lib rels ds (add_word (word_at lib rel) d mem a) a
      ≡ word_after lib (rel ∷ rels) (d ∷ ds) (mem a) a
word_after-first lib rel rels d ds mem a h = elim (Bool-cases (a == word_at lib rel)) [
  | inl e ↦
      let same : a ≡ word_at lib rel = ==_eq a (word_at lib rel) e in
      word_after-other lib rels ds (add_word (word_at lib rel) d mem a) a (rw (same) h)
      ∙ rw (e) (ap (λ (b : ℕ). (mem b + d) % 2 ^ 32) (sym same))
  | inr e ↦ rw e refl
]

-- The words at `a` and `b` do not overlap.
abbrev pub Apart : ℕ → ℕ → Type 0
Apart a b = (a + 4 ≤ b) ⊎ (b + 4 ≤ a)

abbrev pub AllApart : ℕ → List ℕ → Type 0
AllApart a [] = Unit {0}
AllApart a (b ∷ bs) = Apart a b × AllApart a bs

-- The words are in memory, and no two of them overlap.
abbrev pub Separate : List ℕ → Type 0
Separate [] = Unit {0}
Separate (a ∷ bs) = (a + 4 ≤ 2 ^ 32) × AllApart a bs × Separate bs

-- The word at `a` is one of the words, or is in memory and overlaps with none.
abbrev pub IsWhole : ℕ → List ℕ → Type 0
IsWhole a bs = (has a bs ≡ true) ⊎ ((a + 4 ≤ 2 ^ 32) × AllApart a bs)

AllApart-has : (a : ℕ) (bs : List ℕ) → AllApart a bs → has a bs ≡ false
AllApart-has a [] h = refl
AllApart-has a (b ∷ bs) h =
    let other : (a == b) ≡ false = elim h.0 [
      | inl l ↦ ground (arith, l)
      | inr l ↦ ground (arith, l)
    ] in
    rw other (AllApart-has a bs h.1)

Separate-Distinct : (bs : List ℕ) → Separate bs → Distinct bs
Separate-Distinct [] h = tt
Separate-Distinct (a ∷ bs) h = (AllApart-has a bs h.1, Separate-Distinct bs h.2)

patch_section-words :
    (lib : Lib) (files : List Lib) (s : ℕ) (rels : List Rel) (ds : List ℕ) (r : ℤ) (mem : ℕ → ℕ)
    → Patches lib files s rels ds r
    → Distinct (words lib rels)
    → (mem' : ℕ → ℕ) × (patch_section lib files rels s mem
        ≡ some (record { result = r; memory = mem' }))
      × ((a : ℕ) → mem' a ≡ word_after lib rels ds (mem a) a)
unfolding patch_section Option.bind
patch_section-words lib files s _ _ _ mem done h = (mem, refl, (λ a. refl))
patch_section-words lib files s _ _ _ mem (next {rels = rels} {ds = ds} {r = r} rel t d u g p) h =
    let same = amount-Adds lib rel t d g in
    let (mem', run, values) =
      patch_section-words lib files t rels ds r (add_word (word_at lib rel) d mem) p h.1 in
    (
      mem',
      rw (symbol_of-Uses lib files rel s (some t) u, same) run,
      (λ a. values a ∙ word_after-first lib rel rels d ds mem a h.0),
    )
patch_section-words lib files s _ _ _ mem (stop rel u) h =
    (mem, rw (symbol_of-Uses lib files rel s none u) refl, (λ a. refl))

-- __dl_patch_section of relocations whose words are in memory and do not overlap, where the symbol
-- of each is found, or of each up to one whose symbol is nowhere, returns 0 or -1 accordingly. A
-- symbol is looked up by its name in the library itself, in the first file and in those behind it,
-- the first value that is not 0 counts, and the address of the library is added to it but for the
-- first file. Each word before the end has the symbol (R_386_32), the symbol less the word's
-- address (R_386_PC32), the address of the library (R_386_RELATIVE) or nothing (any other type)
-- added once, modulo 2^32, and every word that overlaps with none of them is as before.
pub patch_section-Patches :
    (lib : Lib) (files : List Lib) (s : ℕ) (rels : List Rel) (ds : List ℕ) (r : ℤ) (mem : ℕ → ℕ)
    → Patches lib files s rels ds r
    → Separate (words lib rels)
    → (mem' : ℕ → ℕ) × (patch_section lib files rels s mem
        ≡ some (record { result = r; memory = mem' }))
      × ((a : ℕ) → IsWhole a (words lib rels) → mem' a ≡ word_after lib rels ds (mem a) a)
patch_section-Patches lib files s rels ds r mem p h =
    let (mem', run, values) =
      patch_section-words lib files s rels ds r mem p (Separate-Distinct (words lib rels) h) in
    (mem', run, (λ a w. values a))
