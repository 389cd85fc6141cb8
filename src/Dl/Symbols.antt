-- ===== src/Dl/Symbols.antt =====
-- Which symbol a relocation of lib/libdl/sym.c stands for, told without the code.
use mathlib.Core.Option
use openblt.Prelude.{
  ℕ, suc, ◌+◌, ◌/◌, ◌%◌, ◌^◌, ◌==◌, ◌≡◌, ◌≢◌, refl, ap, true, false, Option, none, some, List, [],
  ◌∷◌, arith, Bool-cases, inl, inr, ==_eq, ==_refl,
}
use openblt.Dl.{
  Symbol, Lib, Rel, same_name, search, or_zero, dl_lookup_sym, find_in, find_in_files, find_symbol,
  nth_name, symbol_of,
}

-- The value of the first of `n` symbols with the name, or 0.
pub data Value (name : List ℕ) : ℕ → List Symbol → ℕ → Type 0 where
  missing : {ss : List Symbol} → Value name 0 ss 0
  hit :
      {n : ℕ} {ss : List Symbol} (s : Symbol)
      → s.st_name ≡ name
      → Value name (suc n) (s ∷ ss) s.st_value
  miss :
      {n v : ℕ} {ss : List Symbol} (s : Symbol)
      → s.st_name ≢ name
      → Value name n ss v
      → Value name (suc n) (s ∷ ss) v

-- In the table of symbols of a library.
abbrev pub ValueIn : Lib → List ℕ → ℕ → Type 0
ValueIn lib name v = Value name lib.symtab_count lib.symtab_data v

-- The address in the libraries behind the first file: of the first that has a value for the name.
pub data Behind (name : List ℕ) : List Lib → Option ℕ → Type 0 where
  nowhere : Behind name [] none
  at_library :
      {v : ℕ} (p : Lib) (ps : List Lib)
      → ValueIn p name v
      → v ≢ 0
      → Behind name (p ∷ ps) (some ((p.hdr + v) % 2 ^ 32))
  further :
      {r : Option ℕ} (p : Lib) (ps : List Lib)
      → ValueIn p name 0
      → Behind name ps r
      → Behind name (p ∷ ps) r

-- The address of a name: of the library itself, of the first file, whose values are addresses, or of one behind it.
pub data Resolved (lib : Lib) (name : List ℕ) : List Lib → Option ℕ → Type 0 where
  own :
      {v : ℕ} {files : List Lib}
      → ValueIn lib name v
      → v ≢ 0
      → Resolved lib name files (some ((lib.hdr + v) % 2 ^ 32))
  unresolved : ValueIn lib name 0 → Resolved lib name [] none
  program :
      {v : ℕ} (p : Lib) (ps : List Lib)
      → ValueIn lib name 0
      → ValueIn p name v
      → v ≢ 0
      → Resolved lib name (p ∷ ps) (some v)
  behind :
      {r : Option ℕ} (p : Lib) (ps : List Lib)
      → ValueIn lib name 0
      → ValueIn p name 0
      → Behind name ps r
      → Resolved lib name (p ∷ ps) r

-- The name of a symbol by its index.
pub data Named (name : List ℕ) : List Symbol → ℕ → Type 0 where
  first_symbol : {ss : List Symbol} (s : Symbol) → s.st_name ≡ name → Named name (s ∷ ss) 0
  later_symbol :
      {i : ℕ} {ss : List Symbol} (s : Symbol) → Named name ss i → Named name (s ∷ ss) (suc i)

-- The address that a relocation uses, or that its symbol is nowhere; without a symbol it is the one before.
pub data Uses (lib : Lib) (files : List Lib) (rel : Rel) (before : ℕ) : Option ℕ → Type 0 where
  no_symbol : rel.r_info / 256 ≡ 0 → Uses lib files rel before (some before)
  with_symbol :
      {r : Option ℕ} (name : List ℕ)
      → rel.r_info / 256 ≢ 0
      → Named name lib.dynsym_data (rel.r_info / 256)
      → Resolved lib name files r
      → Uses lib files rel before r

same_name_refl : (s : List ℕ) → same_name s s ≡ true
same_name_refl [] = refl
same_name_refl (x ∷ xs) = rw (==_refl x) (same_name_refl xs)

same_name_eq : (s t : List ℕ) → same_name s t ≡ true → s ≡ t
same_name_eq [] [] h = refl
same_name_eq [] (y ∷ ys) h = absurd (ground (arith, h))
same_name_eq (x ∷ xs) [] h = absurd (ground (arith, h))
same_name_eq (x ∷ xs) (y ∷ ys) h = elim (Bool-cases (x == y)) [
  | inl e ↦ rw (==_eq x y e, same_name_eq xs ys (ground (arith, h, e))) refl
  | inr e ↦ absurd (ground (arith, h, e))
]

other_name : (s t : List ℕ) → s ≢ t → same_name s t ≡ false
other_name s t n = elim (Bool-cases (same_name s t)) [
  | inl e ↦ absurd (n (same_name_eq s t e))
  | inr e ↦ e
]

search-Value :
    (name : List ℕ) (n : ℕ) (ss : List Symbol) (v : ℕ)
    → Value name n ss v
    → Option.map or_zero (search n ss name) ≡ some v
search-Value name _ _ _ missing = refl
search-Value name _ _ _ (hit s e) = rw (e, same_name_refl name) refl
search-Value name _ _ _ (miss {n = n} {v = v} {ss = ss} s d h) =
    rw (other_name s.st_name name d) (search-Value name n ss v h)

dl_lookup_sym-ValueIn :
    (lib : Lib) (name : List ℕ) (v : ℕ) → ValueIn lib name v → dl_lookup_sym lib name ≡ some v
unfolding dl_lookup_sym
dl_lookup_sym-ValueIn lib name v h = search-Value name lib.symtab_count lib.symtab_data v h

nonzero : (v : ℕ) → v ≢ 0 → (v == 0) ≡ false
nonzero v n = ground (arith, n)

find_in-Behind :
    (name : List ℕ) (ps : List Lib) (r : Option ℕ) → Behind name ps r → find_in ps name ≡ some r
unfolding find_in Option.bind
find_in-Behind name _ _ nowhere = refl
find_in-Behind name _ _ (at_library {v = v} p ps h n) =
    rw (dl_lookup_sym-ValueIn p name v h, nonzero v n) refl
find_in-Behind name _ _ (further {r = r} p ps h g) =
    rw (dl_lookup_sym-ValueIn p name 0 h) (find_in-Behind name ps r g)

find_symbol-Resolved :
    (lib : Lib) (name : List ℕ) (files : List Lib) (r : Option ℕ)
    → Resolved lib name files r
    → find_symbol lib files name ≡ some r
unfolding find_symbol find_in_files Option.bind
find_symbol-Resolved lib name files _ (own {v = v} h n) =
    rw (dl_lookup_sym-ValueIn lib name v h, nonzero v n) refl
find_symbol-Resolved lib name _ _ (unresolved h) = rw (dl_lookup_sym-ValueIn lib name 0 h) refl
find_symbol-Resolved lib name _ _ (program {v = v} p ps h g n) =
    rw (dl_lookup_sym-ValueIn lib name 0 h, dl_lookup_sym-ValueIn p name v g, nonzero v n) refl
find_symbol-Resolved lib name _ _ (behind {r = r} p ps h g f) =
    rw (dl_lookup_sym-ValueIn lib name 0 h, dl_lookup_sym-ValueIn p name 0 g)
      (find_in-Behind name ps r f)

nth_name-Named :
    (name : List ℕ) (ss : List Symbol) (i : ℕ) → Named name ss i → nth_name ss i ≡ some name
nth_name-Named name _ _ (first_symbol s e) = ap some e
nth_name-Named name _ _ (later_symbol {i = i} {ss = ss} s h) = nth_name-Named name ss i h

pub symbol_of-Uses :
    (lib : Lib) (files : List Lib) (rel : Rel) (before : ℕ) (r : Option ℕ)
    → Uses lib files rel before r
    → symbol_of lib files rel before ≡ some r
unfolding symbol_of Option.bind
symbol_of-Uses lib files rel before _ (no_symbol e) = rw (e) refl
symbol_of-Uses lib files rel before r (with_symbol name n h g) =
    rw (nonzero (rel.r_info / 256) n, nth_name-Named name lib.dynsym_data (rel.r_info / 256) h)
      (find_symbol-Resolved lib name files r g)
