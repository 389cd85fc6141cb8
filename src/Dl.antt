-- ===== src/Dl.antt =====
-- lib/libdl: symbols and relocations of shared libraries.
--
-- A file that is loaded is known by the address of its header and its symbols with their names. A word of memory is
-- read and written whole, at its address. `none` says that the code reads beyond a table.
pub mod Symbols
pub mod Relocation
mod Examples
use mathlib.Core.Option
use openblt.Prelude.{
  ℕ, ℤ, pos, negsuc, zero, suc, ◌+◌, ◌-◌, ◌/◌, ◌%◌, ◌^◌, ◌==◌, ◌&&◌, Bool, true, false, Option,
  none, some, List, [], ◌∷◌, if◌then◌else◌, is_nonzero, update,
}

-- elf32_sym_t
pub record Symbol : Type 0 where
  pub st_name : List ℕ
  pub st_value : ℕ

-- lib_t; the counts are the sizes of the two tables over the size of a symbol.
pub record Lib : Type 0 where
  pub hdr : ℕ
  pub symtab_data : List Symbol
  pub dynsym_data : List Symbol
  pub symtab_count : ℕ
  pub dynsym_count : ℕ

-- elf32_rel_t
pub record Rel : Type 0 where
  pub r_offset : ℕ
  pub r_info : ℕ

-- !strcmp (s, t)
abbrev pub same_name : List ℕ → List ℕ → Bool
same_name [] [] = true
same_name [] (y ∷ ys) = false
same_name (x ∷ xs) [] = false
same_name (x ∷ xs) (y ∷ ys) = (x == y) && same_name xs ys

-- The loop over `n` symbols of a table.
abbrev pub search : ℕ → List Symbol → List ℕ → Option (Option ℕ)
search zero ss name = some none
search (suc n) [] name = none
search (suc n) (s ∷ ss) name =
    let rest = search n ss name in if same_name s.st_name name then some (some s.st_value) else rest

abbrev pub in_memory : Lib → ℕ → ℕ
in_memory lib value = (lib.hdr + value) % 2 ^ 32

-- After the first table.
abbrev pub or_symtab : Lib → List ℕ → Option ℕ → Option (Option ℕ)
or_symtab lib name (some value) = some (some (in_memory lib value))
or_symtab lib name none =
    Option.map (λ (v : Option ℕ). Option.map (in_memory lib) v)
      (search lib.symtab_count lib.symtab_data name)

-- The address, or NULL.
pub dlsym : Lib → List ℕ → Option (Option ℕ)
unfolding Option.bind
dlsym lib name =
    Option.bind (search lib.dynsym_count lib.dynsym_data name)
      (λ (v : Option ℕ). or_symtab lib name v)

abbrev pub or_zero : Option ℕ → ℕ
or_zero none = 0
or_zero (some value) = value

unfoldable pub dl_lookup_sym : Lib → List ℕ → Option ℕ
dl_lookup_sym lib name = Option.map or_zero (search lib.symtab_count lib.symtab_data name)

-- What a library adds to the value of one of its symbols.
abbrev pub unless_zero : (ℕ → ℕ) → ℕ → Option (Option ℕ) → Option (Option ℕ)
unless_zero f value rest = if value == 0 then rest else some (some (f value))

-- The libraries behind the first file, up to one with the symbol.
unfoldable pub find_in : List Lib → List ℕ → Option (Option ℕ)
unfolding dl_lookup_sym Option.bind
find_in [] name = some none
find_in (p ∷ ps) name =
    let rest = find_in ps name in
    Option.bind (dl_lookup_sym p name) (λ (value : ℕ). unless_zero (in_memory p) value rest)

-- The first file, whose symbols are addresses.
unfoldable pub find_in_files : List Lib → List ℕ → Option (Option ℕ)
unfolding find_in
find_in_files [] name = some none
find_in_files (p ∷ ps) name =
    Option.bind (dl_lookup_sym p name)
      (λ (value : ℕ). unless_zero (λ (v : ℕ). v) value (find_in ps name))

-- The symbol of a relocation: in the library itself, or in the files.
unfoldable pub find_symbol : Lib → List Lib → List ℕ → Option (Option ℕ)
unfolding find_in_files
find_symbol lib files name =
    Option.bind (dl_lookup_sym lib name)
      (λ (value : ℕ). unless_zero (in_memory lib) value (find_in_files files name))

abbrev pub nth_name : List Symbol → ℕ → Option (List ℕ)
nth_name [] i = none
nth_name (s ∷ ss) zero = some s.st_name
nth_name (s ∷ ss) (suc i) = nth_name ss i

-- The variable sym for a relocation, or that there is no such symbol; without a symbol it is as it was.
unfoldable pub symbol_of : Lib → List Lib → Rel → ℕ → Option (Option ℕ)
unfolding find_symbol
symbol_of lib files rel sym =
    if rel.r_info / 256 == 0
    then some (some sym)
    else Option.bind (nth_name lib.dynsym_data (rel.r_info / 256)) (find_symbol lib files)

-- word
abbrev pub word_of : Lib → Rel → ℕ
word_of lib rel = (lib.hdr + rel.r_offset) % 2 ^ 32

-- The switch: what is added to the word.
abbrev pub amount : Lib → Rel → ℕ → ℕ
amount lib rel sym =
    if rel.r_info % 256 == 1
    then sym
    else if rel.r_info % 256 == 2
    then sym + (2 ^ 32 - word_of lib rel)
    else if rel.r_info % 256 == 8
    then lib.hdr
    else 0

abbrev pub add_word : ℕ → ℕ → (ℕ → ℕ) → ℕ → ℕ
add_word a d mem = update mem a ((mem a + d) % 2 ^ 32)

-- The result and the memory.
pub record Patched : Type 0 where
  pub result : ℤ
  pub memory : ℕ → ℕ

-- A round of the loop, with the rounds behind it.
abbrev pub patch_word :
    Lib → Rel → (ℕ → ℕ) → (ℕ → (ℕ → ℕ) → Option Patched) → Option ℕ → Option Patched
patch_word lib rel mem rest none = some (record { result = negsuc 0; memory = mem })
patch_word lib rel mem rest (some sym) =
    rest sym (add_word (word_of lib rel) (amount lib rel sym) mem)

pub patch_section : Lib → List Lib → List Rel → ℕ → (ℕ → ℕ) → Option Patched
unfolding symbol_of Option.bind
patch_section lib files [] sym mem = some (record { result = pos 0; memory = mem })
patch_section lib files (rel ∷ rels) sym mem =
    Option.bind (symbol_of lib files rel sym)
      (λ (s : Option ℕ). patch_word lib rel mem (patch_section lib files rels) s)

-- After the section of the text, where it was patched.
abbrev pub then_data : ((ℕ → ℕ) → Option Patched) → Patched → Option Patched
then_data patch p =
    if is_nonzero p.result
    then some (record { result = negsuc 0; memory = p.memory })
    else Option.map
        (λ (q : Patched). if is_nonzero q.result then record q { result = negsuc 0 } else q)
        (patch p.memory)

-- The sections .rel.text and .rel.data, each with sym = 0 at first.
pub dl_patchup : Lib → List Lib → List Rel → List Rel → (ℕ → ℕ) → Option Patched
unfolding patch_section Option.bind
dl_patchup lib files rel_text rel_data mem =
    Option.bind (patch_section lib files rel_text 0 mem)
      (then_data (patch_section lib files rel_data 0))
