-- ===== src/Dl/Examples.antt =====
-- The relocation of a library with one symbol of its own and one of the program.
use openblt.Prelude.{ℕ, pos, ◌≡◌, refl, ap, arith, inl, ◌≢◌, List, [], ◌∷◌, some}
use openblt.Dl.{Symbol, Lib, Rel, patch_section}
use openblt.Dl.Symbols.{
  hit, miss, missing, with_symbol, no_symbol, later_symbol, first_symbol, Resolved,
}
use openblt.Dl.Relocation.{
  Patches, done, next, absolute, relative_to_word, relative_to_library, IsWhole, words, word_after,
  patch_section-Patches,
}

abbrev own : List Symbol
own = record { st_name = b'f' ∷ []; st_value = 16 } ∷ []

abbrev library : Lib
library = record {
  hdr = 65536;
  symtab_data = own;
  dynsym_data =
      record { st_name = []; st_value = 0 }
      ∷ record { st_name = b'f' ∷ []; st_value = 16 }
      ∷ record { st_name = b'g' ∷ []; st_value = 0 }
      ∷ [];
  symtab_count = 1;
  dynsym_count = 3;
}

abbrev program : Lib
program = record {
  hdr = 4096;
  symtab_data = record { st_name = b'g' ∷ []; st_value = 5000 } ∷ [];
  dynsym_data = [];
  symtab_count = 1;
  dynsym_count = 0;
}

-- A word for f, a call of g, and an address of the library.
abbrev relocations : List Rel
relocations =
    record { r_offset = 32; r_info = 257 }
    ∷ record { r_offset = 40; r_info = 514 }
    ∷ record { r_offset = 48; r_info = 8 }
    ∷ []

abbrev before : ℕ → ℕ
before a = 4

abbrev amounts : List ℕ
amounts = 65552 ∷ 4294906720 ∷ 65536 ∷ []

abbrev first_character : List ℕ → ℕ
first_character [] = 0
first_character (c ∷ cs) = c

abbrev f_name : List ℕ
f_name = b'f' ∷ []

abbrev g_name : List ℕ
g_name = b'g' ∷ []

f_is_not_g : f_name ≢ g_name
f_is_not_g e = ground (arith, ap first_character e)

relocations-Patches : Patches library (program ∷ []) 0 relocations amounts (pos 0)
relocations-Patches =
    next (record { r_offset = 32; r_info = 257 }) 65552 65552
      (with_symbol (b'f' ∷ []) (λ e. ground (arith, e)) (later_symbol _ (first_symbol _ refl))
        (Resolved.own (hit _ refl) (λ e. ground (arith, e))))
      (absolute refl)
      (next (record { r_offset = 40; r_info = 514 }) 5000 4294906720
        (with_symbol (b'g' ∷ []) (λ e. ground (arith, e))
          (later_symbol _ (later_symbol _ (first_symbol _ refl)))
          (Resolved.program program [] (miss _ f_is_not_g missing) (hit _ refl)
            (λ e. ground (arith, e))))
        (relative_to_word refl)
        (next (record { r_offset = 48; r_info = 8 }) 5000 65536 (no_symbol refl)
          (relative_to_library refl) done))

patch_section-Patches_example :
    (mem : ℕ → ℕ) × (patch_section library (program ∷ []) relocations 0 before
      ≡ some (record { result = pos 0; memory = mem }))
    × ((a : ℕ)
        → IsWhole a (words library relocations)
        → mem a ≡ word_after library relocations amounts (before a) a)
patch_section-Patches_example =
    patch_section-Patches library (program ∷ []) 0 relocations amounts (pos 0) before
      relocations-Patches
      (
        omega arith,
        (inl (omega arith), (inl (omega arith), tt)),
        (omega arith, (inl (omega arith), tt), (omega arith, tt, tt)),
      )
