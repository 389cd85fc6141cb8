-- ===== src/Libc/Examples.antt =====
-- The theorems on formatted text at two formats.
use mathlib.Core.Option
use openblt.Prelude.{◌≤◌, List, [], ◌∷◌, ◌++◌, some, length, ℕ, ◌≡◌, arith, refl}
use openblt.Libc.Format.{word, va_snprintf, hex}
use openblt.Libc.Format.Bounds.{length-va_snprintf}
use openblt.Libc.Format.Roundtrip.{read_signed, va_snprintf-read_signed}

-- "ab%x" with the word 171, in a buffer of 20 characters.
length-va_snprintf_example : length (b'a' ∷ b'b' ∷ hex 8 171 [] ++ 0 ∷ []) ≤ 21
unfolding va_snprintf hex Option.bind
length-va_snprintf_example =
    length-va_snprintf 20 (b'a' ∷ b'b' ∷ b'%' ∷ b'x' ∷ []) (word 171 ∷ [])
      (b'a' ∷ b'b' ∷ hex 8 171 [] ++ 0 ∷ []) refl

va_snprintf-read_signed_example :
    (ds : List ℕ) × (va_snprintf 20 (b'%' ∷ b'd' ∷ []) (word 4294967291 ∷ []) ≡ some (ds ++ 0 ∷ []))
    × (length ds ≤ 11)
    × (read_signed ds ≡ 4294967291)
va_snprintf-read_signed_example = va_snprintf-read_signed 20 4294967291 (omega arith) (omega arith)
