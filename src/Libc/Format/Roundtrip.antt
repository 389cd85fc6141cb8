-- ===== src/Libc/Format/Roundtrip.antt =====
-- What lib/libc/snprintf.c stores for a number is read back as the number.
use mathlib.Core.Option
use openblt.Prelude.{
  ℕ, zero, suc, ◌+◌, ◌-◌, ◌%◌, ◌/◌, ◌^◌, ◌<◌, ◌≤◌, ◌==◌, ◌≡◌, refl, some, List, [], ◌∷◌, ◌++◌,
  if◌then◌else◌, ltb, arith, length, take, take_all, Bool-cases, inl, inr, false, ◌∙◌, ap,
}
use openblt.Libc.Format.{
  Arg, word, Output, emit, emit_whole, put_hex, put_unsigned, put_signed, with_word, put_pointer,
  convert, format, va_snprintf, start, hex, decimal, plain,
}
use openblt.Libc.Format.Digits.{
  read_hex, read_decimal, length-hex, length-decimal, read_hex-hex, read_decimal-decimal,
}

-- Reading a decimal number that may have a sign, as a word.
unfoldable pub read_signed : List ℕ → ℕ
unfolding read_decimal
read_signed [] = 0
read_signed (c ∷ cs) = if c == b'-' then 2 ^ 32 - read_decimal 0 cs else read_decimal 0 (c ∷ cs)

-- All of what is emitted is stored, where there is room.
emit_all : (cs : List ℕ) (o : Output) → length cs ≤ o.left → (emit cs o).written ≡ o.written ++ cs
emit_all cs o h = rw (take_all o.left cs h) refl

emit_whole_all :
    (cs : List ℕ) (o : Output) → length cs ≤ o.left → (emit_whole cs o).written ≡ o.written ++ cs
emit_whole_all cs o h =
    let room : ltb o.left (length cs) ≡ false = ground (arith, h) in rw room (emit_all cs o h)

-- One conversion, which is the whole format.
alone :
    (l c : ℕ) (args : List Arg) (o : Output)
    → 2 ≤ l
    → (c == b'l') ≡ false
    → convert c (start (l - 1) args) ≡ some o
    → va_snprintf l (b'%' ∷ c ∷ []) args ≡ some (o.written ++ 0 ∷ [])
unfolding va_snprintf format Option.bind
alone l c args o h other e =
    let some_room : ltb l 1 ≡ false = ground (arith, h) in
    let more : (l == 0) ≡ false = ground (arith, h) in
    let two : (l == 1) ≡ false = ground (arith, h) in rw (some_room, more, two, other, e) refl

convert_hex :
    (l u : ℕ)
    → 8 ≤ l
    → convert b'x' (start l (word u ∷ [])) ≡ some (plain (put_hex 8 u (start l [])))
unfolding convert put_pointer with_word
convert_hex l u h = let room : ltb l 8 ≡ false = ground (arith, h) in rw room refl

convert_signed : (l u : ℕ) → convert b'd' (start l (word u ∷ [])) ≡ some (put_signed u (start l []))
unfolding convert with_word
convert_signed l u = refl

put_hex_all :
    (n u : ℕ) (o : Output) → n ≤ o.left → (put_hex n u o).written ≡ o.written ++ hex n u []
unfolding put_hex
put_hex_all n u o h = emit_whole_all (hex n u []) o (omega (arith, h, length-hex n u []))

put_unsigned_all :
    (u : ℕ) (o : Output) → 10 ≤ o.left → (put_unsigned u o).written ≡ o.written ++ decimal 10 u []
unfolding put_unsigned
put_unsigned_all u o h = emit_all (decimal 10 u []) o (omega (arith, h, length-decimal 10 u []))

-- A digit is not a sign.
read_signed-decimal :
    (n u : ℕ) (ds : List ℕ)
    → read_signed (decimal (suc n) u ds) ≡ read_decimal 0 (decimal (suc n) u ds)
unfolding read_signed decimal
read_signed-decimal zero u ds =
    let digit : (48 + u % 10 == b'-') ≡ false = ground arith in
    elim (Bool-cases (u / 10 == 0)) [ inl e ↦ rw (e, digit) refl | inr e ↦ rw (e, digit) refl ]
read_signed-decimal (suc n) u ds =
    let digit : (48 + u % 10 == b'-') ≡ false = ground arith in
    elim (Bool-cases (u / 10 == 0)) [
      | inl e ↦ rw (e, digit) refl
      | inr e ↦ rw e (read_signed-decimal n (u / 10) ((48 + u % 10) ∷ ds))
    ]

-- The sign of a negative number and its digits.
put_negative :
    (u : ℕ) (o : Output)
    → 11 ≤ o.left
    → (put_unsigned u (emit (45 ∷ []) o)).written ≡ (o.written ++ 45 ∷ []) ++ decimal 10 u []
put_negative u o h =
    let sign : take o.left (45 ∷ []) ≡ 45 ∷ [] = take_all o.left (45 ∷ []) (omega (arith, h)) in
    put_unsigned_all u (emit (45 ∷ []) o) (omega (arith, h, ap length sign))
    ∙ ap (λ (cs : List ℕ). (o.written ++ cs) ++ decimal 10 u []) sign

-- va_snprintf of the format %x with a word below 2^32, and with room for 9 characters or more,
-- stores 8 characters and a NUL, and the characters, read as a hexadecimal number, are that word.
pub va_snprintf-read_hex :
    (l u : ℕ)
    → 9 ≤ l
    → u < 2 ^ 32
    → (ds : List ℕ) × (va_snprintf l (b'%' ∷ b'x' ∷ []) (word u ∷ []) ≡ some (ds ++ 0 ∷ []))
      × (length ds ≡ 8)
      × (read_hex 0 ds ≡ u)
unfolding read_hex
va_snprintf-read_hex l u h small =
    let stored =
      alone l b'x' (word u ∷ []) _ (omega (arith, h)) refl
        (convert_hex (l - 1) u (omega (arith, h))) in
    let digits = put_hex_all 8 u (start (l - 1) []) (omega (arith, h)) in
    (
      hex 8 u [],
      stored ∙ ap (λ (ds : List ℕ). some (ds ++ 0 ∷ [])) digits,
      length-hex 8 u [],
      read_hex-hex 8 u [] (omega (arith, small)),
    )

-- va_snprintf of the format %d with a word below 2^32, and with room for 12 characters or more,
-- stores at most 11 characters and a NUL, and the characters, read as a decimal number that may
-- have a sign, are that word.
pub va_snprintf-read_signed :
    (l u : ℕ)
    → 12 ≤ l
    → u < 2 ^ 32
    → (ds : List ℕ) × (va_snprintf l (b'%' ∷ b'd' ∷ []) (word u ∷ []) ≡ some (ds ++ 0 ∷ []))
      × (length ds ≤ 11)
      × (read_signed ds ≡ u)
unfolding read_signed put_signed
va_snprintf-read_signed l u h small =
    let stored = alone l b'd' (word u ∷ []) _ (omega (arith, h)) refl (convert_signed (l - 1) u) in
    elim (Bool-cases (ltb u (2 ^ 31))) [
      | inl e ↦ (
        decimal 10 u [],
        stored
            ∙ rw e (
                ap (λ (ds : List ℕ). some (ds ++ 0 ∷ []))
                  (put_unsigned_all u (start (l - 1) []) (omega (arith, h)))),
        omega (arith, length-decimal 10 u []),
        read_signed-decimal 9 u [] ∙ read_decimal-decimal 10 u [] (omega (arith, small)),
      )
      | inr e ↦
          let size : 2 ^ 32 - u < 10 ^ 10 = omega arith in
          let value : 2 ^ 32 - (2 ^ 32 - u) ≡ u = omega (arith, small) in
          (
            45 ∷ decimal 10 (2 ^ 32 - u) [],
            stored
                ∙ rw e (
                    ap (λ (ds : List ℕ). some (ds ++ 0 ∷ []))
                      (put_negative (2 ^ 32 - u) (start (l - 1) []) (omega (arith, h)))),
            omega (arith, length-decimal 10 (2 ^ 32 - u) []),
            rw (read_decimal-decimal 10 (2 ^ 32 - u) [] size) value,
          )
    ]
