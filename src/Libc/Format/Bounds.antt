-- ===== src/Libc/Format/Bounds.antt =====
-- How much lib/libc/snprintf.c stores.
use mathlib.Core.Option
use mathlib.Core.List.{append-nil, append_assoc}
use mathlib.Core.Option.{some-injective, some-ne-none}
use openblt.Prelude.{
  ℕ, ◌^◌, ◌%◌, zero, suc, ◌+◌, ◌-◌, ◌<◌, ◌≤◌, ◌==◌, ◌≡◌, refl, sym, ap, ◌∙◌, Bool, true, false,
  ◌||◌, Option, none, some, List, [], ◌∷◌, ◌++◌, if◌then◌else◌, ltb, arith, length, length-append,
  take, Bool-cases, inl, inr, ==_eq,
}
use openblt.Libc.Format.{
  Arg, word, long_long, text, Output, emit, emit_whole, put_hex, put_unsigned, put_signed,
  with_word, with_long_long, with_text, put_character, put_padded, put_pointer, convert, format,
  va_snprintf, start, longer, plain, hex, decimal, last_four,
}

-- What is stored and what room is left are together at most `l`.
abbrev Fits : ℕ → Output → Type 0
Fits l o = length o.written + o.left ≤ l

-- Fits, for the output of a step that may fail.
AllFit : ℕ → Option Output → Type 0
AllFit l none = Unit {0}
AllFit l (some o) = Fits l o

length-take-≤ : (n : ℕ) (xs : List ℕ) → length (take n xs) ≤ n
length-take-≤ zero xs = omega arith
length-take-≤ (suc n) [] = omega arith
length-take-≤ (suc n) (x ∷ xs) = omega (arith, length-take-≤ n xs)

module _ (l : ℕ) where
  emit-Fits : (cs : List ℕ) (o : Output) → Fits l o → Fits l (emit cs o)
  emit-Fits cs o h =
      omega (arith, h, length-take-≤ o.left cs, length-append o.written (take o.left cs))

  emit_whole-Fits : (cs : List ℕ) (o : Output) → Fits l o → Fits l (emit_whole cs o)
  emit_whole-Fits cs o h = elim (Bool-cases (ltb o.left (length cs))) [
    | inl e ↦ rw e (omega (arith, h))
    | inr e ↦ rw e (emit-Fits cs o h)
  ]

  put_unsigned-Fits : (n : ℕ) (o : Output) → Fits l o → Fits l (put_unsigned n o)
  unfolding put_unsigned
  put_unsigned-Fits n o h = emit-Fits (decimal 10 n []) o h

  put_padded-Fits : (n : ℕ) (o : Output) → Fits l o → Fits l (put_padded n o)
  unfolding put_padded
  put_padded-Fits n o h = emit-Fits (last_four (32 ∷ 32 ∷ 32 ∷ decimal 10 n [])) o h

  put_character-Fits : (n : ℕ) (o : Output) → Fits l o → Fits l (put_character n o)
  put_character-Fits n o h = emit-Fits ((n % 256) ∷ []) o h

  put_signed-Fits : (n : ℕ) (o : Output) → Fits l o → Fits l (put_signed n o)
  unfolding put_signed
  put_signed-Fits n o h = elim (Bool-cases (ltb n (2 ^ 31))) [
    | inl e ↦ rw e (put_unsigned-Fits n o h)
    | inr e ↦ rw e (put_unsigned-Fits (2 ^ 32 - n) (emit (45 ∷ []) o) (emit-Fits (45 ∷ []) o h))
  ]

  -- A conversion of an argument that fits whatever the argument is.
  with_word-Fits :
      (f : ℕ → Output → Output) (o : Output) (args : List Arg)
      → ((u : ℕ) (p : Output) → Fits l p → Fits l (f u p))
      → Fits l o
      → AllFit l (with_word f o args)
  unfolding with_word AllFit
  with_word-Fits f o [] g h = tt
  with_word-Fits f o (word u ∷ args) g h = g u (record o { args = args }) h
  with_word-Fits f o (long_long u ∷ args) g h = tt
  with_word-Fits f o (text t ∷ args) g h = tt

  with_long_long-Fits :
      (f : ℕ → Output → Output) (o : Output) (args : List Arg)
      → ((u : ℕ) (p : Output) → Fits l p → Fits l (f u p))
      → Fits l o
      → AllFit l (with_long_long f o args)
  unfolding with_long_long AllFit
  with_long_long-Fits f o [] g h = tt
  with_long_long-Fits f o (word u ∷ args) g h = tt
  with_long_long-Fits f o (long_long u ∷ args) g h = g u (record o { args = args }) h
  with_long_long-Fits f o (text t ∷ args) g h = tt

  with_text-Fits : (o : Output) (args : List Arg) → Fits l o → AllFit l (with_text o args)
  unfolding with_text AllFit
  with_text-Fits o [] h = tt
  with_text-Fits o (word u ∷ args) h = tt
  with_text-Fits o (long_long u ∷ args) h = tt
  with_text-Fits o (text t ∷ args) h = emit-Fits t (record o { args = args }) h

  put_hex-Fits : (n u : ℕ) (o : Output) → Fits l o → Fits l (put_hex n u o)
  unfolding put_hex
  put_hex-Fits n u o h = emit_whole-Fits (hex n u []) o h

  plain-Fits : (o : Option Output) → AllFit l o → AllFit l (Option.map plain o)
  unfolding AllFit
  plain-Fits none h = tt
  plain-Fits (some o) h = h

  -- No room is left where the digits do not fit.
  or_stop-Fits :
      (b : Bool) (o : Output) (p : Option Output)
      → Fits l o
      → AllFit l p
      → AllFit l (if b then some (record o { left = 0 }) else p)
  unfolding AllFit
  or_stop-Fits true o p h g = omega (arith, h)
  or_stop-Fits false o p h g = g

  either-Fits :
      (b : Bool) (p q : Option Output) → AllFit l p → AllFit l q → AllFit l (if b then p else q)
  either-Fits true p q h g = h
  either-Fits false p q h g = g

  put_pointer-Fits : (o : Output) → Fits l o → AllFit l (put_pointer o)
  unfolding put_pointer
  put_pointer-Fits o h =
      either-Fits o.mod_ll _ _
        (or_stop-Fits _ o _ h
          (plain-Fits _ (with_long_long-Fits (put_hex 16) o o.args (put_hex-Fits 16) h)))
        (or_stop-Fits _ o _ h
          (plain-Fits _ (with_word-Fits (put_hex 8) o o.args (put_hex-Fits 8) h)))

  -- Room for one character was given up at the %.
  default-Fits :
      (c : ℕ) (o : Output)
      → length o.written + o.left + 1 ≤ l
      → AllFit l (some (record o { written = o.written ++ c ∷ [] }))
  unfolding AllFit
  default-Fits c o h = omega (arith, h, length-append o.written (c ∷ []))

  convert-Fits : (c : ℕ) (o : Output) → length o.written + o.left + 1 ≤ l → AllFit l (convert c o)
  unfolding convert
  convert-Fits c o h =
      let fits : Fits l o = omega (arith, h) in
      let digits = λ (n : ℕ). with_word-Fits (put_hex n) o o.args (put_hex-Fits n) fits in
      either-Fits (c == b's') _ _ (with_text-Fits o o.args fits) (
        either-Fits (c == b'c') _ _ (with_word-Fits put_character o o.args put_character-Fits fits)
          (either-Fits (c == b'S') _ _ (or_stop-Fits (ltb o.left 4) o _ fits (digits 4)) (
            either-Fits (c == b'x' || c == b'p') _ _ (put_pointer-Fits o fits) (
              either-Fits (c == b'd') _ _ (with_word-Fits put_signed o o.args put_signed-Fits fits)
                (either-Fits (c == b'u') _ _
                  (with_word-Fits put_unsigned o o.args put_unsigned-Fits fits)
                  (either-Fits (c == b'U') _ _
                    (with_word-Fits put_padded o o.args put_padded-Fits fits)
                    (either-Fits (c == b'X') _ _ (or_stop-Fits (ltb o.left 2) o _ fits (digits 2))
                      (default-Fits c o h))))))))

  bind-Fits :
      (m : Option Output) (f : Output → Option Output)
      → AllFit l m
      → ((p : Output) → Fits l p → AllFit l (f p))
      → AllFit l (Option.bind m f)
  unfolding Option.bind AllFit
  bind-Fits none f h g = tt
  bind-Fits (some p) f h g = g p h

  -- Before a character of a conversion, a character of room was given up.
  abbrev Ready : Bool → Output → Type 0
  Ready true o = length o.written + o.left + 1 ≤ l
  Ready false o = Fits l o

  longer-Ready : (o : Output) → Ready true o → Ready true (longer o)
  longer-Ready o h = ground (arith, h)

  format-Fits : (b : Bool) (o : Output) (cs : List ℕ) → Ready b o → AllFit l (format b o cs)
  unfolding format AllFit
  format-Fits true o [] h = tt
  format-Fits false o [] h = h
  format-Fits true o (c ∷ cs) h =
      either-Fits _ _ _ (format-Fits true (longer o) cs (longer-Ready o h)) (
        bind-Fits (convert c o) (λ p. format false p cs) (convert-Fits c o h)
          (λ p g. format-Fits false p cs g))
  format-Fits false o (c ∷ cs) h = elim (Bool-cases (o.left == 0)) [
    | inl e ↦ rw e h
    | inr e ↦ rw e (
        either-Fits _ _ _
          (either-Fits (o.left == 1) _ _ (omega (arith, h))
            (format-Fits true (record o { left = o.left - 1 }) cs (ground (arith, h, e))))
          (format-Fits false (emit (c ∷ []) o) cs (emit-Fits (c ∷ []) o h)))
  ]

stored : Option Output → Option (List ℕ)
stored o = Option.map (λ (p : Output). p.written ++ 0 ∷ []) o

AllFit-stored :
    (l : ℕ) (o : Option Output) (bytes : List ℕ)
    → AllFit l o
    → stored o ≡ some bytes
    → length bytes ≤ l + 1
unfolding stored AllFit
AllFit-stored l none bytes h e = absurd (some-ne-none bytes (sym e))
AllFit-stored l (some o) bytes h e =
    let same : o.written ++ 0 ∷ [] ≡ bytes = some-injective (o.written ++ 0 ∷ []) bytes e in
    rw (sym same) (omega (arith, h, length-append o.written (0 ∷ [])))

-- Where va_snprintf ends, whatever the format and the arguments are, it stores at most one byte
-- more than the room it is told of.
pub length-va_snprintf :
    (l : ℕ) (fmt : List ℕ) (args : List Arg) (bytes : List ℕ)
    → va_snprintf l fmt args ≡ some bytes
    → length bytes ≤ l + 1
unfolding va_snprintf stored
length-va_snprintf l fmt args bytes e = elim (Bool-cases (ltb l 1)) [
  | inl h ↦
      let none_stored : some [] ≡ some bytes = rw h at e in
      rw (sym (some-injective [] bytes none_stored)) (omega arith)
  | inr h ↦
      AllFit-stored l (format false (start l args) fmt) bytes
        (format-Fits l false (start l args) fmt (omega arith)) (rw h at e)
]

-- A text without conversions, and without a NUL.
abbrev pub IsPlain : List ℕ → Type 0
IsPlain [] = Unit {0}
IsPlain (c ∷ cs) = ((c == b'%') ≡ false) × IsPlain cs

take_nil : (n : ℕ) → take {A = ℕ} n [] ≡ []
take_nil zero = refl
take_nil (suc n) = refl

-- One character is taken, then the others.
take_one :
    (n c : ℕ) (ws cs : List ℕ)
    → (n == 0) ≡ false
    → (ws ++ take n (c ∷ [])) ++ take (n - length (take n (c ∷ []))) cs ≡ ws ++ take n (c ∷ cs)
take_one zero c ws cs h = absurd (ground (arith, h))
take_one (suc n) c ws cs h =
    let less : suc n - 1 ≡ n = omega arith in
    let one : take (suc n) (c ∷ []) ≡ c ∷ [] = ap (λ (xs : List ℕ). c ∷ xs) (take_nil n) in
    ap (λ (xs : List ℕ). (ws ++ xs) ++ take (suc n - length xs) cs) one
    ∙ ap (λ (m : ℕ). (ws ++ c ∷ []) ++ take m cs) less
    ∙ (append_assoc ws (c ∷ []) (take n cs))

-- What is stored of it.
format-plain :
    (cs : List ℕ) (o : Output)
    → IsPlain cs
    → (p : Output) × (format false o cs ≡ some p) × (p.written ≡ o.written ++ take o.left cs)
unfolding format
format-plain [] o h =
    (o, refl, sym (ap (λ (cs : List ℕ). o.written ++ cs) (take_nil o.left) ∙ append-nil o.written))
format-plain (c ∷ cs) o h = elim (Bool-cases (o.left == 0)) [
  | inl e ↦
      let full : o.left ≡ 0 = ==_eq o.left 0 e in
      (o, rw e refl, rw (full, append-nil o.written) refl)
  | inr e ↦
      let (p, f, w) = format-plain cs (emit (c ∷ []) o) h.1 in
      (p, rw (e, h.0) f, w ∙ take_one o.left c o.written cs e)
]

pub va_snprintf-plain :
    (l : ℕ) (fmt : List ℕ) (args : List Arg)
    → 0 < l
    → IsPlain fmt
    → va_snprintf l fmt args ≡ some (take l fmt ++ 0 ∷ [])
unfolding va_snprintf
va_snprintf-plain l fmt args real h =
    let (p, e, w) = format-plain fmt (start l args) h in
    let room : ltb l 1 ≡ false = ground (arith, real) in rw (room, e, w) refl
