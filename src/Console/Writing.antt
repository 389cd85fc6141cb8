-- ===== src/Console/Writing.antt =====
-- A text written to the console of srv/console2/vt100.c.
use mathlib.Core.Option.{some-injective}
use openblt.Prelude.{
  ℕ, ◌==◌, ◌≡◌, refl, false, List, [], ◌∷◌, ◌++◌, has, Option, none, some, ap, sym, length,
  length-append, ◌∙◌, arith,
}
use openblt.Console.Screen.{Screen, Handler}
use openblt.Console.Interpreter.{char_to_virtscreen, write_text}
use openblt.Console.Scrolling.{self-Keeps}
use openblt.Console.Bounds.{IsScreen, Keeps}
use openblt.Console.Step.{Safe, safe, Keeps-trans}
use openblt.Console.Safety.{MayTake, Overflow, Taken, taken, overflows, char_to_virtscreen-Taken}

without_r : (s : Screen) (ch : ℕ) → (b'r' == ch) ≡ false → MayTake s ch
without_r s ch n h e = absurd (ground arith)

-- No character of the text, read in a sequence, overflows the screen that the characters before it lead to.
abbrev pub Fits : Screen → List ℕ → Type 0
Fits s chs =
    (before : List ℕ) (ch : ℕ) (behind : List ℕ) (t : Screen)
    → chs ≡ before ++ ch ∷ behind
    → write_text s before ≡ some t
    → t.next_char_send ≡ Handler.special_reading_ansi
    → ¬ Overflow t ch

-- A text is written to the end, safely, or up to a character that overflows an int.
pub data Written (s : Screen) (chs : List ℕ) : Option Screen → Type 0 where
  written : {o : Option Screen} → Fits s chs → Safe s o → Written s chs o
  stopped :
      (before : List ℕ) (ch : ℕ) (behind : List ℕ) (t : Screen)
      → chs ≡ before ++ ch ∷ behind
      → write_text s before ≡ some t
      → Keeps s t
      → t.next_char_send ≡ Handler.special_reading_ansi
      → Overflow t ch
      → Written s chs none

Fits-empty : (s : Screen) → Fits s []
Fits-empty s before ch behind t split ran reading over =
    ground (arith, ap length split, length-append before (ch ∷ behind))

abbrev first_character : List ℕ → ℕ
first_character [] = 0
first_character (c ∷ cs) = c

abbrev behind_first : List ℕ → List ℕ
behind_first [] = []
behind_first (c ∷ cs) = cs

-- The first character fits, and so do the others after it.
Fits-next :
    (s t : Screen) (ch : ℕ) (chs : List ℕ)
    → char_to_virtscreen s ch ≡ some t
    → (s.next_char_send ≡ Handler.special_reading_ansi → ¬ Overflow s ch)
    → Fits t chs
    → Fits s (ch ∷ chs)
unfolding write_text
Fits-next s t ch chs e fit rest [] c behind u split ran reading over =
    let same : s ≡ u = some-injective s u ran in
    let first : ch ≡ c = ap first_character split in fit (rw same reading) (rw (same, first) over)
Fits-next s t ch chs e fit rest (x ∷ before) c behind u split ran reading over =
    let first : ch ≡ x = ap first_character split in
    let found : char_to_virtscreen s x ≡ some t = rw (sym first) e in
    rest before c behind u (ap behind_first split) (rw (write_text, found) at ran) reading over

-- After a character that was taken.
Written-next :
    (s t : Screen) (ch : ℕ) (chs : List ℕ) (o : Option Screen)
    → char_to_virtscreen s ch ≡ some t
    → (s.next_char_send ≡ Handler.special_reading_ansi → ¬ Overflow s ch)
    → Keeps s t
    → Written t chs o
    → Written s (ch ∷ chs) o
unfolding write_text
Written-next s t ch chs o e fit k (written rest f) =
    written (Fits-next s t ch chs e fit rest)
      (record { after = f.after; ends = f.ends; keeps = Keeps-trans k f.keeps })
Written-next s t ch chs _ e fit k (stopped before c behind u split ran l reading over) =
    stopped (ch ∷ before) c behind u (ap (λ (cs : List ℕ). ch ∷ cs) split) (rw (write_text, e) ran)
      (Keeps-trans k l) reading over

Written-first :
    (s : Screen) (ch : ℕ) (chs : List ℕ) (o : Option Screen)
    → IsScreen s
    → ((t : Screen) → IsScreen t → Written t chs (write_text t chs))
    → char_to_virtscreen s ch ≡ o
    → Taken s ch o
    → Written s (ch ∷ chs) (write_text s (ch ∷ chs))
unfolding write_text
Written-first s ch chs o v rest e (taken fit f) =
    let found : char_to_virtscreen s ch ≡ some f.after = e ∙ f.ends in
    rw (found, write_text)
      (Written-next s f.after ch chs _ found fit f.keeps (rest f.after f.keeps.well))
Written-first s ch chs _ v rest e (overflows reading over) =
    rw (e, write_text) (stopped [] ch chs s refl refl (self-Keeps s v) reading over)

-- Any text without the letter r, written to a well formed screen character by character, is written
-- to the end, where no character of a sequence leaves an int, or up to the first that does: a digit
-- that makes the number 2^31 or more, or a final a, C or P, or e, B or E, for which the sum of the
-- first number (1 where there is none) with the cursor's column, or row, is. After what is written
-- the screen is well formed, with the cursor on it, its size is the same, and no cell beyond it has
-- changed.
pub write_text-Written :
    (chs : List ℕ) (s : Screen)
    → IsScreen s
    → has b'r' chs ≡ false
    → Written s chs (write_text s chs)
unfolding write_text
write_text-Written [] s v n = written (Fits-empty s) (safe (self-Keeps s v))
write_text-Written (ch ∷ chs) s v n =
    Written-first s ch chs (char_to_virtscreen s ch) v
      (λ t w. write_text-Written chs t w (ground (arith, n))) refl
      (char_to_virtscreen-Taken s ch v (without_r s ch (ground (arith, n))))
