-- ===== src/Libc/Format.antt =====
-- lib/libc/snprintf.c: formatted text.
--
-- A format and a string are the lists of their characters before the NUL. `none` says that the code reads beyond
-- the NUL of the format, or that an argument is missing or of another kind.
pub mod Digits
pub mod Bounds
pub mod Roundtrip
use mathlib.Core.Option
use openblt.Prelude.{
  ℕ, zero, suc, ◌+◌, ◌-◌, ◌/◌, ◌%◌, ◌^◌, ◌==◌, Bool, true, false, not, ◌&&◌, ◌||◌, Option, none,
  some, List, [], ◌∷◌, ◌++◌, if◌then◌else◌, ltb, leb, length, take,
}

-- An argument of 32 bits, one of 64 bits, or a string.
pub data Arg : Type 0 where
  word : ℕ → Arg
  long_long : ℕ → Arg
  text : List ℕ → Arg

-- The characters that were stored, `l`, and the arguments and modifiers.
pub record Output : Type 0 where
  pub written : List ℕ
  pub left : ℕ
  pub args : List Arg
  pub mod_l : Bool
  pub mod_ll : Bool

abbrev pub hexmap : ℕ → ℕ
hexmap d = if ltb d 10 then 48 + d else 87 + d

-- for(i=n-1;i>=0;i--){ b[i] = hexmap[u & 0x0F]; u >>= 4; }, the digits so far in `ds`
unfoldable pub hex : ℕ → ℕ → List ℕ → List ℕ
hex zero u ds = ds
hex (suc n) u ds = hex n (u / 16) (hexmap (u % 16) ∷ ds)

-- do { d[i] = (u % 10) + '0'; u /= 10; i--; } while(u && i >= 0), with room for `n` more digits
pub decimal : ℕ → ℕ → List ℕ → List ℕ
decimal zero u ds = ds
decimal (suc n) u ds =
    let ds' = (48 + u % 10) ∷ ds in
    let rest = decimal n (u / 10) ds' in if u / 10 == 0 then ds' else rest

-- d[6] to d[9], where d[6] to d[8] are blanks at first.
abbrev pub last_four : List ℕ → List ℕ
last_four (a ∷ b ∷ c ∷ d ∷ e ∷ ds) = last_four (b ∷ c ∷ d ∷ e ∷ ds)
last_four ds = ds

-- *b++ = c, l-- for each character while there is room
abbrev pub emit : List ℕ → Output → Output
emit cs o =
    let out = take o.left cs in record o { written = o.written ++ out; left = o.left - length out }

-- All the characters, or none and no more output.
abbrev pub emit_whole : List ℕ → Output → Output
emit_whole cs o = if ltb o.left (length cs) then record o { left = 0 } else emit cs o

pub put_hex : ℕ → ℕ → Output → Output
unfolding hex
put_hex digits u o = emit_whole (hex digits u []) o

pub put_unsigned : ℕ → Output → Output
unfolding decimal
put_unsigned u o = emit (decimal 10 u []) o

-- The sign is stored before the room for the digits is looked at.
pub put_signed : ℕ → Output → Output
unfolding put_unsigned
put_signed n o =
    if ltb n (2 ^ 31) then put_unsigned n o else put_unsigned (2 ^ 32 - n) (emit (45 ∷ []) o)

pub with_word : (ℕ → Output → Output) → Output → List Arg → Option Output
with_word f o (word u ∷ args) = some (f u (record o { args = args }))
with_word f o _ = none

pub with_long_long : (ℕ → Output → Output) → Output → List Arg → Option Output
with_long_long f o (long_long u ∷ args) = some (f u (record o { args = args }))
with_long_long f o _ = none

pub with_text : Output → List Arg → Option Output
with_text o (text t ∷ args) = some (emit t (record o { args = args }))
with_text o _ = none

abbrev pub plain : Output → Output
plain o = record o { mod_l = false; mod_ll = false }

abbrev pub put_character : ℕ → Output → Output
put_character u = emit ((u % 256) ∷ [])

pub put_padded : ℕ → Output → Output
unfolding decimal
put_padded u = emit (last_four (32 ∷ 32 ∷ 32 ∷ decimal 10 u []))

-- %x and %p; where there is no room for the digits, no argument is taken.
pub put_pointer : Output → Option Output
unfolding put_hex with_word with_long_long
put_pointer o =
    if o.mod_ll
    then if ltb o.left 16
      then some (record o { left = 0 })
      else Option.map plain (with_long_long (put_hex 16) o o.args)
    else if ltb o.left 8
    then some (record o { left = 0 })
    else Option.map plain (with_word (put_hex 8) o o.args)

-- The switch, without the modifier.
pub convert : ℕ → Output → Option Output
unfolding put_pointer put_signed put_unsigned with_word with_text put_hex put_padded
convert c o =
    if c == b's'
    then with_text o o.args
    else if c == b'c'
    then with_word put_character o o.args
    else if c == b'S'
    then if ltb o.left 4 then some (record o { left = 0 }) else with_word (put_hex 4) o o.args
    else if c == b'x' || c == b'p'
    then put_pointer o
    else if c == b'd'
    then with_word put_signed o o.args
    else if c == b'u'
    then with_word put_unsigned o o.args
    else if c == b'U'
    then with_word put_padded o o.args
    else if c == b'X'
    then if ltb o.left 2 then some (record o { left = 0 }) else with_word (put_hex 2) o o.args
    else some (record o { written = o.written ++ c ∷ [] })

-- case 'l'
abbrev pub longer : Output → Output
longer o =
    if not o.mod_l
    then record o { mod_l = true }
    else if not o.mod_ll
    then record o { mod_l = false; mod_ll = true }
    else o

-- The loop; `conversion` says that a % was read.
pub format : Bool → Output → List ℕ → Option Output
unfolding convert
format conversion o [] = if conversion then none else some o
format true o (c ∷ cs) =
    let modified = format true (longer o) cs in
    let converted = Option.bind (convert c o) (λ (p : Output). format false p cs) in
    if c == b'l' then modified else converted
format false o (c ∷ cs) =
    let percent = format true (record o { left = o.left - 1 }) cs in
    let stored = format false (emit (c ∷ []) o) cs in
    if o.left == 0
    then some o
    else if c == b'%'
    then if o.left == 1 then some (record o { left = 0 }) else percent
    else stored

abbrev pub start : ℕ → List Arg → Output
start l args = record { written = []; left = l; args = args; mod_l = false; mod_ll = false }

-- The characters that are stored, the NUL with them.
unfoldable pub va_snprintf : ℕ → List ℕ → List Arg → Option (List ℕ)
unfolding format
va_snprintf l fmt args =
    if ltb l 1
    then some []
    else Option.map (λ (o : Output). o.written ++ 0 ∷ []) (format false (start l args) fmt)
