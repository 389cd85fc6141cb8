-- ===== src/Vfs/Path.antt =====
-- srv/vfs/path.c: putting paths together.
--
-- `none` says that the code reads beyond a NUL or before the buffer.
pub mod Resolving
use mathlib.Core.Option
use mathlib.Core.List.{reverse}
use openblt.Prelude.{
  ℕ, zero, suc, ◌==◌, Bool, true, false, Option, none, some, List, [], ◌∷◌, ◌++◌, if◌then◌else◌,
}

-- Where the loop is: before a component, in a name, behind the first period, or behind two periods that were followed.
pub data Mode : Type 0 where
  start : Mode
  inside : Mode
  dotted : Mode
  climbed : Mode

-- while ((c != s) && (*c != '/')) c--; c++, on the characters before c, the last first.
abbrev pub keep_slash : List ℕ → List ℕ
keep_slash [] = []
keep_slash (x ∷ []) = x ∷ []
keep_slash (x ∷ y ∷ ys) = if x == b'/' then x ∷ y ∷ ys else keep_slash (y ∷ ys)

-- path_concat, the loop: `out` has the characters before c, the last first.
unfoldable pub walk : Mode → List ℕ → List ℕ → Option (List ℕ)
walk start out [] = some out
walk inside out [] = some out
walk climbed out [] = some out
walk dotted out [] = none
walk start out (t ∷ ts) =
    let period = walk dotted out ts in
    let slash = walk start (t ∷ out) ts in
    let other = walk inside (t ∷ out) ts in
    if t == b'/' then slash else if t == b'.' then period else other
walk inside out (t ∷ ts) =
    let slash = walk start (t ∷ out) ts in
    let other = walk inside (t ∷ out) ts in if t == b'/' then slash else other
walk climbed out (t ∷ ts) =
    let slash = walk start out ts in
    let period = walk dotted out ts in
    let other = walk inside (t ∷ out) ts in
    if t == b'/' then slash else if t == b'.' then period else other
walk dotted [] (t ∷ ts) =
    let slash = walk start [] ts in
    let hidden = walk inside (t ∷ b'.' ∷ []) ts in
    if t == b'/' then slash else if t == b'.' then none else hidden
walk dotted (x ∷ []) (t ∷ ts) =
    let slash = walk start (x ∷ []) ts in
    let again = walk dotted (x ∷ []) ts in
    let hidden = walk inside (t ∷ b'.' ∷ x ∷ []) ts in
    if t == b'/' then slash else if t == b'.' then again else hidden
walk dotted (x ∷ y ∷ out) (t ∷ ts) =
    let slash = walk start (x ∷ y ∷ out) ts in
    let up = walk climbed (keep_slash (y ∷ out)) ts in
    let hidden = walk inside (t ∷ b'.' ∷ x ∷ y ∷ out) ts in
    if t == b'/' then slash else if t == b'.' then up else hidden

-- The slash at the end is taken away, unless it is the whole path.
abbrev pub strip : List ℕ → Option (List ℕ)
strip [] = none
strip (x ∷ []) = some (x ∷ [])
strip (x ∷ y ∷ out) = if x == b'/' then some (y ∷ out) else some (x ∷ y ∷ out)

unfoldable pub path_concat : List ℕ → List ℕ → Option (List ℕ)
unfolding walk Option.bind
path_concat s t = Option.map reverse (Option.bind (walk start (reverse s) t) strip)

-- The string that a buffer starts with.
abbrev pub until_nul : List ℕ → Option (List ℕ)
until_nul [] = none
until_nul (c ∷ cs) = if c == 0 then some [] else Option.map (λ (ds : List ℕ). c ∷ ds) (until_nul cs)

-- The loop that copies `s` to the buffer `d`, and the slash behind it; the characters that were copied are the last
-- part of the result.
abbrev pub copy_over : List ℕ → List ℕ → Option (List ℕ)
copy_over [] [] = none
copy_over [] (d ∷ ds) = if d == b'/' then some (d ∷ ds) else some (b'/' ∷ ds)
copy_over (c ∷ cs) [] = none
copy_over (c ∷ cs) (d ∷ ds) = Option.map (λ (es : List ℕ). c ∷ es) (copy_over cs ds)

abbrev pub is_absolute : List ℕ → Bool
is_absolute [] = false
is_absolute (t ∷ ts) = t == b'/'

-- *d = 0
abbrev pub clear_first : List ℕ → List ℕ
clear_first [] = []
clear_first (d ∷ ds) = 0 ∷ ds

-- `d` is what the buffer holds before.
unfoldable pub path_combine : List ℕ → List ℕ → List ℕ → Option (List ℕ)
unfolding path_concat Option.bind
path_combine s t d =
    if is_absolute t
    then path_concat [] t
    else Option.bind (copy_over s (clear_first d))
        (λ (d' : List ℕ). Option.bind (until_nul d') (λ (node : List ℕ). path_concat node t))
