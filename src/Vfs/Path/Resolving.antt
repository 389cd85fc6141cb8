-- ===== src/Vfs/Path/Resolving.antt =====
-- What path_concat of srv/vfs/path.c makes of an absolute path: the names that are left.
use mathlib.Core.Option
use mathlib.Core.List.{
  reverse_aux, reverse_aux-eq, reverse_aux-reverse_aux-nil, reverse, reverse-append, append-nil,
  append_assoc, reverse-reverse,
}
use openblt.Prelude.{ℕ, ◌==◌, ◌≡◌, refl, sym, ap, ◌∙◌, false, some, List, [], ◌∷◌, ◌++◌}
use openblt.Vfs.Path.{start, inside, keep_slash, walk, strip, path_concat, path_combine}

-- A component of a path.
pub data Component : Type 0 where
  here : Component
  up : Component
  named : List ℕ → Component

-- A stack of names, the last one first.
abbrev pub back : List (List ℕ) → List (List ℕ)
back [] = []
back (n ∷ ns) = ns

abbrev pub resolve : List (List ℕ) → List Component → List (List ℕ)
resolve ns [] = ns
resolve ns (here ∷ cs) = resolve ns cs
resolve ns (up ∷ cs) = resolve (back ns) cs
resolve ns (named n ∷ cs) = resolve (n ∷ ns) cs

-- The components, each with a slash behind it.
abbrev pub written : List Component → List ℕ
written [] = []
written (here ∷ cs) = b'.' ∷ b'/' ∷ written cs
written (up ∷ cs) = b'.' ∷ b'.' ∷ b'/' ∷ written cs
written (named n ∷ cs) = n ++ b'/' ∷ written cs

-- The names of a stack, each with a slash before it.
abbrev pub path_of : List (List ℕ) → List ℕ
path_of [] = []
path_of (n ∷ ns) = path_of ns ++ b'/' ∷ n

abbrev pub absolute : List (List ℕ) → List ℕ
absolute [] = b'/' ∷ []
absolute (n ∷ ns) = path_of (n ∷ ns)

-- No slash is in it.
abbrev pub NoSlash : List ℕ → Type 0
NoSlash [] = Unit {0}
NoSlash (c ∷ cs) = ((c == b'/') ≡ false) × NoSlash cs

-- A name that does not begin with a period.
abbrev pub IsName : List ℕ → Type 0
IsName [] = ⊥
IsName (c ∷ cs) = ((c == b'.') ≡ false) × NoSlash (c ∷ cs)

abbrev pub AllNames : List Component → Type 0
AllNames [] = Unit {0}
AllNames (here ∷ cs) = AllNames cs
AllNames (up ∷ cs) = AllNames cs
AllNames (named n ∷ cs) = IsName n × AllNames cs

-- What is between the first slash and the last for a stack of names, the last character first.
abbrev behind : List (List ℕ) → List ℕ
behind [] = []
behind (n ∷ ns) = reverse_aux n (b'/' ∷ behind ns)

inside-walk :
    (cs out ts : List ℕ)
    → NoSlash cs
    → walk inside out (cs ++ b'/' ∷ ts) ≡ walk start (b'/' ∷ reverse_aux cs out) ts
unfolding walk
inside-walk [] out ts h = refl
inside-walk (c ∷ cs) out ts h = rw (h.0) (inside-walk cs (c ∷ out) ts h.1)

-- A name at the end of the path.
inside-end : (cs out : List ℕ) → NoSlash cs → walk inside out cs ≡ some (reverse_aux cs out)
unfolding walk
inside-end [] out h = refl
inside-end (c ∷ cs) out h = rw (h.0) (inside-end cs (c ∷ out) h.1)

named-walk :
    (n out ts : List ℕ)
    → IsName n
    → walk start out (n ++ b'/' ∷ ts) ≡ walk start (b'/' ∷ reverse_aux n out) ts
unfolding walk
named-walk [] out ts h = absurd h
named-walk (c ∷ cs) out ts h = rw (h.0, h.1.0) (inside-walk cs (c ∷ out) ts h.1.1)

named-end : (n out : List ℕ) → IsName n → walk start out n ≡ some (reverse_aux n out)
unfolding walk
named-end [] out h = absurd h
named-end (c ∷ cs) out h = rw (h.0, h.1.0) (inside-end cs (c ∷ out) h.1.1)

-- What is put before a list that is not empty.
reverse_aux-cons :
    (n : List ℕ) (x : ℕ) (xs : List ℕ) → (y : ℕ) × (ys : List ℕ) × (reverse_aux n (x ∷ xs) ≡ y ∷ ys)
reverse_aux-cons [] x xs = (x, xs, refl)
reverse_aux-cons (c ∷ cs) x xs = reverse_aux-cons cs c (x ∷ xs)

keep_slash-name :
    (n : List ℕ) (x : ℕ) (xs : List ℕ)
    → NoSlash n
    → keep_slash (reverse_aux n (x ∷ xs)) ≡ keep_slash (x ∷ xs)
keep_slash-name [] x xs h = refl
keep_slash-name (c ∷ cs) x xs h = keep_slash-name cs c (x ∷ xs) h.1 ∙ rw (h.0) refl

keep_slash-slash : (xs : List ℕ) → keep_slash (b'/' ∷ xs) ≡ b'/' ∷ xs
keep_slash-slash [] = refl
keep_slash-slash (x ∷ xs) = refl

abbrev AllNoSlash : List (List ℕ) → Type 0
AllNoSlash [] = Unit {0}
AllNoSlash (n ∷ ns) = NoSlash n × AllNoSlash ns

AllNoSlash-back : (ns : List (List ℕ)) → AllNoSlash ns → AllNoSlash (back ns)
AllNoSlash-back [] h = tt
AllNoSlash-back (n ∷ ns) h = h.1

IsName-NoSlash : (n : List ℕ) → IsName n → NoSlash n
IsName-NoSlash [] h = absurd h
IsName-NoSlash (c ∷ cs) h = h.1

-- Two periods take the last name away, and leave the root as it is.
up-walk :
    (ns : List (List ℕ)) (ts : List ℕ)
    → AllNoSlash ns
    → walk start (b'/' ∷ behind ns) (b'.' ∷ b'.' ∷ b'/' ∷ ts)
      ≡ walk start (b'/' ∷ behind (back ns)) ts
unfolding walk
up-walk [] ts h = refl
up-walk (n ∷ ns) ts h =
    let (y, ys, e) = reverse_aux-cons n b'/' (behind ns) in
    rw (e) (
      ap (λ (out : List ℕ). walk start out ts)
        (ap keep_slash (sym e)
          ∙ keep_slash-name n b'/' (behind ns) h.0
          ∙ keep_slash-slash (behind ns)))

here-walk :
    (x : ℕ) (out ts : List ℕ) → walk start (x ∷ out) (b'.' ∷ b'/' ∷ ts) ≡ walk start (x ∷ out) ts
unfolding walk
here-walk x [] ts = refl
here-walk x (y ∷ out) ts = refl

written-walk :
    (ns : List (List ℕ)) (cs : List Component) (ts : List ℕ)
    → AllNoSlash ns
    → AllNames cs
    → walk start (b'/' ∷ behind ns) (written cs ++ ts)
      ≡ walk start (b'/' ∷ behind (resolve ns cs)) ts
written-walk ns [] ts h g = refl
written-walk ns (here ∷ cs) ts h g =
    here-walk b'/' (behind ns) (written cs ++ ts) ∙ written-walk ns cs ts h g
written-walk ns (up ∷ cs) ts h g =
    up-walk ns (written cs ++ ts) h ∙ written-walk (back ns) cs ts (AllNoSlash-back ns h) g
written-walk ns (named n ∷ cs) ts h g =
    ap (walk start (b'/' ∷ behind ns)) (append_assoc n (b'/' ∷ written cs) ts)
    ∙ named-walk n (b'/' ∷ behind ns) (written cs ++ ts) g.0
    ∙ written-walk (n ∷ ns) cs ts (IsName-NoSlash n g.0, h) g.1

reverse-behind : (ns : List (List ℕ)) → reverse (behind ns) ≡ path_of ns
reverse-behind [] = refl
reverse-behind (n ∷ ns) =
    reverse_aux-reverse_aux-nil n (b'/' ∷ behind ns)
    ∙ reverse_aux-eq (behind ns) (b'/' ∷ n)
    ∙ ap (λ (xs : List ℕ). xs ++ b'/' ∷ n) (reverse-behind ns)

-- The slash behind the last name is taken away.
strip-slash :
    (ns : List (List ℕ)) → Option.map reverse (strip (b'/' ∷ behind ns)) ≡ some (absolute ns)
strip-slash [] = refl
strip-slash (n ∷ ns) =
    let (y, ys, e) = reverse_aux-cons n b'/' (behind ns) in
    rw (e) refl
    ∙ ap (λ (xs : List ℕ). some (reverse xs)) (sym e)
    ∙ ap some (reverse-behind (n ∷ ns))

strip-name :
    (c : ℕ) (cs : List ℕ) (x : ℕ) (out : List ℕ)
    → NoSlash (c ∷ cs)
    → strip (reverse_aux (c ∷ cs) (x ∷ out)) ≡ some (reverse_aux (c ∷ cs) (x ∷ out))
strip-name c [] x out h = rw (h.0) refl
strip-name c (d ∷ ds) x out h = strip-name d ds c (x ∷ out) h.1

strip-file :
    (n : List ℕ) (ns : List (List ℕ))
    → IsName n
    → Option.map reverse (strip (reverse_aux n (b'/' ∷ behind ns))) ≡ some (path_of (n ∷ ns))
strip-file [] ns h = absurd h
strip-file (c ∷ cs) ns h =
    rw (strip-name c cs b'/' (behind ns) h.1) (ap some (reverse-behind ((c ∷ cs) ∷ ns)))

-- The directory `ns` with a slash behind it, as the loop sees it.
reverse-directory : (ns : List (List ℕ)) → reverse (path_of ns ++ b'/' ∷ []) ≡ b'/' ∷ behind ns
reverse-directory ns =
    reverse-append (path_of ns) (b'/' ∷ [])
    ∙ ap (λ (xs : List ℕ). b'/' ∷ xs)
        (ap reverse (sym (reverse-behind ns)) ∙ reverse-reverse (behind ns))

-- path_concat of an absolute directory of names without slashes, with a slash behind it, and a path
-- of components with a slash behind each, where no name begins with a period, gives the absolute
-- path of the names that are left when a period is passed over and two periods take the last name
-- away, or do nothing at the root.
pub path_concat-resolve :
    (ns : List (List ℕ)) (cs : List Component)
    → AllNoSlash ns
    → AllNames cs
    → path_concat (path_of ns ++ b'/' ∷ []) (written cs) ≡ some (absolute (resolve ns cs))
unfolding path_concat walk Option.bind
path_concat-resolve ns cs h g =
    let loop =
      ap (walk start (b'/' ∷ behind ns)) (sym (append-nil (written cs)))
      ∙ written-walk ns cs [] h g in
    rw (reverse-directory ns, loop) (strip-slash (resolve ns cs))

pub path_combine-resolve :
    (cwd : List ℕ) (cs : List Component) (n d : List ℕ)
    → AllNames cs
    → IsName n
    → path_combine cwd (b'/' ∷ (written cs ++ n)) d ≡ some (path_of (n ∷ resolve [] cs))
unfolding path_combine path_concat walk Option.bind
path_combine-resolve cwd cs n d g h =
    let loop = written-walk [] cs n tt g ∙ named-end n (b'/' ∷ behind (resolve [] cs)) h in
    rw (loop) (strip-file n (resolve [] cs) h)
