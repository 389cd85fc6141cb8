-- ===== src/Kernel/Aspace/Mapping.antt =====
-- The loops of kernel/aspace.c over the pages of an area: what they map, and what they take and release.
use mathlib.Core.Option
use mathlib.Core.List.{reverse_aux}
use openblt.Prelude.{
  ◌-◌, ap, Bool-cases, inl, inr, ℕ, zero, suc, ◌+◌, ◌<◌, ◌≡◌, refl, true, false, ◌&&◌, ◌||◌, some,
  List, [], ◌∷◌, ◌++◌, if◌then◌else◌, leb, ltb, arith, has, Distinct, update, length, has-append,
  ==_refl,
}
use openblt.Kernel.FreeList.{Chain}
use openblt.Kernel.Memory.{PageList, putpage}
use openblt.Kernel.Memory.Pages.{getpage-first, IsFree, putpage-IsFree}
use openblt.Kernel.Memory.Virtual.{page_entry}
use openblt.Kernel.Aspace.{aspace_map, aspace_clr, map_fresh, map_shared, put_pages}

-- From `at` on the page table maps the pages, for reading and writing by the user.
abbrev pub Shows : ℕ → List ℕ → (ℕ → ℕ) → Type 0
Shows at [] t = Unit {0}
Shows at (p ∷ ps) t = (t at ≡ page_entry p 7) × Shows (at + 1) ps t

-- Outside the `n` pages from `at` on, the page tables agree.
abbrev pub AgreeOutside : ℕ → ℕ → (ℕ → ℕ) → (ℕ → ℕ) → Type 0
AgreeOutside at n t u = (j : ℕ) → (ltb j at || leb (at + n) j) ≡ true → u j ≡ t j

pub record Mapped (at : ℕ) (ps : List ℕ) (t u : ℕ → ℕ) : Type 0 where
  pub shown : Shows at ps u
  pub outside : AgreeOutside at (length ps) t u

Mapped-nil : (at : ℕ) (t : ℕ → ℕ) → Mapped at [] t t
Mapped-nil at t = record { shown = tt; outside = λ j h. refl }

Mapped-cons :
    (at p : ℕ) (ps : List ℕ) (t u : ℕ → ℕ)
    → Mapped (at + 1) ps (aspace_map p at 1 7 t) u
    → Mapped at (p ∷ ps) t u
unfolding aspace_map
Mapped-cons at p ps t u m = record {
  shown = (ground (arith, m.outside at, ==_refl at), m.shown);
  outside = λ j h. ground (arith, m.outside j, h);
}

-- The loop over the fresh pages takes the first free pages and maps them.
pub map_fresh-Mapped :
    (ps rest : List ℕ) (p at : ℕ) (q : PageList) (t : ℕ → ℕ)
    → IsFree q (ps ++ rest)
    → (r : PageList) × (u : ℕ → ℕ) × (map_fresh false (length ps) p at q t ≡ some (r, u, ps))
      × IsFree r rest
      × Mapped at ps t u
unfolding map_fresh Option.bind Option.map
map_fresh-Mapped [] rest p at q t v = (q, t, refl, v, Mapped-nil at t)
map_fresh-Mapped (n ∷ ps) rest p at q t v =
    let (q1, e, v1) = getpage-first q n (ps ++ rest) v in
    let (r, u, f, w, m) = map_fresh-Mapped ps rest (p + 1) (at + 1) q1 (aspace_map n at 1 7 t) v1 in
    (r, u, rw (e, f) refl, w, Mapped-cons at n ps t u m)

-- The loop over the pages of a group maps them.
pub map_shared-Mapped :
    (ps : List ℕ) (at : ℕ) (t : ℕ → ℕ) → Mapped at ps t (map_shared (length ps) ps at t)
unfolding map_shared
map_shared-Mapped [] at t = Mapped-nil at t
map_shared-Mapped (p ∷ ps) at t =
    Mapped-cons at p ps t (map_shared (length ps) ps (at + 1) (aspace_map p at 1 7 t))
      (map_shared-Mapped ps (at + 1) (aspace_map p at 1 7 t))

pub aspace_clr_lem :
    (n at j : ℕ) (t : ℕ → ℕ) → aspace_clr at n t j ≡ (if leb at j && ltb j (at + n) then 0 else t j)
unfolding aspace_clr
aspace_clr_lem zero at j t = ground arith
aspace_clr_lem (suc n) at j t = ground (arith, aspace_clr_lem n (at + 1) j (update t at 0))

-- To unmap what was mapped over pages that were not gives the page table back.
pub clr-Mapped :
    (at : ℕ) (ps : List ℕ) (t u : ℕ → ℕ)
    → Mapped at ps t u
    → ((i : ℕ) → i < length ps → t (at + i) ≡ 0)
    → (j : ℕ) → aspace_clr at (length ps) u j ≡ t j
clr-Mapped at ps t u m vacant j = elim (Bool-cases (leb at j && ltb j (at + length ps))) [
  | inl h ↦
      let i = j - at in
      let here : at + i ≡ j = ground (arith, h) in
      let free : t (at + i) ≡ 0 = vacant i (ground (arith, h)) in
      ground (arith, aspace_clr_lem (length ps) at j u, h, ap t here, free)
  | inr h ↦ ground (arith, aspace_clr_lem (length ps) at j u, h, m.outside j)
]

Distinct-insert :
    (xs : List ℕ) (n : ℕ) (ys : List ℕ)
    → Distinct (xs ++ ys)
    → has n (xs ++ ys) ≡ false
    → Distinct (xs ++ n ∷ ys)
Distinct-insert [] n ys d h = (h, d)
Distinct-insert (x ∷ xs) n ys d h = ground (
  arith,
  Distinct-insert xs n ys d.1,
  has-append x xs (n ∷ ys),
  has-append x xs ys,
  has-append n xs ys,
)

Chain-real : (next : ℕ → ℕ) (p : ℕ) (xs : List ℕ) → Chain next p xs → has 0 xs ≡ false
Chain-real next p [] c = refl
Chain-real next p (x ∷ xs) c = ground (arith, Chain-real next (next x) xs c.2)

-- Pages that are released come before the free ones, the last first.
pub put_pages-IsFree :
    (ps rest : List ℕ) (q : PageList)
    → IsFree q rest
    → Distinct (ps ++ rest)
    → has 0 ps ≡ false
    → IsFree (put_pages (length ps) ps q) (reverse_aux ps rest)
unfolding put_pages
put_pages-IsFree [] rest q v d z = v
put_pages-IsFree (p ∷ ps) rest q v d z =
    put_pages-IsFree ps (p ∷ rest) (putpage p q)
      (putpage-IsFree q rest p v (λ e. ground (arith, z, e))
        (ground (arith, d.0, has-append p ps rest)))
      (Distinct-insert ps p rest d.1 d.0) (ground (arith, z))

pub free_real : (q : PageList) (ps rest : List ℕ) → IsFree q (ps ++ rest) → has 0 ps ≡ false
free_real q ps rest v =
    ground (arith, has-append 0 ps rest, Chain-real q.pagelist q.freepage (ps ++ rest) v.chain)
