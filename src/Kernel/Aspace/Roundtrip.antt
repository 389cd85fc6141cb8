-- ===== src/Kernel/Aspace/Roundtrip.antt =====
-- An area of fresh pages, made and destroyed: the object parts of area_create and area_destroy of
-- kernel/aspace.c.
use mathlib.Core.Option
use mathlib.Core.List.{reverse_aux}
use openblt.Prelude.{ℕ, ◌≡◌, refl, false, some, List, [], ◌∷◌, ◌++◌, arith, has, length, ==_refl}
use openblt.Kernel.List.Search.{erase}
use openblt.Kernel.Memory.Pages.{IsFree}
use openblt.Kernel.Aspace.{Vm, ptab_of, is_physmap, with_area, attach, detach, tear_down}
use openblt.Kernel.Aspace.Span.{IsVacant}
use openblt.Kernel.Aspace.Mapping.{
  Mapped, map_fresh-Mapped, clr-Mapped, put_pages-IsFree, free_real,
}

pub erase-last : (xs : List ℕ) (n : ℕ) → has n xs ≡ false → erase n (xs ++ n ∷ []) ≡ xs
unfolding erase
erase-last [] n h = ground (arith, ==_refl n)
erase-last (x ∷ xs) n h = let rest = erase-last xs n (ground (arith, h)) in ground (arith, h, rest)

-- The memory `u` is `m` with a new area of the pages `taken` in the space.
pub record Attached (aspace pg area flags at : ℕ) (taken rest : List ℕ) (m u : Vm) : Type 0 where
  pub mapped : Mapped at taken (ptab_of aspace m) (ptab_of aspace u)
  pub free : IsFree u.space.pages rest
  pub new_area :
      u.area area
      ≡ record { pgroup = pg; virt_addr = at; length = length taken; maxlength = length taken }
  pub new_group : u.group pg ≡ record {
    size = length taken;
    refcount = 1;
    flags = flags;
    areas = area ∷ [];
    pages = taken;
  }
  pub areas : (u.aspace aspace).areas ≡ (m.aspace aspace).areas ++ area ∷ []

module _ (aspace pg area flags at : ℕ) (taken rest : List ℕ) (m : Vm)
    (private_pages : is_physmap flags ≡ false) (free : IsFree m.space.pages (taken ++ rest)) where
  pub attach-Attached :
      (u : Vm) × (attach aspace pg area (length taken) flags 0 at m ≡ some u)
      × Attached aspace pg area flags at taken rest m u
  unfolding attach Option.map
  attach-Attached =
      let (r, t, e, w, p) =
        map_fresh-Mapped taken rest 0 at m.space.pages (ptab_of aspace m) free in
      (
        with_area aspace pg area (length taken) flags at (r, t, taken) m,
        rw (private_pages, e) refl,
        record {
          mapped = rw (==_refl aspace, ==_refl (m.aspace aspace).ptab) p;
          free = w;
          new_area = rw (==_refl area) refl;
          new_group = rw (==_refl pg) refl;
          areas = rw (==_refl aspace) refl;
        },
      )

  -- What area_destroy leaves of it.
  pub detach-Attached :
      (u : Vm)
      → Attached aspace pg area flags at taken rest m u
      → IsVacant (ptab_of aspace m) at (length taken)
      → has area (m.aspace aspace).areas ≡ false
      → IsFree (detach aspace area u).space.pages (reverse_aux taken rest)
        × ((j : ℕ) → ptab_of aspace (detach aspace area u) j ≡ ptab_of aspace m j)
        × (((detach aspace area u).aspace aspace).areas ≡ (m.aspace aspace).areas)
        × (((detach aspace area u).group pg).pages ≡ [])
  unfolding detach tear_down
  detach-Attached u w vacant new =
      rw (w.new_area, w.new_group, ==_refl pg, private_pages)
        (
          put_pages-IsFree taken rest u.space.pages w.free free.distinct
              (free_real m.space.pages taken rest free),
          λ j.
              rw (==_refl aspace, ==_refl (u.aspace aspace).ptab)
                (clr-Mapped at taken (ptab_of aspace m) (ptab_of aspace u) w.mapped vacant j),
          rw (==_refl aspace, w.areas) (erase-last (m.aspace aspace).areas area new),
          rw (==_refl pg) refl,
        )
