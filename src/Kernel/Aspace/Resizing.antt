-- ===== src/Kernel/Aspace/Resizing.antt =====
-- area_resize of kernel/aspace.c.
use mathlib.Core.Option
use openblt.Prelude.{
  ℕ, zero, suc, ◌+◌, ◌-◌, ◌*◌, ◌/◌, ◌%◌, ◌^◌, ◌<◌, ◌==◌, ◌≡◌, ◌≢◌, refl, sym, false, some, List,
  ◌++◌, arith, length, ==_refl, leb, pos,
}
use openblt.Kernel.State.{Kernel, rsrc_area, err_memory}
use openblt.Kernel.Resource.{rsrc_find}
use openblt.Kernel.Memory.Pages.{IsFree}
use openblt.Kernel.Aspace.{Vm, ptab_of, locate_span, find_span, with_more, grow}
use openblt.Kernel.Aspace.Calls.{area_resize, resize_found}
use openblt.Kernel.Aspace.Mapping.{Mapped, map_fresh-Mapped}

find_span_none : (map : ℕ → ℕ) (left start : ℕ) → find_span map 0 left start 0 0 ≡ 0
unfolding find_span
find_span_none map zero start = refl
find_span_none map (suc left) start = refl

span_of_none : (map : ℕ → ℕ) (start : ℕ) → locate_span map start 0 ≡ 0
unfolding locate_span
span_of_none map start = find_span_none map _ _

module _ (k : Kernel) (m : Vm) (aspace area id size : ℕ)
    (found : rsrc_find rsrc_area id k ≡ some area)
    (small : (m.group (m.area area).pgroup).size * 4096 < 2 ^ 32) where
  -- area_resize of an area that is found and is not at page 0, whose group is below 2^32 bytes, to
  -- a size above that of the group by less than a page, returns ERR_MEMORY and changes nothing.
  pub area_resize-short :
      (m.area area).virt_addr ≢ 0
      → (m.group (m.area area).pgroup).size * 4096 < size
      → size < ((m.group (m.area area).pgroup).size + 1) * 4096
      → area_resize aspace id size m k ≡ some (m, err_memory)
  unfolding area_resize resize_found
  area_resize-short real more less =
      let g = m.group (m.area area).pgroup in
      let none_to_add : size / 4096 - g.size ≡ 0 = omega (arith, more, less) in
      let wrap : g.size * 4096 % 2 ^ 32 ≡ g.size * 4096 = omega (arith, small) in
      let grows : leb size (g.size * 4096) ≡ false = ground (arith, more) in
      let apart : (0 == (m.area area).virt_addr + g.size) ≡ false = ground (arith, real) in
      rw
        (
          found,
          none_to_add,
          wrap,
          grows,
          span_of_none (ptab_of aspace m) ((m.area area).virt_addr + g.size),
          apart,
        )
        refl

-- The memory `u` is `m` with `taken` mapped behind the pages of the area.
pub record Grown (aspace area : ℕ) (taken rest : List ℕ) (m u : Vm) : Type 0 where
  pub mapped :
      Mapped
        ((m.area area).virt_addr + (m.group (m.area area).pgroup).size)
        taken
        (ptab_of aspace m)
        (ptab_of aspace u)
  pub free : IsFree u.space.pages rest
  pub longer : u.area area ≡ record (m.area area) {
    length = (m.area area).length + length taken;
    maxlength = (m.area area).maxlength + length taken;
  }
  pub larger : u.group (m.area area).pgroup ≡ record (m.group (m.area area).pgroup) {
    size = (m.group (m.area area).pgroup).size + length taken;
    pages = (m.group (m.area area).pgroup).pages ++ taken;
  }

module _ (k : Kernel) (m : Vm) (aspace area id size : ℕ)
    (found : rsrc_find rsrc_area id k ≡ some area)
    (small : (m.group (m.area area).pgroup).size * 4096 < 2 ^ 32) (taken rest : List ℕ)
    (free : IsFree m.space.pages (taken ++ rest)) where
  grow-Grown :
      (u : Vm) × (grow aspace area
          (length taken)
          ((m.area area).virt_addr + (m.group (m.area area).pgroup).size)
          m
        ≡ some u)
      × Grown aspace area taken rest m u
  unfolding grow Option.map
  grow-Grown =
      let at = (m.area area).virt_addr + (m.group (m.area area).pgroup).size in
      let (r, t, e, w, p) =
        map_fresh-Mapped taken rest 0 at m.space.pages (ptab_of aspace m) free in
      (
        with_more aspace area (length taken) (r, t, taken) m,
        rw e refl,
        record {
          mapped = rw (==_refl (m.aspace aspace).ptab) p;
          free = w;
          longer = rw (==_refl area) refl;
          larger = rw (==_refl (m.area area).pgroup) refl;
        },
      )

  -- area_resize of an area that is found, above the size of its group, which is below 2^32 bytes,
  -- where locate_span gives the pages behind the area and enough pages are free, returns 0; the
  -- first free pages are mapped there, the area is that much longer, and the group has them behind
  -- its own.
  pub area_resize-Grown :
      (m.group (m.area area).pgroup).size * 4096 < size
      → length taken ≡ size / 4096 - (m.group (m.area area).pgroup).size
      → locate_span
          (ptab_of aspace m)
          ((m.area area).virt_addr + (m.group (m.area area).pgroup).size)
          (length taken)
        ≡ (m.area area).virt_addr + (m.group (m.area area).pgroup).size
      → (u : Vm) × (area_resize aspace id size m k ≡ some (u, pos 0))
        × Grown aspace area taken rest m u
  unfolding area_resize resize_found Option.map
  area_resize-Grown more wanted span =
      let g = m.group (m.area area).pgroup in
      let (u, e, w) = grow-Grown in
      let wrap : g.size * 4096 % 2 ^ 32 ≡ g.size * 4096 = omega (arith, small) in
      let grows : leb size (g.size * 4096) ≡ false = ground (arith, more) in
      (
        u,
        rw (found, sym wanted, wrap, grows, span, ==_refl ((m.area area).virt_addr + g.size), e)
            refl,
        w,
      )
