-- ===== src/Kernel/Aspace/Lifetime.antt =====
-- area_create and area_destroy of kernel/aspace.c, with the table of resources.
use mathlib.Core.Option
use mathlib.Core.List.{reverse_aux}
use openblt.Prelude.{
  ℕ, ◌*◌, ◌/◌, ◌<◌, ◌==◌, ◌≡◌, ◌≢◌, refl, sym, true, false, Option, some, List, [], ◌∷◌, ◌++◌,
  if◌then◌else◌, arith, has, has-append, length, ==_refl, ==_eq, Bool-cases, inl, inr, pos,
}
use openblt.Kernel.State.{Ptr, null, Kernel, rsrc_area, rsrc_none, err_memory, err_none}
use openblt.Kernel.Queue.Scheduling.{IsScheduled}
use openblt.Kernel.Resource.{rsrc_find, rsrc_bind}
use openblt.Kernel.Resource.Table.{IsTable, Bound, find-Found, rsrc_bind-Bound}
use openblt.Kernel.Resource.Release.{Released, rsrc_release-Released}
use openblt.Kernel.Memory.Pages.{IsFree}
use openblt.Kernel.Aspace.{
  Vm, ptab_of, is_physmap, pages_of, span_start, locate_span, attach, detach,
}
use openblt.Kernel.Aspace.Calls.{
  Outcome, bind_area, current_owner, area_create, area_destroy, destroy_found,
}
use openblt.Kernel.Aspace.Span.{IsVacant, NoneBefore, Span, fits, cut, nothing, locate_span-Span}
use openblt.Kernel.Aspace.Roundtrip.{Attached, attach-Attached, detach-Attached}

not_area : rsrc_area ≢ rsrc_none
not_area e = ground (arith, e)

-- The map of pages in which area_create looks for a span.
module _ (map : ℕ → ℕ) (start n : ℕ) (real : 0 < n) where
  Span-nothing :
      (at : ℕ)
      → Span map (span_start start) n at
      → at ≡ 0
      → NoneBefore map (span_start start) n 1024
  Span-nothing at (nothing e) z = e
  Span-nothing at (fits s l v e) z = absurd (ground (arith, s, z))
  Span-nothing at (cut s l g v e) z = absurd (ground (arith, s, z))

-- What area_create does: there is no free page where it looks, or a new area of `taken` is bound.
pub data Created (k : Kernel) (m : Vm) (aspace pg area n virt addr flags : ℕ)
    (taken rest ids : List ℕ) : Option Outcome → Type 0 where
  full :
      NoneBefore (ptab_of aspace m) (span_start (virt / 4096)) n 1024
      → Created k m aspace pg area n virt addr flags taken rest ids
          (some (record { kernel = k; vm = m; value = err_memory; addr = addr }))
  made :
      {k' : Kernel} {u : Vm} {at : ℕ}
      → at ≢ 0
      → Span (ptab_of aspace m) (span_start (virt / 4096)) n at
      → Attached aspace pg area flags at taken rest m u
      → Bound k area rsrc_area k.rfree ids k'
      → Created k m aspace pg area n virt addr flags taken rest ids
          (some (record { kernel = k'; vm = u; value = pos k.rfree; addr = at * 4096 }))

module _ (k : Kernel) (m : Vm) (aspace pg area size virt addr flags : ℕ) (taken rest ids : List ℕ)
    (t : IsTable k (k.rfree ∷ ids)) (real : area ≢ null)
    (fresh : (j : ℕ) → j < k.rmax → k.rmap_resource j ≢ area)
    (private_pages : is_physmap flags ≡ false) (wanted : length taken ≡ pages_of size)
    (free : IsFree m.space.pages (taken ++ rest)) where
  abbrev owner : Ptr
  owner = current_owner k

  bound :
      (k' : Kernel) × (rsrc_bind area rsrc_area owner k ≡ some k')
      × Bound k area rsrc_area k.rfree ids k'
  bound = rsrc_bind-Bound k area rsrc_area owner ids t real not_area fresh

  Bound-id : (k' : Kernel) → Bound k area rsrc_area k.rfree ids k' → (k'.rsrc area).id ≡ k.rfree
  Bound-id k' b = (find-Found k' ids rsrc_area k.rfree area b.table not_area b.found).named

  new_area :
      (at : ℕ)
      → (u : Vm) × (attach aspace pg area
            (pages_of size)
            flags
            (if is_physmap flags then addr / 4096 else 0)
            at
            m
          ≡ some u)
        × Attached aspace pg area flags at taken rest m u
  new_area at =
      let (u, e, a) = attach-Attached aspace pg area flags at taken rest m private_pages free in
      (u, rw (private_pages, sym wanted) e, a)

  -- In a well formed table with a free id, and with at least as many free pages as are asked for,
  -- area_create without AREA_PHYSMAP, with an object that is not NULL and in no entry of the table,
  -- ends; either no span of that many free pages begins at or after where it looks, and it returns
  -- ERR_MEMORY and changes nothing, or the first free pages are mapped where locate_span says, the
  -- new group of them has one reference, and the area is bound under the first free id, which is
  -- returned with its address. This is of a call in which kmalloc takes no page.
  pub area_create-Created :
      Created k m aspace pg area
        (pages_of size)
        virt
        addr
        flags
        taken
        rest
        ids
        (area_create pg area aspace size virt addr flags m k)
  unfolding area_create bind_area Option.bind Option.map
  area_create-Created =
      let n = pages_of size in
      let at = locate_span (ptab_of aspace m) (virt / 4096) n in
      let span = locate_span-Span (ptab_of aspace m) (virt / 4096) n (ground arith) in
      elim (Bool-cases (at == 0)) [
        | inl z ↦ rw z (
            full (
              Span-nothing (ptab_of aspace m) (virt / 4096) n (ground arith) at span
                (==_eq at 0 z)))
        | inr z ↦
            let (u, e, a) = new_area at in
            let (k', f, b) = bound in
            rw (z, e, f, Bound-id k' b) (made (ground (arith, z)) span a b)
      ]

-- area_destroy of an area as area_create left it.
module _ (k : Kernel) (m u : Vm) (aspace pg area id flags at : ℕ) (taken rest ids : List ℕ)
    (t : IsTable k ids) (s : IsScheduled k) (found : rsrc_find rsrc_area id k ≡ some area)
    (not_run : (area == k.run_queue) ≡ false) where
  -- Where an area was made of free pages without AREA_PHYSMAP, over a span that was not mapped, and
  -- under an object that the space does not have, and later the table is well formed, the
  -- scheduler's invariant holds, and the area is found and is not the run queue, area_destroy of
  -- its id returns ERR_NONE; the id is released, the page table and the areas of the space are as
  -- they were before the area, the group has no pages, and the pages that it took are free again,
  -- before the others and the last first.
  pub area_destroy-create :
      is_physmap flags ≡ false
      → IsFree m.space.pages (taken ++ rest)
      → Attached aspace pg area flags at taken rest m u
      → IsVacant (ptab_of aspace m) at (length taken)
      → has area (m.aspace aspace).areas ≡ false
      → (k' : Kernel) × (v : Vm) × (area_destroy aspace id u k ≡ some (k', v, err_none))
        × Released k area id ids k'
        × IsFree v.space.pages (reverse_aux taken rest)
        × ((j : ℕ) → ptab_of aspace v j ≡ ptab_of aspace m j)
        × ((v.aspace aspace).areas ≡ (m.aspace aspace).areas)
        × ((v.group pg).pages ≡ [])
  unfolding area_destroy destroy_found Option.map
  area_destroy-create p free a vacant new =
      let (k', e, r) =
        rsrc_release-Released k area rsrc_area id ids t
          (find-Found k ids rsrc_area id area t not_area found) not_run s in
      let d = detach-Attached aspace pg area flags at taken rest m p free u a vacant new in
      (k', detach aspace area u, rw (found, in_space u a, e) refl, r, d.0, d.1, d.2, d.3)
    where
      in_space :
          (u : Vm)
          → Attached aspace pg area flags at taken rest m u
          → has area (u.aspace aspace).areas ≡ true
      in_space u a =
          rw a.areas
            (ground (arith, has-append area (m.aspace aspace).areas (area ∷ []), ==_refl area))
