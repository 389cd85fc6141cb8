-- ===== src/Kernel/Team/Heap.antt =====
-- brk of kernel/kernel.c: the heap of the current task's team.
use mathlib.Core.Option
use openblt.Prelude.{
  ℕ, ◌+◌, ◌-◌, ◌*◌, ◌/◌, ◌%◌, ◌^◌, ◌<◌, ◌≤◌, ◌≡◌, refl, some, List, ◌++◌, arith, length, pos,
}
use openblt.Kernel.State.{Ptr, rsrc_area}
use openblt.Kernel.Resource.{rsrc_find}
use openblt.Kernel.Memory.Pages.{IsFree}
use openblt.Kernel.Aspace.{Vm, ptab_of, locate_span}
use openblt.Kernel.Aspace.Resizing.{Grown, area_resize-Grown}
use openblt.Kernel.Team.{System}
use openblt.Kernel.Team.Threads.{brk, brk_found, heap_size}

-- The new size covers the address.
heap_size_covers :
    (addr virt : ℕ)
    → 0 < virt
    → virt ≤ addr
    → addr + 4096 < 2 ^ 32
    → addr < (virt + heap_size addr virt / 4096) * 4096
heap_size_covers addr virt real low high =
    let wrap : (addr + (2 ^ 32 - virt)) % 2 ^ 32 ≡ addr - virt = omega (arith, real, low, high) in
    rw wrap (omega (arith, real, low, high))

module _ (s : System) (area id : ℕ) where
  abbrev aspace : Ptr
  aspace = (s.team (s.kernel.rsrc s.kernel.current).owner).aspace

  abbrev virt : ℕ
  virt = (s.vm.area area).virt_addr

  abbrev old : ℕ
  old = (s.vm.group (s.vm.area area).pgroup).size

  -- brk of an address at or above the page number of the heap, which is above 0, and below 2^32 -
  -- 4096, where the heap is found and the size that brk asks for is more than it has, where
  -- locate_span gives the pages behind it and enough pages are free, returns 0; the heap has the
  -- first free pages behind its own, and the address is below its end.
  pub brk-Grown :
      (addr : ℕ) (taken rest : List ℕ)
      → (s.team (s.kernel.rsrc s.kernel.current).owner).heap_id ≡ pos id
      → rsrc_find rsrc_area id s.kernel ≡ some area
      → 0 < virt
      → virt ≤ addr
      → addr + 4096 < 2 ^ 32
      → old * 4096 < heap_size addr virt
      → IsFree s.vm.space.pages (taken ++ rest)
      → length taken ≡ heap_size addr virt / 4096 - old
      → locate_span (ptab_of aspace s.vm) (virt + old) (length taken) ≡ virt + old
      → (u : Vm) × (brk addr s ≡ some (record s { vm = u }, pos 0))
        × Grown aspace area taken rest s.vm u
        × (addr < (virt + (u.group (s.vm.area area).pgroup).size) * 4096)
  unfolding brk brk_found Option.map
  brk-Grown addr taken rest heap found real low high more free wanted span =
      let small : old * 4096 < 2 ^ 32 = omega (arith, more) in
      let (u, e, w) =
        area_resize-Grown s.kernel s.vm aspace area id (heap_size addr virt) found small taken rest
          free more wanted span in
      (
        u,
        rw (heap, found, heap, e) refl,
        w,
        rw w.larger (omega (arith, wanted, more, heap_size_covers addr virt real low high)),
      )
