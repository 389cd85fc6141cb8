-- ===== src/Kernel/Aspace/Calls.antt =====
-- kernel/aspace.c: the calls on address spaces and areas, with the table of resources.
--
-- Sizes and addresses are unsigned and below 2^32. `none` is a panic, or a loop of aspace_destroy that does not end.
use mathlib.Core.Option
use openblt.Prelude.{
  ℕ, zero, suc, ◌+◌, ◌-◌, ◌*◌, ◌/◌, ◌%◌, ◌^◌, ◌==◌, Option, none, some, [], ◌∷◌, if◌then◌else◌, ltb,
  leb, update, ℤ, pos, has, length, List,
}
use openblt.Kernel.State.{Ptr, Kernel, rsrc_area, rsrc_aspace, err_none, err_resource, err_memory}
use openblt.Kernel.FreeList.{range}
use openblt.Kernel.Resource.{rsrc_find, rsrc_bind, rsrc_release}
use openblt.Kernel.Memory.Virtual.{KernelSpace, kgetpage, kfreepage}
use openblt.Kernel.Aspace.{
  Vm, ptab_of, locate_span, pages_of, is_physmap, attach, share, detach, grow,
}

-- The kernel and the memory after a call, its value, and *addr.
pub record Outcome : Type 0 where
  pub kernel : Kernel
  pub vm : Vm
  pub value : ℤ
  pub addr : ℕ

abbrev pub id_of : Ptr → Kernel → ℤ
id_of p k = pos (k.rsrc p).id

-- rsrc_bind(&area->rsrc, RSRC_AREA, owner), and the id.
unfoldable pub bind_area : Ptr → Ptr → ℕ → Vm → Kernel → Option Outcome
bind_area area owner addr m k =
    Option.map (λ (k' : Kernel). record { kernel = k'; vm = m; value = id_of area k'; addr = addr })
      (rsrc_bind area rsrc_area owner k)

abbrev pub current_owner : Kernel → Ptr
current_owner k = (k.rsrc k.current).owner

-- area_create, with the new objects `pg` and `area`.
unfoldable pub area_create : Ptr → Ptr → Ptr → ℕ → ℕ → ℕ → ℕ → Vm → Kernel → Option Outcome
area_create pg area aspace size virt addr flags m k =
    let n = pages_of size in
    let at = locate_span (ptab_of aspace m) (virt / 4096) n in
    let p = if is_physmap flags then addr / 4096 else 0 in
    let made =
      Option.bind (attach aspace pg area n flags p at m)
        (λ (m' : Vm). bind_area area (current_owner k) (at * 4096) m' k) in
    if at == 0 then some (record { kernel = k; vm = m; value = err_memory; addr = addr }) else made

-- area_create_uber: an area of the physical pages from `addr` on, in no address space.
pub area_create_uber : Ptr → Ptr → ℕ → ℕ → Vm → Kernel → Option Outcome
area_create_uber pg area size addr m k =
    let n = pages_of size in
    let m' = record m {
      area = update m.area area (record { pgroup = pg; virt_addr = 0; length = n; maxlength = n });
      group = update m.group pg (record {
        size = n;
        refcount = 1;
        flags = 1;
        areas = area ∷ [];
        pages = range (addr / 4096) n;
      });
    } in
    bind_area area k.kernel_team addr m' k

abbrev refused : ℤ → ℕ → Vm → Kernel → Option Outcome
refused e addr m k = some (record { kernel = k; vm = m; value = e; addr = addr })

-- area_clone of the area that rsrc_find_area gave.
pub clone_found : Ptr → Ptr → ℕ → ℕ → Vm → Kernel → Option Ptr → Option Outcome
clone_found copy aspace virt addr m k none = refused err_resource addr m k
clone_found copy aspace virt addr m k (some area) =
    let at = locate_span (ptab_of aspace m) (virt / 4096) (m.area area).length in
    let cloned = bind_area copy (current_owner k) (at * 4096) (share aspace area copy at m) k in
    if at == 0 then refused err_memory addr m k else cloned

-- area_clone, with the new object `copy`.
pub area_clone : Ptr → Ptr → ℕ → ℕ → ℕ → Vm → Kernel → Option Outcome
area_clone copy aspace area_id virt addr m k =
    clone_found copy aspace virt addr m k (rsrc_find rsrc_area area_id k)

-- area_destroy of the area that rsrc_find_area gave; it complains about one that is not in the space.
unfoldable pub destroy_found : Ptr → Vm → Kernel → Option Ptr → Option (Kernel × Vm × ℤ)
destroy_found aspace m k none = some (k, m, err_resource)
destroy_found aspace m k (some area) =
    let destroyed =
      Option.map (λ (k' : Kernel). (k', detach aspace area m, err_none)) (rsrc_release area k) in
    if has area (m.aspace aspace).areas then destroyed else some (k, m, err_resource)

unfoldable pub area_destroy : Ptr → ℕ → Vm → Kernel → Option (Kernel × Vm × ℤ)
area_destroy aspace area_id m k = destroy_found aspace m k (rsrc_find rsrc_area area_id k)

-- area_resize of the area that rsrc_find_area gave.
unfoldable pub resize_found : Ptr → ℕ → Vm → Option Ptr → Option (Vm × ℤ)
resize_found aspace size m none = some (m, err_resource)
resize_found aspace size m (some area) =
    let d = m.area area in
    let g = m.group d.pgroup in
    let n = size / 4096 - g.size in
    let at = locate_span (ptab_of aspace m) (d.virt_addr + g.size) n in
    let grown = Option.map (λ (m' : Vm). (m', pos 0)) (grow aspace area n at m) in
    if leb size (g.size * 4096 % 2 ^ 32)
    then some (m, pos 0)
    else if at == d.virt_addr + g.size
    then grown
    else some (m, err_memory)

unfoldable pub area_resize : Ptr → ℕ → ℕ → Vm → Kernel → Option (Vm × ℤ)
area_resize aspace area_id size m k = resize_found aspace size m (rsrc_find rsrc_area area_id k)

-- aspace_create, with the new object `a` and the page table of the processor at `cr3`, both pages cleared.
pub aspace_create : Ptr → ℕ → Vm → Kernel → Option (Kernel × Vm)
aspace_create a cr3 m k = Option.bind (kgetpage m.space) (λ (r0 : KernelSpace × ℕ × ℕ).
    Option.bind (kgetpage r0.0) (λ (r1 : KernelSpace × ℕ × ℕ).
      let pdir = λ (i : ℕ).
        if i == 0
        then r1.2 + 7
        else if i == 512
        then cr3 + 2 * 4096 + 3
        else if ltb i 1024
        then 0
        else m.table r0.1 i in
      let ptab = λ (i : ℕ). if ltb i 1024 then 0 else m.table r1.1 i in
      let m' = record m {
        space = r1.0;
        table = update (update m.table r0.1 pdir) r1.1 ptab;
        aspace =
            update m.aspace a (record { areas = []; pdir = r0.1; ptab = r1.1; pdirphys = r0.2 });
      } in
      Option.map (λ (k' : Kernel). (k', m')) (rsrc_bind a rsrc_aspace k.kernel_team k)))

-- What becomes of the first item of a list, or of none.
abbrev pub peek_head {ℓ} : {A : Type ℓ} → List Ptr → A → (Ptr → A) → A
peek_head [] none_left next = none_left
peek_head (p ∷ ps) none_left next = next p

-- while((area = list_peek_head(&a->areas))) area_destroy(a, area->rsrc.id)
unfoldable pub destroy_areas : ℕ → Ptr → Vm → Kernel → Option (Kernel × Vm)
destroy_areas zero a m k = none
destroy_areas (suc fuel) a m k = peek_head (m.aspace a).areas (some (k, m)) (λ (area : Ptr).
    Option.bind (area_destroy a (k.rsrc area).id m k)
      (λ (r : Kernel × Vm × ℤ). destroy_areas fuel a r.1 r.0))

-- The page directory and the page table are released.
abbrev pub free_tables : Ptr → Vm → Vm
free_tables a m =
    let d = m.aspace a in record m { space = kfreepage d.ptab (kfreepage d.pdir m.space) }

-- The fuel is one more than the areas.
unfoldable pub aspace_destroy : Ptr → Vm → Kernel → Option (Kernel × Vm)
aspace_destroy a m k =
    Option.bind (destroy_areas (length (m.aspace a).areas + 1) a m k) (λ (r : Kernel × Vm).
      Option.map (λ (k' : Kernel). (k', free_tables a r.1)) (rsrc_release a r.0))
