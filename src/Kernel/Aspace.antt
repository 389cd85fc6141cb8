-- ===== src/Kernel/Aspace.antt =====
-- kernel/aspace.c: address spaces, and the areas of pages that are mapped into them.
--
-- A page table is known by its address, and its entries beyond 1023 are the memory behind it. The chain
-- of phys_page_t of a page group is the sequence of its page numbers, without the zeros at its end. The
-- addresses that kmalloc returns are arguments, and the page that it takes for a pool that is used up is left out.
pub mod Calls
pub mod Span
pub mod Mapping
pub mod Roundtrip
pub mod Lifetime
pub mod Sharing
pub mod Resizing
pub mod Ending
pub mod Examples
use mathlib.Core.Option
use openblt.Prelude.{
  ℕ, zero, suc, ◌+◌, ◌-◌, ◌*◌, ◌/◌, ◌%◌, ◌^◌, ◌==◌, Bool, true, false, ◌&&◌, ◌||◌, Option, none,
  some, List, [], ◌∷◌, ◌++◌, if◌then◌else◌, ltb, leb, update, not,
}
use openblt.Kernel.State.{Ptr}
use openblt.Kernel.Memory.{PageList, getpage, putpage}
use openblt.Kernel.Memory.Virtual.{KernelSpace, page_entry}
use openblt.Kernel.List.Search.{erase}

pub record PageGroup : Type 0 where
  pub size : ℕ
  pub refcount : ℕ
  pub flags : ℕ
  pub areas : List Ptr
  pub pages : List ℕ

pub record Area : Type 0 where
  pub pgroup : Ptr
  pub virt_addr : ℕ
  pub length : ℕ
  pub maxlength : ℕ

pub record Aspace : Type 0 where
  pub areas : List Ptr
  pub pdir : ℕ
  pub ptab : ℕ
  pub pdirphys : ℕ

-- The objects of the address spaces, the page tables by address, and the pages they are made of.
pub record Vm : Type 0 where
  pub space : KernelSpace
  pub table : ℕ → ℕ → ℕ
  pub aspace : Ptr → Aspace
  pub area : Ptr → Area
  pub group : Ptr → PageGroup

-- a->ptab
abbrev pub ptab_of : Ptr → Vm → ℕ → ℕ
ptab_of a m = m.table (m.aspace a).ptab

abbrev pub set_ptab : Ptr → (ℕ → ℕ) → Vm → Vm
set_ptab a t m = record m { table = update m.table (m.aspace a).ptab t }

abbrev pub set_areas : Ptr → List Ptr → Vm → Vm
set_areas a l m = record m { aspace = update m.aspace a (record (m.aspace a) { areas = l }) }

abbrev pub set_pages : PageList → Vm → Vm
set_pages p m = record m { space = record (m.space) { pages = p } }

-- An entry of the page table with its flags changed.
pub aspace_protect : ℕ → ℕ → (ℕ → ℕ) → ℕ → ℕ
aspace_protect virt flags t = update t virt (t virt - t virt % 4096 + flags % 4096)

-- The loops of aspace_map and aspace_clr, with `len` pages left.
pub aspace_map : ℕ → ℕ → ℕ → ℕ → (ℕ → ℕ) → ℕ → ℕ
aspace_map phys virt zero flags t = t
aspace_map phys virt (suc len) flags t =
    aspace_map (phys + 1) (virt + 1) len flags (update t virt (page_entry phys (flags % 4096)))

pub aspace_clr : ℕ → ℕ → (ℕ → ℕ) → ℕ → ℕ
aspace_clr virt zero t = t
aspace_clr virt (suc len) t = aspace_clr (virt + 1) len (update t virt 0)

-- while((found < len) && (start < 1024)), with `left` pages from `start` to the end of the table
pub find_span : (ℕ → ℕ) → ℕ → ℕ → ℕ → ℕ → ℕ → ℕ
find_span map len zero start found foundat = foundat
find_span map len (suc left) start found foundat =
    let free = map start == 0 in
    let first = if found == 0 then start else foundat in
    let rest =
      find_span map len left (start + 1) (if free then found + 1 else 0)
        (if free then first else 0) in
    if leb len found then foundat else rest

abbrev pub span_start : ℕ → ℕ
span_start start = if ltb start 1 || ltb 1023 start then 512 else start

pub locate_span : (ℕ → ℕ) → ℕ → ℕ → ℕ
unfolding find_span
locate_span map start len = find_span map len (1024 - span_start start) (span_start start) 0 0

-- size = (size & 0x0FFF) ? (size / 0x1000 + 1) : (size / 0x1000); if(size < 1) size = 1;
abbrev pub pages_of : ℕ → ℕ
pages_of size =
    let n = if size % 4096 == 0 then size / 4096 else size / 4096 + 1 in if ltb n 1 then 1 else n

abbrev pub is_physmap : ℕ → Bool
is_physmap flags = flags % 2 == 1

-- The page at which the loop of area_create is: the next physical one, or a free one.
abbrev pub next_page : Bool → ℕ → PageList → Option (PageList × ℕ)
next_page physmap p pages = if physmap then some (pages, p) else getpage pages

-- The loop of area_create and area_resize, with `n` pages left from `at` on: the free pages, the page table and
-- the pages that were mapped.
pub map_fresh : Bool → ℕ → ℕ → ℕ → PageList → (ℕ → ℕ) → Option (PageList × (ℕ → ℕ) × List ℕ)
unfolding aspace_map
map_fresh physmap zero p at pages t = some (pages, t, [])
map_fresh physmap (suc n) p at pages t =
    Option.bind (next_page physmap p pages) (λ (g : PageList × ℕ).
      Option.map (λ (r : PageList × (ℕ → ℕ) × List ℕ). (r.0, r.1, g.1 ∷ r.2))
        (map_fresh physmap n (p + 1) (at + 1) g.0 (aspace_map g.1 at 1 7 t)))

-- The loop of area_clone, with `n` pages left.
pub map_shared : ℕ → List ℕ → ℕ → (ℕ → ℕ) → ℕ → ℕ
unfolding aspace_map
map_shared zero pages at t = t
map_shared (suc n) [] at t = t
map_shared (suc n) (p ∷ pages) at t = map_shared n pages (at + 1) (aspace_map p at 1 7 t)

-- The loops of area_destroy that release the pages of a group of `size` pages.
pub put_pages : ℕ → List ℕ → PageList → PageList
put_pages zero pages p = p
put_pages (suc size) [] p = p
put_pages (suc size) (n ∷ pages) p = put_pages size pages (putpage n p)

-- The object parts of the system calls.

abbrev pub with_area : Ptr → Ptr → Ptr → ℕ → ℕ → ℕ → PageList × (ℕ → ℕ) × List ℕ → Vm → Vm
with_area aspace pg area size flags at r m =
    let m1 =
      set_areas aspace ((m.aspace aspace).areas ++ area ∷ [])
        (set_ptab aspace r.1 (set_pages r.0 m)) in
    record m1 {
      area =
          update m.area area
            (record { pgroup = pg; virt_addr = at; length = size; maxlength = size });
      group =
          update m.group pg
            (record { size = size; refcount = 1; flags = flags; areas = area ∷ []; pages = r.2 });
    }

-- area_create behind locate_span: a group of fresh pages, and an area of it at `at`.
pub attach : Ptr → Ptr → Ptr → ℕ → ℕ → ℕ → ℕ → Vm → Option Vm
unfolding map_fresh
attach aspace pg area size flags p at m =
    Option.map (λ (r : PageList × (ℕ → ℕ) × List ℕ). with_area aspace pg area size flags at r m)
      (map_fresh (is_physmap flags) size p at m.space.pages (ptab_of aspace m))

-- area_clone behind locate_span: the area `copy` of the group of `area`, at `at`.
pub share : Ptr → Ptr → Ptr → ℕ → Vm → Vm
unfolding map_shared
share aspace area copy at m =
    let d = m.area area in
    let g = m.group d.pgroup in
    let m1 =
      set_areas aspace ((m.aspace aspace).areas ++ copy ∷ [])
        (set_ptab aspace (map_shared d.length g.pages at (ptab_of aspace m)) m) in
    record m1 {
      area = update m.area copy (record {
        pgroup = d.pgroup;
        virt_addr = at;
        length = d.length;
        maxlength = d.maxlength;
      });
      group =
          update m.group d.pgroup
            (record g { refcount = (g.refcount + 1) % 2 ^ 32; areas = g.areas ++ copy ∷ [] });
    }

-- The release of a group that no area refers to.
pub tear_down : Ptr → Vm → Vm
unfolding put_pages
tear_down pg m =
    let g = m.group pg in
    if is_physmap g.flags
    then record m { group = update m.group pg (record g { pages = [] }) }
    else set_pages (put_pages g.size g.pages m.space.pages)
        (record m { group = update m.group pg (record g { size = 0; pages = [] }) })

-- area_destroy behind list_remove on the areas of the space.
pub detach : Ptr → Ptr → Vm → Vm
unfolding aspace_clr tear_down
detach aspace area m =
    let d = m.area area in
    let g = m.group d.pgroup in
    let left = (g.refcount + (2 ^ 32 - 1)) % 2 ^ 32 in
    let m1 =
      set_areas aspace (erase area (m.aspace aspace).areas)
        (set_ptab aspace (aspace_clr d.virt_addr d.length (ptab_of aspace m)) m) in
    let m2 = record m1 {
      group = update m.group d.pgroup (record g { refcount = left; areas = erase area g.areas });
    } in
    if left == 0 then tear_down d.pgroup m2 else m2

abbrev pub with_more : Ptr → Ptr → ℕ → PageList × (ℕ → ℕ) × List ℕ → Vm → Vm
with_more aspace area n r m =
    let d = m.area area in
    let g = m.group d.pgroup in
    let m1 = set_ptab aspace r.1 (set_pages r.0 m) in
    record m1 {
      area = update m.area area (record d { length = d.length + n; maxlength = d.maxlength + n });
      group = update m.group d.pgroup (record g { size = g.size + n; pages = g.pages ++ r.2 });
    }

-- area_resize behind locate_span: `n` more pages at `at`, behind those of the area.
pub grow : Ptr → Ptr → ℕ → ℕ → Vm → Option Vm
unfolding map_fresh
grow aspace area n at m =
    Option.map (λ (r : PageList × (ℕ → ℕ) × List ℕ). with_more aspace area n r m)
      (map_fresh false n 0 at m.space.pages (ptab_of aspace m))
