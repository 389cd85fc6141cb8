-- ===== src/Kernel/Memory/Virtual.antt =====
-- The pages of the kernel's own space: kgetpage, kgetpages, kfreepage and kmappages of kernel/memory.c,
-- and aspace_maphi of kernel/aspace.c, with which they map.
--
-- `high` is flat->high, the page table of the kernel's space, and `freevpages` the data of the nodes of
-- freevpagelist. A virtual page is an address. DEBUGGER() goes on, and is left out. The nodes themselves, which kgetpage
-- gives back to a pool with kfree and kfreepage takes from it with kmalloc, are not modelled: the definitions are those of
-- calls in which kmalloc finds a block in its pool and takes no page.
pub mod Backing
use mathlib.Core.Option
use openblt.Prelude.{
  ℕ, zero, suc, ◌+◌, ◌-◌, ◌*◌, ◌/◌, ◌%◌, ◌^◌, Option, none, some, List, [], ◌∷◌, if◌then◌else◌, ltb,
  update,
}
use openblt.Kernel.Memory.{PageList, getpage, putpage}

pub record KernelSpace : Type 0 where
  pub pages : PageList
  pub high : ℕ → ℕ
  pub nextmem : ℕ
  pub freevpages : List ℕ

-- ((phys)*4096) | flags, with flags below 4096
abbrev pub page_entry : ℕ → ℕ → ℕ
page_entry phys flags = phys * 4096 % 2 ^ 32 + flags

-- The loop of aspace_maphi with `len` pages left, `at` being (virt&0x3FF)+i.
pub map_high : ℕ → ℕ → ℕ → ℕ → (ℕ → ℕ) → ℕ → ℕ
map_high zero phys at flags high = high
map_high (suc len) phys at flags high =
    map_high len (phys + 1) (at + 1) flags (update high at (page_entry phys flags))

pub aspace_maphi : ℕ → ℕ → ℕ → ℕ → (ℕ → ℕ) → ℕ → ℕ
unfolding map_high
aspace_maphi phys virt len flags high = map_high len phys (virt % 1024) flags high

-- (((uint32)vaddr)/0x1000) & 0x3ff
abbrev pub vpage : ℕ → ℕ
vpage vaddr = vaddr / 4096 % 1024

pub kfreepage : ℕ → KernelSpace → KernelSpace
kfreepage vaddr s = record {
  pages = putpage (s.high (vpage vaddr) / 4096) s.pages;
  high = update s.high (vpage vaddr) 0;
  nextmem = s.nextmem;
  freevpages = vaddr ∷ s.freevpages;
}

-- The virtual page for the physical page `pg`: a freed one, or the next one down, where nextmem
-- is at least 0x80050000.
pub place_page : ℕ → List ℕ → KernelSpace → KernelSpace × ℕ
place_page pg (page ∷ rest) s =
    (record s { high = aspace_maphi pg (page / 4096) 1 3 s.high; freevpages = rest }, page)
place_page pg [] s =
    let at = s.nextmem - 4096 in
    (record s { high = aspace_maphi pg (at / 4096) 1 3 s.high; nextmem = at }, at)

-- The virtual page and *phys; `none` is a panic.
pub kgetpage : KernelSpace → Option (KernelSpace × ℕ × ℕ)
unfolding place_page
kgetpage s = Option.bind (getpage s.pages) (λ (g : PageList × ℕ).
    if ltb s.nextmem 0x80050000
    then none
    else let r = place_page g.1 s.freevpages (record s { pages = g.0 }) in
      some (r.0, r.1, g.1 * 4096))

-- nextmem -= 4096*count
abbrev pub pages_down : ℕ → ℕ → ℕ
pages_down count nextmem = (nextmem + (2 ^ 32 - 4096 * count % 2 ^ 32)) % 2 ^ 32

-- The loop of kgetpages, with `count` pages left.
pub map_pages : ℕ → ℕ → KernelSpace → Option KernelSpace
map_pages zero n s = some s
map_pages (suc count) n s = Option.bind (getpage s.pages) (λ (g : PageList × ℕ).
    map_pages count (n + 1) (record s { pages = g.0; high = aspace_maphi g.1 n 1 3 s.high }))

pub kgetpages : ℕ → KernelSpace → Option (KernelSpace × ℕ)
unfolding map_pages kgetpage
kgetpages (suc zero) s = Option.map (λ (r : KernelSpace × ℕ × ℕ). (r.0, r.1)) (kgetpage s)
kgetpages count s =
    let at = pages_down count s.nextmem in
    Option.map (λ (r : KernelSpace). (r, at))
      (map_pages count (at / 4096) (record s { nextmem = at }))

pub kmappages : ℕ → ℕ → ℕ → KernelSpace → KernelSpace × ℕ
kmappages phys count flags s =
    let at = pages_down count s.nextmem in
    (record s { nextmem = at; high = aspace_maphi phys (at / 4096) count flags s.high }, at)
