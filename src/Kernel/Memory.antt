-- ===== src/Kernel/Memory.antt =====
-- kernel/memory.c: the list of free physical pages, and the pools by size of block.
pub mod Pages
pub mod Sizes
pub mod Pools
pub mod Virtual
mod Examples
use mathlib.Core.Option
use openblt.Prelude.{
  ℕ, zero, suc, ◌+◌, ◌-◌, ◌%◌, ◌/◌, ◌^◌, ◌==◌, Option, none, some, if◌then◌else◌, ltb, leb, update,
  ℤ, pos, ◌+ℤ◌, ◌-ℤ◌, is_nonzero, Bool, not,
}

-- `pagelist`, `freepage` and the counts, which are uint32.
pub record PageList : Type 0 where
  pub pagelist : ℕ → ℕ
  pub freepage : ℕ
  pub used_pages : ℕ
  pub total_pages : ℕ

abbrev uint32_mod : ℕ
uint32_mod = 2 ^ 32

pub putpage : ℕ → PageList → PageList
putpage number p = record p {
  pagelist = update p.pagelist number p.freepage;
  freepage = number;
  used_pages = (p.used_pages + (uint32_mod - 1)) % uint32_mod;
}

-- `none`: panic("Out of physical memory").
pub getpage : PageList → Option (PageList × ℕ)
getpage p =
    if p.freepage == 0
    then none
    else some (
      record p { freepage = p.pagelist p.freepage; used_pages = (p.used_pages + 1) % uint32_mod },
      p.freepage,
    )

-- for(i=top_page;i>=bottom_page;i--), with `n` pages left, the last of which is `i`
pub list_pages : ℕ → ℕ → PageList → PageList
list_pages zero i p = p
list_pages (suc n) i p = list_pages n (i - 1) (record p {
  total_pages = (p.total_pages + 1) % uint32_mod;
  pagelist = update p.pagelist i p.freepage;
  freepage = i;
})

-- The page list of memory_init, in the memory `pagelist`; its own pages are at the top. A page number
-- is below 2^20, and bottom_page is above 0.
pub memory_init_pages : ℕ → ℕ → (ℕ → ℕ) → PageList
unfolding list_pages
memory_init_pages bottom_page top_page pagelist =
    let count = (top_page - bottom_page) / 1024 + 1 in
    let top = top_page - count in
    list_pages (top + 1 - bottom_page) top
      (record { pagelist = pagelist; freepage = 0; used_pages = 0; total_pages = 0 })

-- The pool of a size, by the table; the entries beyond it are 0.
pub size_map : ℕ → ℕ
size_map size =
    if leb size 16
    then 0
    else if leb size 32
    then 1
    else if leb size 64
    then 2
    else if leb size 96
    then 3
    else if leb size 128
    then 4
    else if leb size 192
    then 5
    else if leb size 256
    then 6
    else 0

-- km_map[pool].size
pub pool_size : ℕ → ℕ
pool_size pool =
    if pool == 0
    then 16
    else if pool == 1
    then 32
    else if pool == 2
    then 64
    else if pool == 3
    then 96
    else if pool == 4
    then 128
    else if pool == 5
    then 192
    else 256

-- The pool that kmallocB and kfreeB take for a size; `none` is their panic.
pub block_pool : ℕ → Option ℕ
unfolding size_map
block_pool size = if ltb size 256 then some (size_map size) else none

-- An entry of km_map.
pub record Pool : Type 0 where
  pub size : ℕ
  pub used_count : ℤ
  pub fresh_count : ℤ
  pub free_count : ℤ
  pub free_chain : ℕ
  pub fresh_chain : ℕ

-- km_map, and the first word of each block.
pub record Heap : Type 0 where
  pub km_map : ℕ → Pool
  pub next : ℕ → ℕ

abbrev pub kmmax : ℕ
kmmax = 7

-- A freed block is used again.
abbrev pub recycle : (ℕ → ℕ) → Pool → Pool
recycle next km = record km {
  used_count = km.used_count +ℤ pos 1;
  free_count = km.free_count -ℤ pos 1;
  free_chain = next km.free_chain;
}

-- A block is shaved off the fresh page; `none` says that it was the last, and that kgetpages is called for another page,
-- which comes back to the pools and is not modelled.
abbrev pub shave : Pool → Option Pool
shave km =
    let left = km.fresh_count -ℤ pos 1 in
    let used = km.used_count +ℤ pos 1 in
    if is_nonzero left
    then some (record km {
      used_count = used;
      fresh_count = left;
      fresh_chain = km.fresh_chain + km.size;
    })
    else none

-- The pool after the call, and the block; `none` is the panic, or that a page is needed.
pub kmalloc_p : ℕ → Heap → Option (Heap × ℕ)
kmalloc_p size m =
    if leb kmmax size
    then none
    else let km = m.km_map size in
      let in_pool : Pool → Heap = λ d. record m { km_map = update m.km_map size d } in
      if not (km.free_chain == 0)
      then some (in_pool (recycle m.next km), km.free_chain)
      else Option.map (λ (d : Pool). (in_pool d, km.fresh_chain)) (shave km)

abbrev pub give_back : ℕ → Pool → Pool
give_back block km = record km {
  free_count = km.free_count +ℤ pos 1;
  used_count = km.used_count -ℤ pos 1;
  free_chain = block;
}

-- The test lets the size KMMAX pass, for which there is no entry.
pub kfree_p : ℕ → ℕ → Heap → Option Heap
kfree_p size block m =
    if ltb kmmax size
    then none
    else some (record m {
      km_map = update m.km_map size (give_back block (m.km_map size));
      next = update m.next block (m.km_map size).free_chain;
    })
