-- ===== src/Kernel/Memory/Pages.antt =====
-- The free pages of kernel/memory.c: getpage, putpage and the list of memory_init.
use mathlib.Core.Path.{subst}
use openblt.Prelude.{
  ◌%◌, ◌^◌, ℕ, zero, suc, ◌+◌, ◌-◌, ◌≤◌, ◌<◌, ◌==◌, ◌≡◌, ◌≢◌, refl, false, Option, none, some, List,
  [], ◌∷◌, arith, has, Distinct, update, ==_refl, ◌/◌,
}
use openblt.Kernel.FreeList.{Chain, Chain-update, range, range_above}
use openblt.Kernel.Memory.{PageList, putpage, getpage, list_pages, memory_init_pages}

-- The free pages are `free`, in the order in which they are handed out.
pub record IsFree (p : PageList) (free : List ℕ) : Type 0 where
  pub chain : Chain p.pagelist p.freepage free
  pub distinct : Distinct free

-- What getpage does for the list of free pages.
pub data Gets (p : PageList) : List ℕ → Option (PageList × ℕ) → Type 0 where
  out : Gets p [] none
  got :
      {n : ℕ} {free : List ℕ} {q : PageList}
      → IsFree q free
      → has n free ≡ false
      → n ≢ 0
      → Gets p (n ∷ free) (some (q, n))

-- getpage, on a well formed list of free pages, hands out the first, which is not 0 and not free
-- any more, and leaves the others; on an empty list the kernel stops.
pub getpage-Gets : (p : PageList) (free : List ℕ) → IsFree p free → Gets p free (getpage p)
unfolding getpage
getpage-Gets p [] v = rw v.chain out
getpage-Gets p (n ∷ free) v =
    let some_left : (n == 0) ≡ false = ground (arith, v.chain) in
    rw (v.chain.0, some_left)
      (got (record { chain = v.chain.2; distinct = v.distinct.1 }) v.distinct.0 v.chain.1)

pub getpage-first :
    (q : PageList) (n : ℕ) (free : List ℕ)
    → IsFree q (n ∷ free)
    → (r : PageList) × (getpage q ≡ some (r, n)) × IsFree r free
unfolding getpage
getpage-first q n free v =
    let some_left : (n == 0) ≡ false = ground (arith, v.chain) in
    (
      record q { freepage = q.pagelist q.freepage; used_pages = (q.used_pages + 1) % 2 ^ 32 },
      rw (v.chain.0, some_left) refl,
      record { chain = rw v.chain.0 (v.chain.2); distinct = v.distinct.1 },
    )

-- putpage of a page other than 0 that is not free puts it before the other free pages.
pub putpage-IsFree :
    (p : PageList) (free : List ℕ) (n : ℕ)
    → IsFree p free
    → n ≢ 0
    → has n free ≡ false
    → IsFree (putpage n p) (n ∷ free)
unfolding putpage
putpage-IsFree p free n v real fresh = record {
  chain = (
    refl,
    real,
    ground (arith, ==_refl n, Chain-update p.pagelist n p.freepage p.freepage free fresh v.chain),
  );
  distinct = (fresh, v.distinct);
}

-- The loop of memory_init, from the last of `n` pages from `b` on down to `b`.
list_pages-IsFree :
    (n b m : ℕ) (p : PageList)
    → 0 < b
    → IsFree p (range (b + n) m)
    → IsFree (list_pages n (b + n - 1) p) (range b (n + m))
unfolding list_pages
list_pages-IsFree zero b m p h v =
    let start : b + 0 ≡ b = omega arith in
    let size : m ≡ 0 + m = omega arith in
    subst (λ (a : ℕ). IsFree p (range b a)) size (subst (λ (a : ℕ). IsFree p (range a m)) start v)
list_pages-IsFree (suc n) b m p h v =
    let i = b + n in
    let start : b + suc n ≡ i + 1 = omega arith in
    let v' : IsFree p (range (i + 1) m) = subst (λ (a : ℕ). IsFree p (range a m)) start v in
    let above = range_above i (i + 1) m (omega arith) in
    let q : PageList = record p {
      total_pages = (p.total_pages + 1) % 2 ^ 32;
      pagelist = update p.pagelist i p.freepage;
      freepage = i;
    } in
    let w : IsFree q (range i (suc m)) = record {
      chain = (
        refl,
        ground (arith, h),
        ground (
          arith,
          ==_refl i,
          Chain-update p.pagelist i p.freepage p.freepage (range (i + 1) m) above v'.chain,
        ),
      );
      distinct = (above, v'.distinct);
    } in
    let size : n + suc m ≡ suc n + m = omega arith in
    let last : b + suc n - 1 ≡ i = omega arith in
    rw (last, list_pages)
      (subst (λ (a : ℕ). IsFree (list_pages n (i - 1) q) (range b a)) size
        (list_pages-IsFree n b (suc m) q h w))

-- memory_init of pages from one above 0 up, at least as many as its own list takes, makes a list of
-- free pages that are those from the bottom page up to the last below its own, each once.
pub memory_init-IsFree :
    (bottom top : ℕ) (memory : ℕ → ℕ)
    → 0 < bottom
    → bottom ≤ top - ((top - bottom) / 1024 + 1) + 1
    → IsFree
        (memory_init_pages bottom top memory)
        (range bottom (top - ((top - bottom) / 1024 + 1) + 1 - bottom))
unfolding memory_init_pages
memory_init-IsFree bottom top memory h room = by_last (top - ((top - bottom) / 1024 + 1)) room
  where
    by_last :
        (last : ℕ)
        → bottom ≤ last + 1
        → IsFree
            (list_pages
              (last + 1 - bottom)
              last
              (record { pagelist = memory; freepage = 0; used_pages = 0; total_pages = 0 }))
            (range bottom (last + 1 - bottom))
    by_last last le =
        let n = last + 1 - bottom in
        let q : PageList = record {
          pagelist = memory;
          freepage = 0;
          used_pages = 0;
          total_pages = 0;
        } in
        let first : bottom + n - 1 ≡ last = omega (arith, h, le) in
        let all : n + 0 ≡ n = omega arith in
        subst (λ (i : ℕ). IsFree (list_pages n i q) (range bottom n)) first
          (subst (λ (a : ℕ). IsFree (list_pages n (bottom + n - 1) q) (range bottom a)) all
            (list_pages-IsFree n bottom 0 q h (record { chain = refl; distinct = tt })))
