-- ===== src/Kernel/Memory/Virtual/Backing.antt =====
-- A page of the kernel's own space, taken and released: kgetpage and kfreepage of kernel/memory.c.
use mathlib.Core.Option
use openblt.Prelude.{
  ℕ, ◌-◌, ◌*◌, ◌/◌, ◌^◌, ◌<◌, ◌≤◌, ◌==◌, ◌≡◌, refl, ap, ◌∙◌, false, some, List, [], ◌∷◌,
  if◌then◌else◌, arith, ltb, ==_refl, Bool-cases, inl, inr, ==_eq, sym,
}
use openblt.Kernel.Memory.Pages.{IsFree, getpage-first, putpage-IsFree}
use openblt.Kernel.Memory.Virtual.{
  KernelSpace, kgetpage, kgetpages, kfreepage, aspace_maphi, map_high, page_entry, vpage,
  place_page,
}

-- The virtual page that kgetpage takes.
abbrev pub next_vpage : List ℕ → ℕ → ℕ
next_vpage [] nextmem = nextmem - 4096
next_vpage (page ∷ rest) nextmem = page

-- What place_page does with the physical page `n`.
record Placed (n page : ℕ) (s r : KernelSpace) : Type 0 where
  pages : r.pages ≡ s.pages
  mapped : (j : ℕ) → r.high j ≡ (if j == vpage page then page_entry n 3 else s.high j)

place_page-Placed :
    (n : ℕ) (vpages : List ℕ) (s : KernelSpace)
    → ((place_page n vpages s).1 ≡ next_vpage vpages s.nextmem)
      × Placed n (next_vpage vpages s.nextmem) s (place_page n vpages s).0
unfolding place_page aspace_maphi map_high
place_page-Placed n [] s = (refl, record { pages = refl; mapped = λ j. refl })
place_page-Placed n (page ∷ rest) s = (refl, record { pages = refl; mapped = λ j. refl })

entry_page : (n : ℕ) → n < 2 ^ 20 → page_entry n 3 / 4096 ≡ n
entry_page n h = omega (arith, h)

module _ (s : KernelSpace) (n : ℕ) (free : List ℕ) (v : IsFree s.pages (n ∷ free))
    (small : n < 2 ^ 20) (left : 0x80050000 ≤ s.nextmem)
    (unmapped : s.high (vpage (next_vpage s.freevpages s.nextmem)) ≡ 0) where
  abbrev page : ℕ
  page = next_vpage s.freevpages s.nextmem

  restored :
      (r : KernelSpace)
      → ((j : ℕ) → r.high j ≡ (if j == vpage page then page_entry n 3 else s.high j))
      → (j : ℕ) → (kfreepage page r).high j ≡ s.high j
  unfolding kfreepage
  restored r m j = elim (Bool-cases (j == vpage page)) [
    | inl h ↦ rw h (sym (ap s.high (==_eq j (vpage page) h) ∙ unmapped))
    | inr h ↦ rw h (m j ∙ rw h refl)
  ]

  -- kgetpage with a free page below 2^20, with nextmem at least 0x80050000, and with a virtual page
  -- to take that is not mapped, maps that virtual page to the first free page; kfreepage of it then
  -- gives the same free pages and the same page table, where the kmalloc of its node takes no page.
  pub kfreepage-kgetpage :
      (r : KernelSpace) × (kgetpage s ≡ some (r, page, n * 4096))
      × (r.high (vpage page) ≡ page_entry n 3)
      × IsFree (kfreepage page r).pages (n ∷ free)
      × ((j : ℕ) → (kfreepage page r).high j ≡ s.high j)
  unfolding kgetpage kfreepage Option.bind
  kfreepage-kgetpage =
      let (q, e, w) = getpage-first s.pages n free v in
      let (at, p) = place_page-Placed n s.freevpages (record s { pages = q }) in
      let r = (place_page n s.freevpages (record s { pages = q })).0 in
      let room : ltb s.nextmem 0x80050000 ≡ false = ground (arith, left) in
      let here : r.high (vpage page) ≡ page_entry n 3 =
        p.mapped (vpage page) ∙ rw (==_refl (vpage page)) refl in
      (
        r,
        rw (e, room, at) refl,
        here,
        rw (here, entry_page n small, p.pages) (putpage-IsFree q free n w v.chain.1 v.distinct.0),
        λ j. restored r p.mapped j,
      )

pub kgetpages-one :
    (s r : KernelSpace) (v phys : ℕ) → kgetpage s ≡ some (r, v, phys) → kgetpages 1 s ≡ some (r, v)
unfolding kgetpages Option.map
kgetpages-one s r v phys e = rw e refl
