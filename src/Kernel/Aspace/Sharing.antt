-- ===== src/Kernel/Aspace/Sharing.antt =====
-- A clone of an area: the object parts of area_clone and area_destroy of kernel/aspace.c.
use openblt.Prelude.{
  ℕ, ◌+◌, ◌-◌, ◌%◌, ◌^◌, ◌<◌, ◌==◌, ◌≡◌, ◌≢◌, refl, false, [], ◌∷◌, ◌++◌, arith, has, length,
  ==_refl,
}
use openblt.Kernel.Aspace.{Vm, ptab_of, share, detach, map_shared}
use openblt.Kernel.Aspace.Span.{IsVacant}
use openblt.Kernel.Aspace.Mapping.{Mapped, map_shared-Mapped, clr-Mapped}
use openblt.Kernel.Aspace.Roundtrip.{erase-last}

-- The memory `u` is `m` with the pages of the area mapped once more, at `at` in the space.
pub record Shared (aspace area copy at : ℕ) (m u : Vm) : Type 0 where
  pub mapped : Mapped at (m.group (m.area area).pgroup).pages (ptab_of aspace m) (ptab_of aspace u)
  pub tables : (a : ℕ) → (a == (m.aspace aspace).ptab) ≡ false → u.table a ≡ m.table a
  pub new_area : u.area copy ≡ record {
    pgroup = (m.area area).pgroup;
    virt_addr = at;
    length = (m.area area).length;
    maxlength = (m.area area).maxlength;
  }
  pub counted :
      (u.group (m.area area).pgroup).refcount
      ≡ ((m.group (m.area area).pgroup).refcount + 1) % 2 ^ 32
  pub free : u.space.pages ≡ m.space.pages
  pub areas : (u.aspace aspace).areas ≡ (m.aspace aspace).areas ++ copy ∷ []

module _ (aspace area copy at : ℕ) (m : Vm)
    (whole : (m.area area).length ≡ length (m.group (m.area area).pgroup).pages) where
  pub share-Shared : Shared aspace area copy at m (share aspace area copy at m)
  unfolding share
  share-Shared = record {
    mapped =
        rw (==_refl aspace, ==_refl (m.aspace aspace).ptab, whole)
          (map_shared-Mapped (m.group (m.area area).pgroup).pages at (ptab_of aspace m));
    tables = λ a n. rw n refl;
    new_area = rw (==_refl copy) refl;
    counted = rw (==_refl (m.area area).pgroup) refl;
    free = refl;
    areas = rw (==_refl aspace) refl;
  }

  refcount_back : (n : ℕ) → n + 1 < 2 ^ 32 → ((n + 1) % 2 ^ 32 + (2 ^ 32 - 1)) % 2 ^ 32 ≡ n
  refcount_back n h = omega (arith, h)

  -- Where area_clone maps the pages of a whole area over a span that was not mapped, under an
  -- object that is neither in the group nor in the space, while the group has between 1 and 2^32 -
  -- 2 references, and area_destroy then unmaps the clone, the page table and the areas of the space
  -- and the group are as before, and no page is released.
  pub detach-share :
      IsVacant (ptab_of aspace m) at (m.area area).length
      → (m.group (m.area area).pgroup).refcount ≢ 0
      → (m.group (m.area area).pgroup).refcount + 1 < 2 ^ 32
      → has copy (m.group (m.area area).pgroup).areas ≡ false
      → has copy (m.aspace aspace).areas ≡ false
      → ((detach aspace copy (share aspace area copy at m)).space.pages ≡ m.space.pages)
        × ((j : ℕ)
            → ptab_of aspace (detach aspace copy (share aspace area copy at m)) j
              ≡ ptab_of aspace m j)
        × (((detach aspace copy (share aspace area copy at m)).aspace aspace).areas
            ≡ (m.aspace aspace).areas)
        × ((detach aspace copy (share aspace area copy at m)).group (m.area area).pgroup
            ≡ m.group (m.area area).pgroup)
  unfolding share detach
  detach-share vacant used few new_in_group new_in_space =
      let g = (m.area area).pgroup in
      let still : ((m.group g).refcount == 0) ≡ false = ground (arith, used) in
      rw (==_refl copy, ==_refl g, refcount_back (m.group g).refcount few, still)
        (
          refl,
          λ j.
              rw (==_refl aspace, ==_refl (m.aspace aspace).ptab, whole)
                (clr-Mapped at (m.group g).pages (ptab_of aspace m)
                  (map_shared (length (m.group g).pages) (m.group g).pages at (ptab_of aspace m))
                  (map_shared-Mapped (m.group g).pages at (ptab_of aspace m)) (rw whole at vacant)
                  j),
          rw (==_refl aspace) (erase-last (m.aspace aspace).areas copy new_in_space),
          rw (==_refl g, erase-last (m.group g).areas copy new_in_group) refl,
        )
