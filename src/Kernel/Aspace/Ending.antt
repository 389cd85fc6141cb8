-- ===== src/Kernel/Aspace/Ending.antt =====
-- The loop of aspace_destroy of kernel/aspace.c over the areas of a space.
use mathlib.Core.Option
use openblt.Prelude.{
  ℕ, zero, suc, ◌+◌, ◌%◌, ◌^◌, ◌-◌, ◌<◌, ◌==◌, ◌≡◌, ◌≢◌, refl, sym, ap, ◌∙◌, true, false, some,
  List, [], ◌∷◌, arith, has, length, Distinct, ==_refl, ==_eq, Bool-cases, inl, inr, none,
}
use openblt.Kernel.List.Search.{erase}
use openblt.Kernel.State.{Ptr, Kernel, rsrc_area, rsrc_aspace, rsrc_none, err_none}
use openblt.Kernel.Queue.Scheduling.{IsScheduled}
use openblt.Kernel.Resource.{rsrc_find}
use openblt.Kernel.Resource.Table.{IsTable, Found, find-Found}
use openblt.Kernel.Resource.Release.{Released, rsrc_release-Released}
use openblt.Kernel.Aspace.{Vm, is_physmap, detach, tear_down}
use openblt.Kernel.Aspace.Calls.{
  area_destroy, destroy_found, destroy_areas, free_tables, aspace_destroy,
}

detach-areas :
    (aspace p : Ptr) (rest : List Ptr) (m : Vm)
    → (m.aspace aspace).areas ≡ p ∷ rest
    → ((detach aspace p m).aspace aspace).areas ≡ rest
unfolding detach tear_down erase
detach-areas aspace p rest m e =
    let g = (m.area p).pgroup in
    elim (Bool-cases (((m.group g).refcount + (2 ^ 32 - 1)) % 2 ^ 32 == 0)) [
      | inr h ↦ rw (h, ==_refl aspace, e, ==_refl p) refl
      | inl h ↦ elim (Bool-cases (is_physmap (m.group g).flags)) [
        | inl f ↦ rw (h, ==_refl g, f, ==_refl aspace, e, ==_refl p) refl
        | inr f ↦ rw (h, ==_refl g, f, ==_refl aspace, e, ==_refl p) refl
      ]
    ]

-- The areas can be destroyed: each is found under an id, and none is the run queue.
pub record CanEnd (k : Kernel) (ids areas : List ℕ) : Type 0 where
  pub table : IsTable k ids
  pub scheduled : IsScheduled k
  pub found : (p : Ptr) → has p areas ≡ true → (i : ℕ) × (rsrc_find rsrc_area i k ≡ some p)
  pub not_run : has k.run_queue areas ≡ false
  pub distinct : Distinct areas

not_area : rsrc_area ≢ rsrc_none
not_area e = ground (arith, e)

-- What is left can be destroyed behind the release of the first.
CanEnd-rest :
    (k k' : Kernel) (ids rest : List ℕ) (p : Ptr) (i : ℕ)
    → CanEnd k ids (p ∷ rest)
    → Found k rsrc_area i p
    → Released k p i ids k'
    → CanEnd k' (i ∷ ids) rest
CanEnd-rest k k' ids rest p i c f r = record {
  table = r.table;
  scheduled = r.scheduled;
  found = still;
  not_run = rw r.run (ground (arith, c.not_run));
  distinct = c.distinct.1;
}
  where
    other : (q : Ptr) (j : ℕ) → has q rest ≡ true → Found k rsrc_area j q → (j == i) ≡ false
    other q j h g = elim (Bool-cases (j == i)) [
      | inr n ↦ n
      | inl e ↦
          let same : q ≡ p = sym g.mapped ∙ ap k.rmap_resource (==_eq j i e) ∙ f.mapped in
          absurd (ground (arith, c.distinct.0, ap (λ (x : ℕ). has x rest) same, h))
    ]

    still : (q : Ptr) → has q rest ≡ true → (j : ℕ) × (rsrc_find rsrc_area j k' ≡ some q)
    still q h =
        let (j, e) = c.found q (ground (arith, h)) in
        let g = find-Found k ids rsrc_area j q c.table not_area e in
        (j, r.others rsrc_area j (other q j h g) g.in_range ∙ e)

-- The spaces are found as before, and the run queue is the same.
record KeepsSpaces (k k' : Kernel) : Type 0 where
  run : k'.run_queue ≡ k.run_queue
  spaces :
      (j : ℕ) (q : Ptr) → rsrc_find rsrc_aspace j k ≡ some q → rsrc_find rsrc_aspace j k' ≡ some q

not_aspace : rsrc_aspace ≢ rsrc_none
not_aspace e = ground (arith, e)

Released-KeepsSpaces :
    (k k' : Kernel) (ids : List ℕ) (p : Ptr) (i : ℕ)
    → IsTable k ids
    → Found k rsrc_area i p
    → Released k p i ids k'
    → KeepsSpaces k k'
Released-KeepsSpaces k k' ids p i t f r = record {
  run = r.run;
  spaces = λ j q e.
      let g = find-Found k ids rsrc_aspace j q t not_aspace e in
      r.others rsrc_aspace j (other j q g) g.in_range ∙ e;
}
  where
    other : (j : ℕ) (q : Ptr) → Found k rsrc_aspace j q → (j == i) ≡ false
    other j q g = elim (Bool-cases (j == i)) [
      | inr n ↦ n
      | inl e ↦
          let same : q ≡ p = sym g.mapped ∙ ap k.rmap_resource (==_eq j i e) ∙ f.mapped in
          absurd (ground (arith, g.typed, f.typed, ap (λ (x : ℕ). (k.rsrc x).type) same))
    ]

-- A round of the loop.
area_destroy-first :
    (k : Kernel) (m : Vm) (a p : Ptr) (ids rest : List ℕ)
    → CanEnd k ids (p ∷ rest)
    → (m.aspace a).areas ≡ p ∷ rest
    → (k' : Kernel) × (i : ℕ) × (area_destroy a (k.rsrc p).id m k
        ≡ some (k', detach a p m, err_none))
      × CanEnd k' (i ∷ ids) rest
      × KeepsSpaces k k'
unfolding area_destroy destroy_found Option.map
area_destroy-first k m a p ids rest c e =
    let (i, found) = c.found p (ground (arith, ==_refl p)) in
    let f = find-Found k ids rsrc_area i p c.table not_area found in
    let (k', g, r) =
      rsrc_release-Released k p rsrc_area i ids c.table f (ground (arith, c.not_run)) c.scheduled in
    (
      k',
      i,
      rw (f.named, found, e, ==_refl p, g) refl,
      CanEnd-rest k k' ids rest p i c f r,
      Released-KeepsSpaces k k' ids p i c.table f r,
    )

destroy_areas-CanEnd :
    (a : Ptr) (areas ids : List ℕ) (fuel : ℕ) (m : Vm) (k : Kernel)
    → CanEnd k ids areas
    → (m.aspace a).areas ≡ areas
    → length areas < fuel
    → (k' : Kernel) × (u : Vm) × (freed : List ℕ) × (destroy_areas fuel a m k ≡ some (k', u))
      × ((u.aspace a).areas ≡ [])
      × CanEnd k' freed []
      × KeepsSpaces k k'
unfolding destroy_areas Option.bind
destroy_areas-CanEnd a areas ids zero m k c e l = absurd (omega (arith, l))
destroy_areas-CanEnd a [] ids (suc fuel) m k c e l =
    (k, m, ids, rw e refl, e, c, record { run = refl; spaces = λ j q f. f })
destroy_areas-CanEnd a (p ∷ rest) ids (suc fuel) m k c e l =
    let (k1, i, f, c1, s1) = area_destroy-first k m a p ids rest c e in
    let (k2, u, freed, g, done, c2, s2) =
      destroy_areas-CanEnd a rest (i ∷ ids) fuel (detach a p m) k1 c1 (detach-areas a p rest m e)
        (omega (arith, l)) in
    (
      k2,
      u,
      freed,
      rw (e, f) g,
      done,
      c2,
      record { run = s2.run ∙ s1.run; spaces = λ j q h. s2.spaces j q (s1.spaces j q h) },
    )

-- In a well formed table, and where the scheduler's invariant holds, aspace_destroy of a space that
-- is found, whose areas are distinct and found under ids, and where neither it nor an area is the
-- run queue, ends within its fuel, one round more than it has areas; the space is not found any
-- more and has no areas, the table is well formed and the scheduler's invariant holds.
pub aspace_destroy-Ended :
    (a id : ℕ) (ids : List ℕ) (m : Vm) (k : Kernel)
    → CanEnd k ids (m.aspace a).areas
    → rsrc_find rsrc_aspace id k ≡ some a
    → (a == k.run_queue) ≡ false
    → (k' : Kernel) × (u : Vm) × (freed : List ℕ) × (aspace_destroy a m k ≡ some (k', u))
      × (rsrc_find rsrc_aspace id k' ≡ none)
      × ((u.aspace a).areas ≡ [])
      × IsTable k' freed
      × IsScheduled k'
unfolding aspace_destroy Option.bind Option.map
aspace_destroy-Ended a id ids m k c found other =
    let (k1, u, freed, e, done, c1, s) =
      destroy_areas-CanEnd a (m.aspace a).areas ids (length (m.aspace a).areas + 1) m k c refl
        (omega arith) in
    let f = find-Found k1 freed rsrc_aspace id a c1.table not_aspace (s.spaces id a found) in
    let (k2, g, r) =
      rsrc_release-Released k1 a rsrc_aspace id freed c1.table f (rw s.run other) c1.scheduled in
    (
      k2,
      free_tables a u,
      id ∷ freed,
      rw (e, g) refl,
      r.gone rsrc_aspace not_aspace,
      done,
      r.table,
      r.scheduled,
    )
