-- ===== src/Kernel/Resource/Release.antt =====
-- rsrc_release of kernel/resource.c.
use mathlib.Core.Option
use openblt.Prelude.{
  ℕ, ◌+◌, ◌<◌, ◌==◌, ◌≡◌, ◌≢◌, refl, true, false, none, some, List, ◌∷◌, ◌++◌, arith, has, ==_refl,
  ==_ne, Bool-cases, inl, inr, ◌∙◌, sym, length,
}
use openblt.Kernel.FreeList.{Chain-update}
use openblt.Kernel.Frame.{SameTable-trans, SameObjects}
use openblt.Kernel.State.{Ptr, null, RsrcType, rsrc_none, type_code, Kernel, err_resource}
use openblt.Kernel.Queue.Invariant.{IsQueued-frame}
use openblt.Kernel.Queue.Scheduling.{IsScheduled}
use openblt.Kernel.Resource.{rsrc_find, rsrc_release, unbind, disowned, wake_all}
use openblt.Kernel.Resource.Table.{IsTable, IsTable-frame, Found, find-frame}
use openblt.Kernel.Resource.Waiters.{Emptied, wake_all-Emptied}

not_none : (ty : RsrcType) → ty ≢ rsrc_none → (type_code rsrc_none == type_code ty) ≡ false
not_none ty n = ground arith

module _ (k : Kernel) (p : Ptr) (id : ℕ) (free : List ℕ) (t : IsTable k free) (lt : id < k.rmax)
    (mapped : k.rmap_resource id ≡ p) (real : p ≢ null) where
  not_free : has id free ≡ false
  not_free = elim (Bool-cases (has id free)) [
    | inl h ↦ absurd (real (sym mapped ∙ (t.vacant id h).1))
    | inr h ↦ h
  ]

  id_pos : id ≢ 0
  id_pos z = real (ground (arith, mapped, t.reserved, z))

  own_id : (k.rsrc p).id ≡ id
  own_id = ground (arith, mapped, real, t.bound id lt)

  -- A resource is under one id only.
  elsewhere : (i : ℕ) → i < k.rmax → (i == id) ≡ false → k.rmap_resource i ≢ p
  elsewhere i h n e = ground (arith, e, own_id, n, real, t.bound i h)

  unbind-bound :
      (i : ℕ)
      → i < k.rmax
      → (unbind id p k).rmap_resource i ≢ null
      → (((unbind id p k).rsrc ((unbind id p k).rmap_resource i)).id ≡ i)
        × (((unbind id p k).rsrc ((unbind id p k).rmap_resource i)).type ≢ rsrc_none)
  unbind-bound i h ne = elim (Bool-cases (i == id)) [
    | inl m ↦ absurd (ne (rw m))
    | inr m ↦ rw (m, ==_ne (k.rmap_resource i) p (elsewhere i h m)) (t.bound i h (rw m at ne))
  ]

  unbind-IsTable : IsTable (unbind id p k) (id ∷ free)
  unbind-IsTable = record {
    chain = (
      refl,
      id_pos,
      ground (arith, ==_refl id, Chain-update k.rmap_next id k.rfree k.rfree free not_free t.chain),
    );
    distinct = (not_free, t.distinct);
    vacant = λ i h. ground (arith, t.vacant i, h, lt);
    complete = λ i h ne e. ground (arith, t.complete i h ne, e);
    reserved = ground (arith, t.reserved);
    null_type = ground (arith, t.null_type, real);
    bound = unbind-bound;
  }

  unbind-others :
      (ty : RsrcType) (j : ℕ)
      → (j == id) ≡ false
      → j < k.rmax
      → rsrc_find ty j (unbind id p k) ≡ rsrc_find ty j k
  unfolding rsrc_find
  unbind-others ty j n h = rw (n, ==_ne (k.rmap_resource j) p (elsewhere j h n))

  unbind-gone : (ty : RsrcType) → ty ≢ rsrc_none → rsrc_find ty id (unbind id p k) ≡ none
  unfolding rsrc_find
  unbind-gone ty n = ground (arith, ==_refl id, real, t.null_type, not_none ty n)

-- What releasing `p` promises: its id is the first free one and finds nothing, every other id finds
-- what it found, and all that waited on it are ready, with ERR_RESOURCE.
pub record Released (k : Kernel) (p : Ptr) (id : ℕ) (free : List ℕ) (k' : Kernel) : Type 0 where
  pub table : IsTable k' (id ∷ free)
  pub gone : (ty : RsrcType) → ty ≢ rsrc_none → rsrc_find ty id k' ≡ none
  pub others :
      (ty : RsrcType) (j : ℕ)
      → (j == id) ≡ false
      → j < k.rmax
      → rsrc_find ty j k' ≡ rsrc_find ty j k
  pub scheduled : IsScheduled k'
  pub ready : (k'.rsrc k.run_queue).queue ≡ (k.rsrc k.run_queue).queue ++ (k.rsrc p).queue
  pub told : (t : Ptr) → has t (k.rsrc p).queue ≡ true → (k'.task t).status ≡ err_resource
  pub ports : k'.port ≡ k.port
  pub run : k'.run_queue ≡ k.run_queue
  pub size : k'.rmax ≡ k.rmax

-- Only the lists of resources change when a resource is taken off them.
record Unlisted (k k' : Kernel) : Type 0 where
  queues : (r : Ptr) → (k'.rsrc r).queue ≡ (k.rsrc r).queue
  tasks : k'.task ≡ k.task
  current : k'.current ≡ k.current
  same : SameObjects k k'

kept-Unlisted :
    (k : Kernel) (a : List Ptr) (b : Ptr → List Ptr)
    → Unlisted k (record k { resource_list = a; team_resources = b })
kept-Unlisted k a b = record {
  queues = λ r. refl;
  tasks = refl;
  current = refl;
  same = record {
    table = record {
      resources = refl;
      nexts = refl;
      size = refl;
      first = refl;
      types = λ q. refl;
      ids = λ q. refl;
    };
    owners = λ q. refl;
    sems = refl;
    ports = refl;
    run = refl;
    idle = refl;
    live = refl;
  };
}

disowned-Unlisted : (p : Ptr) (k : Kernel) → Unlisted k (disowned p k)
unfolding disowned
disowned-Unlisted p k = elim (Bool-cases ((k.rsrc p).owner == null)) [
  | inl o ↦ rw o (kept-Unlisted k _ k.team_resources)
  | inr o ↦ rw o (kept-Unlisted k _ _)
]

Unlisted-IsScheduled : (k k' : Kernel) → Unlisted k k' → IsScheduled k → IsScheduled k'
Unlisted-IsScheduled k k' u s = record {
  queued = IsQueued-frame k k' u.queues (λ t. ground (arith, u.tasks)) s.queued;
  current_loose = λ r. rw (u.queues r, u.current) (s.current_loose r);
  idle_loose = λ r. rw (u.queues r, u.same.idle) (s.idle_loose r);
  run_real = rw u.same.run s.run_real;
}

release_steps :
    (k : Kernel) (p : Ptr)
    → rsrc_release p k
      ≡ Option.map
          (unbind (k.rsrc p).id p)
          (wake_all (length (k.rsrc p).queue + 1) p (disowned p k))
unfolding rsrc_release
release_steps k p = refl

unbind-IsScheduled : (k : Kernel) (id : ℕ) (p : Ptr) → IsScheduled k → IsScheduled (unbind id p k)
unbind-IsScheduled k id p s = record {
  queued = IsQueued-frame k _ (λ r. ground arith) (λ t. refl) s.queued;
  current_loose = λ r. ground (arith, s.current_loose r, s.current_loose p);
  idle_loose = λ r. ground (arith, s.idle_loose r, s.idle_loose p);
  run_real = s.run_real;
}

unbind-queue : (k : Kernel) (id : ℕ) (p r : Ptr) → ((unbind id p k).rsrc r).queue ≡ (k.rsrc r).queue
unbind-queue k id p r = ground arith

module _ (k : Kernel) (p : Ptr) (type : RsrcType) (id : ℕ) (free : List ℕ) (t : IsTable k free)
    (f : Found k type id p) (n : (p == k.run_queue) ≡ false) where
  -- From the state in which nobody waits any more to the one in which the id is free.
  Emptied-Released :
      (k0 k1 : Kernel)
      → Unlisted k k0
      → Emptied p k0 (k.rsrc p).queue k1
      → Released k p id free (unbind id p k1)
  Emptied-Released k0 k1 u m =
      let same = SameTable-trans u.same.table m.same.table in
      let t1 = IsTable-frame k k1 free same t in
      let lt1 : id < k1.rmax = rw same.size f.in_range in
      let mapped : k1.rmap_resource id ≡ p = rw same.resources f.mapped in
      record {
        table = unbind-IsTable k1 p id free t1 lt1 mapped f.real;
        gone = unbind-gone k1 p id free t1 lt1 mapped f.real;
        others = λ ty j a h.
            unbind-others k1 p id free t1 lt1 mapped f.real ty j a (rw same.size h)
            ∙ find-frame k k1 same ty j;
        scheduled = unbind-IsScheduled k1 id p m.scheduled;
        ready =
            unbind-queue k1 id p k.run_queue
            ∙ ground (arith, m.ready, u.queues k.run_queue, u.same.run);
        told = m.told;
        ports = m.same.ports ∙ u.same.ports;
        run = m.same.run ∙ u.same.run;
        size = m.same.table.size ∙ u.same.table.size;
      }

  -- In a well formed table, and where the scheduler's invariant holds, rsrc_release of a bound
  -- resource other than the run queue ends; its id is the first free one and finds nothing, every
  -- other id finds what it found, and all that waited on it are at the tail of the run queue, in
  -- their order, with ERR_RESOURCE.
  pub rsrc_release-Released :
      IsScheduled k → (k' : Kernel) × (rsrc_release p k ≡ some k') × Released k p id free k'
  rsrc_release-Released s =
      let u = disowned-Unlisted p k in
      let (k1, found, m) =
        wake_all-Emptied (length (k.rsrc p).queue + 1) p (disowned p k) (k.rsrc p).queue
          (omega arith) (u.queues p) (ground (arith, n, u.same.run))
          (Unlisted-IsScheduled k _ u s) in
      (unbind id p k1, release_steps k p ∙ rw (f.named, found), Emptied-Released _ k1 u m)
