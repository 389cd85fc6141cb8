-- ===== src/Kernel/Queue/Invariant.antt =====
-- The invariant of the wait queues of kernel/resource.c: a task is on the queue of the resource that it
-- waits on, once, and on no other.
use openblt.Prelude.{
  ◌==◌, ◌≡◌, ◌≢◌, Bool, true, false, List, [], ◌∷◌, arith, has, Distinct, has-append, Distinct-snoc,
  ==_refl, ==_eq, Bool-cases, inl, inr, sym, ◌∙◌,
}
use openblt.Kernel.State.{Ptr, null, Kernel}
use openblt.Kernel.Queue.{rsrc_enqueue, dequeued}

abbrev pub on_queue : Kernel → Ptr → Ptr → Bool
on_queue k r t = has t (k.rsrc r).queue

pub record IsQueued (k : Kernel) : Type 0 where
  pub member : (r t : Ptr) → on_queue k r t ≡ true → (k.task t).waiting_on ≡ r
  pub waits : (t : Ptr) → (k.task t).waiting_on ≢ null → on_queue k (k.task t).waiting_on t ≡ true
  pub distinct : (r : Ptr) → Distinct (k.rsrc r).queue
  pub nowhere : (k.rsrc null).queue ≡ []

-- On no queue.
abbrev pub IsLoose : Kernel → Ptr → Type 0
IsLoose k t = (r : Ptr) → on_queue k r t ≡ false

pub null-IsLoose : (k : Kernel) (t : Ptr) → IsQueued k → (k.task t).waiting_on ≡ null → IsLoose k t
null-IsLoose k t q e r = elim (Bool-cases (on_queue k r t)) [
  | inl h ↦ let r_null : r ≡ null = sym (q.member r t h) ∙ e in rw (r_null, q.nowhere)
  | inr h ↦ h
]

-- The invariant reads the queues and what each task waits on, and nothing else.
pub IsQueued-frame :
    (k k' : Kernel)
    → ((r : Ptr) → (k'.rsrc r).queue ≡ (k.rsrc r).queue)
    → ((t : Ptr) → (k'.task t).waiting_on ≡ (k.task t).waiting_on)
    → IsQueued k
    → IsQueued k'
IsQueued-frame k k' sr st q = record {
  member = λ r t h. ground (arith, sr r, st t, q.member r t);
  waits = λ t h. ground (arith, st t, q.waits t, sr (k.task t).waiting_on);
  distinct = λ r. rw (sr r) (q.distinct r);
  nowhere = ground (arith, sr null, q.nowhere);
}

module _ (k : Kernel) (r t : Ptr) (q : IsQueued k) (loose : IsLoose k t) (real : r ≢ null) where
  enqueue-member :
      (p u : Ptr)
      → on_queue (rsrc_enqueue r t k) p u ≡ true
      → ((rsrc_enqueue r t k).task u).waiting_on ≡ p
  unfolding rsrc_enqueue
  enqueue-member p u h =
      ground
        (arith, q.member p u, loose p, loose r, ==_refl t, has-append u (k.rsrc r).queue (t ∷ []))

  enqueue-Distinct : (p : Ptr) → Distinct ((rsrc_enqueue r t k).rsrc p).queue
  unfolding rsrc_enqueue
  enqueue-Distinct p =
      ground (
        arith,
        q.distinct p,
        q.distinct r,
        Distinct-snoc (k.rsrc r).queue t (q.distinct r) (loose r),
      )

  enqueue-waits :
      (u : Ptr)
      → ((rsrc_enqueue r t k).task u).waiting_on ≢ null
      → on_queue (rsrc_enqueue r t k) ((rsrc_enqueue r t k).task u).waiting_on u ≡ true
  unfolding rsrc_enqueue
  enqueue-waits u h = elim (Bool-cases (u == t)) [
    | inl e ↦ rw e (ground (arith, ==_refl r, has-append u (k.rsrc r).queue (t ∷ []), e))
    | inr e ↦ rw e (
        ground (
          arith,
          e,
          q.waits u (rw e at h),
          has-append u (k.rsrc r).queue (t ∷ []),
          ==_eq (k.task u).waiting_on r,
        ))
  ]

  enqueue-nowhere : ((rsrc_enqueue r t k).rsrc null).queue ≡ []
  unfolding rsrc_enqueue
  enqueue-nowhere = ground (arith, q.nowhere)

  -- A task that is on no queue can be put on any.
  pub enqueue-IsQueued : IsQueued (rsrc_enqueue r t k)
  enqueue-IsQueued = record {
    member = enqueue-member;
    waits = enqueue-waits;
    distinct = enqueue-Distinct;
    nowhere = enqueue-nowhere;
  }

pub enqueue-IsLoose :
    (k : Kernel) (r t u : Ptr) → IsLoose k u → (u == t) ≡ false → IsLoose (rsrc_enqueue r t k) u
unfolding rsrc_enqueue
enqueue-IsLoose k r t u l n p = ground (arith, l p, l r, n, has-append u (k.rsrc r).queue (t ∷ []))

module _ (k : Kernel) (r t : Ptr) (ts : List Ptr) (q : IsQueued k)
    (e : (k.rsrc r).queue ≡ t ∷ ts) where
  abbrev pub after : Kernel
  after = (dequeued r k (t ∷ ts)).0

  pub waited : (k.task t).waiting_on ≡ r
  waited = q.member r t (rw e (ground (arith, ==_refl t)))

  real : r ≢ null
  real = λ n. ground (arith, q.nowhere, e, n)

  out : has t ts ≡ false
  out = (rw e at (q.distinct r)).0

  dequeue-member : (p u : Ptr) → on_queue after p u ≡ true → (after.task u).waiting_on ≡ p
  dequeue-member p u h =
      ground (arith, q.member p u, q.member r u, q.member p t, q.member r t, out, waited, e)

  dequeue-waits :
      (u : Ptr)
      → (after.task u).waiting_on ≢ null
      → on_queue after (after.task u).waiting_on u ≡ true
  dequeue-waits u h = elim (Bool-cases (u == t)) [
    | inl m ↦ absurd (h (rw m))
    | inr m ↦ rw m (ground (arith, q.waits u (rw m at h), e, m))
  ]

  pub dequeue-IsQueued : IsQueued after
  dequeue-IsQueued = record {
    member = dequeue-member;
    waits = dequeue-waits;
    distinct = λ p. ground (arith, q.distinct p, q.distinct r, e);
    nowhere = ground (arith, q.nowhere, real, e);
  }

  pub dequeue-IsLoose : (u : Ptr) → IsLoose k u → IsLoose after u
  dequeue-IsLoose u l p = ground (arith, l p, l r, e)

  pub dequeue-head-IsLoose : IsLoose after t
  dequeue-head-IsLoose p = null-IsLoose after t dequeue-IsQueued (ground (arith, ==_refl t)) p
