-- ===== src/Kernel/Resource/Waiters.antt =====
-- The tasks that wait on a resource when it is released.
use mathlib.Core.List.{append-nil, append_assoc}
use openblt.Prelude.{
  ℕ, zero, suc, ◌<◌, ◌==◌, ◌≡◌, refl, true, false, some, List, [], ◌∷◌, ◌++◌, arith, has,
  Bool-cases, inl, inr, ◌∙◌, sym, length,
}
use openblt.Kernel.State.{Ptr, Kernel, set_queue, err_resource}
use openblt.Kernel.Queue.{task_wake}
use openblt.Kernel.Queue.Scheduling.{IsScheduled}
use openblt.Kernel.Resource.{wake_all}
use openblt.Kernel.Frame.{SameObjects, SameObjects-refl, SameObjects-trans}
use openblt.Kernel.Queue.Handover.{HeadWoken, detach_wake-HeadWoken}

-- What a kernel without its waiters promises: they are all ready to run, in their order and with
-- the status, and nobody else has moved.
pub record Emptied (p : Ptr) (k : Kernel) (ts : List Ptr) (k' : Kernel) : Type 0 where
  pub scheduled : IsScheduled k'
  pub empty : (k'.rsrc p).queue ≡ []
  pub ready : (k'.rsrc k.run_queue).queue ≡ (k.rsrc k.run_queue).queue ++ ts
  pub told : (t : Ptr) → has t ts ≡ true → (k'.task t).status ≡ err_resource
  pub others :
      (q : Ptr)
      → (q == p) ≡ false
      → (q == k.run_queue) ≡ false
      → (k'.rsrc q).queue ≡ (k.rsrc q).queue
  pub untold : (t : Ptr) → has t ts ≡ false → (k'.task t).status ≡ (k.task t).status
  pub current : k'.current ≡ k.current
  pub same : SameObjects k k'

Emptied-cons :
    (p t : Ptr) (ts : List Ptr) (k k1 k' : Kernel)
    → HeadWoken p t ts err_resource k k1
    → Emptied p k1 ts k'
    → Emptied p k (t ∷ ts) k'
Emptied-cons p t ts k k1 k' w m = record {
  scheduled = m.scheduled;
  empty = m.empty;
  ready =
      ground
        (arith, m.ready, w.ready, w.same.run, append_assoc (k.rsrc k.run_queue).queue (t ∷ []) ts);
  told = λ u h. elim (Bool-cases (has u ts)) [
    | inl a ↦ m.told u a
    | inr a ↦ ground (arith, m.untold u a, a, h, w.delivered)
  ];
  others = λ q a b. m.others q a (ground (arith, b, w.same.run)) ∙ w.others q a b;
  untold = λ u h. ground (arith, m.untold u, w.untold u, h);
  current = m.current ∙ w.current;
  same = SameObjects-trans w.same m.same;
}

pub wake_all-Emptied :
    (fuel : ℕ) (p : Ptr) (k : Kernel) (ts : List Ptr)
    → length ts < fuel
    → (k.rsrc p).queue ≡ ts
    → (p == k.run_queue) ≡ false
    → IsScheduled k
    → (k' : Kernel) × (wake_all fuel p k ≡ some k') × Emptied p k ts k'
unfolding wake_all
wake_all-Emptied zero p k ts lt e n s = absurd (ground arith)
wake_all-Emptied (suc fuel) p k [] lt e n s = (
  k,
  rw (e, wake_all),
  record {
    scheduled = s;
    empty = e;
    ready = sym (append-nil (k.rsrc k.run_queue).queue);
    told = λ t m. cc;
    others = λ q m r. refl;
    untold = λ t m. refl;
    current = refl;
    same = SameObjects-refl k;
  },
)
wake_all-Emptied (suc fuel) p k (t ∷ ts) lt e n s =
    let k1 = task_wake t err_resource (set_queue p ts k) in
    let w = detach_wake-HeadWoken p t ts err_resource k s e n in
    let (k', found, m) =
      wake_all-Emptied fuel p k1 ts (ground (arith, lt)) w.left (ground (arith, n, w.same.run))
        w.scheduled in
    (k', rw (e, wake_all) found, Emptied-cons p t ts k k1 k' w m)
