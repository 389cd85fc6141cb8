-- ===== src/Kernel/Queue/Handover.antt =====
-- A task that is taken off the head of a queue and woken.
use mathlib.Core.Path.{subst}
use openblt.Prelude.{◌==◌, ◌≡◌, false, List, [], ◌∷◌, ◌++◌, arith, ◌∙◌, ℤ, ap, Option}
use openblt.Kernel.Frame.{SameObjects, SameObjects-trans}
use openblt.Kernel.State.{Ptr, Kernel, set_queue}
use openblt.Kernel.Queue.{rsrc_dequeue, dequeued, task_wake, preempt}
use openblt.Kernel.Queue.Scheduling.{IsScheduled}
use openblt.Prelude.{if◌then◌else◌}
use mathlib.Core.List.{append-nil}
use openblt.Prelude.{Option, sym, some, refl}
use openblt.Kernel.State.{err_none}
use openblt.Kernel.Frame.{SameObjects-refl}
use openblt.Kernel.Queue.Waking.{dequeue-nil}
use openblt.Kernel.Queue.Scheduling.{tail}
use openblt.Kernel.Queue.{preempt, wake_first, wake_taken}
use openblt.Kernel.Queue.Preemption.{preempt-Preempted}
use openblt.Kernel.Queue.Objects.{dequeue-SameObjects}
use openblt.Kernel.Queue.Waking.{
  task_wake-Woken, dequeue-IsScheduled, dequeue-IsFree, wake_detached,
}

abbrev pub heads : List Ptr → List Ptr
heads [] = []
heads (t ∷ ts) = t ∷ []

-- The head `t` of the queue of `p` is ready, with the status; `ts` still wait, in their order.
pub record HeadWoken (p t : Ptr) (ts : List Ptr) (status : ℤ) (k k' : Kernel) : Type 0 where
  pub scheduled : IsScheduled k'
  pub left : (k'.rsrc p).queue ≡ ts
  pub ready : (k'.rsrc k.run_queue).queue ≡ (k.rsrc k.run_queue).queue ++ t ∷ []
  pub others :
      (q : Ptr)
      → (q == p) ≡ false
      → (q == k.run_queue) ≡ false
      → (k'.rsrc q).queue ≡ (k.rsrc q).queue
  pub delivered : (k'.task t).status ≡ status
  pub untold : (u : Ptr) → (u == t) ≡ false → (k'.task u).status ≡ (k.task u).status
  pub current : k'.current ≡ k.current
  pub same : SameObjects k k'

module _ (p t : Ptr) (ts : List Ptr) (status : ℤ) (k : Kernel) (s : IsScheduled k)
    (e : (k.rsrc p).queue ≡ t ∷ ts) (n : (p == k.run_queue) ≡ false) where
  abbrev taken : Kernel
  taken = (rsrc_dequeue p k).0

  pub dequeue_wake-HeadWoken : HeadWoken p t ts status k (task_wake t status taken)
  unfolding rsrc_dequeue
  dequeue_wake-HeadWoken =
      let free = dequeue-IsFree p k t ts s e in
      let w = task_wake-Woken t status taken (dequeue-IsScheduled p k s) free.1 in
      let same = dequeue-SameObjects p k in
      record {
        scheduled = w.scheduled;
        left = w.others p (ground (arith, n, same.run)) ∙ free.2;
        ready = ground (arith, w.ready, same.run, e, n);
        others = λ q m r. w.others q (ground (arith, r, same.run)) ∙ ground (arith, m, e);
        delivered = w.delivered;
        untold = λ u m. w.untold u m ∙ ground (arith, m, e);
        current = w.current ∙ ground (arith, e);
        same = SameObjects-trans same w.same;
      }

  pub detach_wake-HeadWoken : HeadWoken p t ts status k (task_wake t status (set_queue p ts k))
  unfolding rsrc_dequeue
  detach_wake-HeadWoken =
      let eq : dequeued p k (k.rsrc p).queue ≡ dequeued p k (t ∷ ts) = ap (dequeued p k) e in
      rw (wake_detached p t ts status k) (
        subst (λ (d : Kernel × Option Ptr). HeadWoken p t ts status k (task_wake t status d.0)) eq
          dequeue_wake-HeadWoken)

-- The head `t` of the queue of `p` runs, with the status, and the task that ran is ready, unless it is
-- the idle task; `ts` still wait.
pub record HeadPreempts (p t : Ptr) (ts : List Ptr) (status : ℤ) (k k' : Kernel) : Type 0 where
  pub scheduled : IsScheduled k'
  pub current : k'.current ≡ t
  pub delivered : (k'.task t).status ≡ status
  pub left : (k'.rsrc p).queue ≡ ts
  pub requeued :
      (k'.rsrc k.run_queue).queue
      ≡ (k.rsrc k.run_queue).queue ++ (if k.current == k.idle_task then [] else k.current ∷ [])
  pub same : SameObjects k k'

pub dequeue_preempt-HeadPreempts :
    (p t : Ptr) (ts : List Ptr) (status : ℤ) (k : Kernel)
    → IsScheduled k
    → (k.rsrc p).queue ≡ t ∷ ts
    → (p == k.run_queue) ≡ false
    → HeadPreempts p t ts status k (preempt t status (rsrc_dequeue p k).0)
unfolding rsrc_dequeue
dequeue_preempt-HeadPreempts p t ts status k s e n =
    let free = dequeue-IsFree p k t ts s e in
    let k1 = (rsrc_dequeue p k).0 in
    let w = preempt-Preempted t k1 (dequeue-IsScheduled p k s) free.1 status in
    let same = dequeue-SameObjects p k in
    record {
      scheduled = w.scheduled;
      current = w.current;
      delivered = w.delivered;
      left = w.others p (ground (arith, n, same.run)) ∙ free.2;
      requeued = ground (arith, w.requeued, same.run, same.idle, e, n);
      same = SameObjects-trans same w.same;
    }

-- wake_first wakes the first that waits, if any does.
pub record FirstWoken (p : Ptr) (k k' : Kernel) : Type 0 where
  pub scheduled : IsScheduled k'
  pub left : (k'.rsrc p).queue ≡ tail (k.rsrc p).queue
  pub ready : (k'.rsrc k.run_queue).queue ≡ (k.rsrc k.run_queue).queue ++ heads (k.rsrc p).queue
  pub current : k'.current ≡ k.current
  pub others :
      (q : Ptr)
      → (q == p) ≡ false
      → (q == k.run_queue) ≡ false
      → (k'.rsrc q).queue ≡ (k.rsrc q).queue
  pub same : SameObjects k k'

woken_taken :
    (d : Kernel × Option Ptr) (t : Ptr) → d.1 ≡ some t → wake_taken d ≡ task_wake t err_none d.0
woken_taken d t e = ground arith

pub wake_first-FirstWoken :
    (p : Ptr) (k : Kernel)
    → IsScheduled k
    → (p == k.run_queue) ≡ false
    → FirstWoken p k (wake_first p k)
unfolding wake_first
wake_first-FirstWoken p k s n = by_queue (k.rsrc p).queue refl
  where
    by_queue :
        (q : List Ptr) → (k.rsrc p).queue ≡ q → FirstWoken p k (wake_taken (rsrc_dequeue p k))
    by_queue [] e = rw (dequeue-nil p k e) (record {
      scheduled = s;
      left = rw e;
      ready = rw e (sym (append-nil (k.rsrc k.run_queue).queue));
      current = refl;
      others = λ q m r. refl;
      same = SameObjects-refl k;
    })
    by_queue (t ∷ ts) e =
        let w = dequeue_wake-HeadWoken p t ts err_none k s e n in
        rw (woken_taken (rsrc_dequeue p k) t (dequeue-IsFree p k t ts s e).0) (record {
          scheduled = w.scheduled;
          left = rw e w.left;
          ready = rw e w.ready;
          current = w.current;
          others = w.others;
          same = w.same;
        })

pub wake_first-nil : (r : Ptr) (k : Kernel) → (k.rsrc r).queue ≡ [] → wake_first r k ≡ k
unfolding wake_first
wake_first-nil r k e = ap wake_taken (dequeue-nil r k e)
