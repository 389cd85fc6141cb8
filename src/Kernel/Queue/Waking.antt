-- ===== src/Kernel/Queue/Waking.antt =====
-- Waking a task: task_wake of kernel/task.c and rsrc_dequeue of kernel/resource.c.
use mathlib.Core.Path.{fun_ext}
use openblt.Prelude.{◌==◌, ◌≡◌, refl, false, some, List, [], ◌∷◌, ◌++◌, ℤ, arith, ==_refl, ap, none}
use openblt.Kernel.State.{Ptr, Kernel, set_task}
use openblt.Kernel.Queue.{rsrc_enqueue, rsrc_dequeue, dequeued, task_wake, set_queue}
use openblt.Kernel.Frame.{SameObjects}
use openblt.Kernel.Queue.Objects.{task_wake-SameObjects}
use openblt.Kernel.Queue.Invariant.{
  IsQueued, IsLoose, IsQueued-frame, enqueue-IsQueued, enqueue-IsLoose, dequeue-IsQueued,
  dequeue-IsLoose, dequeue-head-IsLoose,
}
use openblt.Kernel.Queue.Scheduling.{IsScheduled}

-- A task that is on no queue, and is neither the current nor the idle task.
pub record IsFree (k : Kernel) (t : Ptr) : Type 0 where
  pub loose : IsLoose k t
  pub not_current : (k.current == t) ≡ false
  pub not_idle : (k.idle_task == t) ≡ false

-- rsrc_dequeue takes the head of the queue, and the invariant stays.
pub dequeue-IsScheduled : (r : Ptr) (k : Kernel) → IsScheduled k → IsScheduled (rsrc_dequeue r k).0
unfolding rsrc_dequeue
dequeue-IsScheduled r k s = go (k.rsrc r).queue refl
  where
    go : (ts : List Ptr) → (k.rsrc r).queue ≡ ts → IsScheduled (dequeued r k ts).0
    go [] e = s
    go (t ∷ ts) e = record {
      queued = dequeue-IsQueued k r t ts s.queued e;
      current_loose = dequeue-IsLoose k r t ts s.queued e k.current s.current_loose;
      idle_loose = dequeue-IsLoose k r t ts s.queued e k.idle_task s.idle_loose;
      run_real = s.run_real;
    }

-- A task at the head of a queue is free once it is taken off.
pub dequeue-IsFree :
    (r : Ptr) (k : Kernel) (t : Ptr) (ts : List Ptr)
    → IsScheduled k
    → (k.rsrc r).queue ≡ t ∷ ts
    → ((rsrc_dequeue r k).1 ≡ some t)
      × IsFree (rsrc_dequeue r k).0 t
      × (((rsrc_dequeue r k).0.rsrc r).queue ≡ ts)
unfolding rsrc_dequeue
dequeue-IsFree r k t ts s e = rw e (
  refl,
  record {
    loose = dequeue-head-IsLoose k r t ts s.queued e;
    not_current = ground (arith, s.current_loose r, e);
    not_idle = ground (arith, s.idle_loose r, e);
  },
  ground (arith, ==_refl r),
)

-- task_wake puts a free task at the tail of the run queue, with the status that its wait_on returns.
pub record Woken (t : Ptr) (status : ℤ) (k k' : Kernel) : Type 0 where
  pub scheduled : IsScheduled k'
  pub ready : (k'.rsrc k.run_queue).queue ≡ (k.rsrc k.run_queue).queue ++ t ∷ []
  pub delivered : (k'.task t).status ≡ status
  pub current : k'.current ≡ k.current
  pub others : (p : Ptr) → (p == k.run_queue) ≡ false → (k'.rsrc p).queue ≡ (k.rsrc p).queue
  pub untold : (u : Ptr) → (u == t) ≡ false → (k'.task u).status ≡ (k.task u).status
  pub same : SameObjects k k'

abbrev told : Ptr → ℤ → Kernel → Kernel
told t status k = let d = k.task t in set_task t (record d { status = status }) k

told-IsQueued : (t : Ptr) (status : ℤ) (k : Kernel) → IsQueued k → IsQueued (told t status k)
told-IsQueued t status k q = IsQueued-frame k (told t status k) (λ p. refl) (λ u. ground arith) q

-- task_wake of a task that is on no queue and is neither current nor idle puts it at the tail of
-- the run queue with the given status; no other queue and no other task's status changes, and the
-- scheduler's invariant, which held before, holds.
pub task_wake-Woken :
    (t : Ptr) (status : ℤ) (k : Kernel)
    → IsScheduled k
    → IsFree k t
    → Woken t status k (task_wake t status k)
unfolding task_wake rsrc_enqueue
task_wake-Woken t status k s f = record {
  scheduled = record {
    queued =
        enqueue-IsQueued (told t status k) k.run_queue t (told-IsQueued t status k s.queued) f.loose
          s.run_real;
    current_loose =
        enqueue-IsLoose (told t status k) k.run_queue t k.current s.current_loose f.not_current;
    idle_loose =
        enqueue-IsLoose (told t status k) k.run_queue t k.idle_task s.idle_loose f.not_idle;
    run_real = s.run_real;
  };
  ready = ground (arith, ==_refl k.run_queue);
  delivered = ground (arith, ==_refl t);
  current = refl;
  others = λ p n. ground (arith, n);
  untold = λ u n. ground (arith, n);
  same = task_wake-SameObjects t status k;
}

-- To detach a task and wake it is to dequeue it and wake it: the wake sets what the dequeue does.
pub wake_detached :
    (p t : Ptr) (ts : List Ptr) (status : ℤ) (k : Kernel)
    → task_wake t status (set_queue p ts k) ≡ task_wake t status (dequeued p k (t ∷ ts)).0
unfolding task_wake rsrc_enqueue
wake_detached p t ts status k =
    ap (λ f. record (task_wake t status (set_queue p ts k)) { task = f })
      (fun_ext λ u. ground (arith, ==_refl t))

pub dequeue-nil : (r : Ptr) (k : Kernel) → (k.rsrc r).queue ≡ [] → rsrc_dequeue r k ≡ (k, none)
unfolding rsrc_dequeue
dequeue-nil r k e = ap (dequeued r k) e
