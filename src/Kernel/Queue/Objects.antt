-- ===== src/Kernel/Queue/Objects.antt =====
-- What the queue operations leave alone.
use openblt.Prelude.{◌==◌, List, [], ◌∷◌, Bool-cases, ℤ, inl, inr}
use openblt.Kernel.State.{Ptr, Kernel}
use openblt.Kernel.Frame.{
  run-SameObjects, SameObjects, SameObjects-refl, SameObjects-trans, set_queue-SameObjects,
  set_task-SameObjects,
}
use openblt.Kernel.Queue.{rsrc_enqueue, rsrc_dequeue, dequeued, task_wake, preempt}

pub enqueue-SameObjects : (r t : Ptr) (k : Kernel) → SameObjects k (rsrc_enqueue r t k)
unfolding rsrc_enqueue
enqueue-SameObjects r t k =
    SameObjects-trans (set_task-SameObjects t _ k) (set_queue-SameObjects r _ _)

pub dequeued-SameObjects : (r : Ptr) (k : Kernel) (q : List Ptr) → SameObjects k (dequeued r k q).0
dequeued-SameObjects r k [] = SameObjects-refl k
dequeued-SameObjects r k (t ∷ ts) =
    SameObjects-trans (set_queue-SameObjects r ts k) (set_task-SameObjects t _ _)

pub dequeue-SameObjects : (r : Ptr) (k : Kernel) → SameObjects k (rsrc_dequeue r k).0
unfolding rsrc_dequeue
dequeue-SameObjects r k = dequeued-SameObjects r k (k.rsrc r).queue

pub task_wake-SameObjects :
    (t : Ptr) (status : ℤ) (k : Kernel) → SameObjects k (task_wake t status k)
unfolding task_wake
task_wake-SameObjects t status k =
    SameObjects-trans (set_task-SameObjects t _ k) (enqueue-SameObjects k.run_queue t _)

pub preempt-SameObjects : (t : Ptr) (status : ℤ) (k : Kernel) → SameObjects k (preempt t status k)
unfolding preempt
preempt-SameObjects t status k = elim (Bool-cases (k.current == k.idle_task)) [
  | inl i ↦ rw i (run-SameObjects t _ k)
  | inr b ↦
      rw b (SameObjects-trans (enqueue-SameObjects k.run_queue k.current k) (run-SameObjects t _ _))
]
