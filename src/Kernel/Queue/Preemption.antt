-- ===== src/Kernel/Queue/Preemption.antt =====
-- preempt, and swtch called by a task that still runs.
use mathlib.Core.List.{append-nil}
use openblt.Prelude.{
  ◌==◌, ◌≡◌, refl, true, false, some, List, [], ◌∷◌, ◌++◌, if◌then◌else◌, ℤ, arith, ==_refl,
  Bool-cases, inl, inr, ◌∙◌, ap,
}
use openblt.Kernel.State.{Ptr, Kernel, is_running}
use openblt.Kernel.Queue.{rsrc_enqueue, preempt, swtch, is_empty}
use openblt.Kernel.Frame.{SameObjects}
use openblt.Kernel.Queue.Objects.{preempt-SameObjects}
use openblt.Kernel.Queue.Invariant.{
  IsQueued, IsLoose, IsQueued-frame, enqueue-IsQueued, enqueue-IsLoose,
}
use openblt.Kernel.Queue.Scheduling.{IsScheduled, pick, CanIdle}
use openblt.Kernel.Queue.Waking.{IsFree}

-- The task that preempts runs at once with its status; the task that was running goes to the tail of
-- the run queue, unless it is the idle task.
pub record Preempted (t : Ptr) (status : ℤ) (k k' : Kernel) : Type 0 where
  pub scheduled : IsScheduled k'
  pub current : k'.current ≡ t
  pub running : is_running (k'.task t).flags ≡ true
  pub delivered : (k'.task t).status ≡ status
  pub requeued :
      (k'.rsrc k.run_queue).queue
      ≡ (k.rsrc k.run_queue).queue ++ (if k.current == k.idle_task then [] else k.current ∷ [])
  pub others : (p : Ptr) → (p == k.run_queue) ≡ false → (k'.rsrc p).queue ≡ (k.rsrc p).queue
  pub same : SameObjects k k'

abbrev kept : Kernel → Kernel
kept k = if k.current == k.idle_task then k else rsrc_enqueue k.run_queue k.current k

module _ (t : Ptr) (k : Kernel) (s : IsScheduled k) (f : IsFree k t) where
  kept-IsQueued : IsQueued (kept k)
  kept-IsQueued = elim (Bool-cases (k.current == k.idle_task)) [
    | inl i ↦ rw i s.queued
    | inr b ↦ rw b (enqueue-IsQueued k k.run_queue k.current s.queued s.current_loose s.run_real)
  ]

  kept-IsLoose : IsLoose (kept k) t
  kept-IsLoose = elim (Bool-cases (k.current == k.idle_task)) [
    | inl i ↦ rw i f.loose
    | inr b ↦
        rw b (enqueue-IsLoose k k.run_queue k.current t f.loose (ground (arith, f.not_current)))
  ]

  kept-idle : IsLoose (kept k) k.idle_task
  kept-idle = elim (Bool-cases (k.current == k.idle_task)) [
    | inl i ↦ rw i s.idle_loose
    | inr b ↦
        rw b (enqueue-IsLoose k k.run_queue k.current k.idle_task s.idle_loose (ground (arith, b)))
  ]

  -- preempt of a task that is on no queue, where the scheduler's invariant holds, makes that task
  -- current and running with the given status, and puts the task that was current at the tail of
  -- the run queue unless it is the idle task; no other queue changes and the invariant holds.
  pub preempt-Preempted : (status : ℤ) → Preempted t status k (preempt t status k)
  unfolding preempt rsrc_enqueue
  preempt-Preempted status = record {
    scheduled = record {
      queued =
          IsQueued-frame (kept k) (preempt t status k) (λ p. refl) (λ u. ground arith)
            kept-IsQueued;
      current_loose = kept-IsLoose;
      idle_loose = λ p. ground (arith, kept-idle p);
      run_real = ground (arith, s.run_real);
    };
    current = refl;
    running = ground (arith, ==_refl t);
    delivered = ground (arith, ==_refl t);
    requeued = ground (arith, ==_refl k.run_queue, append-nil (k.rsrc k.run_queue).queue);
    others = λ p n. ground (arith, n);
    same = preempt-SameObjects t status k;
  }

-- swtch, called by a running task that is not the idle task while others are ready, makes the first
-- of these current and puts the caller behind the rest; the scheduler's invariant, which held
-- before, holds.
pub swtch-round_robin :
    (k : Kernel) (t : Ptr) (ts : List Ptr)
    → IsScheduled k
    → CanIdle k
    → is_running (k.task k.current).flags ≡ true
    → (k.current == k.idle_task) ≡ false
    → (k.rsrc k.run_queue).queue ≡ t ∷ ts
    → (k' : Kernel) × (swtch k ≡ some k')
      × IsScheduled k'
      × (k'.current ≡ t)
      × ((k'.rsrc k.run_queue).queue ≡ ts ++ k.current ∷ [])
unfolding swtch rsrc_enqueue
swtch-round_robin k t ts s c run busy e =
    let k1 = rsrc_enqueue k.run_queue k.current k in
    let (k', found, w) =
      pick k1 (t ∷ ts ++ k.current ∷ []) (ground (arith, ==_refl k.run_queue))
        (enqueue-IsQueued k k.run_queue k.current s.queued s.current_loose s.run_real)
        (enqueue-IsLoose k k.run_queue k.current k.idle_task s.idle_loose (ground (arith, busy)))
        s.run_real (record { live = c.live; idle_alive = ground (arith, c.idle_alive, busy) }) in
    let filled : is_empty (k.rsrc k.run_queue).queue ≡ false = ap is_empty e in
    (
      k',
      rw (filled, run, busy) found,
      w.scheduled,
      w.next ∙ ground (arith, ==_refl k.run_queue),
      w.rest ∙ ground (arith, ==_refl k.run_queue),
    )
