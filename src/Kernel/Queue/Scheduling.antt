-- ===== src/Kernel/Queue/Scheduling.antt =====
-- The scheduler of kernel/kernel.c: swtch and wait_on, and who runs next.
use openblt.Prelude.{
  ◌+◌, ◌<◌, ◌==◌, ◌≡◌, ◌≢◌, refl, true, false, some, List, [], ◌∷◌, ◌++◌, arith, ==_refl,
  Bool-cases, inl, inr, ◌∙◌,
}
use openblt.Kernel.State.{Ptr, null, TaskFlags, Kernel, set_task, is_running, is_dead, err_none}
use openblt.Kernel.Queue.{rsrc_enqueue, rsrc_dequeue, dequeued, swtch, wait_on, switch_to, is_empty}
use openblt.Kernel.Frame.{SameObjects, SameObjects-trans, run-SameObjects, set_task-SameObjects}
use openblt.Kernel.Queue.Objects.{dequeued-SameObjects, enqueue-SameObjects}
use openblt.Kernel.Queue.Invariant.{
  IsQueued, IsLoose, IsQueued-frame, enqueue-IsQueued, enqueue-IsLoose, dequeue-IsQueued,
  dequeue-IsLoose, dequeue-head-IsLoose,
}

-- The queues agree with the tasks, and neither the current task nor the idle task is on one.
pub record IsScheduled (k : Kernel) : Type 0 where
  pub queued : IsQueued k
  pub current_loose : IsLoose k k.current
  pub idle_loose : IsLoose k k.idle_task
  pub run_real : k.run_queue ≢ null

-- There is something to switch to: the idle task may run.
pub record CanIdle (k : Kernel) : Type 0 where
  pub live : 0 < k.live_tasks
  pub idle_alive : is_dead (k.task k.idle_task).flags ≡ false

-- The current task may wait on `r`: it is not the idle task, and there is something to switch to.
pub record CanWait (k : Kernel) (r : Ptr) : Type 0 where
  pub idle : CanIdle k
  pub busy : (k.current == k.idle_task) ≡ false
  pub real : r ≢ null
  pub other : (r == k.run_queue) ≡ false

abbrev run_as : Ptr → Kernel → Kernel
run_as t k =
    let d = k.task t in
    set_task t (record d { flags = TaskFlags.running; scount = d.scount + 1 })
      (record k { current = t })

run_as-IsScheduled :
    (k : Kernel) (t : Ptr)
    → IsQueued k
    → IsLoose k t
    → IsLoose k k.idle_task
    → k.run_queue ≢ null
    → IsScheduled (run_as t k)
run_as-IsScheduled k t q l i r = record {
  queued = IsQueued-frame k (run_as t k) (λ p. refl) (λ u. ground arith) q;
  current_loose = l;
  idle_loose = i;
  run_real = r;
}

abbrev pub head_or : Ptr → List Ptr → Ptr
head_or d [] = d
head_or d (t ∷ ts) = t

abbrev pub tail : List Ptr → List Ptr
tail [] = []
tail (t ∷ ts) = ts

-- The outcome of a switch: the head of the run queue runs, or the idle task where that queue is empty.
-- The other queues and every task's status are as before.
pub record Switched (k k' : Kernel) : Type 0 where
  pub scheduled : IsScheduled k'
  pub running : is_running (k'.task k'.current).flags ≡ true
  pub next : k'.current ≡ head_or k.idle_task (k.rsrc k.run_queue).queue
  pub rest : (k'.rsrc k.run_queue).queue ≡ tail (k.rsrc k.run_queue).queue
  pub others : (r : Ptr) → (r == k.run_queue) ≡ false → (k'.rsrc r).queue ≡ (k.rsrc r).queue
  pub statuses : (t : Ptr) → (k'.task t).status ≡ (k.task t).status
  pub same : SameObjects k k'

pub pick :
    (k : Kernel) (ts : List Ptr)
    → (k.rsrc k.run_queue).queue ≡ ts
    → IsQueued k
    → IsLoose k k.idle_task
    → k.run_queue ≢ null
    → CanIdle k
    → (k' : Kernel) × (switch_to (rsrc_dequeue k.run_queue k) ≡ some k') × Switched k k'
unfolding rsrc_dequeue
pick k [] e q i r c = (
  run_as k.idle_task k,
  rw (e) (ground (arith, c.live, c.idle_alive)),
  record {
    scheduled = run_as-IsScheduled k k.idle_task q i i r;
    running = ground (arith, ==_refl k.idle_task);
    next = rw e;
    rest = rw e;
    others = λ p n. refl;
    statuses = λ u. ground arith;
    same = run-SameObjects k.idle_task _ k;
  },
)
pick k (t ∷ ts) e q i r c =
    let k1 = (dequeued k.run_queue k (t ∷ ts)).0 in
    (
      run_as t k1,
      rw e (ground (arith, ==_refl t)),
      record {
        scheduled =
            run_as-IsScheduled k1 t (dequeue-IsQueued k k.run_queue t ts q e)
              (dequeue-head-IsLoose k k.run_queue t ts q e)
              (dequeue-IsLoose k k.run_queue t ts q e k.idle_task i) r;
        running = ground (arith, ==_refl t);
        next = rw e;
        rest = rw e (ground (arith, ==_refl k.run_queue));
        others = λ p n. ground (arith, n);
        statuses = λ u. ground arith;
        same =
            SameObjects-trans (dequeued-SameObjects k.run_queue k (t ∷ ts))
              (run-SameObjects t _ k1);
      },
    )

-- swtch, called where the current task is on a queue already and does not run any more.
pub swtch-waiting :
    (k : Kernel)
    → IsQueued k
    → IsLoose k k.idle_task
    → k.run_queue ≢ null
    → CanIdle k
    → is_running (k.task k.current).flags ≡ false
    → (k' : Kernel) × (swtch k ≡ some k') × Switched k k'
unfolding swtch
swtch-waiting k q i r c w =
    let (k', e, s) = pick k (k.rsrc k.run_queue).queue refl q i r c in
    (
      k',
      elim (Bool-cases (is_empty (k.rsrc k.run_queue).queue)) [
        | inl z ↦ rw (z, w) e
        | inr z ↦ rw (z, w) e
      ],
      s,
    )

-- The outcome of wait_on for the task that was current: it is parked behind the others that wait, with
-- the status cleared; the head of the run queue runs, or else the idle task; no other queue changes.
pub record Parked (r : Ptr) (k k' : Kernel) : Type 0 where
  pub scheduled : IsScheduled k'
  pub running : is_running (k'.task k'.current).flags ≡ true
  pub parked : (k'.rsrc r).queue ≡ (k.rsrc r).queue ++ k.current ∷ []
  pub cleared : (k'.task k.current).status ≡ err_none
  pub next : k'.current ≡ head_or k.idle_task (k.rsrc k.run_queue).queue
  pub rest : (k'.rsrc k.run_queue).queue ≡ tail (k.rsrc k.run_queue).queue
  pub others :
      (p : Ptr)
      → (p == k.run_queue) ≡ false
      → (p == r) ≡ false
      → (k'.rsrc p).queue ≡ (k.rsrc p).queue
  pub same : SameObjects k k'

abbrev cleared : Kernel → Kernel
cleared k = let d = k.task k.current in set_task k.current (record d { status = err_none }) k

cleared-IsQueued : (k : Kernel) → IsQueued k → IsQueued (cleared k)
cleared-IsQueued k q = IsQueued-frame k (cleared k) (λ p. refl) (λ u. ground arith) q

parked-SameObjects : (r : Ptr) (k : Kernel) → SameObjects k (rsrc_enqueue r k.current (cleared k))
parked-SameObjects r k =
    SameObjects-trans (set_task-SameObjects k.current _ k)
      (enqueue-SameObjects r k.current (cleared k))

-- wait_on a resource other than the run queue, by a task that is not the idle task, where the
-- scheduler's invariant holds and the idle task may run, ends: the caller is at the tail of the
-- resource's queue with its status cleared, the head of the run queue runs, or the idle task where
-- that is empty, no other queue changes, and the invariant holds.
pub wait_on-Parked :
    (r : Ptr) (k : Kernel)
    → IsScheduled k
    → CanIdle k
    → r ≢ null
    → (r == k.run_queue) ≡ false
    → (k.current == k.idle_task) ≡ false
    → (k' : Kernel) × (wait_on r k ≡ some k') × Parked r k k'
unfolding wait_on rsrc_enqueue
wait_on-Parked r k s c real other busy =
    let k1 = rsrc_enqueue r k.current (cleared k) in
    let (k', e, w) =
      swtch-waiting k1
        (enqueue-IsQueued (cleared k) r k.current (cleared-IsQueued k s.queued) s.current_loose
          real)
        (enqueue-IsLoose (cleared k) r k.current k.idle_task s.idle_loose (ground arith)) s.run_real
        (record { live = c.live; idle_alive = ground (arith, c.idle_alive) })
        (ground (arith, ==_refl k.current)) in
    (
      k',
      e,
      record {
        scheduled = w.scheduled;
        running = w.running;
        parked = w.others r other ∙ ground (arith, ==_refl r);
        cleared = w.statuses k.current ∙ ground (arith, ==_refl k.current);
        next = w.next ∙ ground arith;
        rest = w.rest ∙ ground arith;
        others = λ p n m. w.others p n ∙ ground (arith, m);
        same = SameObjects-trans (parked-SameObjects r k) w.same;
      },
    )
