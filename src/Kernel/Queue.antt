-- ===== src/Kernel/Queue.antt =====
-- The wait queues of kernel/resource.c, and the scheduler of kernel/kernel.c and kernel/task.c.
pub mod Invariant
pub mod Objects
pub mod Handover
pub mod Preemption
pub mod Scheduling
pub mod Waking
use openblt.Prelude.{
  ℕ, zero, suc, ◌+◌, ◌==◌, Bool, true, false, not, ◌&&◌, Option, none, some, List, [], ◌∷◌, ◌++◌,
  if◌then◌else◌, ℤ, update,
}
use openblt.Kernel.State.{
  Ptr, null, err_none, Task, TaskFlags, is_running, is_dead, Kernel, set_queue, set_task,
}

pub rsrc_enqueue : Ptr → Ptr → Kernel → Kernel
rsrc_enqueue r t k =
    let d = k.task t in
    let k' = set_task t (record d { wait_time = 0; flags = TaskFlags.waiting; waiting_on = r }) k in
    set_queue r ((k'.rsrc r).queue ++ t ∷ []) k'

-- The order by wake time is not implemented: the task goes to the tail.
pub rsrc_enqueue_ordered : Ptr → Ptr → ℕ → Kernel → Kernel
rsrc_enqueue_ordered r t wake_time k =
    let k' = set_queue r ((k.rsrc r).queue ++ t ∷ []) k in
    let d = k'.task t in
    set_task t (record d { wait_time = wake_time; flags = TaskFlags.waiting; waiting_on = r }) k'

abbrev pub dequeued : Ptr → Kernel → List Ptr → Kernel × Option Ptr
dequeued r k [] = (k, none)
dequeued r k (t ∷ ts) =
    let d = k.task t in
    (
      set_task t (record d { waiting_on = null; flags = TaskFlags.ready }) (set_queue r ts k),
      some t,
    )

pub rsrc_dequeue : Ptr → Kernel → Kernel × Option Ptr
rsrc_dequeue r k = dequeued r k (k.rsrc r).queue

pub task_wake : Ptr → ℤ → Kernel → Kernel
task_wake t status k =
    let d = k.task t in rsrc_enqueue k.run_queue t (set_task t (record d { status = status }) k)

abbrev wake_taken : Kernel × Option Ptr → Kernel
wake_taken (k, none) = k
wake_taken (k, some t) = task_wake t err_none k

-- task = rsrc_dequeue(r); if(task) task_wake(task, ERR_NONE);
pub wake_first : Ptr → Kernel → Kernel
wake_first r k = wake_taken (rsrc_dequeue r k)

-- What follows when `current` has been chosen: it runs, unless it is dead.
abbrev dispatch : Kernel → Option Kernel
dispatch k =
    let d = k.task k.current in
    if is_dead d.flags
    then none
    else some (set_task k.current (record d { flags = TaskFlags.running; scount = d.scount + 1 }) k)

abbrev switch_to : Kernel × Option Ptr → Option Kernel
switch_to (k, some t) = dispatch (record k { current = t })
switch_to (k, none) = elim k.live_tasks [
  | zero ↦ none
  | suc n ↦ dispatch (record k { current = k.idle_task })
]

abbrev is_empty : List Ptr → Bool
is_empty [] = true
is_empty (x ∷ xs) = false

-- `none`: the kernel stops, by a panic or because no task is left. The switch of the stacks is the
-- change of `current`: the call returns to the code that runs as the new current task.
pub swtch : Kernel → Option Kernel
swtch k =
    let d = k.task k.current in
    if is_empty (k.rsrc k.run_queue).queue && is_running d.flags
    then some k
    else let k' =
        if is_running d.flags && not (k.current == k.idle_task)
        then rsrc_enqueue k.run_queue k.current k
        else k in
      switch_to (rsrc_dequeue k'.run_queue k')

-- `current` goes to the run queue, and `t`, which must be on no queue, runs.
pub preempt : Ptr → ℤ → Kernel → Kernel
preempt t status k =
    let k' = if k.current == k.idle_task then k else rsrc_enqueue k.run_queue k.current k in
    let d = k'.task t in
    record k' {
      current = t;
      task =
          update k'.task t
            (record d { status = status; flags = TaskFlags.running; scount = d.scount + 1 });
    }

-- The state in which the next task runs. The caller of wait_on goes on when it is current again, with
-- the result `wait_result`.
pub wait_on : Ptr → Kernel → Option Kernel
wait_on r k =
    let d = k.task k.current in
    swtch (rsrc_enqueue r k.current (set_task k.current (record d { status = err_none }) k))

pub wait_result : Kernel → ℤ
wait_result k = (k.task k.current).status
