-- ===== src/Kernel/Examples.antt =====
-- The theorems on tasks, resources, semaphores and ports at a small kernel: task 3 runs, task 9 is
-- ready, task 4 waits on the semaphore 5, whose id is 1, and the port 6, whose id is 2, is empty.
use openblt.Prelude.{◌==◌, ◌≡◌, refl, false, [], ◌∷◌, some, if◌then◌else◌, pos, negsuc, arith, ◌≢◌}
use openblt.Kernel.State.{
  Ptr, null, Kernel, Port, Task, Resource, rsrc_sem, rsrc_none, err_none, rsrc_port, TaskFlags,
  rsrc_queue,
}
use openblt.Kernel.Queue.Invariant.{IsQueued}
use openblt.Kernel.Queue.{wait_on}
use openblt.Kernel.Queue.Scheduling.{IsScheduled, CanIdle, CanWait, Parked, wait_on-Parked}
use openblt.Kernel.Queue.Handover.{wake_first-nil}
use openblt.Kernel.Call.{After, returns}
use openblt.Kernel.Resource.{rsrc_find, rsrc_bind, rsrc_release}
use openblt.Kernel.Resource.Table.{IsTable, Found, Found-find, Bound, rsrc_bind-Bound}
use openblt.Kernel.Resource.Release.{Released, rsrc_release-Released}
use openblt.Kernel.Sem.{sem_acquire, sem_release}
use openblt.Kernel.Sem.Counting.{
  IsSound, Acquired, HandedOver, sem_acquire-Acquired, sem_acquire-IsSound, sem_release-HandedOver,
  sem_release-IsSound,
}
use openblt.Kernel.Port.Transfer.{
  Memory, SendArgs, RecvArgs, Receipt, received, Target, send_target, port_send, port_recv, queued,
  send_loop, send_deliver,
}
use openblt.Kernel.Port.Delivery.{
  IsPort, Sends, port_send-Sends, port_send-IsPort, ported-IsScheduled,
}
use openblt.Kernel.Port.Reception.{MayReceive, Receives, port_recv-Receives}
use openblt.Kernel.Port.{port_destroy}
use openblt.Kernel.Port.Destruction.{Destroyed, port_destroy-Destroyed}
use openblt.Kernel.Port.Roundtrip.{Arrived, recv-send}

abbrev blank : Resource
blank = record { id = 0; type = rsrc_none; owner = null; queue = []; name = [] }

abbrev pub resource_at : Ptr → Resource
resource_at p =
    if p == 5
    then record { id = 1; type = rsrc_sem; owner = null; queue = 4 ∷ []; name = [] }
    else if p == 6
    then record { id = 2; type = rsrc_port; owner = null; queue = []; name = [] }
    else if p == 7
    then record { id = 3; type = rsrc_queue; owner = null; queue = []; name = [] }
    else if p == 2
    then record { id = 0; type = rsrc_none; owner = null; queue = 9 ∷ []; name = [] }
    else blank

abbrev task_at : Ptr → Task
task_at t = record {
  waiting_on = if t == 4 then 5 else if t == 9 then 2 else null;
  status = err_none;
  wait_time = 0;
  flags =
      if t == 3 then TaskFlags.running else if t == 4 then TaskFlags.waiting else TaskFlags.ready;
  scount = 0;
  team = null;
}

abbrev port_at : Ptr → Port
port_at p = record {
  msgcount = 0;
  slaved = 0;
  messages = [];
  refcount = pos 1;
  nowait = 0;
  restrict = 0;
  sendqueue = 7;
}

abbrev pub small : Kernel
small = record {
  rmap_resource = λ i. if i == 1 then 5 else if i == 2 then 6 else if i == 3 then 7 else null;
  rmap_next = λ i. if i == 4 then 5 else 0;
  rmax = 6;
  rfree = 4;
  resource_list = 5 ∷ 6 ∷ 7 ∷ [];
  rsrc = resource_at;
  task = task_at;
  sem_count = λ s. negsuc 0;
  port = port_at;
  team_resources = λ t. [];
  current = 3;
  run_queue = 2;
  idle_task = 1;
  kernel_team = 10;
  live_tasks = 4;
}

small-IsQueued : IsQueued small
small-IsQueued = record {
  member = λ r t h. ground arith;
  waits = λ t h. ground arith;
  distinct = λ r. ground arith;
  nowhere = refl;
}

small-IsScheduled : IsScheduled small
small-IsScheduled = record {
  queued = small-IsQueued;
  current_loose = λ r. ground arith;
  idle_loose = λ r. ground arith;
  run_real = ground arith;
}

small-CanIdle : CanIdle small
small-CanIdle = record { live = ground arith; idle_alive = refl }

pub small-IsTable : IsTable small (4 ∷ 5 ∷ [])
small-IsTable = record {
  chain = ground arith;
  distinct = ground arith;
  vacant = λ i h. ground arith;
  complete = λ i lt ne e. ground arith;
  reserved = refl;
  null_type = refl;
  bound = λ i lt ne. ground arith;
}

small-IsSound : IsSound 5 small
small-IsSound = record { counted = refl; scheduled = small-IsScheduled }

sem_Found : Found small rsrc_sem 1 5
sem_Found = record {
  in_range = ground arith;
  mapped = refl;
  real = ground arith;
  typed = refl;
  named = refl;
}

sem_found : rsrc_find rsrc_sem 1 small ≡ some 5
sem_found = Found-find small rsrc_sem 1 5 sem_Found

can_wait : (r : Ptr) → r ≢ null → (r == 2) ≡ false → CanWait small r
can_wait r n o = record { idle = small-CanIdle; busy = refl; real = n; other = o }

wait_on-Parked_example : (k' : Kernel) × (wait_on 5 small ≡ some k') × Parked 5 small k'
wait_on-Parked_example =
    wait_on-Parked 5 small small-IsScheduled small-CanIdle (ground arith) refl refl

rsrc_bind-Bound_example :
    (k' : Kernel) × (rsrc_bind 8 rsrc_sem null small ≡ some k')
    × Bound small 8 rsrc_sem 4 (5 ∷ []) k'
rsrc_bind-Bound_example =
    rsrc_bind-Bound small 8 rsrc_sem null (5 ∷ []) small-IsTable (ground arith) (ground arith)
      (λ j lt. ground arith)

rsrc_release-Released_example :
    (k' : Kernel) × (rsrc_release 5 small ≡ some k') × Released small 5 1 (4 ∷ 5 ∷ []) k'
rsrc_release-Released_example =
    rsrc_release-Released small 5 rsrc_sem 1 (4 ∷ 5 ∷ []) small-IsTable sem_Found refl
      small-IsScheduled

sem_acquire-Acquired_example : Acquired 5 small (sem_acquire 1 small)
sem_acquire-Acquired_example =
    sem_acquire-Acquired 1 5 small sem_found small-IsSound (ground arith) refl small-CanIdle refl

sem_acquire-IsSound_example : After (IsSound 5) (sem_acquire 1 small)
sem_acquire-IsSound_example =
    sem_acquire-IsSound 1 5 small sem_found small-IsSound (ground arith) refl small-CanIdle refl

sem_release-HandedOver_example :
    ((sem_release 1 small).0 ≡ err_none) × HandedOver 5 4 [] small (sem_release 1 small).1
sem_release-HandedOver_example =
    sem_release-HandedOver 1 5 small sem_found small-IsSound (ground arith) refl 4 [] refl

sem_release-IsSound_example : IsSound 5 (sem_release 1 small).1
sem_release-IsSound_example =
    sem_release-IsSound 1 5 small sem_found small-IsSound (ground arith) refl

-- Two bytes at 100 are sent to the port, and received at 200.
abbrev bytes_at : Memory
bytes_at a = if a == 100 then 7 else 8

abbrev two_bytes : SendArgs
two_bytes = record { src = 2; dst = 2; msg = 100; size = 2; code = 5 }

abbrev room_for_four : RecvArgs
room_for_four = record { dst = 2; msg = 200; size = 4 }

port_Found :
    (k : Kernel)
    → k.rmap_resource ≡ small.rmap_resource
    → k.rmax ≡ 6
    → k.rsrc ≡ resource_at
    → Found k rsrc_port 2 6
port_Found k m s r = record {
  in_range = ground (arith, s);
  mapped = rw m;
  real = ground arith;
  typed = rw r;
  named = rw r;
}

port_target : send_target 2 2 small ≡ Target.port 6
unfolding send_target
port_target =
    let found = Found-find small rsrc_port 2 6 (port_Found small refl refl refl) in
    rw (found, send_target) (rw found)

small-IsPort : IsPort small 6
small-IsPort = record { counted = refl; bounded = ground arith }

port_send-Sends_example : Sends bytes_at two_bytes 6 small (port_send bytes_at two_bytes small)
port_send-Sends_example =
    port_send-Sends bytes_at two_bytes 6 small port_target small-IsScheduled refl
      (can_wait 7 (ground arith) refl)

port_send-IsPort_example :
    After (λ k'. IsPort k' 6 × IsScheduled k') (port_send bytes_at two_bytes small)
port_send-IsPort_example =
    port_send-IsPort bytes_at two_bytes 6 small port_target small-IsScheduled refl
      (can_wait 7 (ground arith) refl) small-IsPort

abbrev with_message : Kernel
with_message = queued bytes_at two_bytes 6 small

with_message_may : MayReceive room_for_four 6 with_message
with_message_may = record {
  found = Found-find with_message rsrc_port 2 6 (port_Found with_message refl refl refl);
  in_bounds = ground arith;
  well = record { counted = refl; bounded = ground arith };
  scheduled = ported-IsScheduled 6 _ small small-IsScheduled;
  senders_apart = refl;
}

sent_message : port_send bytes_at two_bytes small ≡ returns (pos 2) with_message
unfolding port_send send_loop send_deliver
sent_message = rw (port_target, port_send) (rw (wake_first-nil 6 with_message refl))

port_recv-Receives_example :
    Receives bytes_at room_for_four 6 with_message (port_recv bytes_at room_for_four with_message)
port_recv-Receives_example =
    port_recv-Receives bytes_at room_for_four 6 with_message with_message_may (record {
      idle = record { live = ground arith; idle_alive = refl };
      busy = refl;
      real = ground arith;
      other = refl;
    })

recv-send_example :
    (g : Receipt) × (m : Kernel) × (port_recv bytes_at room_for_four with_message ≡ received g m)
    × Arrived bytes_at two_bytes room_for_four g
recv-send_example =
    recv-send bytes_at bytes_at two_bytes room_for_four 6 small with_message with_message
      port_target small-IsScheduled refl (can_wait 7 (ground arith) refl) sent_message refl refl
      with_message_may (ground arith)

queue_Found : Found small rsrc_queue 3 7
queue_Found = record {
  in_range = ground arith;
  mapped = refl;
  real = ground arith;
  typed = refl;
  named = refl;
}

port_destroy-Destroyed_example :
    (k' : Kernel) × (port_destroy 2 small ≡ returns err_none k')
    × Destroyed small 2 3 (4 ∷ 5 ∷ []) k'
port_destroy-Destroyed_example =
    port_destroy-Destroyed small 6 2 3 (4 ∷ 5 ∷ []) small-IsTable (port_Found small refl refl refl)
      queue_Found refl refl small-IsScheduled refl
