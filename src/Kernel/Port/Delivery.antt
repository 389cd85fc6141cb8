-- ===== src/Kernel/Port/Delivery.antt =====
-- What port_send of kernel/port.c does on each branch.
use openblt.Prelude.{
  ◌+◌, ◌≤◌, ◌<◌, ◌==◌, ◌≡◌, ◌≢◌, refl, false, ◌||◌, [], ◌∷◌, ◌++◌, ltb, leb, length, pos, arith,
  ==_refl, Bool-cases, inl, inr, ◌⊎◌, ℕ, length-append,
}
use openblt.Kernel.Call.{Call, returns, blocks, After}
use openblt.Kernel.State.{Ptr, err_memory, err_would_block, Message, Port, Kernel}
use openblt.Kernel.Frame.{SameTable}
use openblt.Kernel.Queue.{wake_first}
use openblt.Kernel.Queue.Invariant.{IsQueued-frame}
use openblt.Kernel.Queue.Scheduling.{IsScheduled, Parked, wait_on-Parked, tail, CanWait}
use openblt.Kernel.Queue.Handover.{wake_first-FirstWoken, heads}
use openblt.Kernel.Port.{max_msgcount, user_limit, max_size, set_port}
use openblt.Kernel.Port.Transfer.{
  Memory, read_bytes, SendArgs, send_deliver, send_loop, wake_receiver, queued, send_target, Target,
  port_send,
}

-- The count is the number of messages, at most 16.
pub record IsPort (k : Kernel) (p : Ptr) : Type 0 where
  pub counted : (k.port p).msgcount ≡ length (k.port p).messages
  pub bounded : (k.port p).msgcount ≤ max_msgcount

pub ported-IsScheduled :
    (p : Ptr) (d : Port) (k : Kernel) → IsScheduled k → IsScheduled (set_port p d k)
ported-IsScheduled p d k v = record {
  queued = IsQueued-frame k (set_port p d k) (λ r. refl) (λ t. refl) v.queued;
  current_loose = v.current_loose;
  idle_loose = v.idle_loose;
  run_real = v.run_real;
}

abbrev pub message : Memory → SendArgs → Message
message mem a = record {
  from_port = a.src;
  to_port = a.dst;
  code = a.code;
  bytes = read_bytes mem a.msg a.size;
}

-- The message is behind the others, no other port changes, and the first receiver that waits is ready.
pub record Delivered (mem : Memory) (a : SendArgs) (p : Ptr) (k k' : Kernel) : Type 0 where
  pub messages : (k'.port p).messages ≡ (k.port p).messages ++ message mem a ∷ []
  pub msgcount : (k'.port p).msgcount ≡ (k.port p).msgcount + 1
  pub others : (q : Ptr) → (q == p) ≡ false → k'.port q ≡ k.port q
  pub receivers : (k'.rsrc p).queue ≡ tail (k.rsrc p).queue
  pub ready : (k'.rsrc k.run_queue).queue ≡ (k.rsrc k.run_queue).queue ++ heads (k.rsrc p).queue
  pub scheduled : IsScheduled k'
  pub table : SameTable k k'

-- The branches of port_send to the port `p`.
pub data Sends (mem : Memory) (a : SendArgs) (p : Ptr) (k : Kernel) : Call → Type 0 where
  full :
      max_msgcount ≤ (k.port p).msgcount
      → (k.port p).nowait ≢ 0
      → Sends mem a p k (returns err_would_block k)
  waits :
      {k' : Kernel}
      → max_msgcount ≤ (k.port p).msgcount
      → (k.port p).nowait ≡ 0
      → Parked (k.port p).sendqueue k k'
      → Sends mem a p k (blocks k')
  invalid :
      (k.port p).msgcount < max_msgcount
      → (user_limit < a.msg) ⊎ (max_size < a.size)
      → Sends mem a p k (returns err_memory k)
  sent :
      {k' : Kernel}
      → (k.port p).msgcount < max_msgcount
      → a.msg ≤ user_limit
      → a.size ≤ max_size
      → Delivered mem a p k k'
      → Sends mem a p k (returns (pos a.size) k')

module _ (mem : Memory) (a : SendArgs) (p : Ptr) (k : Kernel) (v : IsScheduled k) where
  deliver-Delivered :
      (k.port p).slaved ≡ 0
      → (p == k.run_queue) ≡ false
      → Delivered mem a p k (wake_receiver p (queued mem a p k))
  deliver-Delivered top n =
      let k1 = queued mem a p k in
      let w = wake_first-FirstWoken p k1 (ported-IsScheduled p _ k v) n in
      let same : wake_receiver p k1 ≡ wake_first p k1 = ground (arith, top, ==_refl p) in
      rw same (record {
        messages = ground (arith, w.same.ports, ==_refl p);
        msgcount = ground (arith, w.same.ports, ==_refl p);
        others = λ q m. ground (arith, w.same.ports, m);
        receivers = w.left;
        ready = w.ready;
        scheduled = w.scheduled;
        table = record {
          resources = w.same.table.resources;
          nexts = w.same.table.nexts;
          size = w.same.table.size;
          first = w.same.table.first;
          types = w.same.table.types;
          ids = w.same.table.ids;
        };
      })

  module _ (top : (k.port p).slaved ≡ 0) (n : (p == k.run_queue) ≡ false)
      (c : CanWait k (k.port p).sendqueue) where
    send_deliver-Sends :
        (k.port p).msgcount < max_msgcount → Sends mem a p k (send_deliver mem a p k)
    unfolding send_deliver
    send_deliver-Sends room = elim (Bool-cases (ltb user_limit a.msg || ltb max_size a.size)) [
      | inl bad ↦ rw bad (invalid room (ground arith))
      | inr good ↦ rw good (sent room (ground arith) (ground arith) (deliver-Delivered top n))
    ]

    pub send_loop-Sends : Sends mem a p k (send_loop mem a p k)
    unfolding send_loop
    send_loop-Sends = elim (Bool-cases (leb max_msgcount (k.port p).msgcount)) [
      | inr room ↦ rw room (send_deliver-Sends (ground arith))
      | inl over ↦ elim (Bool-cases ((k.port p).nowait == 0)) [
        | inr nowait ↦ rw (over, nowait) (full (ground arith) (ground arith))
        | inl wait ↦
            let (k', e, w) = wait_on-Parked (k.port p).sendqueue k v c.idle c.real c.other c.busy in
            rw (over, wait, e) (waits (ground arith) (ground arith) w)
      ]
    ]

target_top :
    (src dst : ℕ) (k : Kernel) (p : Ptr)
    → send_target src dst k ≡ Target.port p
    → (k.port p).slaved ≡ 0
unfolding send_target
target_top src dst k p e = ground arith

Sends-IsPort :
    (mem : Memory) (a : SendArgs) (p : Ptr) (k : Kernel) (c : Call)
    → Sends mem a p k c
    → IsPort k p
    → IsScheduled k
    → After (λ k'. IsPort k' p × IsScheduled k') c
Sends-IsPort mem a p k c (full f w) i v = (i, v)
Sends-IsPort mem a p k c (invalid f w) i v = (i, v)
Sends-IsPort mem a p k c (waits f o w) i v = (
  record { counted = rw w.same.ports i.counted; bounded = rw w.same.ports i.bounded },
  w.scheduled,
)
Sends-IsPort mem a p k c (sent r m s d) i v = (
  record {
    counted = ground (
      arith,
      d.messages,
      d.msgcount,
      i.counted,
      length-append (k.port p).messages (message mem a ∷ []),
    );
    bounded = ground (arith, d.msgcount, r);
  },
  d.scheduled,
)

module _ (mem : Memory) (a : SendArgs) (p : Ptr) (k : Kernel)
    (target : send_target a.src a.dst k ≡ Target.port p) (v : IsScheduled k)
    (n : (p == k.run_queue) ≡ false) (c : CanWait k (k.port p).sendqueue) where
  -- Where the target of port_send is a port other than the run queue, the scheduler's invariant
  -- holds and the sender may wait on the send queue, port_send takes the branch that the code calls
  -- for: a full port refuses with ERR_WOULD_BLOCK where nowait is set and otherwise parks the
  -- sender on the send queue, a bad address or size gives ERR_MEMORY, and otherwise the message is
  -- behind the others, the first receiver that waits is ready, and the size is returned.
  pub port_send-Sends : Sends mem a p k (port_send mem a k)
  unfolding port_send
  port_send-Sends =
      rw (target, port_send) (send_loop-Sends mem a p k v (target_top a.src a.dst k p target) n c)

  -- Where the target of port_send is a well formed port other than the run queue, the scheduler's
  -- invariant holds and the sender may wait, the port has after the call, on every branch, a count
  -- that is the number of its messages and at most 16, and the scheduler's invariant holds.
  pub port_send-IsPort : IsPort k p → After (λ k'. IsPort k' p × IsScheduled k') (port_send mem a k)
  port_send-IsPort i = Sends-IsPort mem a p k _ port_send-Sends i v
