-- ===== src/Kernel/Port/Reception.antt =====
-- What port_recv of kernel/port.c does on each branch.
use openblt.Prelude.{
  ◌-◌, ◌≤◌, ◌==◌, ◌≡◌, refl, false, List, [], ◌∷◌, ◌++◌, arith, ==_refl, sym, ap, ◌≢◌, some,
  if◌then◌else◌, ltb, length, true, Bool-cases, inr, inl,
}
use openblt.Kernel.State.{Ptr, Message, Port, Kernel}
use openblt.Kernel.Queue.{wake_first}
use openblt.Kernel.Queue.Scheduling.{IsScheduled, tail, CanWait, Parked, wait_on-Parked}
use openblt.Kernel.Queue.Handover.{wake_first-FirstWoken, heads, wake_first-nil}
use openblt.Kernel.Port.{max_msgcount, set_port, rsrc_find, rsrc_port, err_would_block, user_limit}
use openblt.Kernel.Port.Transfer.{
  unchain, wake_sender, Memory, RecvArgs, recv_loop, Receipt, port_recv, Recv, received, refused,
  blocked, write_bytes, fitting,
}
use openblt.Kernel.Port.Delivery.{ported-IsScheduled, IsPort}

-- The message is gone, the rest keep their order, and the first sender that waits is ready.
pub record Unchained (p : Ptr) (ms : List Message) (k k' : Kernel) : Type 0 where
  pub messages : (k'.port p).messages ≡ ms
  pub msgcount : (k'.port p).msgcount ≡ (k.port p).msgcount - 1
  pub others : (q : Ptr) → (q == p) ≡ false → k'.port q ≡ k.port q
  pub senders : (k'.rsrc (k.port p).sendqueue).queue ≡ tail (k.rsrc (k.port p).sendqueue).queue
  pub ready :
      (k'.rsrc k.run_queue).queue
      ≡ (k.rsrc k.run_queue).queue ++ heads (k.rsrc (k.port p).sendqueue).queue
  pub scheduled : IsScheduled k'

-- Where nobody waits the wake does nothing, so the test before it changes nothing.
wake_sender_first :
    (d : Port) (k : Kernel) → d.msgcount ≤ max_msgcount → wake_sender d k ≡ wake_first d.sendqueue k
wake_sender_first d k h = by_queue (k.rsrc d.sendqueue).queue refl
  where
    by_queue :
        (q : List Ptr) → (k.rsrc d.sendqueue).queue ≡ q → wake_sender d k ≡ wake_first d.sendqueue k
    by_queue [] e = rw (e, wake_sender) (sym (wake_first-nil d.sendqueue k e))
    by_queue (t ∷ ts) e = rw (e, wake_sender) (ground (arith, h))

module _ (p : Ptr) (ms : List Message) (k : Kernel) (v : IsScheduled k)
    (bounded : (k.port p).msgcount ≤ max_msgcount)
    (other : ((k.port p).sendqueue == k.run_queue) ≡ false) where
  abbrev shorter : Kernel
  shorter = let d = k.port p in set_port p (record d { messages = ms }) k

  abbrev woken : Kernel
  woken = wake_first (k.port p).sendqueue shorter

  unchain_steps :
      unchain p ms k
      ≡ (let d2 = woken.port p in set_port p (record d2 { msgcount = d2.msgcount - 1 }) woken)
  unfolding unchain
  unchain_steps =
      ap
        (λ (k2 : Kernel).
          (let d2 = k2.port p in set_port p (record d2 { msgcount = d2.msgcount - 1 }) k2))
        (wake_sender_first (k.port p) shorter bounded)

  unchain-Unchained : Unchained p ms k (unchain p ms k)
  unchain-Unchained =
      let w =
        wake_first-FirstWoken (k.port p).sendqueue shorter (ported-IsScheduled p _ k v) other in
      rw unchain_steps (record {
        messages = ground (arith, w.same.ports, ==_refl p);
        msgcount = ground (arith, w.same.ports, ==_refl p);
        others = λ q m. ground (arith, w.same.ports, m);
        senders = w.left;
        ready = w.ready;
        scheduled = ported-IsScheduled p _ woken w.scheduled;
      })

-- The receipt of the message `m`.
abbrev pub receipt : Memory → RecvArgs → Message → Receipt
receipt mem a m = record {
  size = if ltb a.size (length m.bytes) then a.size else length m.bytes;
  src = m.from_port;
  code = m.code;
  memory = write_bytes mem a.msg (fitting a.size m.bytes);
}

-- The branches of the loop of port_recv on the port `p`.
pub data Receives (mem : Memory) (a : RecvArgs) (p : Ptr) (k : Kernel) : Recv → Type 0 where
  empty :
      (k.port p).messages ≡ []
      → (k.port p).nowait ≢ 0
      → Receives mem a p k (refused err_would_block k)
  waits :
      {k' : Kernel}
      → (k.port p).messages ≡ []
      → (k.port p).nowait ≡ 0
      → Parked p k k'
      → Receives mem a p k (blocked k')
  took :
      {k' : Kernel} {m : Message} {ms : List Message}
      → (k.port p).messages ≡ m ∷ ms
      → Unchained p ms k k'
      → Receives mem a p k (received (receipt mem a m) k')

-- port_recv of a port that is found, by a task whose buffer is in bounds.
pub record MayReceive (a : RecvArgs) (p : Ptr) (k : Kernel) : Type 0 where
  pub found : rsrc_find rsrc_port a.dst k ≡ some p
  pub in_bounds : a.msg ≤ user_limit
  pub well : IsPort k p
  pub scheduled : IsScheduled k
  pub senders_apart : ((k.port p).sendqueue == k.run_queue) ≡ false

module _ (mem : Memory) (a : RecvArgs) (p : Ptr) (k : Kernel) (r : MayReceive a p k) where
  pub entered : port_recv mem a k ≡ recv_loop mem a p k
  unfolding port_recv
  entered = rw (r.found, port_recv) (ground (arith, r.in_bounds))

  pub nonempty :
      (m : Message) (ms : List Message)
      → (k.port p).messages ≡ m ∷ ms
      → recv_loop mem a p k ≡ received (receipt mem a m) (unchain p ms k)
  unfolding recv_loop
  nonempty m ms e =
      let some_left : ((k.port p).msgcount == 0) ≡ false = ground (arith, r.well.counted, e) in
      rw (some_left, e)

  nothing : (k.port p).messages ≡ [] → CanWait k p → Receives mem a p k (recv_loop mem a p k)
  unfolding recv_loop
  nothing e c =
      let none_left : ((k.port p).msgcount == 0) ≡ true = ground (arith, r.well.counted, e) in
      elim (Bool-cases ((k.port p).nowait == 0)) [
        | inr nowait ↦ rw (none_left, nowait) (empty e (ground (arith, nowait)))
        | inl wait ↦
            let (k', found, w) = wait_on-Parked p k r.scheduled c.idle c.real c.other c.busy in
            rw (none_left, wait, found) (waits e (ground (arith, wait)) w)
      ]

  -- Where port_recv finds a well formed port, its buffer is in bounds, the scheduler's invariant
  -- holds and the caller may wait on the port, it takes the first message and wakes the first
  -- sender that waits, or, where there is no message, refuses with ERR_WOULD_BLOCK where nowait is
  -- set and otherwise parks the caller on the port.
  pub port_recv-Receives : CanWait k p → Receives mem a p k (port_recv mem a k)
  port_recv-Receives c = rw entered (by_messages (k.port p).messages refl)
    where
      by_messages :
          (q : List Message) → (k.port p).messages ≡ q → Receives mem a p k (recv_loop mem a p k)
      by_messages [] e = nothing e c
      by_messages (m ∷ ms) e =
          rw (nonempty m ms e)
            (took e (unchain-Unchained p ms k r.scheduled r.well.bounded r.senders_apart))
