-- ===== src/Kernel/Port/Transfer.antt =====
-- port_send and port_recv of kernel/port.c.
--
-- A call that blocks leaves its loop `while(...) wait_on(...)`. When its task is current again it goes
-- on with `resume`: with the error that wait_on returns, or with the next round of the loop.
use openblt.Prelude.{
  ℕ, zero, suc, ◌+◌, ◌-◌, ◌==◌, Bool, true, false, not, ◌&&◌, ◌||◌, Option, none, some, List, [],
  ◌∷◌, ◌++◌, if◌then◌else◌, ltb, leb, update, length, ℤ, pos, is_nonzero,
}
use openblt.Kernel.Call.{Call, returns, blocking}
use openblt.Kernel.State.{
  Ptr, err_resource, err_memory, err_sendport, err_recvport, err_would_block, rsrc_port, Message,
  Kernel,
}
use openblt.Kernel.Queue.{wait_on, wait_result, wake_first}
use openblt.Kernel.Resource.{rsrc_find}
use openblt.Kernel.Port.{max_msgcount, user_limit, max_size, set_port, Port}

-- The memory of the user, a byte at each address.
abbrev pub Memory : Type 0
Memory = ℕ → ℕ

-- The `n` bytes from an address on.
unfoldable pub read_bytes : Memory → ℕ → ℕ → List ℕ
read_bytes mem a zero = []
read_bytes mem a (suc n) = mem a ∷ read_bytes mem (a + 1) n

unfoldable pub write_bytes : Memory → ℕ → List ℕ → Memory
write_bytes mem a [] = mem
write_bytes mem a (b ∷ bs) = write_bytes (update mem a b) (a + 1) bs

pub record SendArgs : Type 0 where
  pub src : ℕ
  pub dst : ℕ
  pub msg : ℕ
  pub size : ℕ
  pub code : ℕ

-- The message is put at the tail of the queue of `p`, and the first task that waits to receive on `p`,
-- or on the port that `p` is slaved to, is woken.
abbrev pub queued : Memory → SendArgs → Ptr → Kernel → Kernel
queued mem a p k =
    let d = k.port p in
    let m : Message = record {
      from_port = a.src;
      to_port = a.dst;
      code = a.code;
      bytes = read_bytes mem a.msg a.size;
    } in
    set_port p (record d { messages = d.messages ++ m ∷ []; msgcount = d.msgcount + 1 }) k

abbrev pub wake_receiver : Ptr → Kernel → Kernel
wake_receiver p k =
    if (k.port p).slaved == 0
    then wake_first p k
    else elim (rsrc_find rsrc_port (k.port p).slaved k) [ none ↦ k | some p0 ↦ wake_first p0 k ]

unfoldable pub send_deliver : Memory → SendArgs → Ptr → Kernel → Call
unfolding read_bytes
send_deliver mem a p k =
    if ltb user_limit a.msg || ltb max_size a.size
    then returns err_memory k
    else returns (pos a.size) (wake_receiver p (queued mem a p k))

-- while(p->msgcount >= MAX_MSGCOUNT) ...
unfoldable pub send_loop : Memory → SendArgs → Ptr → Kernel → Call
unfolding send_deliver
send_loop mem a p k =
    if leb max_msgcount (k.port p).msgcount
    then if not ((k.port p).nowait == 0)
      then returns err_would_block k
      else blocking (wait_on (k.port p).sendqueue k)
    else send_deliver mem a p k

unfoldable pub send_resume : Memory → SendArgs → Ptr → Kernel → Call
unfolding send_loop
send_resume mem a p k =
    if is_nonzero (wait_result k) then returns (wait_result k) k else send_loop mem a p k

-- Where a message for `dst` goes: to its master, if it is slaved, and the master must not be slaved.
pub data Target : Type 0 where
  refused : ℤ → Target
  port : Ptr → Target

abbrev pub master_target : Option Ptr → Kernel → Target
master_target none k = refused err_resource
master_target (some m) k = if (k.port m).slaved == 0 then port m else refused err_resource

unfoldable pub send_target : ℕ → ℕ → Kernel → Target
send_target src dst k = elim (rsrc_find rsrc_port src k) [
  | none ↦ refused err_sendport
  | some f ↦ elim (rsrc_find rsrc_port dst k) [
    | none ↦ refused err_recvport
    | some p ↦
        if (k.port p).slaved == 0
        then port p
        else master_target (rsrc_find rsrc_port (k.port p).slaved k) k
  ]
]

unfoldable pub port_send : Memory → SendArgs → Kernel → Call
unfolding send_target send_loop
port_send mem a k = elim (send_target a.src a.dst k) [
  | refused e ↦ returns e k
  | port p ↦ send_loop mem a p k
]

pub record RecvArgs : Type 0 where
  pub dst : ℕ
  pub msg : ℕ
  pub size : ℕ

-- What a receiver gets: the size, the sender, the code, and its memory with the bytes in it.
pub record Receipt : Type 0 where
  pub size : ℕ
  pub src : ℕ
  pub code : ℕ
  pub memory : Memory

pub data Recv : Type 0 where
  received : Receipt → Kernel → Recv
  refused : ℤ → Kernel → Recv
  blocked : Kernel → Recv
  fault : Recv

-- for(i=0; i<m->size && (i <size); i++): at most `room` bytes
unfoldable pub fitting : ℕ → List ℕ → List ℕ
fitting zero bs = []
fitting (suc room) [] = []
fitting (suc room) (b ∷ bs) = b ∷ fitting room bs

abbrev pub has_waiters : List Ptr → Bool
has_waiters [] = false
has_waiters (t ∷ ts) = true

-- if(p->sendqueue->queue.count && (p->msgcount <= MAX_MSGCOUNT)) ...
abbrev pub wake_sender : Port → Kernel → Kernel
wake_sender d k =
    if has_waiters (k.rsrc d.sendqueue).queue && leb d.msgcount max_msgcount
    then wake_first d.sendqueue k
    else k

-- The message is taken off the head, and the first task that waits to send is woken.
unfoldable pub unchain : Ptr → List Message → Kernel → Kernel
unchain p ms k =
    let d = k.port p in
    let k1 = set_port p (record d { messages = ms }) k in
    let k2 = wake_sender d k1 in
    let d2 = k2.port p in set_port p (record d2 { msgcount = d2.msgcount - 1 }) k2

-- A port with a count and no message is a fault: `first` would be NULL.
abbrev pub take_first : Memory → RecvArgs → Ptr → List Message → Kernel → Recv
take_first mem a p [] k = fault
take_first mem a p (m ∷ ms) k =
    received
      (record {
        size = if ltb a.size (length m.bytes) then a.size else length m.bytes;
        src = m.from_port;
        code = m.code;
        memory = write_bytes mem a.msg (fitting a.size m.bytes);
      })
      (unchain p ms k)

abbrev pub recv_blocking : Option Kernel → Recv
recv_blocking none = fault
recv_blocking (some k) = blocked k

-- while(!p->msgcount) ...
unfoldable pub recv_loop : Memory → RecvArgs → Ptr → Kernel → Recv
unfolding unchain
recv_loop mem a p k =
    if (k.port p).msgcount == 0
    then if not ((k.port p).nowait == 0)
      then refused err_would_block k
      else recv_blocking (wait_on p k)
    else take_first mem a p (k.port p).messages k

unfoldable pub recv_resume : Memory → RecvArgs → Ptr → Kernel → Recv
unfolding recv_loop
recv_resume mem a p k =
    if is_nonzero (wait_result k) then refused (wait_result k) k else recv_loop mem a p k

unfoldable pub port_recv : Memory → RecvArgs → Kernel → Recv
unfolding recv_loop
port_recv mem a k = elim (rsrc_find rsrc_port a.dst k) [
  | none ↦ refused err_recvport k
  | some p ↦
      if not ((k.task k.current).team == k.kernel_team) && ltb user_limit a.msg
      then refused err_memory k
      else recv_loop mem a p k
]
