-- ===== src/Kernel/Port/Roundtrip.antt =====
-- A port_send and the port_recv after it.
use mathlib.Core.Path.{subst}
use openblt.Prelude.{
  ℕ, zero, suc, ◌+◌, ◌≤◌, ◌<◌, ◌==◌, ◌≡◌, refl, false, List, [], ◌∷◌, update, length, pos, arith,
  ◌∙◌, ap,
}
use openblt.Kernel.Call.{Call, returns}
use openblt.Kernel.State.{Ptr, Kernel}
use openblt.Kernel.Queue.Scheduling.{IsScheduled, CanWait}
use openblt.Kernel.Port.Transfer.{
  Memory, read_bytes, write_bytes, SendArgs, RecvArgs, Receipt, received, fitting, Target,
  send_target, port_send, port_recv, unchain,
}
use openblt.Kernel.Port.Delivery.{
  Delivered, Sends, full, waits, invalid, sent, message, port_send-Sends,
}
use openblt.Kernel.Port.Reception.{MayReceive, entered, nonempty, receipt}

length-read_bytes : (mem : Memory) (a n : ℕ) → length (read_bytes mem a n) ≡ n
unfolding read_bytes
length-read_bytes mem a zero = refl
length-read_bytes mem a (suc n) = ap suc (length-read_bytes mem (a + 1) n)

write_below : (mem : Memory) (a c : ℕ) (bs : List ℕ) → c < a → write_bytes mem a bs c ≡ mem c
unfolding write_bytes
write_below mem a c [] h = refl
write_below mem a c (b ∷ bs) h =
    ground (arith, write_below (update mem a b) (a + 1) c bs (omega arith), h)

-- What is written is read back.
read-write :
    (mem : Memory) (a : ℕ) (bs : List ℕ) → read_bytes (write_bytes mem a bs) a (length bs) ≡ bs
unfolding read_bytes write_bytes
read-write mem a [] = refl
read-write mem a (b ∷ bs) = ground (
  arith,
  read-write (update mem a b) (a + 1) bs,
  write_below (update mem a b) (a + 1) a bs (omega arith),
)

fitting_all : (room : ℕ) (bs : List ℕ) → length bs ≤ room → fitting room bs ≡ bs
unfolding fitting
fitting_all zero [] h = refl
fitting_all zero (b ∷ bs) h = absurd (omega arith)
fitting_all (suc room) [] h = refl
fitting_all (suc room) (b ∷ bs) h = ap (λ l. b ∷ l) (fitting_all room bs (omega arith))

-- A call that returned a size delivered its message.
abbrev SentBy : Memory → SendArgs → Ptr → Kernel → Call → Type 0
SentBy mem a p k (returns (pos n) k') = Delivered mem a p k k'
SentBy mem a p k c = Unit {0}

Sends-SentBy :
    (mem : Memory) (a : SendArgs) (p : Ptr) (k : Kernel) (c : Call)
    → Sends mem a p k c
    → SentBy mem a p k c
Sends-SentBy mem a p k c (full f w) = tt
Sends-SentBy mem a p k c (waits f o w) = tt
Sends-SentBy mem a p k c (invalid f w) = tt
Sends-SentBy mem a p k c (sent f w m d) = d

-- What the receiver has got of what the sender sent.
pub record Arrived (mem : Memory) (a : SendArgs) (r : RecvArgs) (c : Receipt) : Type 0 where
  pub size : c.size ≡ a.size
  pub src : c.src ≡ a.src
  pub code : c.code ≡ a.code
  pub bytes : read_bytes c.memory r.msg a.size ≡ read_bytes mem a.msg a.size

receipt-Arrived :
    (mem mem' : Memory) (a : SendArgs) (r : RecvArgs)
    → a.size ≤ r.size
    → Arrived mem a r (receipt mem' r (message mem a))
receipt-Arrived mem mem' a r h =
    let bs = read_bytes mem a.msg a.size in
    let n = length-read_bytes mem a.msg a.size in
    let all = fitting_all r.size bs (ground (arith, n, h)) in
    record {
      size = ground (arith, n, h);
      src = refl;
      code = refl;
      bytes = rw all (
          subst (λ (l : ℕ). read_bytes (write_bytes mem' r.msg bs) r.msg l ≡ bs) n
            (read-write mem' r.msg bs));
    }

module _ (mem mem' : Memory) (a : SendArgs) (r : RecvArgs) (p : Ptr) (k k' l : Kernel)
    (target : send_target a.src a.dst k ≡ Target.port p) (v : IsScheduled k)
    (n : (p == k.run_queue) ≡ false) (c : CanWait k (k.port p).sendqueue)
    (done : port_send mem a k ≡ returns (pos a.size) k') (none_before : (k.port p).messages ≡ [])
    (kept : l.port p ≡ k'.port p) (may : MayReceive r p l) (room : a.size ≤ r.size) where
  -- Where port_send to an empty port has returned the size of its message, the scheduler's
  -- invariant held, the sender could have waited, the port is neither slaved nor the run queue, and
  -- in a later state the port is as port_send left it, a port_recv on it with its buffer in bounds
  -- and room for the message returns the size, the sender, the code and the bytes that were sent.
  pub recv-send :
      (g : Receipt) × (m : Kernel) × (port_recv mem' r l ≡ received g m) × Arrived mem a r g
  recv-send =
      let d : Delivered mem a p k k' =
        rw done at (Sends-SentBy mem a p k _ (port_send-Sends mem a p k target v n c)) in
      let first : (l.port p).messages ≡ message mem a ∷ [] =
        ground (arith, kept, d.messages, none_before) in
      (
        receipt mem' r (message mem a),
        unchain p [] l,
        entered mem' r p l may ∙ nonempty mem' r p l may (message mem a) [] first,
        receipt-Arrived mem mem' a r room,
      )
