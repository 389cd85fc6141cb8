-- ===== src/Net/Order.antt =====
-- The order in which srv/network handles the frames that came.
use mathlib.Core.Option
use mathlib.Core.List.{append-nil, append_assoc}
use openblt.Prelude.{
  ℕ, zero, suc, ◌==◌, ◌≡◌, refl, sym, ap, ◌∙◌, Option, none, some, List, [], ◌∷◌, ◌++◌, length,
  Bool-cases, inl, inr,
}
use openblt.Net.{
  Net, Frame, htons, taken, mget, send_reply, arp_found, arp_input, find_iface, handle, eth_input,
  eth_input_round,
}

abbrev pub with_queue : List Frame → Net → Net
with_queue fs net = record net { eth_input_queue = fs }

-- The frames come, one after the other.
abbrev pub arrive : List Frame → Net → Net
arrive [] net = net
arrive (f ∷ fs) net = arrive fs (eth_input f net)

-- Rounds of eth_input_thread.
unfoldable pub rounds : ℕ → Net → Option Net
unfolding eth_input_round Option.bind
rounds zero net = some net
rounds (suc n) net = Option.bind (eth_input_round net) (rounds n)

-- The frames handled one after the other, without a queue.
unfoldable pub handle_all : List Frame → Net → Option Net
unfolding arp_input Option.bind
handle_all [] net = some net
handle_all (f ∷ fs) net = Option.bind (handle f net.protlist net) (handle_all fs)

arrive-queue :
    (fs : List Frame) (net : Net) → arrive fs net ≡ with_queue (net.eth_input_queue ++ fs) net
arrive-queue [] net =
    ap (λ (q : List Frame). with_queue q net) (sym (append-nil net.eth_input_queue))
arrive-queue (f ∷ fs) net =
    arrive-queue fs (eth_input f net)
    ∙ ap (λ (q : List Frame). with_queue q net) (append_assoc net.eth_input_queue (f ∷ []) fs)

-- Handling a frame neither looks at the queue nor changes it, and keeps the protocols.
abbrev Alike : List Frame → List ℕ → Option Net → Option Net → Type 0
Alike q ps none none = Unit {0}
Alike q ps none (some n) = ⊥
Alike q ps (some m) none = ⊥
Alike q ps (some m) (some n) = (m ≡ with_queue q n) × (n.protlist ≡ ps)

taken-Alike :
    (f : Frame) (addr : List ℕ) (net : Net) (q : List Frame) (h : ℕ) (ms : List ℕ)
    → Alike q net.protlist
        (Option.map (λ (d : ℕ × Net). send_reply f addr h d.0 d.1) (taken ms (with_queue q net)))
        (Option.map (λ (d : ℕ × Net). send_reply f addr h d.0 d.1) (taken ms net))
taken-Alike f addr net q h [] = tt
taken-Alike f addr net q h (m ∷ ms) = (refl, refl)

found-Alike :
    (f : Frame) (addr : List ℕ) (net : Net) (q : List Frame) (ms : List ℕ)
    → Alike q net.protlist
        (Option.bind
          (taken ms (with_queue q net))
          (λ (h : ℕ × Net). Option.map (λ (d : ℕ × Net). send_reply f addr h.0 d.0 d.1) (mget h.1)))
        (Option.bind
          (taken ms net)
          (λ (h : ℕ × Net). Option.map (λ (d : ℕ × Net). send_reply f addr h.0 d.0 d.1) (mget h.1)))
unfolding Option.bind
found-Alike f addr net q [] = tt
found-Alike f addr net q (m ∷ ms) = taken-Alike f addr (record net { free_mbuf = ms }) q m ms

arp_found-Alike :
    (f : Frame) (m : Option (List ℕ)) (net : Net) (q : List Frame)
    → Alike q net.protlist (arp_found f m (with_queue q net)) (arp_found f m net)
arp_found-Alike f none net q = (refl, refl)
arp_found-Alike f (some addr) net q = found-Alike f addr net q net.free_mbuf

handle-Alike :
    (f : Frame) (nums : List ℕ) (net : Net) (q : List Frame)
    → Alike q net.protlist (handle f nums (with_queue q net)) (handle f nums net)
unfolding arp_input
handle-Alike f [] net q = (refl, refl)
handle-Alike f (num ∷ nums) net q = elim (Bool-cases (num == f.packet.frame_type)) [
  | inl e ↦ elim (Bool-cases (num == htons 2054)) [
    | inl a ↦ rw (e, a) (arp_found-Alike f (find_iface f.packet.targ_ip_addr net.iflist) net q)
    | inr a ↦ rw (e, a) tt
  ]
  | inr e ↦ rw e (handle-Alike f nums net q)
]

-- A round with a queue behind it, and the frame handled without one, go on alike.
rounds-then :
    (fs : List Frame) (k : ℕ) (ps : List ℕ) (x y z : Option Net)
    → Alike fs ps x z
    → Alike [] ps y z
    → ((n : Net) → rounds k (with_queue fs n) ≡ handle_all fs (with_queue [] n))
    → Option.bind x (rounds k) ≡ Option.bind y (handle_all fs)
unfolding Option.bind
rounds-then fs k ps none none none h g e = refl
rounds-then fs k ps (some x) y none h g e = absurd h
rounds-then fs k ps none (some y) none h g e = absurd g
rounds-then fs k ps none y (some z) h g e = absurd h
rounds-then fs k ps (some x) none (some z) h g e = absurd g
rounds-then fs k ps (some x) (some y) (some z) h g e =
    ap (rounds k) h.0 ∙ e z ∙ ap (handle_all fs) (sym g.0)

rounds-queue :
    (fs : List Frame) (net : Net)
    → rounds (length fs) (with_queue fs net) ≡ handle_all fs (with_queue [] net)
unfolding rounds eth_input_round handle_all
rounds-queue [] net = refl
rounds-queue (f ∷ fs) net =
    rounds-then fs (length fs) net.protlist (handle f net.protlist (with_queue fs net))
      (handle f net.protlist (with_queue [] net)) (handle f net.protlist net)
      (handle-Alike f net.protlist net fs) (handle-Alike f net.protlist net []) (rounds-queue fs)

-- Frames that eth_input puts on an empty queue, and then as many rounds of eth_input_thread, do
-- what handling each frame at once does, in the order in which they came, and fail where it fails.
pub rounds-handle_all :
    (fs : List Frame) (net : Net)
    → net.eth_input_queue ≡ []
    → rounds (length fs) (arrive fs net) ≡ handle_all fs net
rounds-handle_all fs net h =
    ap (rounds (length fs))
      (arrive-queue fs net ∙ ap (λ (q : List Frame). with_queue (q ++ fs) net) h)
    ∙ rounds-queue fs net
    ∙ ap (λ (q : List Frame). handle_all fs (with_queue q net)) (sym h)
