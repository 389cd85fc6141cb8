-- ===== src/Net/Answers.antt =====
-- The answers of srv/network/protocol/arp, and the mbufs that they take.
use mathlib.Core.Option
use mathlib.Core.List.{append_assoc, append-nil, map-append}
use openblt.Prelude.{
  ℕ, ◌+◌, ◌*◌, ◌≤◌, ◌<◌, ◌≡◌, refl, sym, ap, ◌∙◌, Option, none, some, List, [], ◌∷◌, ◌++◌, map,
  length, arith, ==_refl, ==_eq, ◌==◌, Bool-cases, inl, inr, true,
}
use openblt.Net.{
  Net, Frame, Output, ArpPacket, arp_reply, same_addr, arp_found, arp_input, find_iface, handle,
}
use openblt.Net.Order.{handle_all, rounds, arrive, rounds-handle_all}

-- The interface with the address `a` is in the list.
pub data Registered (a : List ℕ) : List (List ℕ) → Type 0 where
  at_head : {is : List (List ℕ)} → Registered a (a ∷ is)
  behind : {i : List ℕ} {is : List (List ℕ)} → Registered a is → Registered a (i ∷ is)

-- Each frame is a packet of ARP (0x0806, its bytes swapped) that asks for the address of an interface.
abbrev pub AllOurs : List (List ℕ) → List Frame → Type 0
AllOurs ifs [] = Unit {0}
AllOurs ifs (f ∷ fs) =
    Registered f.packet.targ_ip_addr ifs × (f.packet.frame_type ≡ 1544) × AllOurs ifs fs

-- To the sender from the device, in Ethernet and ARP, that the address asked for is at the device: the fields of a reply
-- (operation 2) of Ethernet (1) and IP (0x0800), each with its bytes swapped.
abbrev pub reply_to : Frame → ℕ × ArpPacket
reply_to f = (
  f.dev.dev_num,
  record {
    dst = f.packet.src;
    src = f.dev.dev_addr;
    frame_type = 1544;
    hard_type = 256;
    prot_type = 8;
    hard_size = 6;
    prot_size = 4;
    op = 512;
    send_eth_addr = f.dev.dev_addr;
    send_ip_addr = f.packet.targ_ip_addr;
    targ_eth_addr = f.packet.src;
    targ_ip_addr = f.packet.send_ip_addr;
  },
)

abbrev pub replies : List Frame → List (ℕ × ArpPacket)
replies fs = map reply_to fs

-- The device and the packet of an output.
abbrev pub sent_by : Output → ℕ × ArpPacket
sent_by o = (o.out_num, o.out_packet)

-- The packets that were sent.
abbrev pub packets : Net → List (ℕ × ArpPacket)
packets net = map sent_by net.outputs

same_addr_refl : (a : List ℕ) → same_addr a a ≡ true
same_addr_refl [] = refl
same_addr_refl (x ∷ xs) = rw (==_refl x) (same_addr_refl xs)

same_addr_eq : (a b : List ℕ) → same_addr a b ≡ true → a ≡ b
same_addr_eq [] [] h = refl
same_addr_eq [] (y ∷ ys) h = absurd (ground (arith, h))
same_addr_eq (x ∷ xs) [] h = absurd (ground (arith, h))
same_addr_eq (x ∷ xs) (y ∷ ys) h = elim (Bool-cases (x == y)) [
  | inl e ↦ rw (==_eq x y e, same_addr_eq xs ys (ground (arith, h, e))) refl
  | inr e ↦ absurd (ground (arith, h, e))
]

-- The first interface with the address has that address.
find_iface-Registered :
    (a : List ℕ) (ifs : List (List ℕ)) → Registered a ifs → find_iface a ifs ≡ some a
find_iface-Registered a _ at_head = rw (same_addr_refl a) refl
find_iface-Registered a _ (behind {i = i} {is = is} h) = elim (Bool-cases (same_addr i a)) [
  | inl e ↦ rw e (ap some (same_addr_eq i a e))
  | inr e ↦ rw e (find_iface-Registered a is h)
]

-- The network after an answer to `f` in the mbufs `h` and `d`, with `ms` left.
abbrev after : Frame → List ℕ → ℕ → ℕ → List ℕ → Net → Net
after f a h d ms net = record net {
  free_mbuf = ms;
  outputs =
      net.outputs
      ++ record {
        out_num = f.dev.dev_num;
        out_header = h;
        out_data = d;
        out_packet = arp_reply a f;
      }
        ∷ [];
}

handle_ours :
    (f : Frame) (a : List ℕ) (net : Net)
    → find_iface f.packet.targ_ip_addr net.iflist ≡ some a
    → f.packet.frame_type ≡ 1544
    → handle f (1544 ∷ []) net ≡ arp_found f (some a) net
unfolding arp_input
handle_ours f a net found type = rw (type, found) refl

-- The same, where the only protocol is ARP.
handle_first :
    (f : Frame) (a : List ℕ) (net : Net)
    → find_iface f.packet.targ_ip_addr net.iflist ≡ some a
    → f.packet.frame_type ≡ 1544
    → net.protlist ≡ 1544 ∷ []
    → handle f net.protlist net ≡ arp_found f (some a) net
handle_first f a net found type p =
    ap (λ (ps : List ℕ). handle f ps net) p ∙ handle_ours f a net found type

answered :
    (f : Frame) (a : List ℕ) (h d : ℕ) (ms : List ℕ) (net : Net)
    → net.free_mbuf ≡ h ∷ d ∷ ms
    → arp_found f (some a) net ≡ some (after f a h d ms net)
unfolding Option.bind
answered f a h d ms net e = rw e refl

-- With less than two mbufs there is no answer.
starved_none :
    (f : Frame) (a : List ℕ) (net : Net) → net.free_mbuf ≡ [] → arp_found f (some a) net ≡ none
unfolding Option.bind
starved_none f a net e = rw e refl

starved_one :
    (f : Frame) (a : List ℕ) (h : ℕ) (net : Net)
    → net.free_mbuf ≡ h ∷ []
    → arp_found f (some a) net ≡ none
unfolding Option.bind
starved_one f a h net e = rw e refl

-- What the frames give with `ms` free mbufs.
pub data Drained (net : Net) (fs : List Frame) (ms : List ℕ) : Option Net → Type 0 where
  enough :
      (net' : Net)
      → 2 * length fs ≤ length ms
      → length net'.free_mbuf + 2 * length fs ≡ length ms
      → packets net' ≡ packets net ++ replies fs
      → Drained net fs ms (some net')
  starved : length ms < 2 * length fs → Drained net fs ms none

-- The address of the interface is the one that was asked for.
abbrev asked : Frame → List ℕ
asked f = f.packet.targ_ip_addr

Drained-next :
    (net : Net) (f : Frame) (fs : List Frame) (h d : ℕ) (ms : List ℕ) (r : Option Net)
    → Drained (after f (asked f) h d ms net) fs ms r
    → Drained net (f ∷ fs) (h ∷ d ∷ ms) r
Drained-next net f fs h d ms _ (enough net' room used sent) =
    enough net' (omega (arith, room)) (omega (arith, used)) (
      sent
      ∙ ap (λ (ps : List (ℕ × ArpPacket)). ps ++ replies fs) (map-append sent_by net.outputs _)
      ∙ append_assoc (packets net) (reply_to f ∷ []) (replies fs))
Drained-next net f fs h d ms _ (starved few) = starved (omega (arith, few))

handle_all-Drained :
    (fs : List Frame) (ms : List ℕ) (net : Net)
    → AllOurs net.iflist fs
    → net.protlist ≡ 1544 ∷ []
    → net.free_mbuf ≡ ms
    → Drained net fs ms (handle_all fs net)
unfolding handle_all Option.bind
handle_all-Drained [] ms net h p e =
    enough net (omega arith) (omega (arith, ap length e)) (sym (append-nil (packets net)))
handle_all-Drained (f ∷ fs) [] net h p e =
    let found = find_iface-Registered (asked f) net.iflist h.0 in
    rw (handle_first f (asked f) net found h.1 p, starved_none f (asked f) net e)
      (starved (omega arith))
handle_all-Drained (f ∷ fs) (m ∷ []) net h p e =
    let found = find_iface-Registered (asked f) net.iflist h.0 in
    rw (handle_first f (asked f) net found h.1 p, starved_one f (asked f) m net e)
      (starved (omega arith))
handle_all-Drained (f ∷ fs) (m ∷ d ∷ ms) net h p e =
    let found = find_iface-Registered (asked f) net.iflist h.0 in
    rw (handle_first f (asked f) net found h.1 p, answered f (asked f) m d ms net e)
      (Drained-next net f fs m d ms (handle_all fs (after f (asked f) m d ms net))
        (handle_all-Drained fs ms (after f (asked f) m d ms net) h.2 p refl))

-- Where the queue is empty, ARP is the only protocol and each frame is of ARP and asks for the
-- address of an interface, as many rounds as frames answer each frame in order, where there are two
-- free mbufs for each frame: on the device of the frame, to the sender of the request, a reply that
-- the address asked for is at the address of the device; and all of these mbufs are lost from the
-- free list. With fewer free mbufs the rounds end at NULL.
pub rounds-Drained :
    (fs : List Frame) (net : Net)
    → net.eth_input_queue ≡ []
    → net.protlist ≡ 1544 ∷ []
    → AllOurs net.iflist fs
    → Drained net fs net.free_mbuf (rounds (length fs) (arrive fs net))
rounds-Drained fs net q p h =
    rw (rounds-handle_all fs net q) (handle_all-Drained fs net.free_mbuf net h p refl)
