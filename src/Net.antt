-- ===== src/Net.antt =====
-- srv/network: the queue of frames that came, the protocols, and the answers of ARP.
--
-- A frame is in two mbufs, a header that points to the device and one with the packet, which are known by numbers; the
-- fields of an address are its bytes. `none` says that the code waits, or follows NULL.
pub mod Answers
pub mod Order
mod Examples
use mathlib.Core.Option
use openblt.Prelude.{
  ℕ, ◌+◌, ◌*◌, ◌/◌, ◌%◌, ◌==◌, ◌&&◌, Bool, true, false, Option, none, some, List, [], ◌∷◌, ◌++◌,
  if◌then◌else◌,
}

-- arp_packet
pub record ArpPacket : Type 0 where
  pub dst : List ℕ
  pub src : List ℕ
  pub frame_type : ℕ
  pub hard_type : ℕ
  pub prot_type : ℕ
  pub hard_size : ℕ
  pub prot_size : ℕ
  pub op : ℕ
  pub send_eth_addr : List ℕ
  pub send_ip_addr : List ℕ
  pub targ_eth_addr : List ℕ
  pub targ_ip_addr : List ℕ

-- eth_dev_t
pub record EthDev : Type 0 where
  pub dev_num : ℕ
  pub dev_addr : List ℕ

-- A frame that came: its mbufs, its device and its packet.
pub record Frame : Type 0 where
  pub header_mbuf : ℕ
  pub data_mbuf : ℕ
  pub dev : EthDev
  pub packet : ArpPacket

-- A call of dev_driver->output: the device, the mbufs and the packet.
pub record Output : Type 0 where
  pub out_num : ℕ
  pub out_header : ℕ
  pub out_data : ℕ
  pub out_packet : ArpPacket

-- iflist has the addresses of the interfaces, and protlist the numbers of the protocols.
pub record Net : Type 0 where
  pub free_mbuf : List ℕ
  pub eth_input_queue : List Frame
  pub iflist : List (List ℕ)
  pub protlist : List ℕ
  pub outputs : List Output

abbrev pub taken : List ℕ → Net → Option (ℕ × Net)
taken [] net = none
taken (m ∷ ms) net = some (m, record net { free_mbuf = ms })

-- The mbuf; without a free one, the code follows NULL.
abbrev pub mget : Net → Option (ℕ × Net)
mget net = taken net.free_mbuf net

-- mbuf->m_next = free_mbuf; free_mbuf = mbuf->m_next, which leaves the free list as it is.
abbrev pub mput : ℕ → Net → Net
mput mbuf net = net

-- !memcmp (s, t, 4), for addresses of that length.
abbrev pub same_addr : List ℕ → List ℕ → Bool
same_addr [] [] = true
same_addr [] (y ∷ ys) = false
same_addr (x ∷ xs) [] = false
same_addr (x ∷ xs) (y ∷ ys) = (x == y) && same_addr xs ys

abbrev pub find_iface : List ℕ → List (List ℕ) → Option (List ℕ)
find_iface addr [] = none
find_iface addr (i ∷ is) = if same_addr i addr then some i else find_iface addr is

abbrev pub register_eth_protocol : ℕ → Net → Net
register_eth_protocol num net = record net { protlist = num ∷ net.protlist }

-- The frame is behind the others.
abbrev pub eth_input : Frame → Net → Net
eth_input f net = record net { eth_input_queue = net.eth_input_queue ++ f ∷ [] }

-- A word of 16 bits with its bytes swapped.
abbrev pub htons : ℕ → ℕ
htons n = n / 256 % 256 + n % 256 * 256

-- The reply for the interface of the address `addr`.
abbrev pub arp_reply : List ℕ → Frame → ArpPacket
arp_reply addr f = record {
  dst = f.packet.src;
  src = f.dev.dev_addr;
  frame_type = htons 2054;
  hard_type = htons 1;
  prot_type = htons 2048;
  hard_size = 6;
  prot_size = 4;
  op = htons 2;
  send_eth_addr = f.dev.dev_addr;
  send_ip_addr = addr;
  targ_eth_addr = f.packet.src;
  targ_ip_addr = f.packet.send_ip_addr;
}

abbrev pub send_reply : Frame → List ℕ → ℕ → ℕ → Net → Net
send_reply f addr header data_mbuf net = mput f.header_mbuf (
    mput f.data_mbuf (record net {
      outputs =
          net.outputs
          ++ record {
            out_num = f.dev.dev_num;
            out_header = header;
            out_data = data_mbuf;
            out_packet = arp_reply addr f;
          }
            ∷ [];
    }))

abbrev pub arp_found : Frame → Option (List ℕ) → Net → Option Net
arp_found f none net = some net
arp_found f (some addr) net =
    Option.bind (mget net)
      (λ (h : ℕ × Net). Option.map (λ (d : ℕ × Net). send_reply f addr h.0 d.0 d.1) (mget h.1))

-- The operation of the packet is not looked at.
pub arp_input : Frame → Net → Option Net
unfolding Option.bind
arp_input f net = arp_found f (find_iface f.packet.targ_ip_addr net.iflist) net

-- The search of the protocols; only arp.c registers one.
abbrev pub handle : Frame → List ℕ → Net → Option Net
handle f [] net = some net
handle f (num ∷ nums) net =
    let rest = handle f nums net in
    if num == f.packet.frame_type then if num == htons 2054 then arp_input f net else none else rest

-- A round of eth_input_thread, which waits for a frame.
abbrev pub take_frame : List Frame → Net → Option Net
take_frame [] net = none
take_frame (f ∷ fs) net = handle f net.protlist (record net { eth_input_queue = fs })

pub eth_input_round : Net → Option Net
unfolding arp_input
eth_input_round net = take_frame net.eth_input_queue net
