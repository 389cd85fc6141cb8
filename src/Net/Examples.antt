-- ===== src/Net/Examples.antt =====
-- Two requests for the address 10.0.0.1, with three free mbufs.
use openblt.Prelude.{ℕ, ◌≡◌, refl, [], ◌∷◌}
use openblt.Net.{Net, Frame, EthDev, ArpPacket}
use openblt.Net.Order.{rounds, arrive, handle_all, rounds-handle_all}
use openblt.Net.Answers.{Drained, at_head, behind, rounds-Drained}

abbrev request : ArpPacket
request = record {
  dst = 255 ∷ 255 ∷ 255 ∷ 255 ∷ 255 ∷ 255 ∷ [];
  src = 2 ∷ 0 ∷ 0 ∷ 0 ∷ 0 ∷ 9 ∷ [];
  frame_type = 1544;
  hard_type = 256;
  prot_type = 8;
  hard_size = 6;
  prot_size = 4;
  op = 256;
  send_eth_addr = 2 ∷ 0 ∷ 0 ∷ 0 ∷ 0 ∷ 9 ∷ [];
  send_ip_addr = 10 ∷ 0 ∷ 0 ∷ 9 ∷ [];
  targ_eth_addr = 0 ∷ 0 ∷ 0 ∷ 0 ∷ 0 ∷ 0 ∷ [];
  targ_ip_addr = 10 ∷ 0 ∷ 0 ∷ 1 ∷ [];
}

abbrev card : EthDev
card = record { dev_num = 0; dev_addr = 2 ∷ 0 ∷ 0 ∷ 0 ∷ 0 ∷ 1 ∷ [] }

abbrev asked : ℕ → Frame
asked m = record { header_mbuf = m; data_mbuf = m; dev = card; packet = request }

abbrev small : Net
small = record {
  free_mbuf = 3 ∷ 4 ∷ 5 ∷ [];
  eth_input_queue = [];
  iflist = (10 ∷ 0 ∷ 0 ∷ 2 ∷ []) ∷ (10 ∷ 0 ∷ 0 ∷ 1 ∷ []) ∷ [];
  protlist = 1544 ∷ [];
  outputs = [];
}

rounds-handle_all_example :
    rounds 2 (arrive (asked 1 ∷ asked 2 ∷ []) small) ≡ handle_all (asked 1 ∷ asked 2 ∷ []) small
rounds-handle_all_example = rounds-handle_all (asked 1 ∷ asked 2 ∷ []) small refl

rounds-Drained_example :
    Drained small
      (asked 1 ∷ asked 2 ∷ [])
      (3 ∷ 4 ∷ 5 ∷ [])
      (rounds 2 (arrive (asked 1 ∷ asked 2 ∷ []) small))
rounds-Drained_example =
    rounds-Drained (asked 1 ∷ asked 2 ∷ []) small refl refl
      (behind at_head, refl, (behind at_head, refl, tt))
