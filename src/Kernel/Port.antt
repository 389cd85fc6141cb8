-- ===== src/Kernel/Port.antt =====
-- kernel/port.c: ports, which hold the messages that are sent to them, at most 16, until a task receives.
--
-- The buffers of the messages are values here: the pools that port_send takes them from and port_recv
-- gives them back to are not modelled.
pub mod Transfer
pub mod Delivery
pub mod Destruction
pub mod Reception
pub mod Roundtrip
use mathlib.Core.Option
use openblt.Prelude.{
  ℕ, zero, suc, ◌+◌, ◌-◌, ◌==◌, Bool, true, false, not, ◌&&◌, ◌||◌, Option, none, some, List, [],
  ◌∷◌, ◌++◌, if◌then◌else◌, ltb, leb, update, length, ℤ, pos, ◌+ℤ◌, ◌-ℤ◌, is_nonzero, eq_ℤ,
}
use openblt.Kernel.Call.{Call, returns, blocks, stops, blocking}
use openblt.Kernel.State.{
  Ptr, null, err_none, err_permission, err_resource, err_memory, err_sendport, err_recvport,
  err_would_block, rsrc_port, rsrc_queue, Message, Port, Kernel,
}
use openblt.Kernel.Queue.{wait_on, wait_result, wake_first}
use openblt.Kernel.Resource.{rsrc_find, rsrc_bind, rsrc_release, rsrc_set_name}

abbrev pub max_msgcount : ℕ
max_msgcount = 16

abbrev pub user_limit : ℕ
user_limit = 0x400000

abbrev pub max_size : ℕ
max_size = 4096

abbrev pub port_opt_nowait : ℕ
port_opt_nowait = 1

abbrev pub port_opt_setrestrict : ℕ
port_opt_setrestrict = 2

abbrev pub port_opt_slave : ℕ
port_opt_slave = 4

abbrev pub set_port : Ptr → Port → Kernel → Kernel
set_port p d k = record k { port = update k.port p d }

abbrev pub owner_of_current : Kernel → Ptr
owner_of_current k = (k.rsrc k.current).owner

-- `p` and `q` are the port and the resource of its send queue that kmalloc returned. The queue is
-- named after the port, and the text that snprintf makes is not used.
pub port_create : Ptr → Ptr → ℕ → Option (List ℕ) → Kernel → Option (Kernel × ℕ)
port_create p q restrict name k =
    let fresh : Port = record {
      msgcount = 0;
      slaved = 0;
      messages = [];
      refcount = pos 1;
      nowait = 0;
      restrict = restrict;
      sendqueue = q;
    } in
    let k1 = set_port p fresh k in
    elim (rsrc_bind p rsrc_port (owner_of_current k1) k1) [
      | none ↦ none
      | some k2 ↦ elim (rsrc_bind q rsrc_queue (owner_of_current k2) k2) [
        | none ↦ none
        | some k3 ↦
            let k4 = rsrc_set_name q name (rsrc_set_name p name k3) in some (k4, (k4.rsrc p).id)
      ]
    ]

pub port_destroy : ℕ → Kernel → Call
port_destroy id k = elim (rsrc_find rsrc_port id k) [
  | none ↦ returns err_resource k
  | some p ↦
      if eq_ℤ (k.port p).refcount (pos 1)
      then elim (rsrc_release p k) [
        | none ↦ stops
        | some k1 ↦ elim (rsrc_release (k1.port p).sendqueue k1) [
          | none ↦ stops
          | some k2 ↦ returns err_none k2
        ]
      ]
      else returns err_resource k
]

abbrev add_ref : ℤ → Ptr → Kernel → Kernel
add_ref n p k = let d = k.port p in set_port p (record d { refcount = d.refcount +ℤ n }) k

-- The old master loses a reference; `none` is the panic where it is not found.
release_master : Ptr → Kernel → Option Kernel
release_master p k =
    if (k.port p).slaved == 0
    then some k
    else Option.map
        (λ m. (let d = k.port m in set_port m (record d { refcount = d.refcount -ℤ pos 1 }) k))
        (rsrc_find rsrc_port (k.port p).slaved k)

abbrev slave_to : Ptr → ℕ → Option Kernel → Call
slave_to p arg none = stops
slave_to p arg (some k) =
    let d = k.port p in returns err_none (set_port p (record d { slaved = arg }) k)

pub port_slave : Ptr → ℕ → Kernel → Call
unfolding release_master
port_slave p arg k =
    if arg == 0 then slave_to p arg (release_master p k) else elim (rsrc_find rsrc_port arg k) [
      | none ↦ returns err_resource k
      | some m ↦
          if not ((k.rsrc m).owner == owner_of_current k)
          then returns err_permission k
          else slave_to p arg (release_master p (add_ref (pos 1) m k))
    ]

pub port_option : ℕ → ℕ → ℕ → Kernel → Call
port_option id opt arg k = elim (rsrc_find rsrc_port id k) [
  | none ↦ returns err_resource k
  | some p ↦
      let d = k.port p in
      if not ((k.rsrc p).owner == owner_of_current k)
      then returns err_permission k
      else if opt == port_opt_setrestrict
      then returns err_none (set_port p (record d { restrict = arg }) k)
      else if opt == port_opt_slave
      then port_slave p arg k
      else if opt == port_opt_nowait
      then returns err_none (set_port p (record d { nowait = arg }) k)
      else returns err_permission k
]
