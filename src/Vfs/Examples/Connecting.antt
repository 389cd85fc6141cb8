-- ===== src/Vfs/Examples/Connecting.antt =====
-- The rounds of vfs_main in which a port connects and opens a directory while another is connected.
use mathlib.Core.Option
use openblt.Prelude.{List, [], ◌∷◌, none, some, update, ◌*◌, ltb}
use openblt.Vfs.Vnode.{dirent_for, directory}
use openblt.Vfs.Rootfs.Names.{vnode_of}
use openblt.Vfs.Server.{Client, answered}
use openblt.Vfs.Server.Calls.{new_ofile, install}
use openblt.Vfs.Drivers.{World}
use openblt.Vfs.Main.{Serving, Command, openconn, opendir, Answer, Sent, answer, plain_answer}
use openblt.Hash.{Load, HashTable, store, cleared}
use openblt.Vfs.Examples.{server, client, reader, shared, listed}

-- A load of three quarters.
abbrev three_quarters : Load
three_quarters = record {
  over = λ n size. ltb (3 * size) (4 * n);
  stale = λ n size. ltb size (4 * n);
}

-- The port 9 is connected, with its client at the address 500; then the port 3, with its client at 700.
abbrev one_port : HashTable
one_port = store (cleared 0) 2 9 500 1044

abbrev two_ports : HashTable
two_ports = store one_port 3 3 700 1044

abbrev serving : Serving World
serving = record { vfs = server; conn_table = one_port; clients = λ p. reader }

-- The port 3 connects and opens the root directory, while the port 9 is connected.
abbrev connecting : Command
connecting = openconn 6 4 4096 700

abbrev opening : Command
opening = opendir (b'/' ∷ []) (b'/' ∷ 0 ∷ []) shared

abbrev connected : Serving World
connected = record serving { conn_table = two_ports; clients = update serving.clients 700 client }

abbrev greeting : List Sent
greeting = record { src = 2; dst = 3; payload = answer (plain_answer (answered 0 (some 4))) } ∷ []

abbrev reply : Answer
reply = record {
  res = answered 0 (some 0);
  listing = some (record {
    dirents = dirent_for 1 (b'.' ∷ b'.' ∷ []) ∷ dirent_for 0 (b'.' ∷ []) ∷ [];
    numents = 2;
    more = 0;
    cookie = directory (dirent_for 1 (b'.' ∷ b'.' ∷ []) ∷ dirent_for 0 (b'.' ∷ []) ∷ []) [];
  });
  stat = none;
}

abbrev replies : List Sent
replies = record { src = 4; dst = 3; payload = answer reply } ∷ []

abbrev read_through : Client
read_through =
    let ds = dirent_for 1 (b'.' ∷ b'.' ∷ []) ∷ dirent_for 0 (b'.' ∷ []) ∷ [] in
    install 0 (some (new_ofile (vnode_of 1 0) (some (directory ds [])) shared none)) listed

abbrev served_once : Serving World
served_once = record connected { clients = update connected.clients 700 read_through }
