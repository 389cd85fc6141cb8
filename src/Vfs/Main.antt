-- ===== src/Vfs/Main.antt =====
-- srv/vfs/vfs.c: the loop of vfs_main, one command at a time.
--
-- The table of the connections maps a port to the address of a client, and the clients are in memory, by their
-- addresses. `none` says that the code follows NULL, reads what was not set, sends a result that it has freed, or, where
-- a port connects, that a rebuild of the table would need another inside it.
pub mod Isolation
pub mod Pieces
use mathlib.Core.Option
use openblt.Prelude.{
  ℕ, ℤ, pos, negsuc, ◌+◌, ◌-◌, ◌^◌, ◌==◌, ltb, Option, none, some, List, [], ◌∷◌, map,
  if◌then◌else◌, update, zero, suc, length, take, drop, pos_part,
}
use openblt.Hash.{HashTable, Load, hashtable_insert, hashtable_lookup}
use openblt.Vfs.Vnode.{Stat, Cookie, VnodeOps}
use openblt.Vfs.Shm.{Listed, shm_write_dir}
use openblt.Vfs.Server.{Vfs, Client, Ofile, VfsRes, vfs_ok, ofile_at, vfs_openconn, vfs_mkdir}
use openblt.Vfs.Server.Calls.{
  Shared, install, vfs_opendir, vfs_closedir, vfs_scroll_area, vfs_open, vfs_close, vfs_read,
  vfs_rstat,
}

-- The commands, with the strings that they name and what the calls return: the area, the private port, the address of
-- the names and that of the new client for a connection, the buffer for a directory, and what res->errno holds for closing one.
pub data Command : Type 0 where
  openconn : ℕ → ℕ → ℕ → ℕ → Command
  scroll_area : ℕ → Command
  opendir : List ℕ → List ℕ → Shared → Command
  closedir : ℕ → ℕ → Command
  open_file : List ℕ → Shared → Command
  close : ℕ → Command
  read : ℕ → ℕ → Command
  rstat : List ℕ → Command
  mkdir : List ℕ → Command

-- The first message of an answer: the result, with the listing of a directory or the state of a file behind it.
pub record Answer : Type 0 where
  pub res : VfsRes
  pub listing : Option Listed
  pub stat : Option Stat

pub data Payload : Type 0 where
  answer : Answer → Payload
  bytes : List ℕ → Payload

pub record Sent : Type 0 where
  pub src : ℕ
  pub dst : ℕ
  pub payload : Payload

pub record Serving (W : Type 0) : Type 0 where
  pub vfs : Vfs W
  pub conn_table : HashTable
  pub clients : ℕ → Client

-- What a command gives: the answer, the data behind it, the client and the file systems.
pub record Done (W : Type 0) : Type 0 where
  pub reply : Answer
  pub data_sent : Option (List ℕ)
  pub client : Client
  pub state : Vfs W

abbrev pub plain_answer : VfsRes → Answer
plain_answer res = record { res = res; listing = none; stat = none }

-- for (i = 0; len > 0x1000; ...) and the last piece, where `n` pieces are enough.
abbrev pub pieces : ℕ → ℕ → List ℕ → List (List ℕ)
pieces page zero bs = bs ∷ []
pieces page (suc n) bs =
    let rest = pieces page n (drop page bs) in
    if ltb page (length bs) then take page bs ∷ rest else bs ∷ []

-- An int as the unsigned int of a status.
abbrev pub word_of : ℤ → ℕ
word_of (pos n) = n
word_of (negsuc n) = 2 ^ 32 - (n + 1)

-- The messages for the data.
abbrev pub split : List ℕ → List (List ℕ)
split bs = if ltb (length bs) 4096 then bs ∷ [] else pieces 4096 (length bs) bs

abbrev pub data_messages : ℕ → ℕ → Option (List ℕ) → List Sent
data_messages src dst none = []
data_messages src dst (some bs) =
    map (λ (b : List ℕ). record { src = src; dst = dst; payload = bytes b }) (split bs)

abbrev pub all_messages : ℕ → ℕ → Answer → Option (List ℕ) → List Sent
all_messages src dst a d =
    record { src = src; dst = dst; payload = answer a } ∷ data_messages src dst d

-- Only a read that came to the file system has data to send.
abbrev pub data_of : VfsRes → List ℕ → Option (List ℕ)
data_of res bs = Option.map (λ (n : ℕ). bs) res.data0

-- sizeof (struct client)
abbrev pub sizeof_client : ℕ
sizeof_client = 1044

module _ {W : Type 0} where
  -- The listing of a directory that was opened.
  abbrev pub with_listing : VfsRes → Vfs W → Client → ℕ → Ofile → Option (Done W)
  with_listing res v client fd o =
      let ops = (v.supers o.o_vnode.v_sb).sb_vops in
      Option.bind o.o_cookie (λ (c : Cookie).
        Option.map
          (λ (l : Listed). record {
            reply = record { res = res; listing = some l; stat = none };
            data_sent = none;
            client = install fd (some (record o { o_cookie = some l.cookie })) client;
            state = v;
          })
          (shm_write_dir ops.rewinddir ops.readdir 0 o.len c))

  -- case VFS_OPENDIR, after vfs_opendir
  abbrev pub opendir_done : Vfs W → VfsRes × Client → Option (Done W)
  opendir_done v (res, client) =
      if res.status == vfs_ok
      then Option.bind res.data0 (λ (fd : ℕ).
        Option.bind (client.ofile fd) (λ (o : Ofile). with_listing res v client fd o))
      else some (record { reply = plain_answer res; data_sent = none; client = client; state = v })

  -- The switch, for a client that is connected. The result of mkdir is the status.
  unfoldable pub dispatch : Command → Vfs W → Client → Option (Done W)
  unfolding Option.bind
  dispatch (openconn area port nameptr ptr) v client = none
  dispatch (scroll_area fd) v client =
      Option.map
        (λ (res : VfsRes). record {
          reply = plain_answer res;
          data_sent = none;
          client = client;
          state = v;
        })
        (vfs_scroll_area fd client)
  dispatch (opendir reldir buffer shared) v client =
      Option.bind (vfs_opendir reldir buffer shared v client)
        (λ (r : VfsRes × Client). opendir_done v r)
  dispatch (closedir errno fd) v client =
      Option.map
        (λ (r : VfsRes × Client × Vfs W). record {
          reply = plain_answer r.0;
          data_sent = none;
          client = r.1;
          state = r.2;
        })
        (vfs_closedir errno fd v client)
  dispatch (open_file path shared) v client =
      Option.map
        (λ (r : VfsRes × Client). record {
          reply = plain_answer r.0;
          data_sent = none;
          client = r.1;
          state = v;
        })
        (vfs_open path shared v client)
  dispatch (close fd) v client =
      Option.map
        (λ (r : VfsRes × Vfs W). record {
          reply = plain_answer r.0;
          data_sent = none;
          client = client;
          state = r.1;
        })
        (vfs_close fd v client)
  dispatch (read fd count) v client =
      Option.map
        (λ (r : VfsRes × List ℕ × Client). record {
          reply = plain_answer r.0;
          data_sent = data_of r.0 r.1;
          client = r.2;
          state = v;
        })
        (vfs_read fd count v client)
  dispatch (rstat path) v client =
      Option.map
        (λ (r : VfsRes × Option Stat). record {
          reply = record { res = r.0; listing = none; stat = r.1 };
          data_sent = none;
          client = client;
          state = v;
        })
        (vfs_rstat path v)
  dispatch (mkdir dir) v client =
      Option.map
        (λ (r : ℤ × Vfs W). record {
          reply = plain_answer (record { status = word_of r.0; errno = 0; data0 = none });
          data_sent = none;
          client = client;
          state = r.1;
        })
        (vfs_mkdir dir v)

  -- What is sent, and the state for the next command; the client at `ptr` is changed in place.
  abbrev pub served : ℕ → ℕ → Serving W → Done W → List Sent × Serving W
  served src ptr s d = (
    all_messages (s.clients ptr).output src d.reply d.data_sent,
    record s { vfs = d.state; clients = update s.clients ptr d.client },
  )

  -- For the entry of the port, its address and its size.
  abbrev pub serve_client :
      ℕ → Command → Option (ℕ × ℕ) → Serving W → Option (List Sent × Serving W)
  serve_client src cmd none s = none
  serve_client src cmd (some (ptr, dsize)) s =
      Option.map (served src ptr s) (dispatch cmd s.vfs (s.clients ptr))

  -- A round of the loop, for a message from the port `src`.
  unfoldable pub serve : Load → ℕ → ℕ → Command → Serving W → Option (List Sent × Serving W)
  unfolding dispatch Option.bind
  serve load vfs_port src (openconn area port nameptr ptr) s =
      let (res, client) = vfs_openconn src area port nameptr in
      Option.map
        (λ (t : HashTable). (
          all_messages vfs_port src (plain_answer res) none,
          record s { conn_table = t; clients = update s.clients ptr client },
        ))
        (hashtable_insert load 2 src ptr sizeof_client s.conn_table)
  serve load vfs_port src cmd s =
      Option.bind (hashtable_lookup s.conn_table src)
        (λ (e : Option (ℕ × ℕ)). serve_client src cmd e s)
