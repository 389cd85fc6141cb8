-- ===== src/Vfs/Main/Isolation.antt =====
-- What a command of one client in srv/vfs/vfs.c does to the others: nothing.
use mathlib.Core.Option
use openblt.Hash.{Load, hashtable_lookup}
use openblt.Hash.Cells.{IsHash, size_of}
use openblt.Hash.Rebuild.{Roomy}
use openblt.Prelude.{
  ℕ, ◌+◌, ◌<◌, ◌==◌, ◌≡◌, ◌≢◌, true, false, List, [], ◌∷◌, ◌++◌, Option, none, some,
}
use openblt.Vfs.Main.{Command, openconn, Sent, Serving, serve}

-- No message is for the port `j`.
abbrev pub NoneTo : ℕ → List Sent → Type 0
NoneTo j [] = Unit {0}
NoneTo j (m ∷ ms) = ((j == m.dst) ≡ false) × NoneTo j ms

-- The connections: the table is well formed, and no two ports have the same client.
pub record IsServing {W : Type 0} (s : Serving W) : Type 0 where
  pub well : IsHash s.conn_table
  pub apart :
      (j k p q d e : ℕ)
      → j ≢ k
      → hashtable_lookup s.conn_table j ≡ some (some (p, d))
      → hashtable_lookup s.conn_table k ≡ some (some (q, e))
      → p ≢ q

-- What a command needs: a port that connects is not connected, its client is at an address of no other, as malloc gives
-- it, and the table has room for it, before or after it is rebuilt.
pub record MayConnect {W : Type 0} (load : Load) (src ptr : ℕ) (s : Serving W) : Type 0 where
  pub new : hashtable_lookup s.conn_table src ≡ some none
  pub fresh : (j p d : ℕ) → hashtable_lookup s.conn_table j ≡ some (some (p, d)) → p ≢ ptr
  pub space :
      load.over s.conn_table.used (size_of s.conn_table) ≡ false
      → s.conn_table.used + 1 < size_of s.conn_table
  pub room :
      load.over s.conn_table.used (size_of s.conn_table) ≡ true
      → Roomy load s.conn_table (s.conn_table.size_index + 1)

abbrev pub MayServe : {W : Type 0} → Load → ℕ → Command → Serving W → Type 0
MayServe load src (openconn area port nameptr ptr) s = MayConnect load src ptr s
MayServe load src cmd s = Unit {0}

-- Rounds of vfs_main for messages, each with the port that it is from: what is sent, and the state at the end.
pub data Rounds {W : Type 0} (load : Load) (port : ℕ)
    : List (ℕ × Command) → Serving W → List Sent → Serving W → Type 0 where
  done : {s : Serving W} → Rounds load port [] s [] s
  next :
      {src : ℕ} {cmd : Command} {ms : List (ℕ × Command)} {s s' s'' : Serving W}
      {now later : List Sent}
      → MayServe load src cmd s
      → serve load port src cmd s ≡ some (now, s')
      → Rounds load port ms s' later s''
      → Rounds load port ((src, cmd) ∷ ms) s (now ++ later) s''

abbrev pub NoneFrom : ℕ → List (ℕ × Command) → Type 0
NoneFrom j [] = Unit {0}
NoneFrom j (m ∷ ms) = ((j == m.0) ≡ false) × NoneFrom j ms

-- The port `j` was sent nothing, and has the client that it had, at the same address and as it was.
pub record Isolated {W : Type 0} (j : ℕ) (s : Serving W) (sent : List Sent) (s' : Serving W)
    : Type 0 where
  pub silent : NoneTo j sent
  pub entry : hashtable_lookup s'.conn_table j ≡ hashtable_lookup s.conn_table j
  pub kept :
      (p d : ℕ) → hashtable_lookup s.conn_table j ≡ some (some (p, d)) → s'.clients p ≡ s.clients p

-- After a round, the connections are well formed and those of all other ports are as before.
module _ {W : Type 0} (src : ℕ) (s : Serving W) where
  record Round (sent : List Sent) (s' : Serving W) : Type 0 where
    well : IsServing s'
    isolated : (j : ℕ) → (j == src) ≡ false → Isolated j s sent s'

  AllRound : Option (List Sent × Serving W) → Type 0
  AllRound none = Unit {0}
  AllRound (some r) = Round r.0 r.1
