-- ===== src/Node/Peers.antt =====
-- src/node.rs: `connect`, the task of `start` that reconnects to the stored peers, and the end of
-- `start`, which stores the connected ones.
pub mod Connect
pub mod Restart
use ln_node.Prelude.{
  ℕ, suc, Bool, true, false, ◌||◌, Option, none, some, List, [], ◌∷◌, Result, ok, err, ◌>>=◌, ◌==◌,
  nat_eq, list_eq, if◌then◌else◌,
}
use ln_node.Kv.{Bytes, KvStore, IoError}
use ln_node.Storage.{PublicKey, PeerInfo, SocketAddress, tcp_ip_v4, tcp_ip_v6, other_address}
use ln_node.Storage.Codec.{Formats}
use ln_node.Storage.Store.{add_peer, list_peers}

-- LDK's `PeerDetails`, by the fields that are read.
pub record PeerDetails : Type 0 where
  pub counterparty_node_id : PublicKey
  pub socket_address : Option SocketAddress

-- std's `SocketAddr`.
pub data SocketAddr : Type 0 where
  v4 v6 : Bytes → ℕ → SocketAddr

-- One round of the `select!` in `connect`: the connection was closed, or 10 ms passed, after which
-- the peer manager lists these peers.
pub data Tick : Type 0 where
  closed : Tick
  slept : List PeerDetails → Tick

pub data ConnectError : Type 0 where
  connection_closed connection_timed_out : ConnectError

-- `iter().any(…)`
unfoldable pub is_listed : PublicKey → List PeerDetails → Bool
is_listed k [] = false
is_listed k (peer ∷ peers) = peer.counterparty_node_id == k || is_listed k peers

-- The `loop` of `connect`; `none` while it still waits when the rounds end.
unfoldable pub await_peer : PublicKey → List Tick → Option (Result ConnectError (Unit {0}))
await_peer k [] = none
await_peer k (closed ∷ ticks) = some (err connection_closed)
await_peer k (slept peers ∷ ticks) =
    let rest = await_peer k ticks in if is_listed k peers then some (ok tt) else rest

-- What `connect_outbound` gives: a connection, with the rounds that follow, or none.
abbrev pub Outbound : Type 0
Outbound = PublicKey → SocketAddr → Option (List Tick)

unfoldable pub connect : Outbound → PublicKey → SocketAddr → Option (Result ConnectError (Unit {0}))
unfolding await_peer
connect outbound peer_pubkey peer_addr = elim (outbound peer_pubkey peer_addr) [
  | none ↦ some (err connection_timed_out)
  | some ticks ↦ await_peer peer_pubkey ticks
]

abbrev pub socket_addr : SocketAddress → Option SocketAddr
socket_addr (tcp_ip_v4 addr port) = some (v4 addr port)
socket_addr (tcp_ip_v6 addr port) = some (v6 addr port)
socket_addr (other_address _) = none

-- `Node::connect_to_peer`
abbrev pub connect_to_peer :
    Outbound → PublicKey → SocketAddr → Option (Result ConnectError (Unit {0}))
connect_to_peer = connect

-- The calls of `connect` that the loop makes, with what each gave; it waits in a call that does
-- not return. `outbound n` is the network at the n-th call.
abbrev pub Attempt : Type 0
Attempt = PublicKey × SocketAddr × Option (Result ConnectError (Unit {0}))

unfoldable pub reconnect : (ℕ → Outbound) → ℕ → List PeerInfo → List Attempt
reconnect outbound n [] = []
reconnect outbound n (peer ∷ peers) = elim (socket_addr peer.address) [
  | none ↦ reconnect outbound n peers
  | some addr ↦ elim (connect (outbound n) peer.node_id addr) [
    | none ↦ (peer.node_id, addr, none) ∷ []
    | some result ↦ (peer.node_id, addr, some result) ∷ reconnect outbound (suc n) peers
  ]
]

module _ (S : KvStore) (F : Formats) where
  unfoldable pub reconnect_peers : (ℕ → Outbound) → (ℕ → S.State) → Result IoError (List Attempt)
  unfolding reconnect
  reconnect_peers outbound at = do
    peers_stored ← list_peers S F at
    ok (reconnect outbound 0 peers_stored)

  abbrev pub peer_info : PublicKey → SocketAddress → PeerInfo
  peer_info id address = record { node_id = id; address = address }

  -- The loop over the connected peers at shutdown.
  unfoldable pub save_peers : List PeerDetails → S.State → S.State
  save_peers [] s = s
  save_peers (peer ∷ peers) s = elim peer.socket_address [
    | none ↦ save_peers peers s
    | some address ↦
        save_peers peers (add_peer S F (peer_info peer.counterparty_node_id address) s).1
  ]
