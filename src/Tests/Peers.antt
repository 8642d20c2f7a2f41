-- ===== src/Tests/Peers.antt =====
-- Connecting to peers, and peers over a restart.
use ln_node.Prelude.{
  ◌≡◌, refl, ◌≢◌, ℕ, none, some, List, [], ◌∷◌, ok, err, ◌⊎◌, eq_self, nat_eq, list_eq, arith,
}
use ln_node.Kv.Memory.{Entries, memory_store as memory, get, keys}
use ln_node.Storage.{PublicKey, PeerInfo, tcp_ip_v4}
use ln_node.Storage.Codec.{encode_peer, read_peer}
use ln_node.Storage.Store.{add_peer, list_peers}
use ln_node.Node.Peers.{
  PeerDetails, SocketAddr, v4, Tick, slept, closed, is_listed, Outbound, connect,
  connection_timed_out, reconnect_peers, save_peers,
}
use ln_node.Node.Peers.Connect.{IsFirst, IsUndecided, result_of, connect-cases}
use ln_node.Tests.Formats.{plain_formats as plain}

abbrev pub alice : PeerDetails
alice = record {
  counterparty_node_id = 2 ∷ 7 ∷ [];
  socket_address = some (tcp_ip_v4 (127 ∷ 0 ∷ 0 ∷ 1 ∷ []) 9735);
}

abbrev pub bob : PeerDetails
bob = record { counterparty_node_id = 3 ∷ 1 ∷ []; socket_address = none }

abbrev pub here : SocketAddr
here = v4 (127 ∷ 0 ∷ 0 ∷ 1 ∷ []) 9735

-- Every peer is listed after the second round.
abbrev pub network : Outbound
network k a = some (
    slept (bob ∷ [])
    ∷ slept (record { counterparty_node_id = k; socket_address = none } ∷ [])
    ∷ closed
    ∷ [])

pub network_returns : (k : PublicKey) (a : SocketAddr) → connect network k a ≢ none
unfolding connect is_listed
network_returns k a h = ground (arith, eq_self k)

connect-cases_example :
    ((network (2 ∷ 7 ∷ []) here ≡ none)
      × (connect network (2 ∷ 7 ∷ []) here ≡ some (err connection_timed_out)))
    ⊎ ((ticks : List Tick) × (network (2 ∷ 7 ∷ []) here ≡ some ticks)
        × (((n : ℕ) × (t : Tick) × IsFirst (2 ∷ 7 ∷ []) ticks n t
              × (connect network (2 ∷ 7 ∷ []) here ≡ some (result_of t)))
            ⊎ (IsUndecided (2 ∷ 7 ∷ []) ticks × (connect network (2 ∷ 7 ∷ []) here ≡ none))))
connect-cases_example = connect-cases network (2 ∷ 7 ∷ []) here

pub writes : (p : PeerInfo) (s : Entries) → (add_peer memory plain p s).0 ≡ ok tt
unfolding add_peer
writes p s = refl

pub restarted :
    reconnect_peers memory plain (λ _. network) (λ _. save_peers memory plain (bob ∷ alice ∷ []) [])
    ≡ ok ((2 ∷ 7 ∷ [], here, some (ok tt)) ∷ [])
unfolding reconnect_peers save_peers add_peer list_peers connect is_listed plain get keys
    encode_peer read_peer list_eq
restarted = refl
