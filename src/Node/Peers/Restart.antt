-- ===== src/Node/Peers/Restart.antt =====
-- Peers over a restart: stored at shutdown, read and dialled at the next start.
use mathlib.Core.List.{Mem, mem-cons_self, mem-cons_of_mem}
use ln_node.Prelude.{
  ◌≡◌, ◌≢◌, ◌∙◌, refl, ℕ, zero, suc, false, none, some, List, [], ◌∷◌, map, ok, >>=-eq-ok,
  Option-cases, inl, inr, get_elem?, All, ◌==◌, ==_ne, nat_eq, string_eq, list_eq, eq_iff, arith,
}
use ln_node.Kv.{KvStore, IsLawful}
use ln_node.Storage.{PublicKey, PeerInfo, SocketAddress}
use ln_node.Storage.Codec.{Formats, IsFaithful, encode_peer}
use ln_node.Storage.Store.{add_peer, list_peers}
use ln_node.Storage.Store.Payments.{hex_eq}
use ln_node.Storage.Store.Peers.{get_elem?-list_peers}
use ln_node.Node.Peers.{
  PeerDetails, SocketAddr, Outbound, connect, socket_addr, Attempt, reconnect, reconnect_peers,
  peer_info, save_peers,
}
use ln_node.Node.Peers.Connect.{target, reachable, reconnect_all}

-- Each peer is listed once, as LDK keeps them.
abbrev pub IsDistinct : List PeerDetails → Type 0
IsDistinct [] = Unit
IsDistinct (p ∷ ps) = All (λ q. q.counterparty_node_id ≢ p.counterparty_node_id) ps × IsDistinct ps

mem-reachable :
    (peers : List PeerInfo) (n : ℕ) (p : PeerInfo) (a : SocketAddr)
    → get_elem? peers n ≡ some p
    → socket_addr p.address ≡ some a
    → Mem (p.node_id, a) (reachable peers)
mem-reachable [] n p a g e = cc g
mem-reachable (q ∷ peers) zero p a g e =
    let same : q ≡ p = ground arith in
    let ip : socket_addr q.address ≡ some a = ground (arith, same, e) in
    rw (reachable, ip) (rw same mem-cons_self)
mem-reachable (q ∷ peers) (suc n) p a g e = elim (Option-cases (socket_addr q.address)) [
  | inl other ↦ rw (reachable, other) (mem-reachable peers n p a g e)
  | inr (b, ip) ↦ rw (reachable, ip) (mem-cons_of_mem _ (mem-reachable peers n p a g e))
]

module _ (S : KvStore) (F : Formats) (L : IsLawful S) (W : IsFaithful F)
    (writes : (p : PeerInfo) (s : S.State) → (add_peer S F p s).0 ≡ ok tt) where
  read-add_peer_other :
      (s : S.State) (j k : PublicKey) (a : SocketAddress)
      → j ≢ k
      → S.read (add_peer S F (peer_info S F j a) s).1 "peers" "" (F.hex_encode k)
        ≡ S.read s "peers" "" (F.hex_encode k)
  unfolding add_peer
  read-add_peer_other s j k a differ =
      let apart : (F.hex_encode j == F.hex_encode k) ≡ false =
        hex_eq S F L W j k ∙ ==_ne j k differ in
      rw (L.read-write s _ _ _ _ (writes (peer_info S F j a) s)) (rw apart)

  read-add_peer :
      (s : S.State) (p : PeerInfo)
      → S.read (add_peer S F p s).1 "peers" "" (F.hex_encode p.node_id) ≡ ok (encode_peer F p)
  unfolding add_peer
  read-add_peer s p =
      rw (L.read-write s _ _ _ _ (writes p s))
        (rw ((eq_iff (F.hex_encode p.node_id) (F.hex_encode p.node_id)).1 refl))

  -- Saving other peers keeps what is stored under a key.
  read-save_peers_other :
      (peers : List PeerDetails) (s : S.State) (k : PublicKey)
      → All (λ q. q.counterparty_node_id ≢ k) peers
      → S.read (save_peers S F peers s) "peers" "" (F.hex_encode k)
        ≡ S.read s "peers" "" (F.hex_encode k)
  unfolding save_peers
  read-save_peers_other [] s k none_left = refl
  read-save_peers_other (q ∷ peers) s k (differ, others) = elim (Option-cases q.socket_address) [
    | inl missing ↦ ground (arith, missing, read-save_peers_other peers s k others)
    | inr (a, there) ↦
        let next : S.State = (add_peer S F (peer_info S F q.counterparty_node_id a) s).1 in
        let kept : S.read next "peers" "" (F.hex_encode k) ≡ S.read s "peers" "" (F.hex_encode k) =
          read-add_peer_other s q.counterparty_node_id k a differ in
        ground (arith, there, read-save_peers_other peers next k others, kept)
  ]

  read-save_peers :
      (peers : List PeerDetails) (s : S.State) (n : ℕ) (p : PeerDetails) (a : SocketAddress)
      → IsDistinct peers
      → get_elem? peers n ≡ some p
      → p.socket_address ≡ some a
      → S.read (save_peers S F peers s) "peers" "" (F.hex_encode p.counterparty_node_id)
        ≡ ok (encode_peer F (peer_info S F p.counterparty_node_id a))
  unfolding save_peers
  read-save_peers [] s n p a distinct g there = cc g
  read-save_peers (q ∷ peers) s zero p a (others, distinct) g there =
      let same : q ≡ p = ground arith in
      let k : PublicKey = p.counterparty_node_id in
      let next : S.State = (add_peer S F (peer_info S F k a) s).1 in
      let kept : S.read (save_peers S F peers next) "peers" "" (F.hex_encode k)
          ≡ S.read next "peers" "" (F.hex_encode k) =
        read-save_peers_other peers next k (rw (← same) others) in
      ground (arith, same, there, kept, read-add_peer s (peer_info S F k a))
  read-save_peers (q ∷ peers) s (suc n) p a (others, distinct) g there =
      elim (Option-cases q.socket_address) [
        | inl missing ↦ ground (arith, missing, read-save_peers peers s n p a distinct g there)
        | inr (b, known) ↦
            let next : S.State = (add_peer S F (peer_info S F q.counterparty_node_id b) s).1 in
            ground (arith, known, read-save_peers peers next n p a distinct g there)
      ]

  -- Over a lawful store whose writes succeed and faithful formats: a peer with an IP address that
  -- was connected at shutdown, among distinct peers, is dialled under that address at the next
  -- start, if the stored peers can be listed and every call of `connect` returns.
  pub save_peers-reconnect :
      (outbound : ℕ → Outbound) (connected : List PeerDetails) (s : S.State) (n : ℕ)
      (p : PeerDetails) (address : SocketAddress) (a : SocketAddr) (attempts : List Attempt)
      → IsDistinct connected
      → get_elem? connected n ≡ some p
      → p.socket_address ≡ some address
      → socket_addr address ≡ some a
      → ((i : ℕ) (k : PublicKey) (b : SocketAddr) → connect (outbound i) k b ≢ none)
      → reconnect_peers S F outbound (λ _. save_peers S F connected s) ≡ ok attempts
      → Mem (p.counterparty_node_id, a) (map target attempts)
  unfolding reconnect_peers
  save_peers-reconnect outbound connected s n p address a attempts distinct g there ip returns h =
      let s' : S.State = save_peers S F connected s in
      let info : PeerInfo = peer_info S F p.counterparty_node_id address in
      let stored : S.read s' "peers" "" (F.hex_encode info.node_id) ≡ ok (encode_peer F info) =
        read-save_peers connected s n p address distinct g there in
      let (peers, listing, done) = >>=-eq-ok (list_peers S F (λ _. s')) _ h in
      let (m, nth) = get_elem?-list_peers S F L W s' info peers stored listing in
      let dialled : map target (reconnect outbound 0 peers) ≡ reachable peers =
        reconnect_all outbound 0 peers returns in
      let made : reconnect outbound 0 peers ≡ attempts = ground (arith, done) in
      rw (← made) (rw dialled (mem-reachable peers m info a nth ip))
