-- ===== src/Node/Start/Shutdown.antt =====
-- When `start` returns, and what it leaves behind.
use mathlib.Core.List.{Mem}
use ln_node.Prelude.{
  String, ◌≡◌, ◌≢◌, refl, ℕ, Bool, true, none, some, List, [], ◌∷◌, map, Result, ok, ◌⊎◌, inl, inr,
  >>=-eq-ok, map_err-eq-ok, Result-cases, Bool-cases, returned, panicked, get_elem?, arith, map_err,
}
use ln_node.Kv.{KvStore, IsLawful}
use ln_node.Storage.{PublicKey, PeerInfo, SocketAddress}
use ln_node.Storage.Codec.{Formats, IsFaithful}
use ln_node.Storage.Store.{add_peer}
use ln_node.Ldk.{ChannelId}
use ln_node.Node.Peers.{
  PeerDetails, SocketAddr, Outbound, connect, socket_addr, Attempt, reconnect_peers, save_peers,
}
use ln_node.Node.Peers.Connect.{target}
use ln_node.Node.Peers.Restart.{IsDistinct, save_peers-reconnect}
use ln_node.Node.Start.{
  Listener, channel_manager, watching, Parts, monitor_not_found, not_synchronized, Background,
  ended, runs, ends, monitor_listeners, chain_tip, shut_down, start,
}

-- The task returned, or had ended or panicked.
Background-cases :
    (b : Background)
    → ((r : Result String (Unit {0})) × (b ≡ runs (returned r)))
      ⊎ ((b ≡ ended) ⊎ (b ≡ runs panicked))
Background-cases ended = inr (inl refl)
Background-cases (runs panicked) = inr (inr refl)
Background-cases (runs (returned r)) = inl (r, refl)

module _ (P : Parts) where
  -- Every listed monitor is found, and its listener stands in order.
  abbrev pub AreListeners : List ChannelId → List (P.BlockHash × Listener P.Monitor) → Type 0
  AreListeners [] [] = Unit
  AreListeners (id ∷ ids) ((b, watching m) ∷ ls) =
      ((P.get_monitor id ≡ ok m) × (P.current_best_block m ≡ b)) × AreListeners ids ls
  AreListeners _ _ = ⊥

  monitor_listeners-AreListeners :
      (ids : List ChannelId) (ls : List (P.BlockHash × Listener P.Monitor))
      → monitor_listeners P ids ≡ ok ls
      → AreListeners ids ls
  unfolding monitor_listeners
  monitor_listeners-AreListeners [] [] h = tt
  monitor_listeners-AreListeners [] (l ∷ ls) h = absurd (cc h)
  monitor_listeners-AreListeners (id ∷ ids) ls h =
      let (m, found, rest) = >>=-eq-ok (map_err (λ _. monitor_not_found) (P.get_monitor id)) _ h in
      let (ls', more, made) = >>=-eq-ok (monitor_listeners P ids) _ rest in
      let same : (P.current_best_block m, watching m) ∷ ls' ≡ ls = ground (arith, made) in
      rw (← same) (
        (map_err-eq-ok (λ _. monitor_not_found) (P.get_monitor id) found, refl),
        monitor_listeners-AreListeners ids ls' more,
      )

  -- The channel manager and every listed monitor, each from its own best block, come to one tip.
  abbrev pub IsSynchronized : Type 0
  IsSynchronized =
      (tip : P.BlockHash) × (ls : List (P.BlockHash × Listener P.Monitor)) × AreListeners P.monitors
        ls
      × (P.synchronize_listeners ((P.manager_best_block, channel_manager) ∷ ls) ≡ ok tip)

  chain_tip-IsSynchronized : (tip : P.BlockHash) → chain_tip P ≡ ok tip → IsSynchronized
  unfolding chain_tip
  chain_tip-IsSynchronized tip h =
      let (ls, gathered, done) = >>=-eq-ok (monitor_listeners P P.monitors) _ h in
      (
        tip,
        ls,
        monitor_listeners-AreListeners P.monitors ls gathered,
        map_err-eq-ok not_synchronized _ done,
      )

  module _ (S : KvStore) (F : Formats) where
    -- `start` ends well only if the channel manager and every listed monitor, in order and each
    -- from its own best block, were brought to one chain tip, the shutdown was signalled, and the
    -- task that processes events still ran and then ended without a panic; only then are the
    -- connected peers stored and disconnected. However else it ends or waits, store and peers are
    -- untouched.
    pub start-cases :
        (cancelled : Bool) (background : Background) (store : S.State) (peers : P.PeerManager)
        → let (outcome, after) = start P S F cancelled background (store, peers) in
          ((outcome ≡ ends (returned (ok tt)))
            × IsSynchronized
            × (cancelled ≡ true)
            × ((r : Result String (Unit {0})) × (background ≡ runs (returned r)))
            × (after ≡ (save_peers S F (P.list_peers peers) store, P.disconnect_all_peers peers)))
          ⊎ ((outcome ≢ ends (returned (ok tt))) × (after ≡ (store, peers)))
    unfolding start shut_down
    start-cases cancelled background store peers = elim (Result-cases (chain_tip P)) [
      | inr (e, failed) ↦ inr (ground (arith, failed))
      | inl (tip, found) ↦ elim (Bool-cases cancelled) [
        | inr waiting ↦ inr (ground (arith, found, waiting))
        | inl told ↦ elim (Background-cases background) [
          | inr crash ↦ inr (ground (arith, found, told, crash))
          | inl (r, running) ↦ inl (
            ground (arith, found, told, running),
            chain_tip-IsSynchronized tip found,
            told,
            (r, running),
            ground (arith, found, told, running),
          )
        ]
      ]
    ]

    -- Once the tip was reached, a `start` whose task for events ends without a panic when it is
    -- told to stop returns; over a lawful store whose writes succeed and faithful formats, every
    -- peer with an IP address that was connected then, among distinct peers, is dialled by the
    -- next start, if the stored peers can be listed and every call of `connect` returns.
    pub start_returns :
        (L : IsLawful S) (W : IsFaithful F)
        (writes : (p : PeerInfo) (s : S.State) → (add_peer S F p s).0 ≡ ok tt) (tip : P.BlockHash)
        (r : Result String (Unit {0})) (store : S.State) (peers : P.PeerManager)
        (outbound : ℕ → Outbound) (n : ℕ) (p : PeerDetails) (address : SocketAddress)
        (a : SocketAddr) (attempts : List Attempt)
        → chain_tip P ≡ ok tip
        → IsDistinct (P.list_peers peers)
        → get_elem? (P.list_peers peers) n ≡ some p
        → p.socket_address ≡ some address
        → socket_addr address ≡ some a
        → ((i : ℕ) (k : PublicKey) (b : SocketAddr) → connect (outbound i) k b ≢ none)
        → let (outcome, (store', peers')) = start P S F true (runs (returned r)) (store, peers) in
          reconnect_peers S F outbound (λ _. store') ≡ ok attempts
          → (outcome ≡ ends (returned (ok tt)))
            × Mem (p.counterparty_node_id, a) (map target attempts)
    unfolding start shut_down
    start_returns L W writes tip r store peers outbound n p address a attempts found distinct g
          there ip returns h =
        (
          ground (arith, found),
          save_peers-reconnect S F L W writes outbound (P.list_peers peers) store n p address a
              attempts distinct g there ip returns (ground (arith, found, h)),
        )
