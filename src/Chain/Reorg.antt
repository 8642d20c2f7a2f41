-- ===== src/Chain/Reorg.antt =====
-- Who hears of what: the channel manager and the chain monitor of every event, the wallet only of
-- the blocks that are connected.
use ln_node.Prelude.{◌≡◌, ℕ, List, [], ◌∷◌, map, Option, none, some, Option-cases, inl, inr, arith}
use ln_node.Chain.{
  Listeners, Listened, told, poisoned, ChainEvent, connected, disconnected,
  filtered_block_connected, blocks_disconnected, listen, transaction,
}

module _ (L : Listeners) where
  abbrev pub manager_after : List (ChainEvent L) → L.Manager → L.Manager
  manager_after [] m = m
  manager_after (connected header txdata height ∷ events) m =
      manager_after events (L.manager_connected header txdata height m)
  manager_after (disconnected fork_point ∷ events) m =
      manager_after events (L.manager_disconnected fork_point m)

  abbrev pub monitor_after : List (ChainEvent L) → L.Monitor → L.Monitor
  monitor_after [] m = m
  monitor_after (connected header txdata height ∷ events) m =
      monitor_after events (L.monitor_connected header txdata height m)
  monitor_after (disconnected fork_point ∷ events) m =
      monitor_after events (L.monitor_disconnected fork_point m)

  -- The blocks that were connected, whether or not a later event disconnected them.
  abbrev pub blocks : List (ChainEvent L) → List (L.Header × List L.Transaction × ℕ)
  blocks [] = []
  blocks (connected header txdata height ∷ events) =
      (header, map (transaction L) txdata, height) ∷ blocks events
  blocks (disconnected fork_point ∷ events) = blocks events

  abbrev pub apply_blocks : List (L.Header × List L.Transaction × ℕ) → L.Wallet → Option L.Wallet
  apply_blocks [] w = some w
  apply_blocks ((header, txs, height) ∷ more) w = elim (L.apply_block header txs height w) [
    | none ↦ none
    | some w' ↦ apply_blocks more w'
  ]

  abbrev applied : L.Header → List (ℕ × L.Transaction) → ℕ → Listened L → Option L.Wallet
  applied header txdata height s =
      L.apply_block header (map (transaction L) txdata) height s.onchain_wallet

  -- LDK's two parts have been told of the block, the wallet not.
  abbrev told_ldk : L.Header → List (ℕ × L.Transaction) → ℕ → Listened L → Listened L
  told_ldk header txdata height s = record s {
    channel_manager = L.manager_connected header txdata height s.channel_manager;
    chain_monitor = L.monitor_connected header txdata height s.chain_monitor;
  }

  abbrev after : L.Header → List (ℕ × L.Transaction) → ℕ → L.Wallet → Listened L → Listened L
  after header txdata height w s = record (told_ldk header txdata height s) { onchain_wallet = w }

  -- While the listener does not panic, the channel manager and the chain monitor are told every
  -- event in order, and the wallet holds exactly the blocks connected so far: it is never told
  -- that a block was disconnected.
  pub listen_lem :
      (events : List (ChainEvent L)) (s t : Listened L)
      → listen L events s ≡ told t
      → (manager_after events s.channel_manager ≡ t.channel_manager)
        × (monitor_after events s.chain_monitor ≡ t.chain_monitor)
        × (apply_blocks (blocks events) s.onchain_wallet ≡ some t.onchain_wallet)
  unfolding listen filtered_block_connected blocks_disconnected
  listen_lem [] s t h = ground arith
  listen_lem (disconnected fork_point ∷ events) s t h =
      listen_lem events (blocks_disconnected L fork_point s) t h
  listen_lem (connected header txdata height ∷ events) s t h =
      elim (Option-cases (applied header txdata height s)) [
        | inl refused ↦ absurd (ground (arith, h, refused))
        | inr (w, taken) ↦
            let (m, n, rest) =
              listen_lem events (after header txdata height w s) t (ground (arith, h, taken)) in
            (m, n, rw taken rest)
      ]

  -- Where the wallet refuses one of the connected blocks, the listener panics, whatever the blocks
  -- that were disconnected before.
  pub listen-poisoned :
      (events : List (ChainEvent L)) (s : Listened L)
      → apply_blocks (blocks events) s.onchain_wallet ≡ none
      → (t : Listened L) × (listen L events s ≡ poisoned t)
  unfolding listen filtered_block_connected blocks_disconnected
  listen-poisoned [] s h = cc h
  listen-poisoned (disconnected fork_point ∷ events) s h =
      listen-poisoned events (blocks_disconnected L fork_point s) h
  listen-poisoned (connected header txdata height ∷ events) s h =
      elim (Option-cases (applied header txdata height s)) [
        | inl refused ↦ (told_ldk header txdata height s, ground (arith, refused))
        | inr (w, taken) ↦
            let (t, e) =
              listen-poisoned events (after header txdata height w s) (ground (arith, h, taken)) in
            (t, ground (arith, taken, e))
      ]
