-- ===== src/Tests/Chain.antt =====
-- The chain listener over logs: each part of the node keeps what it was told.
use ln_node.Prelude.{◌≡◌, refl, ℕ, List, [], ◌∷◌, none, some, ltb, if◌then◌else◌}
use ln_node.Chain.{
  Listeners, Listened, told, ChainEvent, connected, disconnected, listen, filtered_block_connected,
  blocks_disconnected,
}
use ln_node.Chain.Reorg.{manager_after, monitor_after, blocks, apply_blocks, listen_lem}

-- A wallet that takes heights below 100 only.
abbrev pub logs : Listeners
logs = record {
  Header = ℕ;
  Transaction = ℕ;
  BestBlock = ℕ;
  Manager = List ℕ;
  Monitor = List ℕ;
  Wallet = List ℕ;
  manager_connected = λ header txs height m. height ∷ m;
  monitor_connected = λ header txs height m. height ∷ m;
  manager_disconnected = λ fork m. (1000 ∷ m);
  monitor_disconnected = λ fork m. (1000 ∷ m);
  apply_block = λ header txs height w. if ltb height 100 then some (height ∷ w) else none;
}

abbrev pub start : Listened logs
start = record { channel_manager = []; chain_monitor = []; onchain_wallet = [] }

-- Block 6 is replaced.
abbrev pub reorg : List (ChainEvent logs)
reorg = connected 1 [] 5 ∷ connected 2 [] 6 ∷ disconnected 5 ∷ connected 3 [] 6 ∷ []

abbrev pub after_reorg : Listened logs
after_reorg = record {
  channel_manager = 6 ∷ 1000 ∷ 6 ∷ 5 ∷ [];
  chain_monitor = 6 ∷ 1000 ∷ 6 ∷ 5 ∷ [];
  onchain_wallet = 6 ∷ 6 ∷ 5 ∷ [];
}

reorg_run : listen logs reorg start ≡ told after_reorg
unfolding listen filtered_block_connected blocks_disconnected
reorg_run = refl

listen_lem_example :
    (manager_after logs reorg [] ≡ 6 ∷ 1000 ∷ 6 ∷ 5 ∷ [])
    × (monitor_after logs reorg [] ≡ 6 ∷ 1000 ∷ 6 ∷ 5 ∷ [])
    × (apply_blocks logs (blocks logs reorg) [] ≡ some (6 ∷ 6 ∷ 5 ∷ []))
listen_lem_example = listen_lem logs reorg start after_reorg reorg_run
