-- ===== src/Chain.antt =====
-- `ChainListener` of src/bitcoind_client.rs, which passes blocks on to LDK's channel manager and
-- chain monitor and to the bdk wallet. Those three are an interface.
pub mod Reorg
pub mod Following
pub mod Source
use ln_node.Prelude.{ℕ, List, [], ◌∷◌, map, Option, none, some}

pub record Listeners : Type 1 where
  pub Header : Type 0
  pub Transaction : Type 0
  pub BestBlock : Type 0
  pub Manager : Type 0
  pub Monitor : Type 0
  pub Wallet : Type 0
  pub manager_connected : Header → List (ℕ × Transaction) → ℕ → Manager → Manager
  pub monitor_connected : Header → List (ℕ × Transaction) → ℕ → Monitor → Monitor
  pub manager_disconnected : BestBlock → Manager → Manager
  pub monitor_disconnected : BestBlock → Monitor → Monitor
  -- bdk's `apply_block`; `none` where it gives an error.
  pub apply_block : Header → List Transaction → ℕ → Wallet → Option Wallet

pub record Listened (L : Listeners) : Type 0 where
  pub channel_manager : L.Manager
  pub chain_monitor : L.Monitor
  pub onchain_wallet : L.Wallet

-- `poisoned`: the wallet's error made the listener panic with the wallet's lock held.
pub data Told (L : Listeners) : Type 0 where
  told : Listened L → Told L
  poisoned : Listened L → Told L

module _ (L : Listeners) where
  abbrev transaction : ℕ × L.Transaction → L.Transaction
  transaction t = t.1

  unfoldable pub filtered_block_connected :
      L.Header → List (ℕ × L.Transaction) → ℕ → Listened L → Told L
  filtered_block_connected header txdata height s =
      let manager = L.manager_connected header txdata height s.channel_manager in
      let monitor = L.monitor_connected header txdata height s.chain_monitor in
      elim (L.apply_block header (map transaction txdata) height s.onchain_wallet) [
        | none ↦ poisoned (record s { channel_manager = manager; chain_monitor = monitor })
        | some wallet ↦
            told (record {
              channel_manager = manager;
              chain_monitor = monitor;
              onchain_wallet = wallet;
            })
      ]

  unfoldable pub blocks_disconnected : L.BestBlock → Listened L → Listened L
  blocks_disconnected fork_point s = record s {
    channel_manager = L.manager_disconnected fork_point s.channel_manager;
    chain_monitor = L.monitor_disconnected fork_point s.chain_monitor;
  }

  -- What the SPV client reports, in order.
  pub data ChainEvent : Type 0 where
    connected : L.Header → List (ℕ × L.Transaction) → ℕ → ChainEvent
    disconnected : L.BestBlock → ChainEvent

  -- A panic ends the task that listens.
  unfoldable pub listen : List ChainEvent → Listened L → Told L
  listen [] s = told s
  listen (disconnected fork_point ∷ events) s = listen events (blocks_disconnected fork_point s)
  listen (connected header txdata height ∷ events) s =
      elim (filtered_block_connected header txdata height s) [
        | told s' ↦ listen events s'
        | poisoned s' ↦ poisoned s'
      ]
