-- ===== src/Node/Start.antt =====
-- `Node::start` of src/node.rs from its call to its return: what it brings to one chain tip before it
-- spawns the tasks, and how it shuts down. What the tasks do is in other files.
pub mod Shutdown
use ln_node.Prelude.{
  String, Bool, true, false, List, [], ◌∷◌, Result, ok, err, ◌>>=◌, map_err, Outcome, returned,
  panicked,
}
use ln_node.Kv.{KvStore}
use ln_node.Storage.Codec.{Formats}
use ln_node.Ldk.{ChannelId}
use ln_node.Node.Peers.{PeerDetails, save_peers}

-- What `synchronize_listeners` is given beside each block: the channel manager, or a monitor.
pub data Listener (Monitor : Type 0) : Type 0 where
  channel_manager : Listener Monitor
  watching : Monitor → Listener Monitor

-- LDK's chain monitor, channel manager and block source, and its peer manager.
pub record Parts : Type 1 where
  pub BlockHash : Type 0
  pub Monitor : Type 0
  pub PeerManager : Type 0
  pub manager_best_block : BlockHash
  pub monitors : List ChannelId
  pub get_monitor : ChannelId → Result (Unit {0}) Monitor
  pub current_best_block : Monitor → BlockHash
  pub synchronize_listeners : List (BlockHash × Listener Monitor) → Result String BlockHash
  pub list_peers : PeerManager → List PeerDetails
  pub disconnect_all_peers : PeerManager → PeerManager

pub data StartError : Type 0 where
  monitor_not_found : StartError
  not_synchronized : String → StartError

-- The task that processes LDK's events when the shutdown is signalled: it has already ended, with
-- the receiver of the stop signal, or it runs, and ends so once it is told to stop.
pub data Background : Type 0 where
  ended : Background
  runs : Outcome (Result String (Unit {0})) → Background

-- How a call of `start` stands: it waits for the shutdown, or has ended.
pub data Start : Type 0 where
  waits : Start
  ends : Outcome (Result StartError (Unit {0})) → Start

module _ (P : Parts) where
  unfoldable pub monitor_listeners :
      List ChannelId → Result StartError (List (P.BlockHash × Listener P.Monitor))
  monitor_listeners [] = ok []
  monitor_listeners (monitor ∷ monitors) = do
    locked_monitor ← map_err (λ _. monitor_not_found) (P.get_monitor monitor)
    listeners ← monitor_listeners monitors
    ok ((P.current_best_block locked_monitor, watching locked_monitor) ∷ listeners)

  unfoldable pub chain_tip : Result StartError P.BlockHash
  unfolding monitor_listeners
  chain_tip = do
    listeners ← monitor_listeners P.monitors
    map_err not_synchronized
        (P.synchronize_listeners ((P.manager_best_block, channel_manager) ∷ listeners))

  module _ (S : KvStore) (F : Formats) where
    -- The store and the peer manager.
    abbrev pub Shared : Type 0
    Shared = S.State × P.PeerManager

    -- What follows the signal: `send` fails where no receiver is left, and its `unwrap` panics.
    unfoldable pub shut_down : Background → Shared → Outcome (Result StartError (Unit {0})) × Shared
    shut_down ended s = (panicked, s)
    shut_down (runs panicked) s = (panicked, s)
    shut_down (runs (returned _)) (store, peers) = (
      returned (ok tt),
      (save_peers S F (P.list_peers peers) store, P.disconnect_all_peers peers),
    )

    -- With the store and the peers as the other tasks have left them when it fails, waits or shuts
    -- down; `cancelled`: whether the shutdown has been signalled.
    unfoldable pub start : Bool → Background → Shared → Start × Shared
    unfolding shut_down chain_tip
    start cancelled background s = elim chain_tip [
      | err e ↦ (ends (returned (err e)), s)
      | ok _ ↦ elim cancelled [
        | false ↦ (waits, s)
        | true ↦ let (outcome, s') = shut_down background s in (ends outcome, s')
      ]
    ]
