-- ===== src/Builder.antt =====
-- `NodeBuilder::build` of src/node.rs: what is read from disk, what is made anew, and in which order.
-- LDK's graph, scorer, monitors and channel manager are an interface.
pub mod Restored
pub mod Rebuilt
use ln_node.Prelude.{
  ◌≡◌, ℕ, ◌%◌, ◌^◌, Bool, true, false, not, String, Option, none, some, List, [], ◌∷◌, Result, ok,
  err, ◌>>=◌, map_err, Outcome, returned, panicked, if◌then◌else◌,
}
use ln_node.Kv.{Bytes, IoError, not_found, KvStore}
use ln_node.Storage.{PublicKey}
use ln_node.Ldk.{ChannelId}
use ln_node.Config.{Config, Network, UserConfig, NodeBuilder}
use ln_node.Fees.Cache.{FeeCache, fallback_fees}
use ln_node.Wallet.{BdkWallet}
use ln_node.Wallet.Startup.{Keys, Directory, WalletManager, new_wallet}
use ln_node.Wallet.Signing.{Signer, node, get_node_id}
use ln_node.Fees.Rpc.{BestBlockError}

-- A place in the key-value store: namespaces and key.
abbrev pub Place : Type 0
Place = String × String × String

-- LDK's `ChannelMonitorUpdateStatus`, by what the program compares it with.
pub data UpdateStatus : Type 0 where
  completed in_progress unrecoverable_error : UpdateStatus

pub record Ldk : Type 1 where
  pub NetworkGraph : Type 0
  pub Scorer : Type 0
  pub Monitor : Type 0
  pub ChainMonitor : Type 0
  pub ChannelManager : Type 0
  pub BlockHash : Type 0
  pub graph_place : Place
  pub scorer_place : Place
  pub read_graph : Bytes → Result String NetworkGraph
  pub new_graph : Network → NetworkGraph
  pub read_scorer : NetworkGraph → Bytes → Result String Scorer
  pub new_scorer : NetworkGraph → Scorer
  pub new_chain_monitor : ChainMonitor
  pub channel_id : Monitor → ChannelId
  pub watch_channel :
      ChannelId → Monitor → ChainMonitor → Result (Unit {0}) UpdateStatus × ChainMonitor
  -- From the configuration, the network, the best block and the time.
  pub new_manager : UserConfig → Network → BlockHash × ℕ → ℕ → ChannelManager
  pub read_manager : UserConfig → List Monitor → Bytes → Result String ChannelManager

pub data BuildError : Type 0 where
  io_error : IoError → BuildError
  wallet_error : String → BuildError
  graph_unreadable graph_undecodable : String → BuildError
  scorer_unreadable scorer_undecodable : String → BuildError
  best_block_error : BestBlockError → BuildError
  manager_undecodable : String → BuildError
  monitor_not_passed : BuildError
  no_node_id : BuildError

-- What the file system and bitcoind answer during a build: `path_exists` for the node's directory,
-- `store_exists` for its subdirectory `store`, `manager` for the file in it.
pub record Found (S : KvStore) (L : Ldk) : Type 0 where
  pub path_exists : Result IoError Bool
  pub created : Result IoError (Unit {0})
  pub kv_store : S.State
  pub store_exists : Result IoError Bool
  pub manager : Result IoError Bytes
  pub monitors : Result IoError (List (L.BlockHash × L.Monitor))
  pub best_block : Outcome (Result BestBlockError (L.BlockHash × ℕ))

abbrev pub is_not_found : IoError → Bool
is_not_found e = elim e.kind [ not_found ↦ true | _ ↦ false ]

module _ (S : KvStore) (L : Ldk) where
  unfoldable pub read_place : Place → S.State → Result IoError Bytes
  read_place (p, q, k) s = S.read s p q k

  unfoldable pub ensure_path : Found S L → Result BuildError (Unit {0})
  ensure_path found = do
    path_exists ← map_err io_error found.path_exists
    if path_exists then ok tt else map_err io_error found.created

  unfoldable pub load_graph : Network → S.State → Result BuildError L.NetworkGraph
  unfolding read_place
  load_graph network s = elim (read_place L.graph_place s) [
    | ok d ↦ map_err graph_undecodable (L.read_graph d)
    | err e ↦ if is_not_found e then ok (L.new_graph network) else err (graph_unreadable e.message)
  ]

  unfoldable pub load_scorer : L.NetworkGraph → S.State → Result BuildError L.Scorer
  unfolding read_place
  load_scorer graph s = elim (read_place L.scorer_place s) [
    | ok d ↦ map_err scorer_undecodable (L.read_scorer graph d)
    | err e ↦ if is_not_found e then ok (L.new_scorer graph) else err (scorer_unreadable e.message)
  ]

  -- The network graph, and the scorer over it.
  unfoldable pub load_routing : Network → S.State → Result BuildError (L.NetworkGraph × L.Scorer)
  unfolding load_graph load_scorer
  load_routing network s = do
    network_graph ← load_graph network s
    scorer ← load_scorer network_graph s
    ok (network_graph, scorer)

  abbrev pub monitor_of : L.BlockHash × L.Monitor → L.Monitor
  monitor_of m = m.1

  abbrev pub monitors_of : List (L.BlockHash × L.Monitor) → List L.Monitor
  monitors_of [] = []
  monitors_of (m ∷ ms) = monitor_of m ∷ monitors_of ms

  -- The `for` over the monitors, with its `assert!`.
  unfoldable pub watch_all :
      List L.Monitor → L.ChainMonitor → Outcome (Result BuildError L.ChainMonitor)
  watch_all [] c = returned (ok c)
  watch_all (monitor ∷ monitors) c =
      let (status, c') = L.watch_channel (L.channel_id monitor) monitor c in
      elim status [
        | err _ ↦ returned (err monitor_not_passed)
        | ok completed ↦ watch_all monitors c'
        | ok in_progress ↦ panicked
        | ok unrecoverable_error ↦ panicked
      ]

  abbrev pub Channels : Type 0
  Channels = L.ChannelManager × L.ChainMonitor

  unfoldable pub create_manager : NodeBuilder → ℕ → Found S L → Outcome (Result BuildError Channels)
  create_manager b cur_time found = elim found.best_block [
    | panicked ↦ panicked
    | returned (err e) ↦ returned (err (best_block_error e))
    | returned (ok best_block) ↦
        returned (
          ok (L.new_manager b.ldk_config b.config.network best_block cur_time, L.new_chain_monitor))
  ]

  -- The monitors, and the manager read with them.
  unfoldable pub read_channels :
      NodeBuilder → Found S L → Result BuildError (L.ChannelManager × List L.Monitor)
  read_channels b found = do
    channel_monitors ← map_err io_error found.monitors
    file ← map_err io_error found.manager
    channel_manager ←
        map_err manager_undecodable
          (L.read_manager b.ldk_config (monitors_of channel_monitors) file)
    ok (channel_manager, monitors_of channel_monitors)

  unfoldable pub restore_manager : NodeBuilder → Found S L → Outcome (Result BuildError Channels)
  unfolding read_channels watch_all
  restore_manager b found = elim (read_channels b found) [
    | err e ↦ returned (err e)
    | ok (channel_manager, monitors) ↦ elim (watch_all monitors L.new_chain_monitor) [
      | panicked ↦ panicked
      | returned (err e) ↦ returned (err e)
      | returned (ok chain_monitor) ↦ returned (ok (channel_manager, chain_monitor))
    ]
  ]

  unfoldable pub channels : NodeBuilder → ℕ → Found S L → Outcome (Result BuildError Channels)
  unfolding create_manager restore_manager
  channels b cur_time found = elim found.store_exists [
    | err e ↦ returned (err (io_error e))
    | ok false ↦ create_manager b cur_time found
    | ok true ↦ restore_manager b found
  ]

-- The parts of `Node` that a build settles.
pub record Built (B : BdkWallet) (K : Keys) (L : Ldk) : Type 0 where
  pub node_id : PublicKey
  pub config : Config
  pub onchain_wallet : WalletManager B K
  pub channel_manager : L.ChannelManager
  pub chain_monitor : L.ChainMonitor
  pub network_graph : L.NetworkGraph
  pub scorer : L.Scorer
  pub fee_cache : FeeCache

-- The random bytes and the clock during a build.
pub record Now : Type 0 where
  pub entropy : Bytes
  pub secs : ℕ
  pub nanos : ℕ
  pub cur_secs : ℕ

module _ (S : KvStore) (B : BdkWallet) (K : Keys) (D : Directory B K) (G : Signer K) (L : Ldk) where
  -- The parts that follow the wallet.
  unfoldable pub assemble :
      NodeBuilder → Now → Found S L → WalletManager B K → Outcome (Result BuildError (Built B K L))
  unfolding load_routing channels
  assemble b now found wallet = elim (load_routing S L b.config.network found.kv_store) [
    | err e ↦ returned (err e)
    | ok (graph, scoring) ↦ elim (channels S L b (now.cur_secs % 2 ^ 32) found) [
      | panicked ↦ panicked
      | returned (err e) ↦ returned (err e)
      | returned (ok (manager, watching)) ↦ elim (get_node_id B K G node wallet) [
        | err _ ↦ returned (err no_node_id)
        | ok id ↦ returned (
            ok (record {
              node_id = id;
              config = b.config;
              onchain_wallet = wallet;
              channel_manager = manager;
              chain_monitor = watching;
              network_graph = graph;
              scorer = scoring;
              fee_cache = fallback_fees;
            }))
      ]
    ]
  ]

  unfoldable pub build :
      NodeBuilder → Now → Found S L → D.State → Outcome (Result BuildError (Built B K L)) × D.State
  unfolding assemble ensure_path
  build b now found d = elim (ensure_path S L found) [
    | err e ↦ (returned (err e), d)
    | ok _ ↦
        let (made, d') = new_wallet B K D now.entropy now.secs now.nanos b.config.network d in
        (
          elim made [
            | err e ↦ returned (err (wallet_error e))
            | ok wallet ↦ assemble b now found wallet
          ],
          d',
        )
  ]
