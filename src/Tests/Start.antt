-- ===== src/Tests/Start.antt =====
-- The start and the shutdown of a node with one monitor, and runs of the binary around them.
use mathlib.Core.List.{Mem}
use ln_node.Prelude.{
  ◌≡◌, refl, ◌≢◌, ◌⊎◌, none, if◌then◌else◌, arith, ℕ, Bool, true, false, String, some, [], ◌∷◌,
  List, map, Result, ok, err, returned, panicked,
}
use ln_node.Kv.{IoError, other}
use ln_node.Kv.Memory.{memory_store as memory, memory_store-IsLawful as lawful, get, Entries}
use ln_node.Storage.{tcp_ip_v4}
use ln_node.Config.{
  ConfigFields, deserialize, main_builder, new, default, setup_bitcoind_rpc_client,
}
use ln_node.Node.Peers.{PeerDetails, save_peers}
use ln_node.Node.Peers.Connect.{target}
use ln_node.Node.Start.{Parts, ended, runs, ends, monitor_listeners, chain_tip, shut_down, start}
use ln_node.Node.Start.Shutdown.{IsSynchronized, start-cases, start_returns}
use ln_node.Wallet.Startup.{
  mnemonic_from_file, mnemonic_of, load_or_create, ldk_seed, manager_of, new_wallet,
}
use ln_node.Wallet.Signing.{get_node_id}
use ln_node.Builder.{
  read_place, ensure_path, load_graph, load_scorer, load_routing, create_manager, channels,
  assemble, Built, build,
}
use ln_node.Lnnode.{
  SocketFile, IsSocketFile, interrupted, node_task_panicked, Exit, waiting, exited, node_task,
  shutdown, new_server, finish, await_signal, Run, read_config, serve, main,
}
use ln_node.Lnnode.Runs.{Builds, main_all, main_blocked, main-eq-ok}
use ln_node.Tests.Formats.{plain_formats as plain, plain_formats-IsFaithful as faithful}
use ln_node.Tests.Samples.{wallet}
use ln_node.Tests.Peers.{alice, bob, here, network, network_returns, writes, restarted}
use ln_node.Tests.Node.{ldk_default, join}
use ln_node.Tests.Startup.{keys, directory, signer, empty, Disk}
use ln_node.Tests.Builder.{ldk, first, morning}

abbrev pub parts : Parts
parts = record {
  BlockHash = ℕ;
  Monitor = ℕ;
  PeerManager = List PeerDetails;
  manager_best_block = 7;
  monitors = (1 ∷ []) ∷ [];
  get_monitor = λ id. ok 5;
  current_best_block = λ m. 6;
  synchronize_listeners = λ listeners. ok 9;
  list_peers = λ peers. peers;
  disconnect_all_peers = λ peers. [];
}

pub tip_reached : chain_tip parts ≡ ok 9
unfolding chain_tip monitor_listeners
tip_reached = refl

start_returns_example :
    ((start parts memory plain true (runs (returned (ok tt))) ([], bob ∷ alice ∷ [])).0
      ≡ ends (returned (ok tt)))
    × Mem (2 ∷ 7 ∷ [], here) (map target ((2 ∷ 7 ∷ [], here, some (ok tt)) ∷ []))
start_returns_example =
    start_returns parts memory plain lawful faithful writes 9 (ok tt) [] (bob ∷ alice ∷ [])
      (λ _. network) 1 alice (tcp_ip_v4 (127 ∷ 0 ∷ 0 ∷ 1 ∷ []) 9735) here
      ((2 ∷ 7 ∷ [], here, some (ok tt)) ∷ []) tip_reached (((λ e. cc e), tt), (tt, tt)) refl refl
      refl (λ _. network_returns) (unfold start shut_down chain_tip monitor_listeners in restarted)

-- The task that processes events has ended before the shutdown.
start-cases_example :
    ((start parts memory plain true ended ([], alice ∷ [])).0 ≡ ends (returned (ok tt))
      × IsSynchronized parts
      × (true ≡ true)
      × ((r : Result String (Unit {0})) × (ended ≡ runs (returned r)))
      × ((start parts memory plain true ended ([], alice ∷ [])).1
          ≡ (save_peers memory plain (alice ∷ []) [], [])))
    ⊎ (((start parts memory plain true ended ([], alice ∷ [])).0 ≢ ends (returned (ok tt)))
        × ((start parts memory plain true ended ([], alice ∷ [])).1 ≡ ([], alice ∷ [])))
start-cases_example = start-cases parts memory plain true ended [] (alice ∷ [])

peers_lost :
    start parts memory plain true ended ([], alice ∷ []) ≡ (ends panicked, ([], alice ∷ []))
unfolding start shut_down chain_tip monitor_listeners
peers_lost = refl

-- A file system of one place, whose contents are whether the socket is there.
abbrev pub taken : IoError
taken = record { kind = other 98; message = "address in use" }

abbrev pub socket : SocketFile
socket = record {
  State = Bool;
  exists = λ u. u;
  bind = λ u. if u then (err taken, u) else (ok tt, true);
  remove_file = λ u. (ok tt, false);
}

pub socket-IsSocketFile : IsSocketFile socket
socket-IsSocketFile = record {
  bind_taken = λ u h. (taken, rw h refl);
  bind_makes = λ u h. ground (arith, h);
  remove_removes = λ u h. refl;
}

abbrev pub fields : ConfigFields
fields = record {
  bitcoind_rpc_host = some "127.0.0.1";
  bitcoind_rpc_port = some 18443;
  bitcoind_username = some "user";
  bitcoind_password = some "password";
  node_path = some "/srv";
  network = none;
  min_channel_value_sat = none;
  default_channel_public = none;
  max_pending_htlcs = none;
}

abbrev pub reads : String → Result String ConfigFields
reads text = ok fields

abbrev pub Runs : Type 1
Runs = Run memory wallet keys ldk

abbrev pub good : Runs
good = record {
  config_text = ok "{}";
  now = morning;
  found = first;
  signal = interrupted;
  background = runs (returned (ok tt));
  store = [];
  parts = λ node. parts;
  peers = λ node. alice ∷ [];
}

abbrev bad : Runs
bad = record good { background = ended }

abbrev pub binary : Runs → Disk → Bool → Exit × (Disk × Bool) × Entries
binary = main memory plain wallet keys directory signer ldk socket reads ldk_default join "/h"

good_exit : (binary good empty false).0 ≡ exited (ok tt)
unfolding main read_config deserialize main_builder new default setup_bitcoind_rpc_client serve
    new_server await_signal shutdown node_task finish start shut_down chain_tip monitor_listeners
    build ensure_path assemble load_routing load_graph load_scorer read_place channels
    create_manager new_wallet mnemonic_of mnemonic_from_file load_or_create manager_of ldk_seed
    get_node_id get
good_exit = refl

bad_exit : (binary bad empty false).0 ≡ exited (err node_task_panicked)
unfolding main read_config deserialize main_builder new default setup_bitcoind_rpc_client serve
    new_server await_signal shutdown node_task finish start shut_down chain_tip monitor_listeners
    build ensure_path assemble load_routing load_graph load_scorer read_place channels
    create_manager new_wallet mnemonic_of mnemonic_from_file load_or_create manager_of ldk_seed
    get_node_id get
bad_exit = refl

main-eq-ok_example :
    (interrupted ≡ interrupted)
    × (false ≡ false)
    × ((binary good empty false).1.1 ≡ false)
    × ((node : Built wallet keys ldk) × Builds memory plain wallet keys directory signer ldk socket
          socket-IsSocketFile reads ldk_default join "/h" good empty node
        × IsSynchronized parts
        × ((binary good empty false).2 ≡ save_peers memory plain (alice ∷ []) []))
main-eq-ok_example =
    main-eq-ok memory plain wallet keys directory signer ldk socket socket-IsSocketFile reads
      ldk_default join "/h" good empty false good_exit

-- The state of the directory and the socket after a failed run and a good one.
abbrev left : Disk × Bool
left =
    main_all memory plain wallet keys directory signer ldk socket socket-IsSocketFile reads
      ldk_default join "/h" (good ∷ []) (binary bad empty false).1.0 (binary bad empty false).1.1

main_blocked_example :
    ((binary good left.0 left.1).0 ≢ waiting)
    × ((binary good left.0 left.1).0 ≢ exited (ok tt))
    × ((binary good left.0 left.1).1.1 ≡ true)
main_blocked_example =
    main_blocked memory plain wallet keys directory signer ldk socket socket-IsSocketFile reads
      ldk_default join "/h" bad good (good ∷ []) empty false bad_exit
