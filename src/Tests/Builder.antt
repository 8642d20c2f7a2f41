-- ===== src/Tests/Builder.antt =====
-- The sample node built twice.
use ln_node.Prelude.{
  ◌≡◌, refl, ◌⊎◌, ℕ, true, false, [], ◌∷◌, List, ok, err, string_eq, nat_eq, list_eq, returned, ◌≢◌,
}
use ln_node.Kv.{IoError, not_found}
use ln_node.Kv.Memory.{memory_store as memory, get}
use ln_node.Config.{signet, NodeBuilder, Config}
use ln_node.Fees.Cache.{fallback_fees}
use ln_node.Wallet.Startup.{
  mnemonic_from_file, mnemonic_of, load_or_create, ldk_seed, manager_of, new_wallet,
}
use ln_node.Wallet.Signing.{get_node_id}
use ln_node.Builder.{
  Ldk, completed, Found, Built, Now, read_place, ensure_path, load_graph, load_scorer, load_routing,
  watch_all, create_manager, read_channels, restore_manager, channels, assemble, build,
}
use ln_node.Builder.Restored.{IsRestored, IsFresh}
use ln_node.Builder.Rebuilt.{build-restores, build-manager_missing}
use ln_node.Tests.Samples.{wallet, funds}
use ln_node.Tests.Node.{ldk_default}
use ln_node.Tests.Startup.{keys, directory, signer, empty, begun}

-- A graph counts, monitors are numbers, and a manager is the list of its monitors.
abbrev pub ldk : Ldk
ldk = record {
  NetworkGraph = ℕ;
  Scorer = ℕ;
  Monitor = ℕ;
  ChainMonitor = List ℕ;
  ChannelManager = List ℕ;
  BlockHash = ℕ;
  graph_place = ("", "", "network_graph");
  scorer_place = ("", "", "scorer");
  read_graph = λ d. ok 1;
  new_graph = λ n. 0;
  read_scorer = λ g d. ok g;
  new_scorer = λ g. g;
  new_chain_monitor = [];
  channel_id = λ m. m ∷ [];
  watch_channel = λ id m c. (ok completed, m ∷ c);
  new_manager = λ config network best time. [];
  read_manager = λ config ms d. ok ms;
}

abbrev gone : IoError
gone = record { kind = not_found; message = "no such file" }

-- What a first build finds, and what a later one does.
abbrev pub first : Found memory ldk
first = record {
  path_exists = ok false;
  created = ok tt;
  kv_store = [];
  store_exists = ok false;
  manager = err gone;
  monitors = ok [];
  best_block = returned (ok (7, 100));
}

abbrev later : Found memory ldk
later = record {
  path_exists = ok true;
  created = err gone;
  kv_store = [];
  store_exists = ok true;
  manager = ok (1 ∷ []);
  monitors = ok ((7, 5) ∷ (7, 6) ∷ []);
  best_block = returned (ok (8, 101));
}

-- The store's directory is there, without a manager.
abbrev halfway : Found memory ldk
halfway = record later { manager = err gone; monitors = ok [] }

abbrev config : Config
config = record {
  bitcoind_rpc_host = "127.0.0.1";
  bitcoind_rpc_port = 18443;
  bitcoind_username = "user";
  bitcoind_password = "password";
  node_path = "/srv";
  network = signet;
  min_channel_value_sat = 100000;
  default_channel_public = true;
  max_pending_htlcs = 50;
}

abbrev builder : NodeBuilder
builder = record { config = config; ldk_config = ldk_default }

abbrev pub morning : Now
morning = record { entropy = []; secs = 10; nanos = 11; cur_secs = 12 }

abbrev evening : Now
evening = record { entropy = 3 ∷ []; secs = 20; nanos = 21; cur_secs = 22 }

abbrev built : Built wallet keys ldk
built = record {
  node_id = 1 ∷ [];
  config = config;
  onchain_wallet = record { ldk_keys_manager = (1 ∷ [], 10, 11); bdk_wallet = funds 0 };
  channel_manager = [];
  chain_monitor = [];
  network_graph = 0;
  scorer = 0;
  fee_cache = fallback_fees;
}

abbrev rebuilt : Built wallet keys ldk
rebuilt = record built {
  onchain_wallet = record { ldk_keys_manager = (1 ∷ [], 20, 21); bdk_wallet = funds 0 };
  channel_manager = 5 ∷ 6 ∷ [];
  chain_monitor = 6 ∷ 5 ∷ [];
}

first_build :
    build memory wallet keys directory signer ldk builder morning first empty
    ≡ (returned (ok built), begun)
unfolding build ensure_path assemble load_routing load_graph load_scorer read_place channels
    create_manager new_wallet mnemonic_of mnemonic_from_file load_or_create manager_of ldk_seed
    get_node_id get
first_build = refl

second_build :
    build memory wallet keys directory signer ldk builder evening later begun
    ≡ (returned (ok rebuilt), begun)
unfolding build ensure_path assemble load_routing load_graph load_scorer read_place channels
    restore_manager read_channels watch_all new_wallet mnemonic_of mnemonic_from_file load_or_create
    manager_of ldk_seed get_node_id get
second_build = refl

build-restores_example :
    ((later.store_exists ≡ ok false)
      × IsFresh memory ldk builder 22 later (5 ∷ 6 ∷ []) (6 ∷ 5 ∷ []))
    ⊎ ((later.store_exists ≡ ok true)
        × IsRestored memory ldk builder later (5 ∷ 6 ∷ []) (6 ∷ 5 ∷ []))
build-restores_example =
    build-restores memory wallet keys directory signer ldk builder evening later begun begun rebuilt
      second_build

build-manager_missing_example :
    build memory wallet keys directory signer ldk builder evening halfway begun
    ≢ (returned (ok rebuilt), begun)
build-manager_missing_example =
    build-manager_missing memory wallet keys directory signer ldk builder evening halfway begun
      begun rebuilt gone refl refl
