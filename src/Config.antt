-- ===== src/Config.antt =====
-- src/config.rs, the setters of `NodeBuilder` in src/node.rs, and the part of src/bin/lnnode.rs that
-- turns config.json into a builder.
pub mod Builder
use ln_node.Prelude.{ℕ, Bool, true, false, String, Option, none, some, Result, ok, ◌>>=◌, ok_or}

-- bitcoin's `Network`.
pub data Network : Type 0 where
  bitcoin testnet testnet4 signet regtest : Network

-- u64, u16 and `PathBuf` fields are numbers and texts.
pub record Config : Type 0 where
  pub bitcoind_rpc_host : String
  pub bitcoind_rpc_port : ℕ
  pub bitcoind_username : String
  pub bitcoind_password : String
  pub node_path : String
  pub network : Network
  pub min_channel_value_sat : ℕ
  pub default_channel_public : Bool
  pub max_pending_htlcs : ℕ

abbrev pub default_network : Network
default_network = regtest

-- `Config::default`, with the home directory and the `push` of a path given.
unfoldable pub default : (String → String → String) → String → Config
default push home = record {
  bitcoind_rpc_host = "127.0.0.1";
  bitcoind_rpc_port = 18443;
  bitcoind_username = "user";
  bitcoind_password = "password";
  node_path = push home ".lightning-node";
  network = regtest;
  min_channel_value_sat = 100000;
  default_channel_public = true;
  max_pending_htlcs = 50;
}

-- The fields that a JSON text has, as serde finds them.
pub record ConfigFields : Type 0 where
  pub bitcoind_rpc_host : Option String
  pub bitcoind_rpc_port : Option ℕ
  pub bitcoind_username : Option String
  pub bitcoind_password : Option String
  pub node_path : Option String
  pub network : Option Network
  pub min_channel_value_sat : Option ℕ
  pub default_channel_public : Option Bool
  pub max_pending_htlcs : Option ℕ

abbrev unwrap_or : {A : Type 0} → Option A → A → A
unwrap_or none a = a
unwrap_or (some a) _ = a

-- The derived `Deserialize`: the error is the name of the missing field, and a field marked
-- `#[serde(default)]` takes its type's default.
unfoldable pub deserialize : ConfigFields → Result String Config
deserialize fields = do
  host ← ok_or fields.bitcoind_rpc_host "bitcoind_rpc_host"
  port ← ok_or fields.bitcoind_rpc_port "bitcoind_rpc_port"
  username ← ok_or fields.bitcoind_username "bitcoind_username"
  password ← ok_or fields.bitcoind_password "bitcoind_password"
  ok (record {
    bitcoind_rpc_host = host;
    bitcoind_rpc_port = port;
    bitcoind_username = username;
    bitcoind_password = password;
    node_path = unwrap_or fields.node_path "";
    network = unwrap_or fields.network default_network;
    min_channel_value_sat = unwrap_or fields.min_channel_value_sat 0;
    default_channel_public = unwrap_or fields.default_channel_public false;
    max_pending_htlcs = unwrap_or fields.max_pending_htlcs 0;
  })

-- The fields of LDK's `UserConfig` that the builder sets.
pub record UserConfig : Type 0 where
  pub min_funding_satoshis : ℕ
  pub announce_for_forwarding : Bool
  pub negotiate_anchors_zero_fee_htlc_tx : Bool
  pub manually_accept_inbound_channels : Bool
  pub our_max_accepted_htlcs : ℕ
  pub accept_forwards_to_priv_channels : Bool

pub record NodeBuilder : Type 0 where
  pub config : Config
  pub ldk_config : UserConfig

-- `NodeBuilder::new`, over LDK's default configuration.
unfoldable pub new : UserConfig → Config → NodeBuilder
new ldk_default config = record {
  config = config;
  ldk_config = record ldk_default {
    min_funding_satoshis = config.min_channel_value_sat;
    announce_for_forwarding = config.default_channel_public;
    negotiate_anchors_zero_fee_htlc_tx = true;
    manually_accept_inbound_channels = true;
    our_max_accepted_htlcs = config.max_pending_htlcs;
    accept_forwards_to_priv_channels = true;
  };
}

unfoldable pub with_manually_accept_inbound_channels : Bool → NodeBuilder → NodeBuilder
with_manually_accept_inbound_channels manual b = record b {
  ldk_config = record b.ldk_config { manually_accept_inbound_channels = manual };
}

unfoldable pub with_min_channel_value_sat : ℕ → NodeBuilder → NodeBuilder
with_min_channel_value_sat min_value b = record {
  config = record b.config { min_channel_value_sat = min_value };
  ldk_config = record b.ldk_config { min_funding_satoshis = min_value };
}

unfoldable pub with_max_pending_htlcs : ℕ → NodeBuilder → NodeBuilder
with_max_pending_htlcs max_htlcs b = record {
  config = record b.config { max_pending_htlcs = max_htlcs };
  ldk_config = record b.ldk_config { our_max_accepted_htlcs = max_htlcs };
}

unfoldable pub with_default_channel_public : Bool → NodeBuilder → NodeBuilder
with_default_channel_public public b = record {
  config = record b.config { default_channel_public = public };
  ldk_config = record b.ldk_config { announce_for_forwarding = public };
}

unfoldable pub setup_bitcoind_rpc_client : String → ℕ → String → String → NodeBuilder → NodeBuilder
setup_bitcoind_rpc_client rpc_host rpc_port user password b = record b {
  config = record b.config {
    bitcoind_rpc_host = rpc_host;
    bitcoind_rpc_port = rpc_port;
    bitcoind_username = user;
    bitcoind_password = password;
  };
}

-- The builder of `main` in lnnode.rs, from the configuration that config.json deserialises to.
unfoldable pub main_builder :
    UserConfig → (String → String → String) → String → Config → NodeBuilder
unfolding new setup_bitcoind_rpc_client default
main_builder ldk_default push home conf =
    setup_bitcoind_rpc_client conf.bitcoind_rpc_host conf.bitcoind_rpc_port conf.bitcoind_username
      conf.bitcoind_password (new ldk_default (default push home))
