-- ===== src/Config/Builder.antt =====
-- The two configurations of a builder agree, and what the binary takes from config.json.
use ln_node.Prelude.{◌≡◌, refl, ℕ, Bool, true, String, List, [], ◌∷◌, arith}
use ln_node.Config.{
  Config, UserConfig, NodeBuilder, new, with_manually_accept_inbound_channels,
  with_min_channel_value_sat, with_max_pending_htlcs, with_default_channel_public,
  setup_bitcoind_rpc_client, main_builder,
}

-- A call of one of the builder's setters.
pub data Setting : Type 0 where
  manually_accept : Bool → Setting
  min_channel_value : ℕ → Setting
  max_htlcs : ℕ → Setting
  channel_public : Bool → Setting
  bitcoind : String → ℕ → String → String → Setting

unfoldable pub set : Setting → NodeBuilder → NodeBuilder
unfolding with_manually_accept_inbound_channels with_min_channel_value_sat with_max_pending_htlcs
    with_default_channel_public setup_bitcoind_rpc_client
set (manually_accept manual) b = with_manually_accept_inbound_channels manual b
set (min_channel_value n) b = with_min_channel_value_sat n b
set (max_htlcs n) b = with_max_pending_htlcs n b
set (channel_public public) b = with_default_channel_public public b
set (bitcoind host port user password) b = setup_bitcoind_rpc_client host port user password b

unfoldable pub set_all : List Setting → NodeBuilder → NodeBuilder
set_all [] b = b
set_all (s ∷ ss) b = set_all ss (set s b)

-- What LDK enforces is what the node's own configuration says, and anchors are negotiated.
pub record InSync (b : NodeBuilder) : Type 0 where
  pub minimum : b.ldk_config.min_funding_satoshis ≡ b.config.min_channel_value_sat
  pub announced : b.ldk_config.announce_for_forwarding ≡ b.config.default_channel_public
  pub htlcs : b.ldk_config.our_max_accepted_htlcs ≡ b.config.max_pending_htlcs
  pub anchors : b.ldk_config.negotiate_anchors_zero_fee_htlc_tx ≡ true

set-InSync : (s : Setting) (b : NodeBuilder) → InSync b → InSync (set s b)
unfolding set
set-InSync (manually_accept manual) b i = ground arith
set-InSync _ b i = ground arith

set_all-InSync : (ss : List Setting) (b : NodeBuilder) → InSync b → InSync (set_all ss b)
unfolding set_all
set_all-InSync [] b i = i
set_all-InSync (s ∷ ss) b i = set_all-InSync ss (set s b) (set-InSync s b i)

-- A new builder, after any calls of its setters, has LDK's limits in agreement with the node's own
-- configuration, and anchor channels negotiated.
pub new-InSync :
    (ldk_default : UserConfig) (config : Config) (ss : List Setting)
    → InSync (set_all ss (new ldk_default config))
unfolding new
new-InSync ldk_default config ss =
    set_all-InSync ss (new ldk_default config)
      (record { minimum = refl; announced = refl; htlcs = refl; anchors = refl })

-- The binary takes nothing but the access to bitcoind from config.json: two files that agree on
-- that make the same builder, whatever network, node path, channel minimum, publicity and HTLC
-- limit they name.
pub main_builder-bitcoind_only :
    (ldk_default : UserConfig) (push : String → String → String) (home : String) (a b : Config)
    → a.bitcoind_rpc_host ≡ b.bitcoind_rpc_host
    → a.bitcoind_rpc_port ≡ b.bitcoind_rpc_port
    → a.bitcoind_username ≡ b.bitcoind_username
    → a.bitcoind_password ≡ b.bitcoind_password
    → main_builder ldk_default push home a ≡ main_builder ldk_default push home b
unfolding main_builder
main_builder-bitcoind_only ldk_default push home a b host port user password = cc
