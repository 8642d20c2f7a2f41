-- ===== src/Node.antt =====
-- src/node.rs: the operations of `Node` on its shared state.
pub mod Channels
pub mod Payments
pub mod Peers
pub mod Start
pub mod Background
pub mod Inbound
pub mod Lifecycle
pub mod Race
use ln_node.Prelude.{ℕ, String, Option}
use ln_node.Kv.{IoError}
use ln_node.Storage.{PublicKey}
use ln_node.Ldk.{ChannelId}

-- The boxed errors, by their messages.
pub data NodeError : Type 0 where
  not_connected : PublicKey → NodeError
  could_not_open_channel : Option String → NodeError
  channel_does_not_exist : ChannelId → NodeError
  could_not_close_channel : Option String → NodeError
  amount_not_specified : NodeError
  could_not_make_payment : String → NodeError
  could_not_create_invoice : Option String → NodeError
  store_error : IoError → NodeError
