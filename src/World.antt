-- ===== src/World.antt =====
-- The state that the node's tasks share: the payment store, LDK's channel manager, the bdk wallet
-- and the fee cache, each behind its own lock. The wallet's is poisoned once a task has panicked
-- with it held, as the one that syncs the wallet in src/node.rs and the listener of
-- src/bitcoind_client.rs do; every later `lock().unwrap()` of it panics.
use ln_node.Prelude.{Bool}
use ln_node.Kv.{KvStore}
use ln_node.Ldk.{ChannelManager}
use ln_node.Wallet.{BdkWallet}
use ln_node.Fees.Cache.{FeeCache}

pub record World (S : KvStore) (M : ChannelManager) (B : BdkWallet) : Type 0 where
  pub node_store : S.State
  pub channel_manager : M.State
  pub bdk_wallet : B.State
  pub wallet_poisoned : Bool
  pub fee_cache : FeeCache
