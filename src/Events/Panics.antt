-- ===== src/Events/Panics.antt =====
-- When src/event_handler.rs panics.
use ln_node.Prelude.{Option, ◌≡◌, ℕ, ◌≤◌, Bool, true, none, some, ok}
use ln_node.Kv.{Bytes, KvStore}
use ln_node.Storage.{PublicKey, PaymentId, PaymentHash, PaymentPreimage, Payment}
use ln_node.Storage.Codec.{Formats}
use ln_node.Storage.Store.{get_payment}
use ln_node.Ldk.{ChannelId, ScriptBuf, ChannelManager}
use ln_node.Fees.{maximum_fee_estimate}
use ln_node.Fees.Cache.{get_est_sat_per_1000_weight}
use ln_node.Wallet.{BdkWallet}
use ln_node.World.{World}
use ln_node.Events.{
  Event, funding_generation_ready, open_channel_request, payment_sent, payment_failed,
  payment_path_successful, bump_transaction,
}

module _ (S : KvStore) (F : Formats) (M : ChannelManager) (B : BdkWallet) (info : Bool)
    (bump : Bytes → B.State → Option B.State) (minimum : ℕ) where
  -- The causes of a panic: a field that LDK leaves out or the record does not have, where it is
  -- unwrapped, for the log also; the wallet's lock, poisoned when it is taken; and a fee estimate
  -- that is not there once the balance suffices.
  pub data Panics (w : World S M B) : Event → Type 0 where
    no_payment_id :
        (preimage : PaymentPreimage) (hash : PaymentHash) (fee : Option ℕ)
        → Panics w (payment_sent none preimage hash fee)
    no_amount :
        (id : PaymentId) (preimage : PaymentPreimage) (hash : PaymentHash) (fee : Option ℕ)
        (p : Payment)
        → info ≡ true
        → get_payment S F id w.node_store ≡ ok p
        → p.amount_msat ≡ none
        → Panics w (payment_sent (some id) preimage hash fee)
    no_fee :
        (id : PaymentId) (preimage : PaymentPreimage) (hash : PaymentHash) (p : Payment)
        → info ≡ true
        → get_payment S F id w.node_store ≡ ok p
        → Panics w (payment_sent (some id) preimage hash none)
    no_reason :
        (id : PaymentId) (hash : PaymentHash) (p : Payment)
        → info ≡ true
        → get_payment S F id w.node_store ≡ ok p
        → Panics w (payment_failed id (some hash) none)
    no_hash : (id : PaymentId) → info ≡ true → Panics w (payment_path_successful id none)
    funding_locked :
        (id : ChannelId) (counterparty : PublicKey) (value : ℕ) (script : ScriptBuf)
        → w.wallet_poisoned ≡ true
        → Panics w (funding_generation_ready id counterparty value script)
    no_estimate :
        (id : ChannelId) (counterparty : PublicKey) (value : ℕ) (script : ScriptBuf)
        → value ≤ (B.balance w.bdk_wallet).confirmed
        → get_est_sat_per_1000_weight w.fee_cache maximum_fee_estimate ≡ none
        → Panics w (funding_generation_ready id counterparty value script)
    request_locked :
        (id : ChannelId) (counterparty : PublicKey) (funding : ℕ)
        → w.wallet_poisoned ≡ true
        → Panics w (open_channel_request id counterparty funding true)
    bump_locked :
        (event : Bytes) (s : B.State)
        → bump event w.bdk_wallet ≡ some s
        → w.wallet_poisoned ≡ true
        → Panics w (bump_transaction event)
