-- ===== src/Ldk.antt =====
-- LDK's `ChannelManager` as an interface: the calls that event_handler.rs and node.rs make, each
-- with the state that it leaves. LDK's and bitcoin's identifiers stand by their bytes.
use ln_node.Prelude.{ℕ, Bool, String, Option, List, Result}
use ln_node.Kv.{Bytes}
use ln_node.Storage.{PublicKey, PaymentHash, PaymentId, PaymentPreimage}

abbrev pub ChannelId : Type 0
ChannelId = Bytes

abbrev pub ScriptBuf : Type 0
ScriptBuf = Bytes

abbrev pub Transaction : Type 0
Transaction = Bytes

-- `APIError`, by the variants that the program tells apart.
pub data ApiError : Type 0 where
  api_misuse_error : String → ApiError
  channel_unavailable : String → ApiError
  other_api_error : ApiError

-- The fields of LDK's `ChannelDetails` that the program reads.
pub record ChannelDetails : Type 0 where
  pub channel_id : ChannelId
  pub counterparty : PublicKey
  pub funding_txo : Option Bytes
  pub short_channel_id : Option ℕ
  pub channel_value_satoshis : ℕ
  pub unspendable_punishment_reserve : Option ℕ
  pub outbound_capacity_msat : ℕ
  pub inbound_capacity_msat : ℕ
  pub confirmations_required : Option ℕ
  pub is_outbound : Bool
  pub is_channel_ready : Bool
  pub is_usable : Bool
  pub is_announced : Bool

-- `SignOrCreationError`.
pub data InvoiceError : Type 0 where
  sign_error : InvoiceError
  creation_error : String → InvoiceError

pub record ChannelManager : Type 1 where
  pub State : Type 0
  pub Bolt11Invoice : Type 0
  pub amount_milli_satoshis : Bolt11Invoice → Option ℕ
  pub payment_hash : Bolt11Invoice → PaymentHash
  pub list_channels : State → List ChannelDetails
  pub create_channel : PublicKey → ℕ → ℕ → ℕ → State → Result ApiError ChannelId × State
  pub close_channel : ChannelId → PublicKey → State → Result ApiError (Unit {0}) × State
  pub force_close_broadcasting_latest_txn :
      ChannelId → PublicKey → String → State → Result ApiError (Unit {0}) × State
  pub accept_inbound_channel :
      ChannelId → PublicKey → ℕ → State → Result ApiError (Unit {0}) × State
  pub funding_transaction_generated :
      ChannelId → PublicKey → Transaction → State → Result ApiError (Unit {0}) × State
  pub claim_funds : PaymentPreimage → State → State
  pub fail_htlc_backwards : PaymentHash → State → State
  pub pay_for_bolt11_invoice :
      Bolt11Invoice → PaymentId → Option ℕ → State → Result String (Unit {0}) × State
  pub create_bolt11_invoice : Option ℕ → State → Result InvoiceError Bolt11Invoice × State
