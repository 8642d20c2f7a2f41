-- ===== src/Json/Records.antt =====
-- What serde makes of the records in an answer: `Serialize` of `Payment` in src/storage.rs, and of
-- `ChannelInfo` in src/node.rs, with `serialize_channel_id`. A key and an outpoint are serialised by
-- their own crates.
use ln_node.Prelude.{String, Option, none, some, [], ◌∷◌, map}
use ln_node.Kv.{Bytes}
use ln_node.Json.{Json}
use ln_node.Storage.{
  PublicKey, Payment, PaymentDirection, inbound, outbound, PaymentStatus, pending, succeeded,
  failed,
}
use ln_node.Ldk.{ChannelId}
use ln_node.Node.Channels.{ChannelInfo}

module _ (J : Json) where
  abbrev option_value : {A : Type 0} → (A → J.Value) → Option A → J.Value
  option_value f none = J.null
  option_value f (some a) = f a

  -- serde_bytes' `Bytes`, which serde_json makes a list of numbers.
  abbrev bytes_value : Bytes → J.Value
  bytes_value b = J.array (map J.of_u64 b)

  unfoldable pub direction_value : PaymentDirection → J.Value
  direction_value inbound = J.of_str "Inbound"
  direction_value outbound = J.of_str "Outbound"

  unfoldable pub status_value : PaymentStatus → J.Value
  status_value pending = J.of_str "Pending"
  status_value succeeded = J.of_str "Succeeded"
  status_value failed = J.of_str "Failed"

  unfoldable pub payment_value : Payment → J.Value
  unfolding direction_value status_value
  payment_value p = J.object (
      ("payment_id", bytes_value p.payment_id)
      ∷ ("payment_hash", bytes_value p.payment_hash)
      ∷ ("payment_preimage", option_value bytes_value p.payment_preimage)
      ∷ ("direction", direction_value p.direction)
      ∷ ("amount_msat", option_value J.of_u64 p.amount_msat)
      ∷ ("fee_paid_msat", option_value J.of_u64 p.fee_paid_msat)
      ∷ ("status", status_value p.status)
      ∷ [])

  module _ (hex_encode : Bytes → String) (pubkey_value : PublicKey → J.Value)
      (outpoint_value : Bytes → J.Value) where
    unfoldable pub serialize_channel_id : ChannelId → J.Value
    serialize_channel_id channel_id = J.of_str (hex_encode channel_id)

    unfoldable pub channel_value : ChannelInfo → J.Value
    unfolding serialize_channel_id
    channel_value c = J.object (
        ("channel_id", serialize_channel_id c.channel_id)
        ∷ ("counterparty", pubkey_value c.counterparty)
        ∷ ("funding_txo", option_value outpoint_value c.funding_txo)
        ∷ ("short_channel_id", option_value J.of_u64 c.short_channel_id)
        ∷ ("channel_value_sat", J.of_u64 c.channel_value_sat)
        ∷ ("local_reserve", option_value J.of_u64 c.local_reserve)
        ∷ ("outbound_capacity_sat", J.of_u64 c.outbound_capacity_sat)
        ∷ ("inbound_capacity_sat", J.of_u64 c.inbound_capacity_sat)
        ∷ ("confirmations_required", option_value J.of_u64 c.confirmations_required)
        ∷ ("is_outbound", J.of_bool c.is_outbound)
        ∷ ("is_channel_ready", J.of_bool c.is_channel_ready)
        ∷ ("is_usable", J.of_bool c.is_usable)
        ∷ ("is_announced", J.of_bool c.is_announced)
        ∷ [])
