-- ===== src/Fees.antt =====
-- src/bitcoind_client.rs: the fee estimates of `BitcoindRpcClient`, its cache and the task that
-- refreshes it, `get_best_block` and the broadcast of transactions.
pub mod Cache
pub mod Bounds
pub mod Rpc
use ln_node.Prelude.{ℕ, Bool, true, false, List, [], ◌∷◌, Option, Eq}

-- LDK's `ConfirmationTarget`.
pub data ConfirmationTarget : Type 0 where
  maximum_fee_estimate : ConfirmationTarget
  urgent_on_chain_sweep : ConfirmationTarget
  min_allowed_anchor_channel_remote_fee : ConfirmationTarget
  min_allowed_non_anchor_channel_remote_fee : ConfirmationTarget
  anchor_channel_fee : ConfirmationTarget
  non_anchor_channel_fee : ConfirmationTarget
  channel_close_minimum : ConfirmationTarget
  output_spending_fee : ConfirmationTarget

abbrev pub conf_targets : List ConfirmationTarget
conf_targets =
    maximum_fee_estimate ∷ urgent_on_chain_sweep ∷ min_allowed_anchor_channel_remote_fee
    ∷ min_allowed_non_anchor_channel_remote_fee ∷ anchor_channel_fee ∷ non_anchor_channel_fee
    ∷ channel_close_minimum ∷ output_spending_fee ∷ []

-- The derived `==` of the enum.
abbrev pub same_target : ConfirmationTarget → ConfirmationTarget → Bool
same_target maximum_fee_estimate maximum_fee_estimate = true
same_target urgent_on_chain_sweep urgent_on_chain_sweep = true
same_target min_allowed_anchor_channel_remote_fee min_allowed_anchor_channel_remote_fee = true
same_target min_allowed_non_anchor_channel_remote_fee min_allowed_non_anchor_channel_remote_fee =
    true
same_target anchor_channel_fee anchor_channel_fee = true
same_target non_anchor_channel_fee non_anchor_channel_fee = true
same_target channel_close_minimum channel_close_minimum = true
same_target output_spending_fee output_spending_fee = true
same_target _ _ = false

unfoldable pub confirmation_target_to_blocks : ConfirmationTarget → ℕ
confirmation_target_to_blocks maximum_fee_estimate = 1
confirmation_target_to_blocks urgent_on_chain_sweep = 1
confirmation_target_to_blocks output_spending_fee = 6
confirmation_target_to_blocks min_allowed_anchor_channel_remote_fee = 1008
confirmation_target_to_blocks min_allowed_non_anchor_channel_remote_fee = 144
confirmation_target_to_blocks anchor_channel_fee = 1008
confirmation_target_to_blocks non_anchor_channel_fee = 12
confirmation_target_to_blocks channel_close_minimum = 144

unfoldable pub get_fallback_fee : ConfirmationTarget → ℕ
get_fallback_fee maximum_fee_estimate = 10000
get_fallback_fee urgent_on_chain_sweep = 5000
get_fallback_fee output_spending_fee = 4000
get_fallback_fee min_allowed_anchor_channel_remote_fee = 253
get_fallback_fee min_allowed_non_anchor_channel_remote_fee = 1000
get_fallback_fee anchor_channel_fee = 253
get_fallback_fee non_anchor_channel_fee = 3000
get_fallback_fee channel_close_minimum = 1000
