-- ===== src/Events.antt =====
-- src/event_handler.rs: `LdkEventHandler::handle_event`.
pub mod Payments
pub mod Frame
pub mod Funds
pub mod Panics
use ln_node.Prelude.{
  ℕ, Bool, true, false, ◌&&◌, not, String, Option, none, some, List, Result, ok, err, Outcome,
  returned, panicked, ltb, if◌then◌else◌,
}
use ln_node.Kv.{Bytes, KvStore}
use ln_node.Storage.{PublicKey, PaymentId, PaymentHash, PaymentPreimage, Payment, succeeded, failed}
use ln_node.Storage.Codec.{Formats}
use ln_node.Storage.Store.{get_payment, update_payment}
use ln_node.Ldk.{ChannelId, ScriptBuf, ChannelManager}
use ln_node.Wallet.{BdkWallet, build_transaction}
use ln_node.World.{World}

-- LDK's `PaymentPurpose`, of which one variant is handled.
pub data PaymentPurpose : Type 0 where
  bolt11_invoice_payment : Option PaymentPreimage → PaymentPurpose
  other_purpose : PaymentPurpose

-- LDK's `Event`, with the fields that the handler reads.
pub data Event : Type 0 where
  funding_generation_ready : ChannelId → PublicKey → ℕ → ScriptBuf → Event
  channel_pending : ChannelId → Event
  channel_ready : ChannelId → PublicKey → Event
  open_channel_request : ChannelId → PublicKey → ℕ → Bool → Event
  channel_closed : ChannelId → ℕ → Event
  splice_pending splice_failed funding_transaction_ready_for_signing : Event
  payment_sent : Option PaymentId → PaymentPreimage → PaymentHash → Option ℕ → Event
  payment_claimable : PaymentHash → PaymentPurpose → Event
  payment_claimed : PaymentHash → ℕ → Event
  payment_failed : PaymentId → Option PaymentHash → Option Bytes → Event
  payment_path_failed : Event
  payment_path_successful : PaymentId → Option PaymentHash → Event
  payment_forwarded invoice_received htlc_intercepted htlc_handling_failed : Event
  persist_static_invoice static_invoice_requested spendable_outputs : Event
  bump_transaction : Bytes → Event
  discard_funding funding_tx_broadcast_safe onion_message_intercepted : Event
  onion_message_peer_connected connection_needed probe_failed probe_successful : Event

-- LDK's `ReplayEvent`, which tells LDK to deliver the event again.
pub data ReplayEvent : Type 0 where
  replay_event : ReplayEvent

-- `Option::is_some`.
abbrev pub is_some : {A : Type 0} → Option A → Bool
is_some none = false
is_some (some a) = true

-- `info`: whether the log takes info records, since a record's arguments, with the `unwrap`s among
-- them, are evaluated only then. `bump`: what LDK's `BumpTransactionEventHandler` does
-- with the wallet, `none` where it does not come to use it.
module _ (S : KvStore) (F : Formats) (M : ChannelManager) (B : BdkWallet) (info : Bool)
    (bump : Bytes → B.State → Option B.State) (min_channel_value_sat : ℕ) where
  abbrev pub Handled : Type 0
  Handled = Outcome (Result ReplayEvent (Unit {0}) × World S M B)

  abbrev done : World S M B → Handled
  done w = returned (ok tt, w)

  -- The panic of `unwrap` on an argument of `log::info!`.
  abbrev info_unwraps : Bool → Handled → Handled
  info_unwraps present rest = if info && not present then panicked else rest

  fund_channel : ChannelId → PublicKey → ℕ → ScriptBuf → World S M B → Handled
  fund_channel temporary_channel_id counterparty channel_value output_script w =
      elim (build_transaction B channel_value output_script w.fee_cache w.wallet_poisoned
        w.bdk_wallet) [
          | panicked ↦ panicked
          | returned (err e, wallet) ↦ done (record w { bdk_wallet = wallet })
          | returned (ok funding_tx, wallet) ↦
              let manager =
                (M.funding_transaction_generated temporary_channel_id counterparty funding_tx
                  w.channel_manager).1 in
              done (record w { bdk_wallet = wallet; channel_manager = manager })
        ]

  -- The first `if` of the source, on `min_channel_value_sat`, has an empty body. The wallet is locked
  -- only where the channel has anchors.
  open_channel : ChannelId → PublicKey → ℕ → Bool → World S M B → Handled
  open_channel temporary_channel_id counterparty funding_satoshis anchors w =
      let w' = if ltb funding_satoshis min_channel_value_sat then w else w in
      if anchors && w'.wallet_poisoned
      then panicked
      else let manager =
          if anchors && ltb (B.balance w'.bdk_wallet).confirmed 10000
          then (M.force_close_broadcasting_latest_txn temporary_channel_id counterparty
              "unable to accept new channel" w'.channel_manager).1
          else w'.channel_manager in
        done (record w' {
          channel_manager =
              (M.accept_inbound_channel temporary_channel_id counterparty 0 manager).1;
        })

  -- Here and in `give_up`, the reading of the record and its writing back, each under the store's
  -- lock, are one step.
  settle : PaymentId → PaymentPreimage → Option ℕ → World S M B → Handled
  settle payment_id preimage fee_paid_msat w = elim (get_payment S F payment_id w.node_store) [
    | ok payment ↦ info_unwraps (is_some payment.amount_msat) (
        info_unwraps (is_some fee_paid_msat) (
          done (record w {
            node_store =
                (update_payment S F
                  (record payment {
                    status = succeeded;
                    payment_preimage = some preimage;
                    fee_paid_msat = fee_paid_msat;
                  })
                  w.node_store).1;
          })))
    | err e ↦ done w
  ]

  give_up : PaymentId → Option Bytes → World S M B → Handled
  give_up payment_id reason w = elim (get_payment S F payment_id w.node_store) [
    | ok payment ↦ info_unwraps (is_some reason) (
        done (record w {
          node_store = (update_payment S F (record payment { status = failed }) w.node_store).1;
        }))
    | err e ↦ done w
  ]

  claim : PaymentHash → PaymentPurpose → World S M B → Handled
  claim hash (bolt11_invoice_payment (some preimage)) w =
      done (record w { channel_manager = M.claim_funds preimage w.channel_manager })
  claim hash (bolt11_invoice_payment none) w = done w
  claim hash other_purpose w =
      done (record w { channel_manager = M.fail_htlc_backwards hash w.channel_manager })

  path_successful : Option PaymentHash → World S M B → Handled
  path_successful payment_hash w = info_unwraps (is_some payment_hash) (done w)

  bump_fee : Bytes → World S M B → Handled
  bump_fee event w = elim (bump event w.bdk_wallet) [
    | none ↦ done w
    | some wallet ↦ if w.wallet_poisoned then panicked else done (record w { bdk_wallet = wallet })
  ]

  unfoldable pub handle_event : Event → World S M B → Handled
  unfolding fund_channel open_channel settle give_up claim path_successful bump_fee
  handle_event (funding_generation_ready id counterparty value script) w =
      fund_channel id counterparty value script w
  handle_event (open_channel_request id counterparty funding anchors) w =
      open_channel id counterparty funding anchors w
  handle_event (payment_sent none preimage hash fee) w = panicked
  handle_event (payment_sent (some id) preimage hash fee) w = settle id preimage fee w
  handle_event (payment_claimable hash purpose) w = claim hash purpose w
  handle_event (payment_failed id none reason) w = done w
  handle_event (payment_failed id (some hash) reason) w = give_up id reason w
  handle_event (payment_path_successful id hash) w = path_successful hash w
  handle_event (bump_transaction event) w = bump_fee event w
  handle_event _ w = done w
